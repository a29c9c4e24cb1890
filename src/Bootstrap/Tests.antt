-- ===== src/Bootstrap/Tests.antt =====
-- Two peers that connect, and one that leaves.
use decentralized_gpu_p2p_ne.Base.{List, [], ◌∷◌, ◌≡◌, refl, length, arith}
use decentralized_gpu_p2p_ne.Bootstrap.{
  Input, event, shutdown, connection_established, connection_closed, behaviour, health_handler,
  run_event_loop,
}
use decentralized_gpu_p2p_ne.Bootstrap.Connections.{open_after, health_lem}

abbrev inputs : List Input
inputs =
    event (connection_established 4)
    ∷ event behaviour
    ∷ event (connection_established 7)
    ∷ event (connection_closed 4)
    ∷ shutdown
    ∷ []

health_lem_example :
    health_handler "12D3" (run_event_loop inputs 0)
    ≡ record { peer_id = "12D3"; connections = length (open_after inputs []) }
health_lem_example = health_lem "12D3" inputs (omega arith, (tt, (omega arith, (refl, tt))))

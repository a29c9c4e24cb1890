-- ===== src/Bootstrap.antt =====
-- crates/decentgpu-bootstrap/src/main.rs: the bootstrap node, as far as it keeps a state of its own: the
-- number of connections that `/health` answers. The events of the behaviours, and every event of the
-- swarm but two, are only logged. The loop ends at the signal to shut down.
pub mod Connections
mod Tests
use decentralized_gpu_p2p_ne.Base.{ℕ, ◌+◌, ◌-◌, ◌%◌, String, List, [], ◌∷◌, if◌then◌else◌}

pub data SwarmEvent : Type 0 where
  new_listen_addr : SwarmEvent
  listener_closed : SwarmEvent
  listener_error : SwarmEvent
  connection_established : (peer_id : ℕ) → SwarmEvent
  connection_closed : (peer_id : ℕ) → SwarmEvent
  incoming_connection : SwarmEvent
  incoming_connection_error : SwarmEvent
  outgoing_connection_error : SwarmEvent
  new_external_addr_candidate : SwarmEvent
  external_addr_confirmed : SwarmEvent
  external_addr_expired : SwarmEvent
  new_external_addr_of_peer : SwarmEvent
  expired_listen_addr : SwarmEvent
  behaviour : SwarmEvent
  unknown : SwarmEvent

-- `AtomicUsize`: `fetch_add` wraps, the subtraction saturates
unfoldable pub handle_swarm_event : SwarmEvent → ℕ → ℕ
handle_swarm_event new_listen_addr connections = connections
handle_swarm_event listener_closed connections = connections
handle_swarm_event listener_error connections = connections
handle_swarm_event (connection_established peer_id) connections =
    (connections + 1) % 18446744073709551616
handle_swarm_event (connection_closed peer_id) connections = connections - 1
handle_swarm_event incoming_connection connections = connections
handle_swarm_event incoming_connection_error connections = connections
handle_swarm_event outgoing_connection_error connections = connections
handle_swarm_event new_external_addr_candidate connections = connections
handle_swarm_event external_addr_confirmed connections = connections
handle_swarm_event external_addr_expired connections = connections
handle_swarm_event new_external_addr_of_peer connections = connections
handle_swarm_event expired_listen_addr connections = connections
handle_swarm_event behaviour connections = connections
handle_swarm_event unknown connections = connections

-- what `select!` takes up
pub data Input : Type 0 where
  event : SwarmEvent → Input
  shutdown : Input

unfoldable pub run_event_loop : List Input → ℕ → ℕ
unfolding handle_swarm_event
run_event_loop [] connections = connections
run_event_loop (event e ∷ rest) connections = run_event_loop rest (handle_swarm_event e connections)
run_event_loop (shutdown ∷ rest) connections = connections

pub record Health : Type 0 where
  pub peer_id : String
  pub connections : ℕ

unfoldable pub health_handler : String → ℕ → Health
health_handler peer_id connections = record { peer_id = peer_id; connections = connections }

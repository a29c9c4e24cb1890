-- ===== src/Bootstrap/Connections.antt =====
-- What the number of connections promises: it is the number of the connections that are open.
use decentralized_gpu_p2p_ne.Base.{
  ℕ, ◌+◌, ◌<◌, String, true, List, [], ◌∷◌, ◌≡◌, refl, ◌==◌, if◌then◌else◌, arith, contains, length,
}
use decentralized_gpu_p2p_ne.Bootstrap.{
  SwarmEvent, connection_established, connection_closed, handle_swarm_event, Input, event, shutdown,
  run_event_loop, health_handler,
}

-- The abstract state: the peers of the open connections, one entry for each connection.
abbrev pub close : ℕ → List ℕ → List ℕ
close p [] = []
close p (q ∷ qs) = let rest = close p qs in if p == q then qs else q ∷ rest

abbrev pub open_after_event : SwarmEvent → List ℕ → List ℕ
open_after_event (connection_established p) open_peers = p ∷ open_peers
open_after_event (connection_closed p) open_peers = close p open_peers
open_after_event _ open_peers = open_peers

abbrev pub open_after : List Input → List ℕ → List ℕ
open_after [] open_peers = open_peers
open_after (event e ∷ rest) open_peers = open_after rest (open_after_event e open_peers)
open_after (shutdown ∷ rest) open_peers = open_peers

-- libp2p closes a connection that is open, and there is room for one more in a `usize`
abbrev pub IsPossible : SwarmEvent → List ℕ → Type 0
IsPossible (connection_established p) open_peers = length open_peers + 1 < 18446744073709551616
IsPossible (connection_closed p) open_peers = contains p open_peers ≡ true
IsPossible _ open_peers = Unit

abbrev pub ArePossible : List Input → List ℕ → Type 0
ArePossible [] open_peers = Unit
ArePossible (event e ∷ rest) open_peers =
    IsPossible e open_peers × ArePossible rest (open_after_event e open_peers)
ArePossible (shutdown ∷ rest) open_peers = Unit

length-close : (p : ℕ) (qs : List ℕ) → contains p qs ≡ true → length (close p qs) + 1 ≡ length qs
length-close p [] h = cc
length-close p (q ∷ qs) h = ground (arith, length-close p qs)

event_lem :
    (e : SwarmEvent) (open_peers : List ℕ)
    → IsPossible e open_peers
    → handle_swarm_event e (length open_peers) ≡ length (open_after_event e open_peers)
unfolding handle_swarm_event
event_lem (connection_established p) qs h = omega arith
event_lem (connection_closed p) qs h = omega (arith, length-close p qs h)
event_lem _ qs h = refl

counted :
    (inputs : List Input) (open_peers : List ℕ)
    → ArePossible inputs open_peers
    → run_event_loop inputs (length open_peers) ≡ length (open_after inputs open_peers)
unfolding run_event_loop
counted [] qs h = refl
counted (event e ∷ rest) qs h = rw (event_lem e qs h.0) (counted rest (open_after_event e qs) h.1)
counted (shutdown ∷ rest) qs h = refl

-- `run_event_loop` from the start refines the set of open connections: after any events in which only
-- open connections close, and fewer than 2 ^ 64 are open at a time, `/health` answers the number of
-- the connections that are open, up to the signal to shut down.
pub health_lem :
    (peer_id : String) (inputs : List Input)
    → ArePossible inputs []
    → health_handler peer_id (run_event_loop inputs 0)
      ≡ record { peer_id = peer_id; connections = length (open_after inputs []) }
unfolding health_handler
health_lem peer_id inputs h = rw (counted inputs [] h) refl

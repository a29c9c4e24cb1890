-- ===== src/P2p/Concern.antt =====
-- What an input of the master's loop means for its search for the bootstrap node, and what a step may do
-- to this search.
use decentralized_gpu_p2p_ne.Base.{
  ℕ, ◌+◌, Bool, true, false, none, some, ◌≡◌, refl, ◌==◌, ◌%◌, if◌then◌else◌,
}
use decentralized_gpu_p2p_ne.P2p.Loop.{
  shutdown, MasterEventLoop, Input, delay_secs, swarm, command, reconnect_fires, shutdown,
  connection_closed, outgoing_connection_error,
}

-- what an input means for the search for the bootstrap node
pub data Concern : Type 0 where
  unconcerned : Concern
  lost : Concern
  retried : Bool → Concern
  ended : Concern

-- Where `b` is the bootstrap node, it is lost when its last connection closes and when a dial to it, or
-- to a peer that is not named, fails.
abbrev pub concern : ℕ → Input → Concern
concern b (swarm (connection_closed p n)) =
    if p == b then (if n == 0 then lost else unconcerned) else unconcerned
concern b (swarm (outgoing_connection_error none)) = lost
concern b (swarm (outgoing_connection_error (some p))) = if p == b then lost else unconcerned
concern b (command none) = ended
concern b (reconnect_fires accepted) = retried accepted
concern b shutdown = ended
concern b _ = unconcerned

-- what the loop keeps of its state where the bootstrap node is not concerned
pub record SameSearch (s t : MasterEventLoop) : Type 0 where
  pub same_peer : t.bootstrap_peer_id ≡ s.bootstrap_peer_id
  pub same_guard : t.reconnecting ≡ s.reconnecting
  pub same_timer : t.reconnect ≡ s.reconnect
  pub same_attempts : t.reconnect_attempts ≡ s.reconnect_attempts
  pub same_stopped : t.stopped ≡ s.stopped

pub same : (s : MasterEventLoop) → SameSearch s s
same s = record {
  same_peer = refl;
  same_guard = refl;
  same_timer = refl;
  same_attempts = refl;
  same_stopped = refl;
}

-- the timer of the next dial is set
pub record Scheduled (now : ℕ) (s t : MasterEventLoop) : Type 0 where
  pub kept_peer : t.bootstrap_peer_id ≡ s.bootstrap_peer_id
  pub free : t.reconnecting ≡ false
  pub timer : t.reconnect ≡ now + delay_secs s.reconnect_attempts
  pub kept_attempts : t.reconnect_attempts ≡ s.reconnect_attempts
  pub kept_stopped : t.stopped ≡ s.stopped

-- the timer has fired: a dial is out already, or one is made, or the swarm refuses it
pub data Retried (now : ℕ) (accepted : Bool) (s t : MasterEventLoop) : Type 0 where
  waits :
      s.reconnecting ≡ true
      → t.bootstrap_peer_id ≡ s.bootstrap_peer_id
      → t.reconnecting ≡ true
      → t.reconnect_attempts ≡ s.reconnect_attempts
      → t.stopped ≡ s.stopped
      → Retried now accepted s t
  dials :
      s.reconnecting ≡ false
      → accepted ≡ true
      → t.bootstrap_peer_id ≡ s.bootstrap_peer_id
      → t.reconnecting ≡ true
      → t.reconnect_attempts ≡ (s.reconnect_attempts + 1) % 4294967296
      → t.stopped ≡ s.stopped
      → Retried now accepted s t
  refused : s.reconnecting ≡ false → accepted ≡ false → Scheduled now s t → Retried now accepted s t

-- the loop ends, and keeps what it knows
pub record Ended (s t : MasterEventLoop) : Type 0 where
  pub last_peer : t.bootstrap_peer_id ≡ s.bootstrap_peer_id
  pub last_guard : t.reconnecting ≡ s.reconnecting
  pub last_timer : t.reconnect ≡ s.reconnect
  pub last_attempts : t.reconnect_attempts ≡ s.reconnect_attempts
  pub stops : t.stopped ≡ true

-- what one input does to the search
abbrev pub Change : ℕ → Concern → MasterEventLoop → MasterEventLoop → Type 0
Change now unconcerned s t = SameSearch s t
Change now lost s t = Scheduled now s t
Change now (retried accepted) s t = Retried now accepted s t
Change now ended s t = Ended s t

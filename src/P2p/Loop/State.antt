-- ===== src/P2p/Loop/State.antt =====
-- crates/decentgpu-master/src/p2p/handler.rs: the state of `MasterEventLoop`, and its constants.
use decentralized_gpu_p2p_ne.P2p.Loop.Events.{Action}
use decentralized_gpu_p2p_ne.Base.{ℕ, ◌+◌, Bool, false, Option, none, List, [], ◌∷◌}

abbrev pub rendezvous_ttl : ℕ
rendezvous_ttl = 7200

abbrev pub reconnect_delay : ℕ
reconnect_delay = 10

abbrev pub far_future_secs : ℕ
far_future_secs = 315360000

pub record MasterEventLoop : Type 0 where
  pub bootstrap_addr : ℕ
  pub bootstrap_peer_id : Option ℕ
  pub reconnect_attempts : ℕ  -- u32
  pub reconnecting : Bool  -- `RECONNECTING`, a static
  pub reregister : ℕ  -- when the timer fires
  pub reconnect : ℕ  -- when the timer fires
  pub stopped : Bool
  pub actions : List Action

-- `new`, and the timers at the start of `run`
unfoldable pub new_loop : ℕ → ℕ → MasterEventLoop
new_loop now bootstrap_addr = record {
  bootstrap_addr = bootstrap_addr;
  bootstrap_peer_id = none;
  reconnect_attempts = 0;
  reconnecting = false;
  reregister = now + far_future_secs;
  reconnect = now + far_future_secs;
  stopped = false;
  actions = [];
}

abbrev pub act : Action → MasterEventLoop → MasterEventLoop
act a s = record s { actions = a ∷ s.actions }

-- ===== src/WorkerNode/State.antt =====
-- crates/decentgpu-worker/src/p2p/handler.rs: the state of `WorkerEventLoop`.
use decentralized_gpu_p2p_ne.WorkerNode.Events.{Action}
use decentralized_gpu_p2p_ne.Base.{ℕ, ◌+◌, String, Bool, false, Option, none, List, [], ◌∷◌}
use decentralized_gpu_p2p_ne.Types.Capabilities.{WorkerCapabilities}
use decentralized_gpu_p2p_ne.P2p.Loop.{far_future_secs}

pub record WorkerEventLoop : Type 0 where
  pub local_peer_id : ℕ
  pub bootstrap_addr : ℕ
  pub bootstrap_peer_id : Option ℕ
  pub capabilities : WorkerCapabilities
  pub started_at : ℕ
  pub auth_token : Option String
  pub registration_attempted : Bool
  pub master_addr : Option String
  pub master_peer_id : Option ℕ
  pub reregister : ℕ  -- when the timer fires
  pub reconnect : ℕ  -- when the timer fires
  pub stopped : Bool
  pub actions : List Action

-- `new`, and the timers at the start of `run`
unfoldable pub new_loop :
    ℕ → ℕ → ℕ → WorkerCapabilities → Option String → Option String → WorkerEventLoop
new_loop now local_peer_id bootstrap_addr capabilities auth_token master_addr = record {
  local_peer_id = local_peer_id;
  bootstrap_addr = bootstrap_addr;
  bootstrap_peer_id = none;
  capabilities = capabilities;
  started_at = now;
  auth_token = auth_token;
  registration_attempted = false;
  master_addr = master_addr;
  master_peer_id = none;
  reregister = now + far_future_secs;
  reconnect = now + far_future_secs;
  stopped = false;
  actions = [];
}

abbrev pub act : Action → WorkerEventLoop → WorkerEventLoop
act a s = record s { actions = a ∷ s.actions }

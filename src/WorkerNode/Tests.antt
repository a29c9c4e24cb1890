-- ===== src/WorkerNode/Tests.antt =====
-- A worker that finds the bootstrap node and the master, loses the master and finds it again.
use decentralized_gpu_p2p_ne.Base.{ℕ, List, [], ◌∷◌, ◌≤◌, ◌+◌, none, some, if◌then◌else◌}
use decentralized_gpu_p2p_ne.Float.Fixed.{fixed}
use decentralized_gpu_p2p_ne.Types.GpuBackend.{metal}
use decentralized_gpu_p2p_ne.Types.Capabilities.{WorkerCapabilities}
use decentralized_gpu_p2p_ne.WorkerNode.{
  WorkerEventLoop, new_loop, Input, swarm, heartbeat_tick, identify_received, connection_closed,
  run,
}
use decentralized_gpu_p2p_ne.WorkerNode.Budget.{register_count}
use decentralized_gpu_p2p_ne.WorkerNode.Once.{losses, registers_once}

abbrev capabilities : WorkerCapabilities
capabilities = record {
  gpus = record { name = "M2"; vram_mb = 8000; backend = metal } ∷ [];
  cpu = record { model = "cpu"; cores = 4; threads = 8; freq_mhz = 3000 };
  ram_mb = 16000;
  disk_mb = 500000;
  os = "macos";
  worker_version = "0.1.0";
}

abbrev inputs : List (ℕ × Input)
inputs =
    (1, swarm (identify_received 4 "bootstrap/1" 90 []))
    ∷ (2, swarm (identify_received 6 "master/1" 90 []))
    ∷ (30, heartbeat_tick)
    ∷ (40, swarm (connection_closed 6))
    ∷ (50, swarm (identify_received 6 "master/1" 90 []))
    ∷ []

start : WorkerEventLoop
start = new_loop 0 7 80 capabilities (some "token") none

registers_once_example :
    register_count (run (λ s. some s) fixed inputs start).actions
    ≤ register_count start.actions
      + (if start.registration_attempted then 0 else 1)
      + losses start.bootstrap_peer_id inputs
registers_once_example = registers_once (λ s. some s) fixed inputs start

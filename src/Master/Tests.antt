-- ===== src/Master/Tests.antt =====
-- A worker that joins, and three notices about it.
use decentralized_gpu_p2p_ne.P2p.Linked.{IsRefused}
use decentralized_gpu_p2p_ne.Float.Fixed.{fixed}
use decentralized_gpu_p2p_ne.Auth.Sample.{sample}
use decentralized_gpu_p2p_ne.Db.Example.{tables_of, example_user}
use decentralized_gpu_p2p_ne.Master.{record_events}
use decentralized_gpu_p2p_ne.P2p.Registration.{register_worker_task}
use decentralized_gpu_p2p_ne.Scheduler.{Env, JobScheduler}
use decentralized_gpu_p2p_ne.Db.{Db, Tables, WorkerRow}
use decentralized_gpu_p2p_ne.Types.Capabilities.{WorkerCapabilities}
use decentralized_gpu_p2p_ne.WorkerNode.{WorkerEventLoop, try_register_with_master, send_register}
use decentralized_gpu_p2p_ne.Base.{ℕ, List, [], ◌∷◌, none, some, true, ◌≡◌, refl, ◌⊎◌}
use decentralized_gpu_p2p_ne.Base.Int.{pos}
use decentralized_gpu_p2p_ne.Types.GpuBackend.{metal}
use decentralized_gpu_p2p_ne.P2p.Loop.{
  WorkerEvent, online, offline, heartbeat_of, MasterEventLoop, handle_registration,
}
use decentralized_gpu_p2p_ne.P2p.Loop
use decentralized_gpu_p2p_ne.WorkerNode
use decentralized_gpu_p2p_ne.Master.Joined.{IsJoined, joined_lem, request_of_worker}
use decentralized_gpu_p2p_ne.Master.Updater.{IsShown, last_word, updater_lem}

abbrev capabilities : WorkerCapabilities
capabilities = record {
  gpus = record { name = "M2"; vram_mb = 8000; backend = metal } ∷ [];
  cpu = record { model = "cpu"; cores = 4; threads = 8; freq_mhz = 3000 };
  ram_mb = 16000;
  disk_mb = 500000;
  os = "macos";
  worker_version = "0.1.0";
}

abbrev worker : WorkerEventLoop
worker = WorkerNode.new_loop 0 7 80 capabilities (some "token") none

abbrev db : Db
db = record { tables = tables_of (example_user 1 ∷ []); faults = [] }

abbrev master : MasterEventLoop
master = Loop.new_loop 0 900

abbrev env : Env
env = record { now = 20; read_file = λ job name. none }

abbrev scheduler : JobScheduler
scheduler = record { db = db; sent = []; online = []; pending = [] }

joined_lem_example :
    let request = request_of_worker "token" worker in
    let (r, db') = register_worker_task sample fixed 30 1000 (some []) true 7 request 2 db in
    let m' = handle_registration r master in
    ((try_register_with_master 6 worker).actions ≡ send_register 6 request ∷ [])
    × (IsRefused sample fixed 30 1000 7 (some []) request 2 r db.tables db'.tables master m'
        ⊎ IsJoined fixed env 7 2 worker r db'.tables master m' scheduler)
unfolding WorkerNode.new_loop
joined_lem_example =
    joined_lem fixed env sample 30 1000 7 (some []) "token" worker 6 2 true db master scheduler refl
      refl

abbrev row : WorkerRow
row = record {
  peer_id = 7;
  user_id = 1;
  capabilities = capabilities;
  uptime_score = fixed.of_i64 (pos 100);
  jobs_completed = pos 0;
  is_online = true;
  last_seen = none;
  registered_at = 3;
}

abbrev tables : Tables
tables = record (tables_of (example_user 1 ∷ [])) { workers = row ∷ [] }

abbrev events : List (ℕ × WorkerEvent)
events = (40, heartbeat_of 7 (fixed.of_i64 (pos 1)) true 0) ∷ (50, offline 7) ∷ (60, offline 8) ∷ []

updater_lem_example :
    IsShown 7
      (last_word 7 events row.is_online)
      (record_events events (record { tables = tables; faults = [] })).tables
updater_lem_example = updater_lem 7 events tables row refl

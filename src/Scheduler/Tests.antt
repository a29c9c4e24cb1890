-- ===== src/Scheduler/Tests.antt =====
-- The scheduler with one worker and one job, and its theorems at that state.
use decentralized_gpu_p2p_ne.Db.Example.{example_user}
use decentralized_gpu_p2p_ne.Base.{
  none, some, List, [], ◌∷◌, ◌≡◌, ◌⊎◌, refl, true, false, arith, lookup,
}
use decentralized_gpu_p2p_ne.Base.Int.{pos}
use decentralized_gpu_p2p_ne.Float.Fixed.{fixed}
use decentralized_gpu_p2p_ne.Types.GpuBackend.{cuda}
use decentralized_gpu_p2p_ne.Types.Capabilities.{WorkerCapabilities}
use decentralized_gpu_p2p_ne.Db.{JobRow, Tables, ◌>>=◌, statement, pure}
use decentralized_gpu_p2p_ne.Jobs.{new_job, transition_status, find_by_id}
use decentralized_gpu_p2p_ne.Matcher.{select_workers}
use decentralized_gpu_p2p_ne.Jobs.Dated.{IsDated}
use decentralized_gpu_p2p_ne.Matcher.{MatchRequest, WorkerCandidate}
use decentralized_gpu_p2p_ne.Scheduler.{
  Env, JobScheduler, Message, enqueue, worker_offline, heartbeat, retry_tick, try_assign_one,
  handle_worker_offline, run,
}
use decentralized_gpu_p2p_ne.Scheduler.Online.{IsConsistent}
use decentralized_gpu_p2p_ne.Scheduler.Messages.{sends_once}
use decentralized_gpu_p2p_ne.Scheduler.Known.{run_lem, all_say}
use decentralized_gpu_p2p_ne.Scheduler.Offline.{Untouched, offline_lem}

abbrev job : JobRow
job = new_job 10 5 1 "cuda" (some (pos 4000)) none none

abbrev capabilities : WorkerCapabilities
capabilities = record {
  gpus = record { name = "gpu"; vram_mb = 8000; backend = cuda } ∷ [];
  cpu = record { model = "cpu"; cores = 4; threads = 8; freq_mhz = 3000 };
  ram_mb = 16000;
  disk_mb = 500000;
  os = "linux";
  worker_version = "0.1.0";
}

abbrev worker : WorkerCandidate
worker = record {
  peer_id = 7;
  capabilities = capabilities;
  uptime_score = fixed.of_i64 (pos 100);
  jobs_completed = 0;
  is_busy = false;
}

abbrev tables : Tables
tables = record {
  users = example_user 1 ∷ [];
  balances = [];
  transactions = [];
  jobs = job ∷ [];
  job_logs = [];
  job_files = [];
  workers =
      record {
        peer_id = 7;
        user_id = 1;
        capabilities = capabilities;
        uptime_score = fixed.of_i64 (pos 100);
        jobs_completed = pos 0;
        is_online = true;
        last_seen = none;
        registered_at = 3;
      }
      ∷ [];
  worker_sessions = [];
}

abbrev scheduler : JobScheduler
scheduler = record {
  db = record { tables = tables; faults = [] };
  sent = [];
  online = (7, worker) ∷ [];
  pending = (5, []) ∷ [];
}

abbrev env : Env
env = record { now = 20; read_file = λ job name. none }

abbrev request : MatchRequest
request = record { required_backend = cuda; memory_limit_mb = 4000; max_duration_secs = 3600 }

-- The job goes to the worker, which is recorded as tried.
tried_now : (try_assign_one fixed env 5 request scheduler).pending ≡ (5, 7 ∷ []) ∷ []
unfolding try_assign_one select_workers transition_status ◌>>=◌ statement pure find_by_id
tried_now = refl

job-IsDated : IsDated job
job-IsDated = record { when_assigned = λ q. cc; when_running = λ q. cc; when_over = λ q. cc }

scheduler-IsConsistent : IsConsistent scheduler
scheduler-IsConsistent = record {
  own = (refl, tt);
  timely = record { keyed = (refl, tt); dated = (job-IsDated, tt) };
}

sends_once_example :
    let s1 = try_assign_one fixed env 5 request scheduler in
    let s2 = try_assign_one fixed env 5 request s1 in
    (s1.sent ≡ scheduler.sent) ⊎ (s2.sent ≡ s1.sent)
sends_once_example = sends_once fixed env env 5 request request scheduler scheduler-IsConsistent

abbrev turns : List (Env × Message)
turns =
    (env, enqueue 5 request)
    ∷ (env, heartbeat 8 (fixed.of_i64 (pos 90)) false 3)
    ∷ (env, worker_offline 7)
    ∷ (env, retry_tick)
    ∷ []

run_lem_example :
    lookup 7 (run fixed turns scheduler).online ≡ all_say fixed 7 turns (lookup 7 scheduler.online)
run_lem_example = run_lem fixed turns scheduler 7

offline_lem_example : Untouched scheduler (handle_worker_offline env 7 scheduler)
offline_lem_example = offline_lem env 7 scheduler ((λ e. absurd (omega arith)), tt)

-- ===== src/Workers/Tests.antt =====
-- The repository of workers at concrete tables.
use decentralized_gpu_p2p_ne.P2p.Registration.{backend_str}
use decentralized_gpu_p2p_ne.Types.GpuBackend.{GpuBackend}
use decentralized_gpu_p2p_ne.Workers.Calls.{
  Call, upserts, counts, marks_offline, switches, standing_of, perform_all, tell_all,
}
use decentralized_gpu_p2p_ne.Workers.Standing.{standing_lem}
use decentralized_gpu_p2p_ne.Workers.Filtered.{Runs, PageFound, NoneFound, list_with_filters_lem}
use decentralized_gpu_p2p_ne.Workers.Filters.{
  IsJson, JsonText, all_plain, has_backend, list_with_filters,
}
use decentralized_gpu_p2p_ne.Db.Example.{example_user}
use decentralized_gpu_p2p_ne.Base.{some, if◌then◌else◌, [], ◌∷◌, none, refl, true, List, ◌≡◌, Bool}
use decentralized_gpu_p2p_ne.Base.Int.{pos}
use decentralized_gpu_p2p_ne.Float.Fixed.{fixed}
use decentralized_gpu_p2p_ne.Types.Capabilities.{WorkerCapabilities}
use decentralized_gpu_p2p_ne.Db.{Tables, WorkerRow}

abbrev capabilities : WorkerCapabilities
capabilities = record {
  gpus = [];
  cpu = record { model = "cpu"; cores = 4; threads = 8; freq_mhz = 3000 };
  ram_mb = 16000;
  disk_mb = 500000;
  os = "linux";
  worker_version = "0.1.0";
}

abbrev worker : WorkerRow
worker = record {
  peer_id = 7;
  user_id = 1;
  capabilities = capabilities;
  uptime_score = fixed.of_i64 (pos 100);
  jobs_completed = pos 0;
  is_online = true;
  last_seen = none;
  registered_at = 3;
}

abbrev tables : Tables
tables = record {
  users = example_user 1 ∷ [];
  balances = [];
  transactions = [];
  jobs = [];
  job_logs = [];
  job_files = [];
  workers = worker ∷ [];
  worker_sessions = [];
}

-- a value of `JsonText` that reads plain literals alone
abbrev plain_json : JsonText
plain_json = record {
  where_backend = λ cap. if all_plain cap then some (has_backend cap) else none;
}

plain_json-IsJson : IsJson plain_json
plain_json-IsJson = record { plain = λ cap h. rw h refl }

list_with_filters_lem_example :
    Runs
      (PageFound (some (pos 4000)) true (pos 20) tables)
      (list_with_filters fixed plain_json none (some (pos 4000)) true (pos 20) (pos 0))
      tables
    × ((b : GpuBackend)
        → Runs
            (NoneFound (some (pos 4000)) true (pos 20) tables)
            (list_with_filters fixed plain_json
              (some (backend_str b))
              (some (pos 4000))
              true
              (pos 20)
              (pos 0))
            tables)
list_with_filters_lem_example =
    list_with_filters_lem fixed plain_json (some (pos 4000)) true (pos 20) (pos 0) tables
      plain_json-IsJson

-- worker 8 registers for user 1, completes a job, and is marked offline; one statement fails
abbrev calls : List (List Bool × Call)
calls =
    ([], upserts 9 8 1 capabilities)
    ∷ ([], counts 8)
    ∷ ([], marks_offline)
    ∷ (true ∷ [], switches 11 8 true)
    ∷ ([], upserts 12 7 1 capabilities)
    ∷ []

standing_lem_example :
    standing_of 8 (perform_all fixed calls tables)
    ≡ tell_all fixed 8 calls tables (standing_of 8 tables)
standing_lem_example = standing_lem fixed 8 calls tables

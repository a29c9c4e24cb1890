-- ===== src/Scheduler.antt =====
-- crates/decentgpu-master/src/scheduler/mod.rs: `JobScheduler` as a state, and each of its methods as
-- a function of the state. `f` stands for the machine's `f64` arithmetic; `env` for the clock and the
-- storage directory.
pub mod Wire
pub mod Assign
pub mod Online
pub mod Kept
pub mod Known
pub mod Messages
pub mod Offline
mod Tests
use decentralized_gpu_p2p_ne.Base.{
  ℕ, String, Bool, true, false, not, Option, none, some, List, [], ◌∷◌, ◌++◌, ◌-◌, ◌/◌, ltb, ◌==◌,
  if◌then◌else◌, unwrap_or, head?, filter, contains, lookup, insert, remove, keys, values, ◌&&◌,
  ◌||◌,
}
use decentralized_gpu_p2p_ne.Base.Int.{ℤ, pos}
use decentralized_gpu_p2p_ne.Error.{Result, ok, err, not_found}
use decentralized_gpu_p2p_ne.Float.{F64, F64Ops}
use decentralized_gpu_p2p_ne.Types.GpuBackend
use decentralized_gpu_p2p_ne.Types.GpuBackend.{GpuBackend, ok_or_cpu_only}
use decentralized_gpu_p2p_ne.Types.JobStatus.{
  JobStatus, pending, assigned, running, failed, status_eq,
}
use decentralized_gpu_p2p_ne.Types.Capabilities.{WorkerCapabilities}
use decentralized_gpu_p2p_ne.Db.{JobRow, Db, Query, ◌>>=◌, pure, fail}
use decentralized_gpu_p2p_ne.Jobs.{find_by_id, transition_status, list_by_hirer}
use decentralized_gpu_p2p_ne.Matcher.{WorkerCandidate, MatchRequest, select_workers}
use Wire.{
  Bytes, JobSpec, JobAssignment, ProtoCapabilities, proto_caps_to_common, backend_number, cast_u64,
  no_capabilities,
}

pub record Env : Type 0 where
  pub now : ℕ  -- in microseconds
  pub read_file : ℕ → String → Option Bytes  -- of a job's directory

-- what is sent to the P2P layer
pub data JobCommand : Type 0 where
  assign : (peer_id : ℕ) (job : JobAssignment) → JobCommand
  cancel : (peer_id job_id : ℕ) → JobCommand

pub record JobScheduler : Type 0 where
  pub db : Db
  pub sent : List JobCommand  -- `p2p_cmd_tx`, the newest first
  pub online : List (ℕ × WorkerCandidate)
  pub pending : List (ℕ × List ℕ)  -- the workers already tried

-- the messages that `run` receives
pub data Message : Type 0 where
  enqueue : (job_id : ℕ) (request : MatchRequest) → Message
  worker_online : (peer_id : ℕ) (capabilities : ProtoCapabilities) → Message
  worker_offline : (peer_id : ℕ) → Message
  heartbeat : (peer_id : ℕ) (uptime : F64) (is_busy : Bool) (jobs_completed : ℕ) → Message
  retry_tick : Message
  closed : Message

-- `build_job_assignment` after the row is read
abbrev pub assignment_of : Env → ℕ → ℕ → JobRow → JobAssignment
assignment_of env job_id peer_id row = record {
  spec = record {
    job_id = job_id;
    hirer_id = row.hirer_id;
    max_duration_secs = cast_u64 (unwrap_or row.max_duration_secs (pos 3600));
    memory_limit_mb = cast_u64 (unwrap_or row.memory_limit_mb (pos 512));
    cpu_limit_percent = 50;
    required_backend = backend_number row.gpu_backend;
    image_hash = "";
    image_size_bytes = 0;
    code_bytes = unwrap_or (env.read_file job_id "code.py") [];
    requirements_bytes = unwrap_or (env.read_file job_id "requirements.txt") [];
  };
  master_peer_id = peer_id;
}

-- an error for a missing row
abbrev or_missing : Env → ℕ → ℕ → Option JobRow → Query JobAssignment
or_missing env job_id peer_id none = fail not_found
or_missing env job_id peer_id (some row) = pure (assignment_of env job_id peer_id row)

unfoldable pub build_job_assignment : Env → ℕ → ℕ → Query JobAssignment
build_job_assignment env job_id peer_id = do
  row ← find_by_id job_id
  or_missing env job_id peer_id row

-- the `MatchRequest` of a row
abbrev pub request_of : JobRow → MatchRequest
request_of row = record {
  required_backend = ok_or_cpu_only (GpuBackend.from_str row.gpu_backend);
  memory_limit_mb = cast_u64 (unwrap_or row.memory_limit_mb (pos 512));
  max_duration_secs = cast_u64 (unwrap_or row.max_duration_secs (pos 3600));
}

-- `p2p_cmd_tx.send(..)`, and the worker is recorded as tried; an assignment that could not be built
-- ends the attempt
abbrev pub send_assignment : ℕ → ℕ → Result JobAssignment × Db → JobScheduler → JobScheduler
send_assignment job_id peer_id (err e, db) s = record s { db = db }
send_assignment job_id peer_id (ok job, db) s = record s {
  db = db;
  sent = assign peer_id job ∷ s.sent;
  pending = insert job_id (unwrap_or (lookup job_id s.pending) [] ++ (peer_id ∷ [])) s.pending;
}

-- after the transition to `assigned`
abbrev pub after_transition : Env → ℕ → ℕ → Result JobRow × Db → JobScheduler → JobScheduler
after_transition env job_id peer_id (err e, db) s = record s { db = db }
after_transition env job_id peer_id (ok row, db) s =
    send_assignment job_id peer_id (build_job_assignment env job_id peer_id db) s

abbrev pub assign_to : Env → ℕ → Option ℕ → JobScheduler → JobScheduler
assign_to env job_id none s = s
assign_to env job_id (some peer_id) s =
    after_transition env job_id peer_id
      (transition_status env.now job_id pending assigned (some peer_id) none none s.db) s

-- the workers online that the job has not been sent to
abbrev pub untried : ℕ → JobScheduler → List WorkerCandidate
untried job_id s =
    let tried = unwrap_or (lookup job_id s.pending) [] in
    filter (λ w. not (contains w.peer_id tried)) (values s.online)

unfoldable pub try_assign_one : F64Ops → Env → ℕ → MatchRequest → JobScheduler → JobScheduler
unfolding build_job_assignment
try_assign_one f env job_id request s =
    assign_to env job_id (head? (select_workers f (untried job_id s) request)) s

-- the body of the loop of `try_assign_pending`, after `find_by_id`
abbrev pub assign_found :
    F64Ops → Env → ℕ → Result (Option JobRow) × Db → JobScheduler → JobScheduler
assign_found f env job_id (ok (some row), db) s =
    let s' : JobScheduler = record s { db = db } in
    if status_eq row.status pending
    then try_assign_one f env job_id (request_of row) s'
    else record s' { pending = remove job_id s'.pending }
assign_found f env job_id (ok none, db) s = record s { db = db }
assign_found f env job_id (err e, db) s = record s { db = db }

abbrev pub assign_each : F64Ops → Env → List ℕ → JobScheduler → JobScheduler
assign_each f env [] s = s
assign_each f env (job_id ∷ job_ids) s =
    assign_each f env job_ids (assign_found f env job_id (find_by_id job_id s.db) s)

unfoldable pub try_assign_pending : F64Ops → Env → JobScheduler → JobScheduler
unfolding try_assign_one
try_assign_pending f env s = assign_each f env (keys s.pending) s

-- the body of the loop of `retry_stale_pending`, after `find_by_id`
abbrev pub retry_found :
    F64Ops → Env → ℕ → Result (Option JobRow) × Db → JobScheduler → JobScheduler
retry_found f env job_id (ok (some row), db) s =
    let s' : JobScheduler = record s { db = db } in
    if status_eq row.status pending
    then if ltb 30 ((env.now - row.created_at) / 1000000)
      then try_assign_one f env job_id (request_of row) s'
      else s'
    else record s' { pending = remove job_id s'.pending }
retry_found f env job_id (ok none, db) s = record s { db = db; pending = remove job_id s.pending }
retry_found f env job_id (err e, db) s = record s { db = db; pending = remove job_id s.pending }

abbrev pub retry_each : F64Ops → Env → List ℕ → JobScheduler → JobScheduler
retry_each f env [] s = s
retry_each f env (job_id ∷ job_ids) s =
    retry_each f env job_ids (retry_found f env job_id (find_by_id job_id s.db) s)

unfoldable pub retry_stale_pending : F64Ops → Env → JobScheduler → JobScheduler
unfolding try_assign_one
retry_stale_pending f env s = retry_each f env (keys s.pending) s

-- `row.worker_peer_id == Some(peer_id) && matches!(row.status, "assigned" | "running")`
abbrev pub lost_with : ℕ → JobRow → Bool
lost_with peer_id row =
    (elim row.worker_peer_id [ none ↦ false | some p ↦ p == peer_id ])
    && (status_eq row.status assigned || status_eq row.status running)

-- the job is failed, enqueued again, and set back to `pending`
abbrev pub requeue : Env → ℕ → JobRow → JobScheduler → JobScheduler
requeue env peer_id row s =
    let (_, failed_db) =
      transition_status env.now row.id row.status failed none (some "worker went offline") none
        s.db in
    let (_, pending_db) =
      transition_status env.now row.id failed pending none none none failed_db in
    record s { db = pending_db; pending = insert row.id (peer_id ∷ []) s.pending }

abbrev pub requeue_each : Env → ℕ → List JobRow → JobScheduler → JobScheduler
requeue_each env peer_id [] s = s
requeue_each env peer_id (row ∷ rows) s =
    requeue_each env peer_id rows (if lost_with peer_id row then requeue env peer_id row s else s)

abbrev pub requeue_listed : Env → ℕ → Result (List JobRow) × Db → JobScheduler → JobScheduler
requeue_listed env peer_id (ok rows, db) s = requeue_each env peer_id rows (record s { db = db })
requeue_listed env peer_id (err e, db) s = record s { db = db }

-- `Uuid::nil()`
abbrev pub nil_uuid : ℕ
nil_uuid = 0

unfoldable pub handle_worker_offline : Env → ℕ → JobScheduler → JobScheduler
handle_worker_offline env peer_id s =
    requeue_listed env peer_id (list_by_hirer nil_uuid (pos 1000) (pos 0) s.db) s

-- the two branches of `Heartbeat`
abbrev pub heartbeat_of :
    F64Ops → Env → ℕ → F64 → Bool → ℕ → Option WorkerCandidate → JobScheduler → JobScheduler
heartbeat_of f env peer_id uptime busy jobs (some w) s = record s {
  online =
      insert peer_id (record w { uptime_score = uptime; is_busy = busy; jobs_completed = jobs })
        s.online;
}
heartbeat_of f env peer_id uptime busy jobs none s =
    let s' : JobScheduler = record s {
      online =
          insert peer_id
            (record {
              peer_id = peer_id;
              capabilities = no_capabilities;
              uptime_score = uptime;
              jobs_completed = jobs;
              is_busy = busy;
            })
            s.online;
    } in
    if busy then s' else try_assign_pending f env s'

-- one turn of the loop of `run`
unfoldable pub handle : F64Ops → Env → Message → JobScheduler → JobScheduler
unfolding try_assign_one try_assign_pending retry_stale_pending handle_worker_offline
handle f env (enqueue job_id request) s =
    try_assign_one f env job_id request (record s { pending = insert job_id [] s.pending })
handle f env (worker_online peer_id capabilities) s = try_assign_pending f env (record s {
  online =
      insert peer_id
        (record {
          peer_id = peer_id;
          capabilities = proto_caps_to_common capabilities;
          uptime_score = f.of_i64 (pos 100);
          jobs_completed = 0;
          is_busy = false;
        })
        s.online;
})
handle f env (worker_offline peer_id) s =
    handle_worker_offline env peer_id (record s { online = remove peer_id s.online })
handle f env (heartbeat peer_id uptime busy jobs) s =
    heartbeat_of f env peer_id uptime busy jobs (lookup peer_id s.online) s
handle f env retry_tick s = retry_stale_pending f env s
handle f env closed s = s

-- `run`: until the worker events end; each turn finds its own clock and storage
unfoldable pub run : F64Ops → List (Env × Message) → JobScheduler → JobScheduler
unfolding handle
run f [] s = s
run f ((env, closed) ∷ turns) s = s
run f ((env, m) ∷ turns) s = run f turns (handle f env m s)

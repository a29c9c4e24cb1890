-- ===== src/Jobs.antt =====
-- crates/decentgpu-master/src/db/jobs.rs: each method of `JobRepository` as a call of the database. A
-- generated key is an argument, as `now` is. A status, which the `CHECK` of the table holds to six
-- words, is a `JobStatus`.
mod Rows
mod Tests
pub mod Transition
pub mod Lists
pub mod Log
pub mod Dated
pub mod Once
pub use Rows.{job_in, job_of, matches_job, set_jobs, newer}
use text.Mathlib.Text.{◌==◌ as eq_text}
use decentralized_gpu_p2p_ne.Base.{
  ℕ, String, Bool, true, ◌&&◌, ◌||◌, not, any, Option, none, some, List, [], ◌∷◌, map, filter,
  length, leb, ◌==◌, if◌then◌else◌, contains, is_some, coalesce, sort_by,
}
use decentralized_gpu_p2p_ne.Base.Int.{ℤ, ltb_ℤ, pos}
use decentralized_gpu_p2p_ne.Error.{Result, ok, err, conflict}
use decentralized_gpu_p2p_ne.Types.JobStatus.{
  JobStatus, pending, assigned, running, completed, failed, cancelled, status_eq,
}
use decentralized_gpu_p2p_ne.Db.{
  paged, JobRow, JobLog, JobFile, Tables, Query, statement, outcome, constrained, select, ◌>>=◌,
  pure, fail, has_user,
}
use Rows.{is_terminal, any_worker}

-- `INSERT INTO jobs … RETURNING`; the hirer must be a user, and the key new
abbrev pub new_job : ℕ → ℕ → ℕ → String → Option ℤ → Option ℤ → Option ℤ → JobRow
new_job now id hirer_id gpu_backend memory_limit_mb max_duration_secs cu_price = record {
  id = id;
  hirer_id = hirer_id;
  worker_peer_id = none;
  status = pending;
  gpu_backend = gpu_backend;
  memory_limit_mb = memory_limit_mb;
  max_duration_secs = max_duration_secs;
  cu_price = cu_price;
  created_at = now;
  assigned_at = none;
  started_at = none;
  finished_at = none;
  error_message = none;
  result_path = none;
}

unfoldable pub create : ℕ → ℕ → ℕ → String → Option ℤ → Option ℤ → Option ℤ → Query JobRow
create now id hirer_id gpu_backend memory_limit_mb max_duration_secs cu_price =
    let row = new_job now id hirer_id gpu_backend memory_limit_mb max_duration_secs cu_price in
    constrained (λ t. has_user hirer_id t.users && not (is_some (job_of id t))) row
      (λ t. record t { jobs = row ∷ t.jobs })

-- what the `UPDATE` of `transition_status` makes of a row
abbrev pub transitioned : ℕ → JobStatus → Option ℕ → Option String → Option String → JobRow → JobRow
transitioned now to_status worker_peer_id error result_path j = record j {
  status = to_status;
  worker_peer_id = coalesce worker_peer_id j.worker_peer_id;
  error_message = coalesce error j.error_message;
  result_path = coalesce result_path j.result_path;
  assigned_at = if status_eq to_status assigned then some now else j.assigned_at;
  started_at = if status_eq to_status running then some now else j.started_at;
  finished_at = if is_terminal to_status then some now else j.finished_at;
}

-- the `UPDATE`: no row, or the changed one; a worker that it sets must exist
abbrev pub write_row :
    (JobRow → Bool)
    → (JobRow → JobRow)
    → Option ℕ
    → Tables
    → Option JobRow
    → Result (Option JobRow) × Tables
write_row p f worker_peer_id t none = (ok none, t)
write_row p f worker_peer_id t (some j) =
    outcome (any_worker worker_peer_id t) (some (f j)) t (record t { jobs = set_jobs p f t.jobs })

abbrev pub update_job :
    ℕ
    → ℕ
    → JobStatus
    → JobStatus
    → Option ℕ
    → Option String
    → Option String
    → Tables
    → Result (Option JobRow) × Tables
update_job now job_id from_status to_status worker_peer_id error result_path t =
    write_row (matches_job job_id from_status)
      (transitioned now to_status worker_peer_id error result_path) worker_peer_id t
      (job_in (matches_job job_id from_status) t.jobs)

-- `Option::ok_or_else(Conflict)`
abbrev or_conflict : {A : Type 0} → Option A → Query A
or_conflict none = fail conflict
or_conflict (some a) = pure a

unfoldable pub transition_status :
    ℕ → ℕ → JobStatus → JobStatus → Option ℕ → Option String → Option String → Query JobRow
transition_status now job_id from_status to_status worker_peer_id error result_path = do
  found ← statement (update_job now job_id from_status to_status worker_peer_id error result_path)
  or_conflict found

unfoldable pub find_by_id : ℕ → Query (Option JobRow)
find_by_id id = select (λ t. job_of id t)

unfoldable pub list_by_hirer : ℕ → ℤ → ℤ → Query (List JobRow)
list_by_hirer hirer_id limit offset =
    statement
      (λ t. (paged limit offset (sort_by newer (filter (λ j. j.hirer_id == hirer_id) t.jobs)), t))

-- the job must exist; the newest line stands first
unfoldable pub append_log : ℕ → ℤ → String → String → Query (Unit {0})
append_log job_id timestamp_ms level message =
    constrained (λ t. is_some (job_of job_id t)) tt
      (λ t. record t {
        job_logs =
            record {
              job_id = job_id;
              timestamp_ms = timestamp_ms;
              level = level;
              message = message;
            }
            ∷ t.job_logs;
      })

-- `a` is of a later time than `b`
abbrev pub logged_after : JobLog → JobLog → Bool
logged_after a b = ltb_ℤ b.timestamp_ms a.timestamp_ms

abbrev pub log_since : ℕ → ℤ → JobLog → Bool
log_since job_id since_ms l = l.job_id == job_id && ltb_ℤ since_ms l.timestamp_ms

unfoldable pub get_logs_since : ℕ → ℤ → ℤ → Query (List (ℤ × String × String))
get_logs_since job_id since_ms limit = do
  rows ← statement (λ t. (
    paged limit (pos 0)
        (sort_by (λ a b. logged_after b a) (filter (log_since job_id since_ms) t.job_logs)),
    t,
  ))
  pure (map (λ (l : JobLog). (l.timestamp_ms, l.level, l.message)) rows)

-- the words of the `CHECK` on `file_type`
abbrev pub file_type_check : String → Bool
file_type_check s = eq_text s "code" || (eq_text s "requirements" || eq_text s "result")

unfoldable pub insert_file : ℕ → ℕ → String → String → ℤ → String → Query ℕ
insert_file id job_id file_type file_path file_size sha256 =
    constrained
      (λ t.
        file_type_check file_type
        && (is_some (job_of job_id t) && not (any (λ f. f.id == id) t.job_files)))
      id
      (λ t. record t {
        job_files =
            record {
              id = id;
              job_id = job_id;
              file_type = file_type;
              file_path = file_path;
              file_size = file_size;
              sha256 = sha256;
            }
            ∷ t.job_files;
      })

unfoldable pub update_cu_price : ℕ → ℤ → Query (Unit {0})
update_cu_price job_id cu_price = statement (λ t. (
  ok tt,
  record t {
    jobs = set_jobs (λ j. j.id == job_id) (λ j. record j { cu_price = some cu_price }) t.jobs;
  },
))

-- `AND status = …` where a filter is given
abbrev status_filter : Option JobStatus → JobRow → Bool
status_filter none j = true
status_filter (some s) j = status_eq j.status s

unfoldable pub list_all : Option JobStatus → ℤ → ℤ → Query (List JobRow)
list_all status limit offset =
    statement (λ t. (paged limit offset (sort_by newer (filter (status_filter status) t.jobs)), t))

unfoldable pub count_all : Option JobStatus → Query ℕ
count_all status = select (λ t. length (filter (status_filter status) t.jobs))

-- `today` is the first instant of the day
unfoldable pub count_today : ℕ → Query ℕ
count_today today = select (λ t. length (filter (λ (j : JobRow). leb today j.created_at) t.jobs))

-- ===== src/Jobs/Tests.antt =====
-- Runs of the repository of jobs, and its theorems at concrete inputs.
use decentralized_gpu_p2p_ne.Db.Example.{example_user}
use decentralized_gpu_p2p_ne.Base.{◌≡◌, refl, [], ◌∷◌, none, some}
use decentralized_gpu_p2p_ne.Base.Int.{pos}
use decentralized_gpu_p2p_ne.Error.{ok, err, conflict}
use decentralized_gpu_p2p_ne.Types.JobStatus.{pending, assigned, cancelled}
use decentralized_gpu_p2p_ne.Db.{JobRow, Tables, Db, ◌>>=◌, statement, pure, fail}
use decentralized_gpu_p2p_ne.Db.Rules.{Ensures}
use decentralized_gpu_p2p_ne.Jobs.{new_job, create, transition_status, job_of}
use decentralized_gpu_p2p_ne.Jobs.Transition.{TransitionOutcome, transition_outcome}
use decentralized_gpu_p2p_ne.Jobs.Dated.{
  IsTimely, IsDated, at_start, next, created, moved, history_IsTimely,
}
use decentralized_gpu_p2p_ne.Jobs.Once.{Refused, leaves_once}

abbrev job : JobRow
job = new_job 10 5 1 "cuda" (some (pos 4000)) none none

abbrev tables : Tables
tables = record {
  users = example_user 1 ∷ [];
  balances = [];
  transactions = [];
  jobs = job ∷ [];
  job_logs = [];
  job_files = [];
  workers = [];
  worker_sessions = [];
}

abbrev db : Db
db = record { tables = tables; faults = [] }

-- the cancellation of a pending job, and a second one
abbrev after_cancel : Tables
after_cancel = (transition_status 20 5 pending cancelled none none none db).1.tables

cancel_twice :
    (transition_status 21 5 pending cancelled none none none
      (record { tables = after_cancel; faults = [] })).0
    ≡ err conflict
unfolding transition_status ◌>>=◌ statement pure fail
cancel_twice = refl

job-IsDated : IsDated job
job-IsDated = record { when_assigned = λ q. cc; when_running = λ q. cc; when_over = λ q. cc }

tables-IsTimely : IsTimely tables
tables-IsTimely = record { keyed = (refl, tt); dated = (job-IsDated, tt) }

transition_outcome_example :
    Ensures
      (TransitionOutcome 20 5 pending cancelled none none none tables 5 (job_of 5 tables))
      (transition_status 20 5 pending cancelled none none none)
      tables
transition_outcome_example =
    transition_outcome 20 5 pending cancelled none none none tables 5 tables-IsTimely.keyed

abbrev after_create : Tables
after_create =
    (create 30 6 1 "rocm" none none none (record { tables = after_cancel; faults = [] })).1.tables

history_IsTimely_example : IsTimely after_create
history_IsTimely_example =
    history_IsTimely {t = tables} {u = after_create}
      (next (next at_start (moved [] 20 5 pending cancelled none none none))
        (created [] 30 6 1 "rocm" none none none))
      tables-IsTimely

abbrev cancelled_job : JobRow
cancelled_job = record job { status = cancelled; finished_at = some 20 }

cancel_ok : (transition_status 20 5 pending cancelled none none none db).0 ≡ ok cancelled_job
unfolding transition_status ◌>>=◌ statement pure fail
cancel_ok = refl

leaves_once_example :
    let (y, db') =
      transition_status 21 5 pending assigned none none none
        (record { tables = after_cancel; faults = [] }) in
    Refused after_cancel y db'.tables
leaves_once_example =
    leaves_once 20 21 5 pending cancelled assigned none none none none none none tables [] []
      cancelled_job tables-IsTimely (λ e. cc) cancel_ok

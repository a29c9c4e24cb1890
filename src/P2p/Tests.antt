-- ===== src/P2p/Tests.antt =====
-- The completion of an assigned job, the loss of the bootstrap node, and the registration of a worker.
use decentralized_gpu_p2p_ne.Scheduler.{cancel}
use decentralized_gpu_p2p_ne.P2p.Linked.{IsRefused, IsAccepted, registration_lem}
use decentralized_gpu_p2p_ne.P2p.Reconnect.{keeps_trying, delay_stays}
use decentralized_gpu_p2p_ne.P2p.Search.{IsAt, search, waiting}
use decentralized_gpu_p2p_ne.Float.Fixed.{fixed}
use decentralized_gpu_p2p_ne.Auth.Sample.{sample}
use decentralized_gpu_p2p_ne.P2p.Registration.{RegisterWorker, register_worker_task}
use decentralized_gpu_p2p_ne.P2p.Loop.{
  MasterEventLoop, delay_secs, new_loop, run, Input, step, reconnect_fires, swarm,
  connection_closed, connection_established, outgoing_connection_error, handle_registration,
  command,
}
use decentralized_gpu_p2p_ne.Db.Example.{example_user, tables_of}
use decentralized_gpu_p2p_ne.Base.{[], ◌∷◌, none, some, refl, false, List, ℕ, ◌≡◌, true, arith, ◌⊎◌}
use decentralized_gpu_p2p_ne.Types.JobStatus.{assigned}
use decentralized_gpu_p2p_ne.Db.{Db, JobRow}
use decentralized_gpu_p2p_ne.Jobs.{new_job, job_of}
use decentralized_gpu_p2p_ne.Jobs.Dated.{IsDated}
use decentralized_gpu_p2p_ne.P2p.{complete_job}
use decentralized_gpu_p2p_ne.P2p.Completed.{CompletionOutcome, completion_lem}

abbrev job : JobRow
job = record (new_job 10 5 1 "cuda" none none none) { status = assigned; assigned_at = some 12 }

abbrev db : Db
db = record { tables = record (tables_of (example_user 1 ∷ [])) { jobs = job ∷ [] }; faults = [] }

job-IsDated : IsDated job
job-IsDated = record { when_assigned = λ q. refl; when_running = λ q. cc; when_over = λ q. cc }

completion_lem_example :
    let (r, db') = complete_job 30 900 5 false "out of memory" ("epoch 1" ∷ "" ∷ []) db in
    CompletionOutcome 30 5 false "out of memory" db.tables 5 (job_of 5 db.tables) r db'.tables
completion_lem_example =
    completion_lem 30 900 5 false "out of memory" ("epoch 1" ∷ "" ∷ []) db 5
      (record { keyed = (refl, tt); dated = (job-IsDated, tt) })

-- a loop that knows the bootstrap node 4 and has tried five times to reach it
abbrev lost : MasterEventLoop
lost = record (new_loop 0 900) { bootstrap_peer_id = some 4; reconnect_attempts = 5 }

abbrev inputs : List (ℕ × Input)
inputs =
    (101, reconnect_fires true)
    ∷ (102, swarm (connection_established 4 true))
    ∷ (150, swarm (connection_closed 4 0))
    ∷ (150, command (some (cancel 7 1)))
    ∷ (170, reconnect_fires false)
    ∷ (190, reconnect_fires true)
    ∷ (191, swarm (outgoing_connection_error (some 4)))
    ∷ []

keeps_trying_example :
    let t = run inputs (step 100 (swarm (connection_closed 4 0)) lost) in
    IsAt (search 4 (waiting 100) inputs) t × (t.bootstrap_peer_id ≡ some 4)
unfolding new_loop
keeps_trying_example = keeps_trying 4 100 inputs lost refl refl

delay_stays_example : delay_secs (run inputs lost).reconnect_attempts ≡ 16
delay_stays_example = delay_stays 4 inputs lost refl (omega arith) (omega arith)

abbrev request : RegisterWorker
request = record { jwt_token = "token"; capabilities = none }

registration_lem_example :
    let (r, db') =
      register_worker_task sample fixed 30 1000
        (some [])
        true
        7
        request
        2
        (record { tables = tables_of (example_user 1 ∷ []); faults = [] }) in
    IsRefused sample fixed 30 1000 7
      (some [])
      request
      2
      r
      (tables_of (example_user 1 ∷ []))
      db'.tables
      lost
      (handle_registration r lost)
    ⊎ IsAccepted sample fixed 30 1000 7
        (some [])
        request
        2
        r
        (tables_of (example_user 1 ∷ []))
        db'.tables
        lost
        (handle_registration r lost)
registration_lem_example =
    registration_lem sample fixed 30 1000 7 (some []) request true 2
      (record { tables = tables_of (example_user 1 ∷ []); faults = [] }) lost

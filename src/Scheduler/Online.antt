-- ===== src/Scheduler/Online.antt =====
-- The invariants of the scheduler's state under every message: the map of workers online holds each
-- worker under its own identifier, and the table of jobs stays sound.
use decentralized_gpu_p2p_ne.Base.{
  ◌-◌, ◌/◌, ℕ, Bool, true, false, Option, none, some, List, [], ◌∷◌, ◌≡◌, refl, inl, inr, All,
  Bool-cases, insert, insert-All, keys, ltb,
}
use decentralized_gpu_p2p_ne.Error.{Result, ok, err}
use decentralized_gpu_p2p_ne.Float.{F64, F64Ops}
use decentralized_gpu_p2p_ne.Types.JobStatus.{pending, assigned, failed, status_eq}
use decentralized_gpu_p2p_ne.Db.{Db, JobRow, Tables}
use decentralized_gpu_p2p_ne.Db.Rules.{Ensures, statement_rule}
use decentralized_gpu_p2p_ne.Jobs.{find_by_id, list_by_hirer, transition_status}
use decentralized_gpu_p2p_ne.Jobs.Dated.{IsTimely, Timely, transition_IsTimely}
use decentralized_gpu_p2p_ne.Matcher.{WorkerCandidate, MatchRequest}
use decentralized_gpu_p2p_ne.Scheduler.{
  Env, JobScheduler, try_assign_one, build_job_assignment, assign_to, after_transition,
  send_assignment, assign_found, assign_each, try_assign_pending, retry_found, retry_each, requeue,
  requeue_each, requeue_listed, handle_worker_offline, lost_with, heartbeat_of, JobAssignment,
  nil_uuid, pos,
}
use decentralized_gpu_p2p_ne.Scheduler.Assign.{build_outcome, Built}

-- an entry of the map is under the identifier of its worker
abbrev pub IsOwn : ℕ × WorkerCandidate → Type 0
IsOwn (k, w) = w.peer_id ≡ k

pub record IsConsistent (s : JobScheduler) : Type 0 where
  pub own : All IsOwn s.online
  pub timely : IsTimely s.db.tables

-- Another database with a sound table of jobs, or other pending jobs, make no difference.
with_db :
    (s : JobScheduler) (db : Db)
    → IsConsistent s
    → IsTimely db.tables
    → IsConsistent (record s { db = db })
with_db s db c t = record { own = c.own; timely = t }

found_IsTimely : (job : ℕ) (t : Tables) → IsTimely t → Ensures Timely (find_by_id job) t
unfolding find_by_id
found_IsTimely job t s = statement_rule _ s s

built_IsTimely :
    (env : Env) (job p : ℕ) (t : Tables)
    → IsTimely t
    → Ensures Timely (build_job_assignment env job p) t
built_IsTimely env job p t s = record {
  holds = λ faults. same _ _ ((build_outcome env job p t).holds faults);
}
  where
    same : (r : Result JobAssignment) (t' : Tables) → Built env job p t r t' → IsTimely t'
    same (ok a) t' b = rw b.0 s
    same (err e) t' b = rw b s

module _ (f : F64Ops) (env : Env) where
  send_IsConsistent :
      (job p : ℕ) (x : Result JobAssignment × Db) (s : JobScheduler)
      → IsConsistent s
      → IsTimely x.1.tables
      → IsConsistent (send_assignment job p x s)
  send_IsConsistent job p (err e, db) s c t = record { own = c.own; timely = t }
  send_IsConsistent job p (ok a, db) s c t = record { own = c.own; timely = t }

  after_IsConsistent :
      (job p : ℕ) (x : Result JobRow × Db) (s : JobScheduler)
      → IsConsistent s
      → IsTimely x.1.tables
      → IsConsistent (after_transition env job p x s)
  after_IsConsistent job p (err e, db) s c t = record { own = c.own; timely = t }
  after_IsConsistent job p (ok r, db) s c t =
      send_IsConsistent job p _ s c ((built_IsTimely env job p db.tables t).holds db.faults)

  assign_IsConsistent :
      (job : ℕ) (o : Option ℕ) (s : JobScheduler)
      → IsConsistent s
      → IsConsistent (assign_to env job o s)
  assign_IsConsistent job none s c = c
  assign_IsConsistent job (some p) s c = after_IsConsistent job p _ s c (
      (transition_IsTimely env.now job pending assigned (some p) none none s.db.tables
          c.timely).holds
        s.db.faults)

  pub try_one_IsConsistent :
      (job : ℕ) (r : MatchRequest) (s : JobScheduler)
      → IsConsistent s
      → IsConsistent (try_assign_one f env job r s)
  unfolding try_assign_one
  try_one_IsConsistent job r s c = assign_IsConsistent job _ s c

  assign_found-IsConsistent :
      (job : ℕ) (x : Result (Option JobRow) × Db) (s : JobScheduler)
      → IsConsistent s
      → IsTimely x.1.tables
      → IsConsistent (assign_found f env job x s)
  assign_found-IsConsistent job (err e, db) s c t = with_db s db c t
  assign_found-IsConsistent job (ok none, db) s c t = with_db s db c t
  assign_found-IsConsistent job (ok (some row), db) s c t =
      elim (Bool-cases (status_eq row.status pending)) [
        | inl open_job ↦ rw open_job (try_one_IsConsistent job _ _ (with_db s db c t))
        | inr other ↦ rw other (record { own = c.own; timely = t })
      ]

  assign_each-IsConsistent :
      (jobs : List ℕ) (s : JobScheduler) → IsConsistent s → IsConsistent (assign_each f env jobs s)
  assign_each-IsConsistent [] s c = c
  assign_each-IsConsistent (job ∷ jobs) s c = assign_each-IsConsistent jobs _ (
      assign_found-IsConsistent job _ s c
        ((found_IsTimely job s.db.tables c.timely).holds s.db.faults))

  pub try_pending_IsConsistent :
      (s : JobScheduler) → IsConsistent s → IsConsistent (try_assign_pending f env s)
  unfolding try_assign_pending
  try_pending_IsConsistent s c = assign_each-IsConsistent (keys s.pending) s c

  retry_found-IsConsistent :
      (job : ℕ) (x : Result (Option JobRow) × Db) (s : JobScheduler)
      → IsConsistent s
      → IsTimely x.1.tables
      → IsConsistent (retry_found f env job x s)
  retry_found-IsConsistent job (err e, db) s c t = record { own = c.own; timely = t }
  retry_found-IsConsistent job (ok none, db) s c t = record { own = c.own; timely = t }
  retry_found-IsConsistent job (ok (some row), db) s c t =
      elim (Bool-cases (status_eq row.status pending)) [
        | inl open_job ↦ elim (Bool-cases (ltb 30 ((env.now - row.created_at) / 1000000))) [
          | inl stale ↦ rw (open_job, stale) (try_one_IsConsistent job _ _ (with_db s db c t))
          | inr fresh ↦ rw (open_job, fresh) (with_db s db c t)
        ]
        | inr other ↦ rw other (record { own = c.own; timely = t })
      ]

  pub retry_each-IsConsistent :
      (jobs : List ℕ) (s : JobScheduler) → IsConsistent s → IsConsistent (retry_each f env jobs s)
  retry_each-IsConsistent [] s c = c
  retry_each-IsConsistent (job ∷ jobs) s c = retry_each-IsConsistent jobs _ (
      retry_found-IsConsistent job _ s c
        ((found_IsTimely job s.db.tables c.timely).holds s.db.faults))

  requeue-IsConsistent :
      (p : ℕ) (row : JobRow) (s : JobScheduler)
      → IsConsistent s
      → IsConsistent (requeue env p row s)
  requeue-IsConsistent p row s c =
      let (_, failed_db) =
        transition_status env.now row.id row.status failed none (some "worker went offline") none
          s.db in
      record {
        own = c.own;
        timely =
            (transition_IsTimely env.now row.id failed pending none none none failed_db.tables (
                (transition_IsTimely env.now row.id row.status failed none
                    (some "worker went offline") none s.db.tables c.timely).holds
                  s.db.faults)).holds
              failed_db.faults;
      }

  requeue_each-IsConsistent :
      (p : ℕ) (rows : List JobRow) (s : JobScheduler)
      → IsConsistent s
      → IsConsistent (requeue_each env p rows s)
  requeue_each-IsConsistent p [] s c = c
  requeue_each-IsConsistent p (row ∷ rows) s c = elim (Bool-cases (lost_with p row)) [
    | inl lost ↦ rw lost (requeue_each-IsConsistent p rows _ (requeue-IsConsistent p row s c))
    | inr kept ↦ rw kept (requeue_each-IsConsistent p rows s c)
  ]

  requeue_listed-IsConsistent :
      (p : ℕ) (x : Result (List JobRow) × Db) (s : JobScheduler)
      → IsConsistent s
      → IsTimely x.1.tables
      → IsConsistent (requeue_listed env p x s)
  requeue_listed-IsConsistent p (err e, db) s c t = with_db s db c t
  requeue_listed-IsConsistent p (ok rows, db) s c t =
      requeue_each-IsConsistent p rows _ (with_db s db c t)

  listed_IsTimely :
      (t : Tables) → IsTimely t → Ensures Timely (list_by_hirer nil_uuid (pos 1000) (pos 0)) t
  unfolding list_by_hirer
  listed_IsTimely t s = statement_rule _ s s

  pub offline_IsConsistent :
      (p : ℕ) (s : JobScheduler) → IsConsistent s → IsConsistent (handle_worker_offline env p s)
  unfolding handle_worker_offline
  offline_IsConsistent p s c =
      requeue_listed-IsConsistent p (list_by_hirer nil_uuid (pos 1000) (pos 0) s.db) s c
        ((listed_IsTimely s.db.tables c.timely).holds s.db.faults)

  pub insert-IsConsistent :
      (p : ℕ) (w : WorkerCandidate) (s : JobScheduler)
      → w.peer_id ≡ p
      → IsConsistent s
      → IsConsistent (record s { online = insert p w s.online })
  insert-IsConsistent p w s e c = record {
    own = insert-All IsOwn p w s.online e c.own;
    timely = c.timely;
  }

  pub heartbeat_IsConsistent :
      (p : ℕ) (uptime : F64) (busy : Bool) (jobs : ℕ) (o : Option WorkerCandidate)
      (s : JobScheduler)
      → ((w : WorkerCandidate) → o ≡ some w → w.peer_id ≡ p)
      → IsConsistent s
      → IsConsistent (heartbeat_of f env p uptime busy jobs o s)
  heartbeat_IsConsistent p u b jobs (some w) s own c = insert-IsConsistent p _ s (own w refl) c
  heartbeat_IsConsistent p u true jobs none s own c = insert-IsConsistent p _ s refl c
  heartbeat_IsConsistent p u false jobs none s own c =
      try_pending_IsConsistent _ (insert-IsConsistent p _ s refl c)

-- ===== src/Scheduler/Kept.antt =====
-- What the assignments of the scheduler leave: the map of the workers online.
use decentralized_gpu_p2p_ne.Base.Int.{pos}
use decentralized_gpu_p2p_ne.Jobs.{list_by_hirer}
use decentralized_gpu_p2p_ne.Types.JobStatus.{status_eq}
use decentralized_gpu_p2p_ne.Matcher.{MatchRequest}
use decentralized_gpu_p2p_ne.Db.{JobRow, Db}
use decentralized_gpu_p2p_ne.Scheduler.Wire.{JobAssignment}
use decentralized_gpu_p2p_ne.Base.{◌≡◌, List, ℕ, Option, keys, ◌∷◌, some, if_cases, refl, ◌∙◌}
use decentralized_gpu_p2p_ne.Float.{F64Ops}
use decentralized_gpu_p2p_ne.Scheduler.{
  JobScheduler, Env, try_assign_one, try_assign_pending, assign_each, assign_to, after_transition,
  assign_found, send_assignment, find_by_id, request_of, handle_worker_offline, requeue_each,
  requeue_listed, retry_each, retry_found, retry_stale_pending, lost_with, nil_uuid, requeue,
}
use decentralized_gpu_p2p_ne.Base.{none, some, [], List, ◌∷◌, if◌then◌else◌, ltb, ◌-◌, ◌/◌}
use decentralized_gpu_p2p_ne.Types.JobStatus.{pending}
use decentralized_gpu_p2p_ne.Error.{Result, ok, err}

-- the workers online stay as they are
abbrev pub SameOnline : JobScheduler → JobScheduler → Type 0
SameOnline s t = t.online ≡ s.online

module _ (f : F64Ops) (env : Env) where
  send-SameOnline :
      (job p : ℕ) (x : Result JobAssignment × Db) (s : JobScheduler)
      → SameOnline s (send_assignment job p x s)
  send-SameOnline job p (err e, db) s = refl
  send-SameOnline job p (ok a, db) s = refl

  after-SameOnline :
      (job p : ℕ) (x : Result JobRow × Db) (s : JobScheduler)
      → SameOnline s (after_transition env job p x s)
  after-SameOnline job p (err e, db) s = refl
  after-SameOnline job p (ok r, db) s = send-SameOnline job p _ s

  assign-SameOnline :
      (job : ℕ) (o : Option ℕ) (s : JobScheduler) → SameOnline s (assign_to env job o s)
  assign-SameOnline job none s = refl
  assign-SameOnline job (some p) s = after-SameOnline job p _ s

  pub try_one-SameOnline :
      (job : ℕ) (r : MatchRequest) (s : JobScheduler) → SameOnline s (try_assign_one f env job r s)
  unfolding try_assign_one
  try_one-SameOnline job r s = assign-SameOnline job _ s

  found-SameOnline :
      (job : ℕ) (x : Result (Option JobRow) × Db) (s : JobScheduler)
      → SameOnline s (assign_found f env job x s)
  found-SameOnline job (err e, db) s = refl
  found-SameOnline job (ok none, db) s = refl
  found-SameOnline job (ok (some row), db) s =
      if_cases (SameOnline s) (status_eq row.status pending) _ _
        (λ _. try_one-SameOnline job (request_of row) (record s { db = db })) (λ _. refl)

  each-SameOnline : (jobs : List ℕ) (s : JobScheduler) → SameOnline s (assign_each f env jobs s)
  each-SameOnline [] s = refl
  each-SameOnline (job ∷ jobs) s =
      each-SameOnline jobs (assign_found f env job (find_by_id job s.db) s)
      ∙ found-SameOnline job (find_by_id job s.db) s

  pub try_pending-SameOnline : (s : JobScheduler) → SameOnline s (try_assign_pending f env s)
  unfolding try_assign_pending
  try_pending-SameOnline s = each-SameOnline (keys s.pending) s

  retry_found-SameOnline :
      (job : ℕ) (x : Result (Option JobRow) × Db) (s : JobScheduler)
      → SameOnline s (retry_found f env job x s)
  retry_found-SameOnline job (err e, db) s = refl
  retry_found-SameOnline job (ok none, db) s = refl
  retry_found-SameOnline job (ok (some row), db) s =
      if_cases (SameOnline s) (status_eq row.status pending) _ _
        (λ _.
          if_cases (SameOnline s) (ltb 30 ((env.now - row.created_at) / 1000000)) _ _
            (λ _. try_one-SameOnline job (request_of row) (record s { db = db })) (λ _. refl))
        (λ _. refl)

  retry_each-SameOnline :
      (jobs : List ℕ) (s : JobScheduler) → SameOnline s (retry_each f env jobs s)
  retry_each-SameOnline [] s = refl
  retry_each-SameOnline (job ∷ jobs) s =
      retry_each-SameOnline jobs (retry_found f env job (find_by_id job s.db) s)
      ∙ retry_found-SameOnline job (find_by_id job s.db) s

  pub retry-SameOnline : (s : JobScheduler) → SameOnline s (retry_stale_pending f env s)
  unfolding retry_stale_pending
  retry-SameOnline s = retry_each-SameOnline (keys s.pending) s

module _ (env : Env) (p : ℕ) where
  requeue_each-SameOnline :
      (rows : List JobRow) (s : JobScheduler) → SameOnline s (requeue_each env p rows s)
  requeue_each-SameOnline [] s = refl
  requeue_each-SameOnline (row ∷ rows) s =
      requeue_each-SameOnline rows (if lost_with p row then requeue env p row s else s)
      ∙ if_cases (SameOnline s) (lost_with p row) (requeue env p row s) s (λ _. refl) (λ _. refl)

  listed-SameOnline :
      (x : Result (List JobRow) × Db) (s : JobScheduler) → SameOnline s (requeue_listed env p x s)
  listed-SameOnline (ok rows, db) s = requeue_each-SameOnline rows (record s { db = db })
  listed-SameOnline (err e, db) s = refl

  pub offline-SameOnline : (s : JobScheduler) → SameOnline s (handle_worker_offline env p s)
  unfolding handle_worker_offline
  offline-SameOnline s = listed-SameOnline (list_by_hirer nil_uuid (pos 1000) (pos 0) s.db) s

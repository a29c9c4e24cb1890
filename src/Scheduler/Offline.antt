-- ===== src/Scheduler/Offline.antt =====
-- What `JobScheduler::handle_worker_offline` reaches, and the backend that a job is sent with.
use text.Mathlib.Text.{◌==◌ as eq_text}
use text.Mathlib.TextEquality.{eq_iff}
use decentralized_gpu_p2p_ne.Base.{
  ℕ, String, List, [], ◌∷◌, ◌≡◌, ◌≢◌, refl, All, All-in, Bool-cases, inl, inr,
}
use decentralized_gpu_p2p_ne.Base.Int.{pos}
use decentralized_gpu_p2p_ne.Error.{Result, ok, err}
use decentralized_gpu_p2p_ne.Types.GpuBackend
use decentralized_gpu_p2p_ne.Types.GpuBackend.{GpuBackend, ok_or_cpu_only}
use decentralized_gpu_p2p_ne.Db.{Db, JobRow}
use decentralized_gpu_p2p_ne.Jobs.{list_by_hirer}
use decentralized_gpu_p2p_ne.Jobs.Lists.{ListOutcome, list_outcome}
use decentralized_gpu_p2p_ne.Scheduler.{
  Env, JobScheduler, handle_worker_offline, requeue_listed, nil_uuid,
}
use decentralized_gpu_p2p_ne.Scheduler.Wire.{backend_of_number, backend_number}

-- no row and no pending job has changed, and nothing is sent
abbrev pub Untouched : JobScheduler → JobScheduler → Type 0
Untouched s s' =
    (s'.db.tables ≡ s.db.tables)
    × (s'.pending ≡ s.pending)
    × (s'.sent ≡ s.sent)
    × (s'.online ≡ s.online)

Untouched-of :
    (env : Env) (p : ℕ) (x : Result (List JobRow) × Db) (s : JobScheduler)
    → All (λ (j : JobRow). j.hirer_id ≢ nil_uuid) s.db.tables.jobs
    → ListOutcome nil_uuid (pos 1000) s.db.tables x.0 x.1.tables
    → Untouched s (requeue_listed env p x s)
Untouched-of env p (err e, db) s h o = (o.0, refl, refl, refl)
Untouched-of env p (ok [], db) s h o = (o.0, refl, refl, refl)
Untouched-of env p (ok (j ∷ js), db) s h o =
    let (nil, here) = o.1.0 in
    absurd (All-in (λ (k : JobRow). k.hirer_id ≢ nil_uuid) s.db.tables.jobs j h here nil)

-- `handle_worker_offline` asks for the jobs of the hirer with the nil identifier alone: where no job
-- is that hirer's, it changes no job, enqueues none and sends nothing, whatever worker went offline
-- and whatever jobs were assigned to it.
pub offline_lem :
    (env : Env) (p : ℕ) (s : JobScheduler)
    → All (λ (j : JobRow). j.hirer_id ≢ nil_uuid) s.db.tables.jobs
    → Untouched s (handle_worker_offline env p s)
unfolding handle_worker_offline
offline_lem env p s h =
    Untouched-of env p (list_by_hirer nil_uuid (pos 1000) (pos 0) s.db) s h
      ((list_outcome nil_uuid (pos 1000) (pos 0) s.db.tables).holds s.db.faults)

-- The number of the backend that `build_job_assignment` writes into a `JobSpec` is read, as a worker's
-- capabilities are, as the backend that the scheduler matched the job by: the word that the row
-- holds, or `CpuOnly` where it is none of the four.
pub backend_number_lem :
    (w : String)
    → backend_of_number (pos (backend_number w)) ≡ ok_or_cpu_only (GpuBackend.from_str w)
unfolding backend_number GpuBackend.from_str
backend_number_lem w = elim (Bool-cases (eq_text w "cuda")) [
  | inl is_cuda ↦ rw ((eq_iff w "cuda").0 is_cuda) refl
  | inr no_cuda ↦ elim (Bool-cases (eq_text w "metal")) [
    | inl is_metal ↦ rw ((eq_iff w "metal").0 is_metal) refl
    | inr no_metal ↦ elim (Bool-cases (eq_text w "rocm")) [
      | inl is_rocm ↦ rw ((eq_iff w "rocm").0 is_rocm) refl
      | inr no_rocm ↦ elim (Bool-cases (eq_text w "cpu_only")) [
        | inl is_cpu ↦ rw ((eq_iff w "cpu_only").0 is_cpu) refl
        | inr no_cpu ↦ rw (no_cuda, no_metal, no_rocm, no_cpu) refl
      ]
    ]
  ]
]

-- ===== src/Jobs/Rows.antt =====
-- The rows of `jobs` under the `WHERE`, `SET` and `LIMIT` clauses of
-- crates/decentgpu-master/src/db/jobs.rs.
use decentralized_gpu_p2p_ne.Base.{
  refl, ℕ, Bool, true, ◌&&◌, ◌||◌, Option, none, some, List, [], ◌∷◌, ltb, ◌==◌, if◌then◌else◌, any,
  ◌≡◌, All, arith, ◌↔◌, Bool-cases, inl, inr, ==_iff,
}
use decentralized_gpu_p2p_ne.Types.JobStatus.{JobStatus, completed, failed, cancelled, status_eq}
use decentralized_gpu_p2p_ne.Db.{JobRow, Tables}

-- the first row that a clause picks
abbrev pub job_in : (JobRow → Bool) → List JobRow → Option JobRow
job_in p [] = none
job_in p (j ∷ js) = let rest = job_in p js in if p j then some j else rest

abbrev pub job_of : ℕ → Tables → Option JobRow
job_of id t = job_in (λ j. j.id == id) t.jobs

-- `WHERE id = … AND status = …`
abbrev pub matches_job : ℕ → JobStatus → JobRow → Bool
matches_job job_id from_status j = j.id == job_id && status_eq j.status from_status

-- `SET` on the rows that a clause picks
abbrev pub set_jobs : (JobRow → Bool) → (JobRow → JobRow) → List JobRow → List JobRow
set_jobs p f [] = []
set_jobs p f (j ∷ js) = (if p j then f j else j) ∷ set_jobs p f js

-- `ORDER BY created_at DESC`: `a` goes before `b`
abbrev pub newer : JobRow → JobRow → Bool
newer a b = ltb b.created_at a.created_at

-- `status IN ('completed', 'failed', 'cancelled')`
abbrev pub is_terminal : JobStatus → Bool
is_terminal s = status_eq s completed || (status_eq s failed || status_eq s cancelled)

-- `REFERENCES workers(peer_id)`
abbrev pub any_worker : Option ℕ → Tables → Bool
any_worker none t = true
any_worker (some p) t = any (λ w. w.peer_id == p) t.workers

-- `id` is the primary key.
abbrev pub KeyedJobs : List JobRow → Type 0
KeyedJobs [] = Unit
KeyedJobs (j ∷ js) = (job_in (λ k. k.id == j.id) js ≡ none) × KeyedJobs js

pub status_eq_iff : (a b : JobStatus) → (status_eq a b ≡ true) ↔ (a ≡ b)
status_eq_iff a b = ground arith

abbrev pub map_option : {A : Type 0} → (A → A) → Option A → Option A
map_option f none = none
map_option f (some a) = some (f a)

module _ (id : ℕ) (q : JobRow → Bool) where
  pub both_absent :
      (js : List JobRow)
      → job_in (λ k. k.id == id) js ≡ none
      → job_in (λ k. k.id == id && q k) js ≡ none
  both_absent [] e = refl
  both_absent (x ∷ js) e = ground (arith, both_absent js)

  pub both_found :
      (js : List JobRow) (j : JobRow)
      → KeyedJobs js
      → job_in (λ k. k.id == id) js ≡ some j
      → job_in (λ k. k.id == id && q k) js ≡ (if q j then some j else none)
  both_found [] j k e = cc
  both_found (x ∷ js) j k e = elim (Bool-cases (x.id == id)) [
    | inl here ↦
        let same : x ≡ j = ground arith in
        let alone : job_in (λ k. k.id == id) js ≡ none = rw (← (==_iff x.id id).0 here) k.0 in
        rw (here, both_absent js alone, same) refl
    | inr there ↦ rw there (both_found js j k.1 (ground arith))
  ]

pub found_id :
    (id : ℕ) (js : List JobRow) (j : JobRow) → job_in (λ k. k.id == id) js ≡ some j → j.id ≡ id
found_id id [] j e = cc
found_id id (x ∷ js) j e = ground (arith, found_id id js j)

module _ (p : JobRow → Bool) (f : JobRow → JobRow) (keep : (j : JobRow) → (f j).id ≡ j.id) where
  pub set_jobs_lem :
      (v : ℕ) (js : List JobRow)
      → job_in (λ k. k.id == v) (set_jobs p f js)
        ≡ map_option (λ j. if p j then f j else j) (job_in (λ k. k.id == v) js)
  set_jobs_lem v [] = refl
  set_jobs_lem v (x ∷ js) = ground (arith, keep x, set_jobs_lem v js)

  pub set_jobs-KeyedJobs : (js : List JobRow) → KeyedJobs js → KeyedJobs (set_jobs p f js)
  set_jobs-KeyedJobs [] h = tt
  set_jobs-KeyedJobs (x ∷ js) h =
      ground (arith, keep x, set_jobs-KeyedJobs js h.1, set_jobs_lem x.id js)

  pub set_jobs-All :
      (P : JobRow → Type 0)
      → ((j : JobRow) → p j ≡ true → P j → P (f j))
      → (js : List JobRow) → All P js
      → All P (set_jobs p f js)
  set_jobs-All P step [] h = tt
  set_jobs-All P step (x ∷ js) h = elim (Bool-cases (p x)) [
    | inl hit ↦ rw hit (step x hit h.0, set_jobs-All P step js h.1)
    | inr miss ↦ rw miss (h.0, set_jobs-All P step js h.1)
  ]

-- ===== src/Jobs/Once.antt =====
-- A job leaves a status once: of two calls of `transition_status` from one status at most one succeeds.
use decentralized_gpu_p2p_ne.Base.{
  ℕ, ◌≡◌, ◌≢◌, ◌⊎◌, refl, String, Option, some, none, List, inl, inr, ap, sym, ◌∙◌, ==_refl, Bool,
}
use decentralized_gpu_p2p_ne.Error.{Result, ok, err, conflict, database}
use decentralized_gpu_p2p_ne.Types.JobStatus.{JobStatus}
use decentralized_gpu_p2p_ne.Db.{JobRow, Tables}
use decentralized_gpu_p2p_ne.Db.Rules.{Post}
use decentralized_gpu_p2p_ne.Jobs.{transition_status, job_of}
use decentralized_gpu_p2p_ne.Jobs.Transition.{TransitionOutcome, transition_outcome}
use decentralized_gpu_p2p_ne.Jobs.Dated.{IsTimely, transition_IsTimely}

-- the call was refused and changed nothing
abbrev pub Refused : Tables → Post JobRow
Refused t r t' = ((r ≡ err conflict) ⊎ (r ≡ err database)) × (t' ≡ t)

module _ (now id : ℕ) (from to : JobStatus) (w : Option ℕ) (e q : Option String) (t : Tables) where
  refused_of :
      (o : Option JobRow) (r : Result JobRow) (t' : Tables)
      → ((j : JobRow) → o ≡ some j → j.status ≢ from)
      → TransitionOutcome now id from to w e q t id o r t'
      → Refused t r t'
  refused_of none (err e) t' other h =
      (elim h.1 [ inl broken ↦ inr (ap err broken) | inr refused ↦ inl (ap err refused) ], h.0)
  refused_of none (ok r) t' other h = absurd h
  refused_of (some j) (err e) t' other h =
      (elim h.1 [ inl broken ↦ inr (ap err broken) | inr refused ↦ inl (ap err refused.0) ], h.0)
  refused_of (some j) (ok r) t' other h = absurd (other j refl h.0)

  moved_of :
      (o : Option JobRow) (r : JobRow) (t' : Tables)
      → TransitionOutcome now id from to w e q t id o (ok r) t'
      → (job_of id t' ≡ some r) × (r.status ≡ to)
  moved_of none r t' h = absurd h
  moved_of (some j) r t' h = (rw ==_refl at (h.3), h.1.status)

-- If a call of `transition_status` has moved a job out of a status, to another one, then a second
-- call out of that same status, made right after it, is refused with `Conflict`, or with the error of
-- the database, and changes nothing, whatever it asks for: a pending job is not assigned twice.
pub leaves_once :
    (now now' id : ℕ) (from to to' : JobStatus) (w w' : Option ℕ) (e e' q q' : Option String)
    (t : Tables) (fs fs' : List Bool) (r : JobRow)
    → IsTimely t
    → to ≢ from
    → let (x, db) = transition_status now id from to w e q (record { tables = t; faults = fs }) in
      let (y, db') =
        transition_status now' id from to' w' e' q' (record { tables = db.tables; faults = fs' }) in
      x ≡ ok r → Refused db.tables y db'.tables
leaves_once now now' id a b c w w' e e' q q' t fs fs' r s ne x =
    let t1 = (transition_status now id a b w e q (record { tables = t; faults = fs })).1.tables in
    let s1 : IsTimely t1 = (transition_IsTimely now id a b w e q t s).holds fs in
    let first = rw x at ((transition_outcome now id a b w e q t id s.keyed).holds fs) in
    let (there, moved) = moved_of now id a b w e q t (job_of id t) r t1 first in
    refused_of now' id a c w' e' q' t1 (job_of id t1) _ _
      (λ j found same. ne (sym moved ∙ let one : r ≡ j = cc in rw one same))
      ((transition_outcome now' id a c w' e' q' t1 id s1.keyed).holds fs')

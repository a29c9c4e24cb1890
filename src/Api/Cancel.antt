-- ===== src/Api/Cancel.antt =====
-- Who may cancel a job, and when.
use decentralized_gpu_p2p_ne.Base.{
  subst, inl, inr, ◌==◌, ℕ, Option, none, some, ◌≡◌, ◌⊎◌, refl, ==_refl, Bool-cases, sym, ==_iff,
  arith,
}
use decentralized_gpu_p2p_ne.Error.{Result, ok, err}
use decentralized_gpu_p2p_ne.Types.JobStatus.{pending, assigned, cancelled}
use decentralized_gpu_p2p_ne.Db.{Db, JobRow, Tables}
use decentralized_gpu_p2p_ne.Db.Rules.{Ensures, Post, statement_rule}
use decentralized_gpu_p2p_ne.Jobs.{transition_status, find_by_id, job_of}
use decentralized_gpu_p2p_ne.Jobs.Dated.{IsTimely}
use decentralized_gpu_p2p_ne.Jobs.Transition.{TransitionOutcome, transition_outcome}
use decentralized_gpu_p2p_ne.Http.{ApiResult, reply, refuse, of_result}
use decentralized_gpu_p2p_ne.Api.{owned, cancel_owned, cancel_job, can_cancel}

-- what `find_by_id` answers
abbrev Found : ℕ → Tables → Post (Option JobRow)
Found id t (ok o) t' = (o ≡ job_of id t) × (t' ≡ t)
Found id t (err e) t' = t' ≡ t

found : (id : ℕ) (t : Tables) → Ensures (Found id t) (find_by_id id) t
unfolding find_by_id
found id t = statement_rule _ refl (refl, refl)

module _ (user id : ℕ) (t : Tables) where
  abbrev pub CancelOutcome : ApiResult JobRow → Tables → Type 0
  CancelOutcome (reply r) t' =
      (j : JobRow) × (job_of id t ≡ some j)
      × (j.hirer_id ≡ user)
      × ((j.status ≡ pending) ⊎ (j.status ≡ assigned))
      × (job_of id t' ≡ some r)
      × (r.status ≡ cancelled)
  CancelOutcome (refuse e) t' = t' ≡ t

  cancelled_of :
      (now : ℕ) (j : JobRow)
      → job_of id t ≡ some j
      → j.hirer_id ≡ user
      → (j.status ≡ pending) ⊎ (j.status ≡ assigned)
      → (o : Option JobRow) → o ≡ some j
      → (r : Result JobRow) (t' : Tables)
      → TransitionOutcome now id j.status cancelled none none none t id o r t'
      → CancelOutcome (of_result r) t'
  cancelled_of now j e own st none q r t' h = cc
  cancelled_of now j e own st (some k) q (err x) t' h = h.0
  cancelled_of now j e own st (some k) q (ok r) t' h =
      (j, e, own, st, rw ==_refl at (h.3), h.1.status)

  after_found :
      (now : ℕ) (o : Option JobRow)
      → o ≡ job_of id t
      → IsTimely t
      → (db : Db) → db.tables ≡ t
      → CancelOutcome
          (cancel_owned now id (owned user (ok o)) db).0
          (cancel_owned now id (owned user (ok o)) db).1.tables
  after_found now none e timely db same = same
  after_found now (some j) e timely db same = elim (Bool-cases (j.hirer_id == user)) [
    | inr other ↦ rw other same
    | inl own ↦ elim (Bool-cases (can_cancel j)) [
      | inr late ↦ rw (own, late) same
      | inl early ↦
          let moved = transition_status now id j.status cancelled none none none db in
          let outcome =
            subst
              (λ u.
                TransitionOutcome now id j.status cancelled none none none u id (job_of id u)
                  moved.0 moved.1.tables)
              same
              ((transition_outcome now id j.status cancelled none none none db.tables id
                  (rw same timely.keyed)).holds
                db.faults) in
          rw (own, early)
            (cancelled_of now j (sym e) ((==_iff j.hirer_id user).0 own) (ground arith)
              (job_of id t) (sym e) moved.0 moved.1.tables outcome)
    ]
  ]

  cancel_found :
      (now : ℕ) (r : Result (Option JobRow))
      → IsTimely t
      → (db : Db) → Found id t r db.tables
      → CancelOutcome
          (cancel_owned now id (owned user r) db).0
          (cancel_owned now id (owned user r) db).1.tables
  cancel_found now (err e) timely db f = f
  cancel_found now (ok o) timely db f = after_found now o f.0 timely db f.1

-- `cancel_job`, whichever statements fail, over a sound table of jobs: it succeeds only for the hirer
-- of the job, and only on a job that is pending or assigned, which is cancelled then; where it is
-- refused, no table has changed.
pub cancel_lem :
    (now user id : ℕ) (db : Db)
    → IsTimely db.tables
    → let (r, db') = cancel_job now user id db in CancelOutcome user id db.tables r db'.tables
unfolding cancel_job
cancel_lem now user id db timely =
    let (r, db1) = find_by_id id db in
    cancel_found user id db.tables now r timely db1 ((found id db.tables).holds db.faults)

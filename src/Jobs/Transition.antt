-- ===== src/Jobs/Transition.antt =====
-- `JobRepository::transition_status` on every path.
use decentralized_gpu_p2p_ne.Base.{
  ℕ, ◌≡◌, refl, ◌≢◌, ◌⊎◌, ◌==◌, if◌then◌else◌, String, Bool, true, false, Option, some, none,
  Option-cases, Bool-cases, inl, inr, ◌∙◌, ◌⊎◌, ==_refl, ==_iff,
}
use decentralized_gpu_p2p_ne.Error.{Result, ok, err, conflict, database}
use decentralized_gpu_p2p_ne.Types.JobStatus.{
  JobStatus, status_eq, pending, assigned, running, completed, failed, cancelled,
}
use decentralized_gpu_p2p_ne.Db.{JobRow, Tables, outcome}
use decentralized_gpu_p2p_ne.Db.Rules.{Ensures, step_rule, pure_rule, fail_rule, Then}
use decentralized_gpu_p2p_ne.Jobs.{
  transition_status, transitioned, job_of, matches_job, set_jobs, or_conflict,
}
use decentralized_gpu_p2p_ne.Jobs.Rows.{
  KeyedJobs, both_found, both_absent, set_jobs_lem, any_worker, status_eq_iff, map_option, found_id,
}

-- `r` is the row `j` moved to the status `to`: a worker, an error or a result that is given takes the
-- place of the old one, and the time of the new status is `now`.
pub record IsMoved (now : ℕ) (to : JobStatus) (worker : Option ℕ) (error result : Option String)
    (j r : JobRow) : Type 0 where
  pub status : r.status ≡ to
  pub worker_given : (p : ℕ) → worker ≡ some p → r.worker_peer_id ≡ some p
  pub worker_kept : worker ≡ none → r.worker_peer_id ≡ j.worker_peer_id
  pub error_given : (m : String) → error ≡ some m → r.error_message ≡ some m
  pub error_kept : error ≡ none → r.error_message ≡ j.error_message
  pub result_given : (m : String) → result ≡ some m → r.result_path ≡ some m
  pub result_kept : result ≡ none → r.result_path ≡ j.result_path
  pub when_assigned : to ≡ assigned → r.assigned_at ≡ some now
  pub when_running : to ≡ running → r.started_at ≡ some now
  pub when_over : (to ≡ completed) ⊎ ((to ≡ failed) ⊎ (to ≡ cancelled)) → r.finished_at ≡ some now
  pub times_kept :
      to ≡ pending
      → (r.assigned_at ≡ j.assigned_at)
        × (r.started_at ≡ j.started_at)
        × (r.finished_at ≡ j.finished_at)
  pub rest_kept : r ≡ record j {
    status = r.status;
    worker_peer_id = r.worker_peer_id;
    error_message = r.error_message;
    result_path = r.result_path;
    assigned_at = r.assigned_at;
    started_at = r.started_at;
    finished_at = r.finished_at;
  }

transitioned-IsMoved :
    (now : ℕ) (to : JobStatus) (w : Option ℕ) (e q : Option String) (j : JobRow)
    → IsMoved now to w e q j (transitioned now to w e q j)
transitioned-IsMoved now to w e q j = record {
  status = refl;
  worker_given = λ p h. rw h refl;
  worker_kept = λ h. rw h refl;
  error_given = λ m h. rw h refl;
  error_kept = λ h. rw h refl;
  result_given = λ m h. rw h refl;
  result_kept = λ h. rw h refl;
  when_assigned = λ h. rw h refl;
  when_running = λ h. rw h refl;
  when_over = λ h. elim h [
    | inl done ↦ rw done refl
    | inr k ↦ elim k [ inl bad ↦ rw bad refl | inr gone ↦ rw gone refl ]
  ];
  times_kept = λ h. (rw h refl, rw h refl, rw h refl);
  rest_kept = refl;
}

module _ (now job_id : ℕ) (from_status to_status : JobStatus) (worker : Option ℕ)
    (error result : Option String) (t : Tables) (v : ℕ) where
  -- What a call has done, where the job's row was the first argument: to the row of any job `v` too.
  abbrev pub TransitionOutcome : Option JobRow → Result JobRow → Tables → Type 0
  TransitionOutcome (some j) (ok r) t' =
      (j.status ≡ from_status)
      × IsMoved now to_status worker error result j r
      × (any_worker worker t ≡ true)
      × (job_of v t' ≡ (if v == job_id then some r else job_of v t))
      × (t' ≡ record t { jobs = t'.jobs })
  TransitionOutcome (some j) (err e) t' =
      (t' ≡ t) × ((e ≡ database) ⊎ ((e ≡ conflict) × (j.status ≢ from_status)))
  TransitionOutcome none (err e) t' = (t' ≡ t) × ((e ≡ database) ⊎ (e ≡ conflict))
  TransitionOutcome none (ok r) t' = ⊥

  abbrev change : JobRow → JobRow
  change = transitioned now to_status worker error result

  -- the row of `v` after the `UPDATE`
  other_row :
      (k : Option JobRow)
      → job_of v t ≡ k
      → (v == job_id) ≡ false
      → map_option (λ j. if matches_job job_id from_status j then change j else j) k ≡ k
  other_row none e other = refl
  other_row (some k) e other =
      let own : k.id ≡ v = found_id v t.jobs k e in
      let not_hit : matches_job job_id from_status k ≡ false = rw (own, other) refl in
      rw not_hit refl

  row_after :
      (j : JobRow)
      → job_of job_id t ≡ some j
      → status_eq j.status from_status ≡ true
      → job_of v (record t { jobs = set_jobs (matches_job job_id from_status) change t.jobs })
        ≡ (if v == job_id then some (change j) else job_of v t)
  row_after j e hit =
      set_jobs_lem (matches_job job_id from_status) change (λ j. refl) v t.jobs
      ∙ elim (Bool-cases (v == job_id)) [
        | inl same ↦
            let own : (j.id == job_id) ≡ true = rw (found_id job_id t.jobs j e) (==_refl job_id) in
            rw (same, (==_iff v job_id).0 same, e, own, hit) refl
        | inr other ↦ rw other (other_row (job_of v t) refl other)
      ]

  written :
      (j : JobRow)
      → job_of job_id t ≡ some j
      → status_eq j.status from_status ≡ true
      → (c : Bool) → any_worker worker t ≡ c
      → let x =
          outcome c
            (some (change j))
            t
            (record t { jobs = set_jobs (matches_job job_id from_status) change t.jobs }) in
        Then (TransitionOutcome (some j)) or_conflict x.0 x.1
  written j e hit true known = pure_rule (change j) (
    (status_eq_iff _ _).0 hit,
    transitioned-IsMoved now to_status worker error result j,
    known,
    row_after j e hit,
    refl,
  )
  written j e hit false known = (refl, inl refl)

differs : (a b : JobStatus) → status_eq a b ≡ false → a ≢ b
differs a b miss e = let hit = (status_eq_iff a b).1 e in cc

-- `transition_status`, whichever of its statements fail, in a table of jobs with unique keys: it
-- succeeds only on a job that stands in `from_status`, if the worker that it sets is known; then it
-- returns the row with the new status, worker, texts and times, the job has that row, every other job
-- its old one, and no other table has changed. Otherwise nothing has changed, and the error is that of the
-- database, or `Conflict` where no such job exists or it stands in another status.
pub transition_outcome :
    (now job_id : ℕ) (from_status to_status : JobStatus) (worker : Option ℕ)
    (error result : Option String) (t : Tables) (v : ℕ)
    → KeyedJobs t.jobs
    → Ensures
        (TransitionOutcome now job_id from_status to_status worker error result t v
          (job_of job_id t))
        (transition_status now job_id from_status to_status worker error result)
        t
unfolding transition_status
transition_outcome now id s s' w e r t v keyed = elim (Option-cases (job_of id t)) [
  | inl missing ↦ rw missing (
      step_rule _ _ (refl, inl refl)
        (rw (both_absent id (λ k. status_eq k.status s) t.jobs missing)
          (fail_rule _ (refl, inr refl))))
  | inr (j, found) ↦ elim (Bool-cases (status_eq j.status s)) [
    | inl hit ↦ rw found (
        step_rule _ _ (refl, inl refl)
          (rw (both_found id (λ k. status_eq k.status s) t.jobs j keyed found, hit)
            (written now id s s' w e r t v j found hit _ refl)))
    | inr miss ↦ rw found (
        step_rule _ _ (refl, inl refl)
          (rw (both_found id (λ k. status_eq k.status s) t.jobs j keyed found, miss)
            (fail_rule _ (refl, inr (refl, differs j.status s miss)))))
  ]
]

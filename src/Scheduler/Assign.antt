-- ===== src/Scheduler/Assign.antt =====
-- `JobScheduler::try_assign_one` on every path.
use decentralized_gpu_p2p_ne.Base.{
  ℕ, Option, none, some, List, [], ◌∷◌, ◌++◌, ◌≡◌, ◌≢◌, ◌⊎◌, inl, inr, refl, sym, In, head?, lookup,
  insert, unwrap_or, ==_refl, Option-cases, Bool, In-filter, values, contains, not, false, true,
  arith,
}
use decentralized_gpu_p2p_ne.Error.{Result, ok, err}
use decentralized_gpu_p2p_ne.Float.{F64Ops}
use decentralized_gpu_p2p_ne.Types.JobStatus.{pending, assigned}
use decentralized_gpu_p2p_ne.Db.{Db, JobRow, Tables}
use decentralized_gpu_p2p_ne.Db.Rules.{Post, Ensures, step_rule, pure_rule, fail_rule}
use decentralized_gpu_p2p_ne.Jobs.{find_by_id, job_of}
use decentralized_gpu_p2p_ne.Jobs.Transition.{IsMoved, TransitionOutcome, transition_outcome}
use decentralized_gpu_p2p_ne.Jobs.Dated.{IsTimely}
use decentralized_gpu_p2p_ne.Matcher.{WorkerCandidate, MatchRequest, select_workers}
use decentralized_gpu_p2p_ne.Matcher.Filters.{Suits, selected_Suits}
use decentralized_gpu_p2p_ne.Scheduler.{
  Env, JobScheduler, assign, try_assign_one, build_job_assignment, assignment_of, after_transition,
  send_assignment, untried,
}
use decentralized_gpu_p2p_ne.Scheduler.Wire.{JobAssignment}

false_of_not : (b : Bool) → not b ≡ true → b ≡ false
false_of_not b h = ground arith

-- `build_job_assignment` reads the row of the job and changes nothing.
abbrev pub Built : Env → ℕ → ℕ → Tables → Post JobAssignment
Built env job p t (ok a) t' =
    (t' ≡ t) × ((row : JobRow) × (job_of job t ≡ some row) × (a ≡ assignment_of env job p row))
Built env job p t (err e) t' = t' ≡ t

pub build_outcome :
    (env : Env) (job p : ℕ) (t : Tables)
    → Ensures (Built env job p t) (build_job_assignment env job p) t
unfolding build_job_assignment find_by_id
build_outcome env job p t = step_rule _ _ refl (elim (Option-cases (job_of job t)) [
  | inl missing ↦ rw missing (fail_rule _ refl)
  | inr (row, e) ↦ rw e (pure_rule (assignment_of env job p row) (refl, (row, e, refl)))
])

module _ (env : Env) (job : ℕ) (request : MatchRequest) (s : JobScheduler) where
  -- the workers already tried
  abbrev pub tried : List ℕ
  tried = unwrap_or (lookup job s.pending) []

  abbrev pub NothingSent : JobScheduler → Type 0
  NothingSent s' = (s'.sent ≡ s.sent) × (s'.pending ≡ s.pending) × (s'.online ≡ s.online)

  -- the job `j` was sent to the worker `c`, and has the row `r` now
  pub record SentTo (c : WorkerCandidate) (j r : JobRow) (s' : JobScheduler) : Type 0 where
    pub is_online : In c (values s.online)
    pub not_tried : contains c.peer_id tried ≡ false
    pub suits : Suits request c
    pub was_pending : (job_of job s.db.tables ≡ some j) × (j.status ≡ pending)
    pub row_now :
        (job_of job s'.db.tables ≡ some r) × IsMoved env.now assigned (some c.peer_id) none none j r
    pub message : s'.sent ≡ assign c.peer_id (assignment_of env job c.peer_id r) ∷ s.sent
    pub recorded : s'.pending ≡ insert job (tried ++ (c.peer_id ∷ [])) s.pending
    pub same_online : s'.online ≡ s.online

  abbrev pub AssignOutcome : JobScheduler → Type 0
  AssignOutcome s' =
      NothingSent s' ⊎ ((c : WorkerCandidate) × (j : JobRow) × (r : JobRow) × SentTo c j r s')

  module _ (c : WorkerCandidate) (here : In c (untried job s)) (suits : Suits request c) where
    sent_of :
        (j r : JobRow)
        → job_of job s.db.tables ≡ some j
        → j.status ≡ pending
        → IsMoved env.now assigned (some c.peer_id) none none j r
        → (t : Tables) → job_of job t ≡ some r
        → (x : Result JobAssignment × Db) → Built env job c.peer_id t x.0 x.1.tables
        → AssignOutcome (send_assignment job c.peer_id x s)
    sent_of j r e st q t found (err _, db) b = inl (refl, refl, refl)
    sent_of j r e st q t found (ok a, db) (same, (row, m, n)) = inr (
      c,
      j,
      r,
      record {
        is_online = (In-filter (λ w. not (contains w.peer_id tried)) (values s.online) c here).0;
        not_tried =
            let kept = In-filter (λ w. not (contains w.peer_id tried)) (values s.online) c here in
            false_of_not (contains c.peer_id tried) kept.1;
        suits = suits;
        was_pending = (e, st);
        row_now = (rw same found, q);
        message = let one : row ≡ r = cc in rw (n, one) refl;
        recorded = refl;
        same_online = refl;
      },
    )

    moved_of :
        (o : Option JobRow) (x : Result JobRow × Db)
        → o ≡ job_of job s.db.tables
        → TransitionOutcome env.now job pending assigned
            (some c.peer_id)
            none
            none
            s.db.tables
            job
            o
            x.0
            x.1.tables
        → AssignOutcome (after_transition env job c.peer_id x s)
    moved_of none (err e, db) q h = inl (refl, refl, refl)
    moved_of none (ok r, db) q h = absurd h
    moved_of (some j) (err e, db) q h = inl (refl, refl, refl)
    moved_of (some j) (ok r, db) q h =
        sent_of j r (sym q) h.0 h.1 db.tables (rw ==_refl at (h.3)) _
          ((build_outcome env job c.peer_id db.tables).holds db.faults)

-- what `filter` and `values` let through
head-In : (xs : List ℕ) (p : ℕ) → head? xs ≡ some p → In p xs
head-In [] p e = cc
head-In (x ∷ xs) p e = inl cc

pub assign_outcome :
    (f : F64Ops) (env : Env) (job : ℕ) (request : MatchRequest) (s : JobScheduler)
    → IsTimely s.db.tables
    → AssignOutcome env job request s (try_assign_one f env job request s)
unfolding try_assign_one
assign_outcome f env job request s timely =
    elim (Option-cases (head? (select_workers f (untried job s) request))) [
      | inl none_fits ↦ rw none_fits (inl (refl, refl, refl))
      | inr (p, e) ↦
          let (c, here, same, suits) = selected_Suits f (untried job s) request p (head-In _ p e) in
          rw (e, ← same)
            (moved_of env job request s c here suits (job_of job s.db.tables) _ refl (
              (transition_outcome env.now job pending assigned (some c.peer_id) none none
                  s.db.tables job timely.keyed).holds
                s.db.faults))
    ]

-- A job that is not `pending` is not sent: it keeps the worker that it has.
pub not_pending_lem :
    (f : F64Ops) (env : Env) (job : ℕ) (request : MatchRequest) (s : JobScheduler) (j : JobRow)
    → IsTimely s.db.tables
    → job_of job s.db.tables ≡ some j
    → j.status ≢ pending
    → NothingSent env job request s (try_assign_one f env job request s)
not_pending_lem f env job request s j timely e ne =
    elim (assign_outcome f env job request s timely) [
      | inl nothing ↦ nothing
      | inr (c, k, r, sent) ↦
          let one : k ≡ j = let there = sent.was_pending.0 in cc in
          absurd (ne (rw (← one) sent.was_pending.1))
    ]

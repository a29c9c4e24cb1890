-- ===== src/P2p/Completed.antt =====
-- What a `JobCompleted` does to the tables, and that it pays nobody.
use text.Mathlib.Text.{◌==◌ as eq_text}
use decentralized_gpu_p2p_ne.Base.{
  ℕ, String, Bool, Option, none, some, List, [], ◌∷◌, ◌≡◌, ◌+◌, ◌==◌, true, false, refl, ap, ◌∙◌,
  if◌then◌else◌, Bool-cases, inl, inr,
}
use decentralized_gpu_p2p_ne.Base.Int.{ℤ, pos}
use decentralized_gpu_p2p_ne.Error.{Result, ok, err}
use decentralized_gpu_p2p_ne.Types.JobStatus.{assigned, completed, failed}
use decentralized_gpu_p2p_ne.Db.{Db, JobRow, Tables}
use decentralized_gpu_p2p_ne.Db.Rules.{Ensures, constrained_rule}
use decentralized_gpu_p2p_ne.Jobs.{job_in, append_log, job_of}
use decentralized_gpu_p2p_ne.Jobs.Dated.{IsTimely}
use decentralized_gpu_p2p_ne.Jobs.Transition.{IsMoved, TransitionOutcome, transition_outcome}
use decentralized_gpu_p2p_ne.P2p.{
  append_line, append_lines, final_status, final_error, complete_job,
}

-- the accounts, the transactions and the workers are as they were
pub record SameAccounts (t t' : Tables) : Type 0 where
  pub balances : t'.balances ≡ t.balances
  pub transactions : t'.transactions ≡ t.transactions
  pub workers : t'.workers ≡ t.workers

-- and the jobs
pub record SameJobs (t t' : Tables) : Type 0 where
  pub accounts : SameAccounts t t'
  pub jobs : t'.jobs ≡ t.jobs

same_jobs : (t : Tables) → SameJobs t t
same_jobs t = record {
  accounts = record { balances = refl; transactions = refl; workers = refl };
  jobs = refl;
}

then_same : (t u v : Tables) → SameJobs t u → SameJobs u v → SameJobs t v
then_same t u v a b = record {
  accounts = record {
    balances = b.accounts.balances ∙ a.accounts.balances;
    transactions = b.accounts.transactions ∙ a.accounts.transactions;
    workers = b.accounts.workers ∙ a.accounts.workers;
  };
  jobs = b.jobs ∙ a.jobs;
}

appended :
    (job : ℕ) (ts : ℤ) (level message : String) (t : Tables)
    → Ensures (λ r t'. SameJobs t t') (append_log job ts level message) t
unfolding append_log
appended job ts level message t = constrained_rule _ _ _ (same_jobs t) (λ _. record {
  accounts = record { balances = refl; transactions = refl; workers = refl };
  jobs = refl;
})

module _ (job now_ms : ℕ) (level : String) where
  line_keeps :
      (ts : ℕ) (line : String) (db : Db)
      → SameJobs db.tables (append_line job ts level line db).tables
  line_keeps ts line db = elim (Bool-cases (eq_text line "")) [
    | inl blank ↦ rw (append_line, blank) (same_jobs db.tables)
    | inr full ↦
        rw (append_line, full) ((appended job (pos ts) level line db.tables).holds db.faults)
  ]

  lines_keep :
      (i : ℕ) (lines : List String) (db : Db)
      → SameJobs db.tables (append_lines job now_ms level i lines db).tables
  lines_keep i [] db = same_jobs db.tables
  lines_keep i (line ∷ lines) db =
      then_same _ _ _ (line_keeps (now_ms + i) line db)
        (lines_keep (i + 1) lines (append_line job (now_ms + i) level line db))

-- what becomes of the row: a success leaves no message
abbrev pub IsEnded : ℕ → Bool → String → JobRow → JobRow → Type 0
IsEnded now true error j r = IsMoved now completed none none none j r
IsEnded now false error j r = IsMoved now failed none (some error) none j r

ended_lem :
    (now : ℕ) (success : Bool) (error : String) (j r : JobRow)
    → IsMoved now (final_status success) none (final_error success error) none j r
    → IsEnded now success error j r
ended_lem now true error j r h = h
ended_lem now false error j r h = h

module _ (now job : ℕ) (success : Bool) (error : String) (t : Tables) (v : ℕ) where
  abbrev pub CompletionOutcome : Option JobRow → Result JobRow → Tables → Type 0
  CompletionOutcome (some j) (ok r) t' =
      (j.status ≡ assigned)
      × IsEnded now success error j r
      × (job_of v t' ≡ (if v == job then some r else job_of v t))
      × SameAccounts t t'
  CompletionOutcome none (ok r) t' = ⊥
  CompletionOutcome _ (err e) t' = SameJobs t t'

  other_row : (t1 : Tables) → SameJobs t t1 → job_of v t1 ≡ job_of v t
  other_row t1 same = ap (λ js. job_in (λ j. j.id == v) js) same.jobs

  completed_of :
      (t1 : Tables)
      → SameJobs t t1
      → (o : Option JobRow) (r : Result JobRow) (t' : Tables)
      → TransitionOutcome now job assigned
          (final_status success)
          none
          (final_error success error)
          none
          t1
          v
          o
          r
          t'
      → CompletionOutcome o r t'
  completed_of t1 same (some j) (ok r) t' (was, moved, known, rows, rest) = (
    was,
    ended_lem now success error j r moved,
    rows ∙ ap (λ k. if v == job then some r else k) (other_row t1 same),
    record {
      balances = (rw rest refl) ∙ same.accounts.balances;
      transactions = (rw rest refl) ∙ same.accounts.transactions;
      workers = (rw rest refl) ∙ same.accounts.workers;
    },
  )
  completed_of t1 same none (ok r) t' h = absurd h
  completed_of t1 same (some j) (err e) t' h = rw h.0 same
  completed_of t1 same none (err e) t' h = rw h.0 same

-- A `JobCompleted`, whichever statements fail and whoever sent it, over a sound table of jobs: the job
-- is moved only from `assigned`: to `completed`, without a message, where the message reports success,
-- and else to `failed` with its message; it has the new row then, every other job its old one, and otherwise all jobs are as they were. In no case does an
-- account of Compute Units, a transaction or a worker change: the hirer is not charged and the
-- worker is not paid.
pub completion_lem :
    (now now_ms job : ℕ) (success : Bool) (error : String) (lines : List String) (db : Db) (v : ℕ)
    → IsTimely db.tables
    → let (r, db') = complete_job now now_ms job success error lines db in
      CompletionOutcome now job success error db.tables v (job_of job db.tables) r db'.tables
unfolding complete_job
completion_lem now now_ms job success error lines db v timely =
    let logged : Db = append_lines job now_ms (if success then "INFO" else "ERROR") 0 lines db in
    let same : SameJobs db.tables logged.tables =
      lines_keep job now_ms (if success then "INFO" else "ERROR") 0 lines db in
    completed_of now job success error db.tables v logged.tables same (job_of job db.tables) _ _ (
      rw (other_row now job success error db.tables job logged.tables same) at (
        (transition_outcome now job assigned (final_status success) none (final_error success error)
            none logged.tables v (rw same.jobs timely.keyed)).holds
          logged.faults))

-- ===== src/Jobs/Dated.antt =====
-- The invariant of the table `jobs`: unique keys, and a time for each status that a job has reached.
use decentralized_gpu_p2p_ne.Base.{
  ℕ, ◌≡◌, refl, String, Bool, true, false, Option, some, none, List, All, is_some, ◌&&◌, not, arith,
}
use decentralized_gpu_p2p_ne.Base.Int.{ℤ}
use decentralized_gpu_p2p_ne.Types.JobStatus.{JobStatus, assigned, running}
use decentralized_gpu_p2p_ne.Db.{JobRow, Tables, has_user}
use decentralized_gpu_p2p_ne.Db.Rules.{
  Post, Then, Ensures, step_rule, pure_rule, fail_rule, statement_rule, constrained_rule,
}
use decentralized_gpu_p2p_ne.Jobs.{
  create, transition_status, update_cu_price, transitioned, job_of, matches_job, set_jobs,
  write_row, or_conflict,
}
use decentralized_gpu_p2p_ne.Jobs.Rows.{
  KeyedJobs, set_jobs-KeyedJobs, set_jobs-All, any_worker, is_terminal, job_in,
}

pub record IsDated (j : JobRow) : Type 0 where
  pub when_assigned : j.status ≡ assigned → is_some j.assigned_at ≡ true
  pub when_running : j.status ≡ running → is_some j.started_at ≡ true
  pub when_over : is_terminal j.status ≡ true → is_some j.finished_at ≡ true

pub record IsTimely (t : Tables) : Type 0 where
  pub keyed : KeyedJobs t.jobs
  pub dated : All IsDated t.jobs

abbrev pub Timely : {A : Type 0} → Post A
Timely r t = IsTimely t

transitioned-IsDated :
    (now : ℕ) (s : JobStatus) (w : Option ℕ) (e q : Option String) (j : JobRow)
    → IsDated (transitioned now s w e q j)
transitioned-IsDated now s w e q j = record {
  when_assigned = λ h. rw h refl;
  when_running = λ h. rw h refl;
  when_over = λ h. rw h refl;
}

update_IsTimely :
    (p : JobRow → Bool) (f : JobRow → JobRow) (t : Tables)
    → ((j : JobRow) → (f j).id ≡ j.id)
    → ((j : JobRow) → IsDated j → IsDated (f j))
    → IsTimely t
    → IsTimely (record t { jobs = set_jobs p f t.jobs })
update_IsTimely p f t keep dated s = record {
  keyed = set_jobs-KeyedJobs p f keep t.jobs s.keyed;
  dated = set_jobs-All p f keep IsDated (λ j _. dated j) t.jobs s.dated;
}

free : (c : Bool) (o : Option JobRow) → (c && not (is_some o)) ≡ true → o ≡ none
free c o h = ground arith

pub create-IsTimely :
    (now id hirer : ℕ) (g : String) (m d c : Option ℤ) (t : Tables)
    → IsTimely t
    → Ensures Timely (create now id hirer g m d c) t
unfolding create
create-IsTimely now id h g m d c t s = constrained_rule _ _ _ s (λ ok_row. record {
  keyed = (free (has_user h t.users) (job_of id t) ok_row, s.keyed);
  dated =
      (record { when_assigned = λ q. cc; when_running = λ q. cc; when_over = λ q. cc }, s.dated);
})

module _ (now id : ℕ) (from to : JobStatus) (w : Option ℕ) (e q : Option String) (t : Tables)
    (s : IsTimely t) where
  written :
      (o : Option JobRow) (c : Bool)
      → any_worker w t ≡ c
      → let x = write_row (matches_job id from) (transitioned now to w e q) w t o in
        Then Timely or_conflict x.0 x.1
  written none c known = fail_rule _ s
  written (some j) true known = rw known (
      pure_rule (transitioned now to w e q j) (
        update_IsTimely (matches_job id from) (transitioned now to w e q) t (λ k. refl)
          (λ k _. transitioned-IsDated now to w e q k) s))
  written (some j) false known = rw known s

  pub transition_IsTimely : Ensures Timely (transition_status now id from to w e q) t
  unfolding transition_status
  transition_IsTimely = step_rule _ _ s (written (job_in (matches_job id from) t.jobs) _ refl)

pub price_IsTimely :
    (id : ℕ) (c : ℤ) (t : Tables) → IsTimely t → Ensures Timely (update_cu_price id c) t
unfolding update_cu_price
price_IsTimely id c t s = statement_rule _ s (
    update_IsTimely _ _ t (λ j. refl)
      (λ j d. record {
        when_assigned = d.when_assigned;
        when_running = d.when_running;
        when_over = d.when_over;
      })
      s)

-- The calls that change `jobs`, each with the failures that `faults` tells of.
pub data JobStep (t : Tables) : Tables → Type 0 where
  created :
      (faults : List Bool) (now id hirer : ℕ) (g : String) (m d c : Option ℤ)
      → JobStep t (create now id hirer g m d c (record { tables = t; faults = faults })).1.tables
  moved :
      (faults : List Bool) (now id : ℕ) (from to : JobStatus) (w : Option ℕ) (e q : Option String)
      → JobStep t
          (transition_status now id from to w e q (record { tables = t; faults = faults })).1.tables
  priced :
      (faults : List Bool) (id : ℕ) (c : ℤ)
      → JobStep t (update_cu_price id c (record { tables = t; faults = faults })).1.tables

pub data JobHistory (t : Tables) : Tables → Type 0 where
  at_start : JobHistory t t
  next : {u v : Tables} → JobHistory t u → JobStep u v → JobHistory t v

step_IsTimely : {t u : Tables} → JobStep t u → IsTimely t → IsTimely u
step_IsTimely {t} (created fs now id h g m d c) s = (create-IsTimely now id h g m d c t s).holds fs
step_IsTimely {t} (moved fs now id a b w e q) s =
    (transition_IsTimely now id a b w e q t s).holds fs
step_IsTimely {t} (priced fs id c) s = (price_IsTimely id c t s).holds fs

-- Whatever calls of `create`, `transition_status` and `update_cu_price` have been made, and
-- whichever of their statements failed: from a table of jobs with unique keys and a time for every
-- status reached, they leave such a table, that is, an `assigned` job has `assigned_at`, a
-- `running` one `started_at`, and a completed, failed or cancelled one `finished_at`.
pub history_IsTimely : {t u : Tables} → JobHistory t u → IsTimely t → IsTimely u
history_IsTimely at_start s = s
history_IsTimely (next past step) s = step_IsTimely step (history_IsTimely past s)

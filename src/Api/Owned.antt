-- ===== src/Api/Owned.antt =====
-- Who may read the result and the log of a job.
use decentralized_gpu_p2p_ne.Auth.{AuthUser}
use decentralized_gpu_p2p_ne.Api.Files.{
  Output, stream_logs, Download, archive, output_file, log_text, download_from, download_result,
  may_download,
}
use decentralized_gpu_p2p_ne.Base.Int.{ℤ, pos}
use decentralized_gpu_p2p_ne.Db.{Tables, JobRow}
use text.Mathlib.TextEquality.{eq_iff}
use decentralized_gpu_p2p_ne.Base.{
  none, some, Option, ◌≡◌, refl, inl, inr, ◌⊎◌, List, Option-cases, Bool-cases, ==_iff, true,
  String, ℕ, ◌==◌,
}
use decentralized_gpu_p2p_ne.Error.{ok, err, Result}
use decentralized_gpu_p2p_ne.Types.JobStatus.{
  JobStatus, completed, status_eq, pending, assigned, running, failed, cancelled,
}
use decentralized_gpu_p2p_ne.Jobs
use decentralized_gpu_p2p_ne.Jobs.Log.{IsLog, LogOutcome, logs_outcome}
use decentralized_gpu_p2p_ne.Jobs.{job_of}
use decentralized_gpu_p2p_ne.Http.{
  Handler, missing, await, or_refuse, ApiError, reply, refuse, of_repository, answer,
}
use decentralized_gpu_p2p_ne.Http.Rules.{
  Answers, ApiPost, await_rule, refused_rule, answer_rule, Onward,
}
use decentralized_gpu_p2p_ne.Db.Rules.{statement_rule}

-- a handler that looks up a job first
pub found_rule :
    {A : Type 0} {P : ApiPost A} (id : ℕ) (t : Tables) (body : JobRow → Handler A)
    → ((e : ApiError) → P (refuse e) t)
    → ((j : JobRow) → job_of id t ≡ some j → Answers P (body j) t)
    → Answers P (await (Jobs.find_by_id id) λ row. or_refuse row missing body) t
unfolding Jobs.find_by_id
found_rule id t body bad good = await_rule _ _ _ (
    statement_rule _ (bad _) (elim (Option-cases (job_of id t)) [
      | inl none_there ↦ rw none_there (refused_rule _ (bad missing))
      | inr (j, e) ↦ rw e (good j e)
    ]))

-- a handler that answers the log
pub log_rule :
    {B : Type 0} {P : ApiPost B} (id : ℕ) (t : Tables) (g : List (ℤ × String × String) → B)
    → ((e : ApiError) → P (refuse e) t)
    → ((logs : List (ℤ × String × String)) → IsLog id t logs → P (reply (g logs)) t)
    → Answers P (await (Jobs.get_logs_since id (pos 0) (pos 10000)) λ logs. answer (g logs)) t
log_rule {P = P} id t g bad good =
    await_rule _ _ _ (record { holds = λ faults. after _ _ ((logs_outcome id t).holds faults) })
  where
    after :
        (r : Result (List (ℤ × String × String))) (t' : Tables)
        → LogOutcome id t r t'
        → Onward of_repository P (λ logs. answer (g logs)) r t'
    after (ok logs) t' h = rw (h.0) (answer_rule _ (good logs h.1))
    after (err e) t' h = rw h (bad (of_repository e))

module _ (id : ℕ) (t : Tables) where
  -- the job is there, and is the user's
  pub record IsOwner (user : ℕ) : Type 0 where
    pub job : JobRow
    pub found : job_of id t ≡ some job
    pub owner : job.hirer_id ≡ user

  abbrev pub IsResult : Output → Download → Type 0
  IsResult output (archive bytes) = output.result_tar ≡ some (some bytes)
  IsResult output (output_file bytes) =
      (output.result_tar ≡ none) × (output.first_output ≡ some (some bytes))
  IsResult output (log_text logs) =
      (output.result_tar ≡ none) × (output.first_output ≡ none) × IsLog id t logs

  -- a completed job, of the user or before an administrator
  pub record IsReadable (user : AuthUser) : Type 0 where
    pub job : JobRow
    pub found : job_of id t ≡ some job
    pub allowed : (job.hirer_id ≡ user.user_id) ⊎ (user.role ≡ "admin")
    pub over : job.status ≡ completed

  abbrev pub DownloadOutcome : Output → AuthUser → ApiPost Download
  DownloadOutcome output user (reply d) t' = IsReadable user × IsResult output d × (t' ≡ t)
  DownloadOutcome output user (refuse e) t' = t' ≡ t

  abbrev pub LogsOutcome : ℕ → ApiPost (List (ℤ × String × String))
  LogsOutcome user (reply logs) t' = IsOwner user × IsLog id t logs × (t' ≡ t)
  LogsOutcome user (refuse e) t' = t' ≡ t

  pub logs_lem : (user : ℕ) → Answers (LogsOutcome user) (stream_logs user id) t
  unfolding stream_logs
  logs_lem user =
      found_rule id t _ (λ e. refl)
        (λ j found. elim (Bool-cases (j.hirer_id == user)) [
          | inl own ↦ rw own (
              log_rule id t (λ logs. logs) (λ e. refl)
                (λ logs is_log. (
                  record { job = j; found = found; owner = (==_iff j.hirer_id user).0 own },
                  is_log,
                  refl,
                )))
          | inr other ↦ rw other (refused_rule _ refl)
        ])

  may_lem :
      (user : AuthUser) (j : JobRow)
      → may_download user j ≡ true
      → (j.hirer_id ≡ user.user_id) ⊎ (user.role ≡ "admin")
  may_lem user j h = elim (Bool-cases (j.hirer_id == user.user_id)) [
    | inl own ↦ inl ((==_iff j.hirer_id user.user_id).0 own)
    | inr other ↦ inr ((eq_iff user.role "admin").0 (let k = (rw other at h) in k))
  ]

  completed_lem : (s : JobStatus) → status_eq s completed ≡ true → s ≡ completed
  completed_lem pending h = cc
  completed_lem assigned h = cc
  completed_lem running h = cc
  completed_lem completed h = refl
  completed_lem failed h = cc
  completed_lem cancelled h = cc

  -- what is answered, from what the disk holds
  from_disk :
      (user : AuthUser) (output : Output)
      → IsReadable user
      → (tar : Option (Option (List ℕ))) → output.result_tar ≡ tar
      → (first : Option (Option (List ℕ))) → output.first_output ≡ first
      → Answers (DownloadOutcome output user) (download_from id tar first) t
  from_disk user output r none e none k =
      log_rule id t log_text (λ x. refl) (λ logs is_log. (r, (e, k, is_log), refl))
  from_disk user output r none e (some none) k = refused_rule _ refl
  from_disk user output r none e (some (some b)) k = answer_rule _ (r, (e, k), refl)
  from_disk user output r (some none) e first k = refused_rule _ refl
  from_disk user output r (some (some b)) e first k = answer_rule _ (r, e, refl)

  pub download_lem :
      (output : Output) (user : AuthUser)
      → Answers (DownloadOutcome output user) (download_result output user id) t
  unfolding download_result
  download_lem output user =
      found_rule id t _ (λ e. refl)
        (λ j found. elim (Bool-cases (may_download user j)) [
          | inr other ↦ rw other (refused_rule _ refl)
          | inl may ↦ elim (Bool-cases (status_eq j.status completed)) [
            | inr early ↦ rw (may, early) (refused_rule _ refl)
            | inl over ↦
                rw (may, over)
                  (from_disk user output
                    (record {
                      job = j;
                      found = found;
                      allowed = may_lem user j may;
                      over = completed_lem j.status over;
                    })
                    output.result_tar refl output.first_output refl)
          ]
        ])

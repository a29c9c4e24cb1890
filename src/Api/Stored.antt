-- ===== src/Api/Stored.antt =====
-- What an upload stores, and who may do what with the files of a job.
use decentralized_gpu_p2p_ne.Auth.{AuthUser}
use decentralized_gpu_p2p_ne.Api.Files.{
  Disk, Output, stream_logs, Upload, file_field, download_result, store_field, upload_job_file,
}
use decentralized_gpu_p2p_ne.Base.Int.{ℤ, pos}
use decentralized_gpu_p2p_ne.Db.{Tables}
use decentralized_gpu_p2p_ne.Base.{
  none, some, Option, ◌≡◌, refl, inl, inr, List, Bool-cases, ==_iff, ◌∷◌, String, unwrap_or, length,
  ℕ, ◌==◌, ◌&&◌,
}
use decentralized_gpu_p2p_ne.Jobs
use decentralized_gpu_p2p_ne.Jobs.{job_of}
use decentralized_gpu_p2p_ne.Http.{await, or_refuse, reply, refuse, answer, internal_error}
use decentralized_gpu_p2p_ne.Http.Rules.{Answers, ApiPost, await_rule, refused_rule, answer_rule}
use decentralized_gpu_p2p_ne.Db.Rules.{constrained_rule}
use decentralized_gpu_p2p_ne.Api.Owned.{
  found_rule, IsOwner, DownloadOutcome, LogsOutcome, logs_lem, download_lem,
}
use decentralized_gpu_p2p_ne.Api.Files.{broken_form, no_field, broken_field, file_field}

module _ (id : ℕ) (t : Tables) where
  -- A file has been stored: one new row, of what the form holds.
  pub record IsStored (sha256 : List ℕ → String) (disk : Disk) (file_id : ℕ) (upload : Upload)
      (hash : String) (size : ℤ) (t' : Tables) : Type 0 where
    pub name : Option String
    pub data_bytes : List ℕ
    pub sent : upload ≡ file_field name data_bytes
    pub path : String
    pub placed : disk.file_path (unwrap_or name "code") ≡ some path
    pub hashed : hash ≡ sha256 data_bytes
    pub measured : size ≡ pos (length data_bytes)
    pub stored : t' ≡ record t {
      job_files =
          record {
            id = file_id;
            job_id = id;
            file_type = unwrap_or name "code";
            file_path = path;
            file_size = size;
            sha256 = hash;
          }
          ∷ t.job_files;
    }

  abbrev pub UploadOutcome : (List ℕ → String) → Disk → ℕ → ℕ → Upload → ApiPost (String × ℤ)
  UploadOutcome sha256 disk user file_id upload (reply (hash, size)) t' =
      IsOwner id t user × IsStored sha256 disk file_id upload hash size t'
  UploadOutcome sha256 disk user file_id upload (refuse e) t' = t' ≡ t

  -- the end of an upload, for a job of the user
  module _ (sha256 : List ℕ → String) (disk : Disk) (user file_id : ℕ) (upload : Upload)
      (own : IsOwner id t user) where
    placed_lem :
        (name : Option String) (bytes : List ℕ)
        → upload ≡ file_field name bytes
        → (o : Option String) → disk.file_path (unwrap_or name "code") ≡ o
        → Answers
            (UploadOutcome sha256 disk user file_id upload)
            (or_refuse o internal_error λ path.
              await
                (Jobs.insert_file file_id id
                  (unwrap_or name "code")
                  path
                  (pos (length bytes))
                  (sha256 bytes))
                λ _. answer (sha256 bytes, pos (length bytes)))
            t
    unfolding Jobs.insert_file
    placed_lem name bytes sent none e = refused_rule _ refl
    placed_lem name bytes sent (some path) e = await_rule _ _ _ (
        constrained_rule _ _ _ refl (λ _. answer_rule _ (
          own,
          record {
            name = name;
            data_bytes = bytes;
            sent = sent;
            path = path;
            placed = e;
            hashed = refl;
            measured = refl;
            stored = refl;
          },
        )))

    field_lem :
        (u : Upload)
        → upload ≡ u
        → Answers
            (UploadOutcome sha256 disk user file_id upload)
            (store_field sha256 disk file_id id u)
            t
    field_lem broken_form e = refused_rule _ refl
    field_lem no_field e = refused_rule _ refl
    field_lem broken_field e = refused_rule _ refl
    field_lem (file_field name bytes) e = elim (Bool-cases (disk.makes_directory && disk.writes)) [
      | inr full ↦ rw full (refused_rule _ refl)
      | inl written ↦
          rw written (placed_lem name bytes e (disk.file_path (unwrap_or name "code")) refl)
    ]

  upload_lem :
      (sha256 : List ℕ → String) (disk : Disk) (user file_id : ℕ) (upload : Upload)
      → Answers
          (UploadOutcome sha256 disk user file_id upload)
          (upload_job_file sha256 disk user file_id id upload)
          t
  unfolding upload_job_file
  upload_lem sha256 disk user file_id upload =
      found_rule id t _ (λ e. refl)
        (λ j found. elim (Bool-cases (j.hirer_id == user)) [
          | inl own ↦ rw own (
              field_lem sha256 disk user file_id upload
                (record { job = j; found = found; owner = (==_iff j.hirer_id user).0 own }) upload
                refl)
          | inr other ↦ rw other (refused_rule _ refl)
        ])

-- Whichever statements fail: a file of a job is taken from its hirer alone, and then `job_files` has one
-- new row, with the hash, the size and the path of what the form holds. The log of a job is answered to
-- its hirer alone: it is lines of this job that are later than 0, in the order of time, and all of them,
-- up to 10,000. The result of a job is answered to the hirer or an administrator, once the job is
-- completed: the archive that the disk holds, else the first file of the output, else this log. What is
-- refused, and what only reads, changes no table.
pub files_lem :
    (sha256 : List ℕ → String) (disk : Disk) (output : Output) (user : AuthUser) (file_id id : ℕ)
    (upload : Upload) (t : Tables)
    → Answers
        (UploadOutcome id t sha256 disk user.user_id file_id upload)
        (upload_job_file sha256 disk user.user_id file_id id upload)
        t
      × Answers (DownloadOutcome id t output user) (download_result output user id) t
      × Answers (LogsOutcome id t user.user_id) (stream_logs user.user_id id) t
files_lem sha256 disk output user file_id id upload t = (
  upload_lem id t sha256 disk user.user_id file_id upload,
  download_lem id t output user,
  logs_lem id t user.user_id,
)

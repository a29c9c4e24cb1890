-- ===== src/Api/Files.antt =====
-- crates/decentgpu-master/src/api/jobs.rs and logs.rs: the handlers that take a file of a job, and that
-- answer its result and its log. What the disk holds and lets do, and the hash, are arguments.
use text.Mathlib.Text.{◌==◌ as eq_text}
use decentralized_gpu_p2p_ne.Db.{JobRow}
use decentralized_gpu_p2p_ne.Jobs.{job_of}
use decentralized_gpu_p2p_ne.Auth.{AuthUser}
use decentralized_gpu_p2p_ne.Base.Int.{ℤ, pos}
use decentralized_gpu_p2p_ne.Http.{
  Handler, await, refused, bad_request, internal_error, or_refuse, answer, missing, forbidden,
}
use decentralized_gpu_p2p_ne.Base.{
  ℕ, List, Option, none, some, Bool, ◌||◌, ◌==◌, if◌then◌else◌, unwrap_or, length, String, ◌&&◌,
}
use decentralized_gpu_p2p_ne.Types.JobStatus.{completed, status_eq}
use decentralized_gpu_p2p_ne.Jobs

-- the first field of a form; `broken_field` is one whose bytes cannot be read
pub data Upload : Type 0 where
  broken_form no_field broken_field : Upload
  file_field : (name : Option String) (data_bytes : List ℕ) → Upload

-- what the disk lets do in the directory of the job; `file_path` is the path of `{file_type}.tar`, if it
-- is a text
pub record Disk : Type 0 where
  pub makes_directory : Bool
  pub writes : Bool
  pub file_path : String → Option String

-- the end of `upload_job_file`, for a file of a job of the user
abbrev pub store_file : (List ℕ → String) → Disk → ℕ → ℕ → String → List ℕ → Handler (String × ℤ)
store_file sha256 disk file_id id file_type data_bytes =
    if disk.makes_directory && disk.writes
    then (or_refuse (disk.file_path file_type) internal_error λ path.
        await
          (Jobs.insert_file file_id id file_type path (pos (length data_bytes)) (sha256 data_bytes))
          λ _. answer (sha256 data_bytes, pos (length data_bytes)))
    else refused internal_error

abbrev pub store_field : (List ℕ → String) → Disk → ℕ → ℕ → Upload → Handler (String × ℤ)
store_field sha256 disk file_id id broken_form = refused bad_request
store_field sha256 disk file_id id no_field = refused bad_request
store_field sha256 disk file_id id broken_field = refused bad_request
store_field sha256 disk file_id id (file_field name data_bytes) =
    store_file sha256 disk file_id id (unwrap_or name "code") data_bytes

unfoldable pub upload_job_file :
    (List ℕ → String) → Disk → ℕ → ℕ → ℕ → Upload → Handler (String × ℤ)
upload_job_file sha256 disk user file_id id upload = await (Jobs.find_by_id id) λ row.
    or_refuse row missing λ job.
      if job.hirer_id == user then store_field sha256 disk file_id id upload else refused forbidden

-- what the disk holds of the result: a file that is there may not be readable
pub record Output : Type 0 where
  pub result_tar : Option (Option (List ℕ))
  pub first_output : Option (Option (List ℕ))  -- the first entry of `output`

-- the lines of the log make the text of the last one
pub data Download : Type 0 where
  archive : List ℕ → Download
  output_file : List ℕ → Download
  log_text : List (ℤ × String × String) → Download

abbrev pub may_download : AuthUser → JobRow → Bool
may_download user job = job.hirer_id == user.user_id || eq_text user.role "admin"

abbrev pub download_log : ℕ → Handler Download
download_log id = await (Jobs.get_logs_since id (pos 0) (pos 10000)) λ logs. answer (log_text logs)

abbrev pub download_output : ℕ → Option (Option (List ℕ)) → Handler Download
download_output id none = download_log id
download_output id (some none) = refused internal_error
download_output id (some (some bytes)) = answer (output_file bytes)

abbrev pub download_from :
    ℕ → Option (Option (List ℕ)) → Option (Option (List ℕ)) → Handler Download
download_from id none first = download_output id first
download_from id (some none) first = refused internal_error
download_from id (some (some bytes)) first = answer (archive bytes)

unfoldable pub download_result : Output → AuthUser → ℕ → Handler Download
download_result output user id = await (Jobs.find_by_id id) λ row. or_refuse row missing λ job.
    if may_download user job
    then if status_eq job.status completed
      then download_from id output.result_tar output.first_output
      else refused bad_request
    else refused forbidden

unfoldable pub stream_logs : ℕ → ℕ → Handler (List (ℤ × String × String))
stream_logs user id = await (Jobs.find_by_id id) λ row. or_refuse row missing λ job.
    if job.hirer_id == user
    then (await (Jobs.get_logs_since id (pos 0) (pos 10000)) λ logs. answer logs)
    else refused forbidden

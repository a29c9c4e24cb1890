-- ===== src/Api/Tests.antt =====
-- A job that its hirer cancels, and one that a form creates.
use decentralized_gpu_p2p_ne.Api.Owned.{DownloadOutcome, LogsOutcome}
use decentralized_gpu_p2p_ne.Api.Stored.{UploadOutcome, files_lem}
use decentralized_gpu_p2p_ne.Http.Rules.{Answers}
use decentralized_gpu_p2p_ne.Auth.{AuthUser}
use decentralized_gpu_p2p_ne.Api.Files.{
  Disk, Output, file_field, upload_job_file, download_result, stream_logs,
}
use decentralized_gpu_p2p_ne.Db.Example.{example_user}
use decentralized_gpu_p2p_ne.Base.{List, [], ◌∷◌, none, some, refl, true}
use decentralized_gpu_p2p_ne.Base.Int.{pos}
use decentralized_gpu_p2p_ne.Db.{Db, JobRow}
use decentralized_gpu_p2p_ne.Jobs.{new_job}
use decentralized_gpu_p2p_ne.Jobs.Dated.{IsDated}
use decentralized_gpu_p2p_ne.Api.{
  cancel_job, create_job, Field, gpu_backend_field, memory_limit_field, code_field, built,
}
use decentralized_gpu_p2p_ne.Api.Cancel.{CancelOutcome, cancel_lem}
use decentralized_gpu_p2p_ne.Api.Create.{CreateOutcome, create_lem}

abbrev job : JobRow
job = new_job 10 5 1 "cuda" none none none

abbrev db : Db
db = record {
  tables = record {
    users = example_user 1 ∷ [];
    balances = [];
    transactions = [];
    jobs = job ∷ [];
    job_logs = [];
    job_files = [];
    workers = [];
    worker_sessions = [];
  };
  faults = [];
}

job-IsDated : IsDated job
job-IsDated = record { when_assigned = λ q. cc; when_running = λ q. cc; when_over = λ q. cc }

cancel_lem_example : let (r, db') = cancel_job 20 1 5 db in CancelOutcome 1 5 db.tables r db'.tables
cancel_lem_example = cancel_lem 20 1 5 db (record { keyed = (refl, tt); dated = (job-IsDated, tt) })

abbrev form : List Field
form = gpu_backend_field "metal" ∷ memory_limit_field (some (pos 2000)) ∷ code_field (1 ∷ []) ∷ []

create_lem_example :
    let (answer, db') = create_job 30 6 1 true built form db in
    CreateOutcome 1 db.tables answer db'.tables
create_lem_example = create_lem 30 6 1 true built form db

abbrev disk : Disk
disk = record { makes_directory = true; writes = true; file_path = λ name. some name }

abbrev output : Output
output = record { result_tar = none; first_output = some (some (7 ∷ [])) }

abbrev ada : AuthUser
ada = record { user_id = 1; email = "ada@example.com"; role = "hirer" }

files_lem_example :
    Answers
      (UploadOutcome 5 db.tables (λ bytes. "hash") disk 1 8 (file_field none (1 ∷ 2 ∷ [])))
      (upload_job_file (λ bytes. "hash") disk 1 8 5 (file_field none (1 ∷ 2 ∷ [])))
      db.tables
    × Answers (DownloadOutcome 5 db.tables output ada) (download_result output ada 5) db.tables
    × Answers (LogsOutcome 5 db.tables 1) (stream_logs 1 5) db.tables
files_lem_example =
    files_lem (λ bytes. "hash") disk output ada 8 5 (file_field none (1 ∷ 2 ∷ [])) db.tables

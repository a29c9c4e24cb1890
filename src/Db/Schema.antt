-- ===== src/Db/Schema.antt =====
-- The rows of crates/decentgpu-master/src/db/migrations. A `UUID`, a peer identifier and a time are
-- numbers; a row's columns that the program never reads back are left out.
use decentralized_gpu_p2p_ne.Base.{ℕ, String, List, [], ◌∷◌, Option, Bool, false, ◌||◌, ◌==◌}
use decentralized_gpu_p2p_ne.Base.Int.{ℤ}
use decentralized_gpu_p2p_ne.Types.JobStatus.{JobStatus}
use decentralized_gpu_p2p_ne.Types.Capabilities.{WorkerCapabilities}
use decentralized_gpu_p2p_ne.Float.{F64}

-- `compute_unit_balances`
pub record Balance : Type 0 where
  pub user_id : ℕ
  pub cu_balance : ℤ
  pub cu_reserved : ℤ

-- the words of the `CHECK` on `tx_type` since migration 005
pub data CuTxType : Type 0 where
  allocation job_debit job_credit job_refund : CuTxType

-- `compute_unit_transactions`
pub record Transaction : Type 0 where
  pub user_id : ℕ
  pub cu_amount : ℤ
  pub tx_type : CuTxType
  pub job_id : Option ℕ
  pub created_at : ℕ

-- `jobs`; the `CHECK` on `status` admits the words of `JobStatus`
pub record JobRow : Type 0 where
  pub id : ℕ
  pub hirer_id : ℕ
  pub worker_peer_id : Option ℕ
  pub status : JobStatus
  pub gpu_backend : String
  pub memory_limit_mb : Option ℤ
  pub max_duration_secs : Option ℤ
  pub cu_price : Option ℤ
  pub created_at : ℕ
  pub assigned_at : Option ℕ
  pub started_at : Option ℕ
  pub finished_at : Option ℕ
  pub error_message : Option String
  pub result_path : Option String

-- `job_logs`
pub record JobLog : Type 0 where
  pub job_id : ℕ
  pub timestamp_ms : ℤ
  pub level : String
  pub message : String

-- `job_files`; the `CHECK` on `file_type` admits the words `code`, `requirements` and `result`
pub record JobFile : Type 0 where
  pub id : ℕ
  pub job_id : ℕ
  pub file_type : String
  pub file_path : String
  pub file_size : ℤ
  pub sha256 : String

-- `workers`
pub record WorkerRow : Type 0 where
  pub peer_id : ℕ
  pub user_id : ℕ
  pub capabilities : WorkerCapabilities
  pub uptime_score : F64
  pub jobs_completed : ℤ
  pub is_online : Bool
  pub last_seen : Option ℕ
  pub registered_at : ℕ

-- `worker_sessions`
pub record WorkerSession : Type 0 where
  pub id : ℕ
  pub peer_id : ℕ
  pub connected_at : ℕ
  pub disconnected_at : Option ℕ
  pub disconnect_reason : Option String

-- `users`; since migration 006 the `CHECK` on `role` admits `admin` too
pub record User : Type 0 where
  pub id : ℕ
  pub email : String
  pub password_hash : String
  pub role : String
  pub created_at : ℕ

-- a key of `users`, as the `REFERENCES` clauses of the other tables ask for
abbrev pub has_user : ℕ → List User → Bool
has_user u [] = false
has_user u (x ∷ xs) = u == x.id || has_user u xs

pub record Tables : Type 0 where
  pub users : List User
  pub balances : List Balance
  pub transactions : List Transaction
  pub jobs : List JobRow
  pub job_logs : List JobLog
  pub job_files : List JobFile
  pub workers : List WorkerRow
  pub worker_sessions : List WorkerSession

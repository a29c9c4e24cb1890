-- ===== src/P2p.antt =====
-- crates/decentgpu-master/src/p2p/handler.rs: the loop of the master, and what the `JobCompleted` of a worker
-- does to the database. `lines` are those of the output; the peer that sent the message has no part in it.
pub mod Registration
pub mod Loop
pub mod Linked
pub mod Concern
pub mod Change
pub mod Search
pub mod Reconnect
pub mod Completed
mod Tests
use text.Mathlib.Text.{◌==◌ as eq_text}
use decentralized_gpu_p2p_ne.Base.{
  ℕ, String, Bool, Option, none, some, List, [], ◌∷◌, ◌+◌, if◌then◌else◌,
}
use decentralized_gpu_p2p_ne.Base.Int.{pos}
use decentralized_gpu_p2p_ne.Error.{Result}
use decentralized_gpu_p2p_ne.Types.JobStatus.{JobStatus, assigned, completed, failed}
use decentralized_gpu_p2p_ne.Db.{Db, JobRow}
use decentralized_gpu_p2p_ne.Jobs.{append_log, transition_status}

-- An empty line is left out, and a line that cannot be stored is passed over.
abbrev pub append_line : ℕ → ℕ → String → String → Db → Db
append_line job_id ts level line db =
    if eq_text line "" then db else (append_log job_id (pos ts) level line db).1

-- the lines of the output, from the `i`-th on, each one millisecond later
abbrev pub append_lines : ℕ → ℕ → String → ℕ → List String → Db → Db
append_lines job_id now_ms level i [] db = db
append_lines job_id now_ms level i (line ∷ lines) db =
    append_lines job_id now_ms level (i + 1) lines (append_line job_id (now_ms + i) level line db)

abbrev pub final_status : Bool → JobStatus
final_status success = if success then completed else failed

abbrev pub final_error : Bool → String → Option String
final_error success error_message = if success then none else some error_message

-- the task that a `JobCompleted` spawns: the lines, then the transition
unfoldable pub complete_job : ℕ → ℕ → ℕ → Bool → String → List String → Db → Result JobRow × Db
complete_job now now_ms job_id success error_message lines db =
    transition_status now job_id assigned (final_status success) none
      (final_error success error_message) none
      (append_lines job_id now_ms (if success then "INFO" else "ERROR") 0 lines db)

-- ===== src/Types/JobStatus.antt =====
-- `JobStatus` of crates/decentgpu-common/src/types.rs and its words.
use text.Mathlib.Text.{◌==◌}
use decentralized_gpu_p2p_ne.Base.{String, Bool, true, false, if◌then◌else◌}
use decentralized_gpu_p2p_ne.Error.{Result, ok, err, validation}

pub data JobStatus : Type 0 where
  pending assigned running completed failed cancelled : JobStatus

unfoldable pub as_str : JobStatus → String
as_str pending = "pending"
as_str assigned = "assigned"
as_str running = "running"
as_str completed = "completed"
as_str failed = "failed"
as_str cancelled = "cancelled"

unfoldable pub from_str : String → Result JobStatus
from_str s =
    if s == "pending"
    then ok pending
    else if s == "assigned"
    then ok assigned
    else if s == "running"
    then ok running
    else if s == "completed"
    then ok completed
    else if s == "failed"
    then ok failed
    else if s == "cancelled"
    then ok cancelled
    else err validation

-- the derived `==`, and the comparison of two status words in SQL
abbrev pub status_eq : JobStatus → JobStatus → Bool
status_eq pending pending = true
status_eq assigned assigned = true
status_eq running running = true
status_eq completed completed = true
status_eq failed failed = true
status_eq cancelled cancelled = true
status_eq _ _ = false

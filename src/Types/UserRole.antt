-- ===== src/Types/UserRole.antt =====
-- `UserRole` of crates/decentgpu-common/src/types.rs and its words.
use text.Mathlib.Text.{◌==◌}
use decentralized_gpu_p2p_ne.Base.{String, if◌then◌else◌}
use decentralized_gpu_p2p_ne.Error.{Result, ok, err, validation}

pub data UserRole : Type 0 where
  hirer worker both : UserRole

unfoldable pub as_str : UserRole → String
as_str hirer = "hirer"
as_str worker = "worker"
as_str both = "both"

unfoldable pub from_str : String → Result UserRole
from_str s =
    if s == "hirer"
    then ok hirer
    else if s == "worker"
    then ok worker
    else if s == "both"
    then ok both
    else err validation

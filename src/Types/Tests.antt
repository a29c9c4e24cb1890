-- ===== src/Types/Tests.antt =====
-- Runs of the enums of crates/decentgpu-common/src/types.rs, and the theorems at concrete inputs.
use decentralized_gpu_p2p_ne.Base.{◌≡◌, refl}
use decentralized_gpu_p2p_ne.Error.{err, validation}
use decentralized_gpu_p2p_ne.Types.UserRole
use decentralized_gpu_p2p_ne.Types.UserRole.{both, UserRole}

-- Migration 006 admits `admin` as a role of a user, and this parser does not know it.
admin_role : UserRole.from_str "admin" ≡ err validation
unfolding UserRole.from_str
admin_role = refl

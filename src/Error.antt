-- ===== src/Error.antt =====
-- crates/decentgpu-common/src/error.rs: the error type of all crates, and the result of a fallible
-- call. The texts that the variants carry for the log are left out.
use decentralized_gpu_p2p_ne.Base.Int.{ℤ}

pub data DecentGpuError : Type 0 where
  database : DecentGpuError
  not_found : DecentGpuError
  conflict : DecentGpuError
  insufficient_compute_units : (available required : ℤ) → DecentGpuError
  unauthorized : DecentGpuError
  validation : DecentGpuError
  p2p : DecentGpuError
  docker : DecentGpuError
  timeout : DecentGpuError
  internal : DecentGpuError
  io : DecentGpuError

pub data Result {ℓ} (A : Type ℓ) : Type ℓ where
  ok : A → Result A
  err : DecentGpuError → Result A

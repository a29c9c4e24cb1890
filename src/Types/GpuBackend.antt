-- ===== src/Types/GpuBackend.antt =====
-- `GpuBackend` of crates/decentgpu-common/src/types.rs, its words and its price multiplier.
use text.Mathlib.Text.{◌==◌}
use decentralized_gpu_p2p_ne.Base.{ℕ, String, Bool, true, false, if◌then◌else◌}
use decentralized_gpu_p2p_ne.Error.{Result, ok, err, validation}

pub data GpuBackend : Type 0 where
  cpu_only cuda metal rocm : GpuBackend

unfoldable pub as_str : GpuBackend → String
as_str cpu_only = "cpu_only"
as_str cuda = "cuda"
as_str metal = "metal"
as_str rocm = "rocm"

unfoldable pub from_str : String → Result GpuBackend
from_str s =
    if s == "cpu_only"
    then ok cpu_only
    else if s == "cuda"
    then ok cuda
    else if s == "metal"
    then ok metal
    else if s == "rocm"
    then ok rocm
    else err validation

-- the multipliers are whole numbers, written here as such
unfoldable pub price_multiplier : GpuBackend → ℕ
price_multiplier cpu_only = 1
price_multiplier cuda = 5
price_multiplier metal = 3
price_multiplier rocm = 4

-- the derived `==`
abbrev pub backend_eq : GpuBackend → GpuBackend → Bool
backend_eq cpu_only cpu_only = true
backend_eq cuda cuda = true
backend_eq metal metal = true
backend_eq rocm rocm = true
backend_eq _ _ = false

-- `s.parse().unwrap_or(GpuBackend::CpuOnly)`
abbrev pub ok_or_cpu_only : Result GpuBackend → GpuBackend
ok_or_cpu_only (ok b) = b
ok_or_cpu_only (err _) = cpu_only

-- ===== src/Types/Capabilities.antt =====
-- The structs of crates/decentgpu-common/src/types.rs: what a worker offers, what a job asks for, and
-- the pricing constants. Identifiers (`Uuid`, `PeerId`) are only compared, so they are numbers.
use decentralized_gpu_p2p_ne.Base.{ℕ, String, List}
use decentralized_gpu_p2p_ne.Base.Int.{ℤ, pos}
use decentralized_gpu_p2p_ne.Types.GpuBackend.{GpuBackend}

pub record GpuInfo : Type 0 where
  pub name : String
  pub vram_mb : ℕ  -- u64
  pub backend : GpuBackend

pub record CpuInfo : Type 0 where
  pub model : String
  pub cores : ℕ  -- u32
  pub threads : ℕ  -- u32
  pub freq_mhz : ℕ  -- u64

pub record WorkerCapabilities : Type 0 where
  pub gpus : List GpuInfo
  pub cpu : CpuInfo
  pub ram_mb : ℕ  -- u64
  pub disk_mb : ℕ  -- u64
  pub os : String
  pub worker_version : String

-- `pricing::BASE_RATE_PER_HOUR`
abbrev pub base_rate_per_hour : ℤ
base_rate_per_hour = pos 10

-- `pricing::PLATFORM_FEE_BPS`
abbrev pub platform_fee_bps : ℤ
platform_fee_bps = pos 1500

-- ===== src/Scheduler/Wire.antt =====
-- The protobuf messages that the scheduler reads and writes
-- (crates/decentgpu-proto/proto/messages.proto), and their conversions.
use text.Mathlib.Text.{◌==◌ as eq_text}
use decentralized_gpu_p2p_ne.Base.{
  ℕ, String, Option, none, some, List, [], map, ◌-◌, ◌==◌, if◌then◌else◌,
}
use decentralized_gpu_p2p_ne.Base.Int.{ℤ, pos, negsuc}
use decentralized_gpu_p2p_ne.Types.GpuBackend.{GpuBackend, cpu_only, cuda, metal, rocm}
use decentralized_gpu_p2p_ne.Types.Capabilities.{CpuInfo, WorkerCapabilities}

abbrev pub Bytes : Type 0
Bytes = List ℕ

pub record JobSpec : Type 0 where
  pub job_id : ℕ
  pub hirer_id : ℕ
  pub max_duration_secs : ℕ
  pub memory_limit_mb : ℕ
  pub cpu_limit_percent : ℕ
  pub required_backend : ℕ
  pub image_hash : String
  pub image_size_bytes : ℕ
  pub code_bytes : Bytes
  pub requirements_bytes : Bytes

pub record JobAssignment : Type 0 where
  pub spec : JobSpec
  pub master_peer_id : ℕ

pub record ProtoGpu : Type 0 where
  pub name : String
  pub vram_mb : ℕ
  pub backend : ℤ  -- i32

pub record ProtoCapabilities : Type 0 where
  pub gpus : List ProtoGpu
  pub cpu : Option CpuInfo
  pub ram_mb : ℕ
  pub disk_mb : ℕ
  pub os : String
  pub worker_version : String

-- `GpuBackend::try_from(n).unwrap_or_default()`, then the enum of the common crate
abbrev pub backend_of_number : ℤ → GpuBackend
backend_of_number (pos n) =
    if n == 1 then cuda else if n == 2 then metal else if n == 3 then rocm else cpu_only
backend_of_number (negsuc n) = cpu_only

-- the number of `required_backend` in a `JobSpec`
unfoldable pub backend_number : String → ℕ
backend_number s =
    if eq_text s "cuda"
    then 1
    else if eq_text s "metal"
    then 2
    else if eq_text s "rocm"
    then 3
    else 0

-- `n as u64` of an `i64`
abbrev pub cast_u64 : ℤ → ℕ
cast_u64 (pos n) = n
cast_u64 (negsuc n) = 18446744073709551615 - n

abbrev pub no_cpu : CpuInfo
no_cpu = record { model = ""; cores = 1; threads = 1; freq_mhz = 0 }

abbrev pub cpu_or_none : Option CpuInfo → CpuInfo
cpu_or_none none = no_cpu
cpu_or_none (some c) = c

unfoldable pub proto_caps_to_common : ProtoCapabilities → WorkerCapabilities
proto_caps_to_common caps = record {
  gpus =
      map
        (λ (g : ProtoGpu). record {
          name = g.name;
          vram_mb = g.vram_mb;
          backend = backend_of_number g.backend;
        })
        caps.gpus;
  cpu = cpu_or_none caps.cpu;
  ram_mb = caps.ram_mb;
  disk_mb = caps.disk_mb;
  os = caps.os;
  worker_version = caps.worker_version;
}

-- what a worker has that is added by its heartbeat alone
abbrev pub no_capabilities : WorkerCapabilities
no_capabilities = record {
  gpus = [];
  cpu = no_cpu;
  ram_mb = 0;
  disk_mb = 0;
  os = "";
  worker_version = "";
}

-- ===== src/P2p/Registration.antt =====
-- crates/decentgpu-master/src/p2p/handler.rs: the registration of a worker by the token of a user.
-- `crypto` and `f` stand for the crates and for the `f64` arithmetic.
use decentralized_gpu_p2p_ne.Workers.{upsert}
use decentralized_gpu_p2p_ne.Float.{F64Ops}
use decentralized_gpu_p2p_ne.Db.{Db}
use decentralized_gpu_p2p_ne.Auth.Crypto.{CryptoOps}
use decentralized_gpu_p2p_ne.Error.{Result, ok, err}
use decentralized_gpu_p2p_ne.Base.{
  ℕ, String, Bool, Option, none, some, List, [], map, true, false, unwrap_or,
}
use decentralized_gpu_p2p_ne.Types.GpuBackend
use decentralized_gpu_p2p_ne.Types.GpuBackend.{
  GpuBackend, cuda, metal, rocm, cpu_only, ok_or_cpu_only,
}
use decentralized_gpu_p2p_ne.Types.Capabilities.{GpuInfo, CpuInfo, WorkerCapabilities}
use decentralized_gpu_p2p_ne.Scheduler.Wire.{
  ProtoCapabilities, ProtoGpu, backend_of_number, cpu_or_none,
}

pub record RegisterWorker : Type 0 where
  pub jwt_token : String
  pub capabilities : Option ProtoCapabilities

-- `anyhow::Error`, by its context
pub data RegisterError : Type 0 where
  no_secret no_database invalid_token no_sub invalid_user_id upsert_failed : RegisterError

-- an empty text is none
pub record RegisterAck : Type 0 where
  pub success : Bool
  pub error : Option RegisterError
  pub user_id : Option ℕ

pub record RegistrationResult : Type 0 where
  pub peer_id : ℕ
  pub ack : RegisterAck
  pub capabilities : Option ProtoCapabilities
  pub channel : ℕ

-- what Protobuf has as the default
abbrev pub default_capabilities : ProtoCapabilities
default_capabilities = record {
  gpus = [];
  cpu = none;
  ram_mb = 0;
  disk_mb = 0;
  os = "";
  worker_version = "";
}

-- the JSON that is stored
pub record GpuJson : Type 0 where
  pub name : String
  pub vram_mb : ℕ
  pub backend : String

pub record CapabilitiesJson : Type 0 where
  pub gpus : List GpuJson
  pub cpu : Option CpuInfo  -- none is null, or no entry
  pub ram_mb : ℕ
  pub disk_mb : ℕ
  pub os : String
  pub worker_version : String

abbrev pub backend_str : GpuBackend → String
backend_str cuda = "cuda"
backend_str metal = "metal"
backend_str rocm = "rocm"
backend_str cpu_only = "cpu_only"

abbrev pub gpu_json : ProtoGpu → GpuJson
gpu_json g = record {
  name = g.name;
  vram_mb = g.vram_mb;
  backend = backend_str (backend_of_number g.backend);
}

abbrev pub json_of : ProtoCapabilities → CapabilitiesJson
json_of caps = record {
  gpus = map gpu_json caps.gpus;
  cpu = caps.cpu;
  ram_mb = caps.ram_mb;
  disk_mb = caps.disk_mb;
  os = caps.os;
  worker_version = caps.worker_version;
}

unfoldable pub serialize_capabilities : Option ProtoCapabilities → CapabilitiesJson
serialize_capabilities none = json_of default_capabilities
serialize_capabilities (some caps) = json_of caps

abbrev pub gpu_of_json : GpuJson → GpuInfo
gpu_of_json g = record {
  name = g.name;
  vram_mb = g.vram_mb;
  backend = ok_or_cpu_only (GpuBackend.from_str g.backend);
}

-- the column of a row of `workers`: capabilities stand for the JSON, with `no_cpu` for none
abbrev pub column_of : CapabilitiesJson → WorkerCapabilities
column_of j = record {
  gpus = map gpu_of_json j.gpus;
  cpu = cpu_or_none j.cpu;
  ram_mb = j.ram_mb;
  disk_mb = j.disk_mb;
  os = j.os;
  worker_version = j.worker_version;
}

-- the result of `verify_and_register_worker`
pub data Verified : Type 0 where
  verified : (user_id : ℕ) (capabilities : ProtoCapabilities) → Verified
  rejected : RegisterError → Verified

abbrev pub after_upsert : ℕ → ProtoCapabilities → Result (Unit {0}) × Db → Verified × Db
after_upsert user_id caps (ok _, db) = (verified user_id caps, db)
after_upsert user_id caps (err _, db) = (rejected upsert_failed, db)

module _ (crypto : CryptoOps) (f : F64Ops) (now : ℕ) (peer_id : ℕ)
    (capabilities : Option ProtoCapabilities) where
  abbrev pub upsert_for : ℕ → Db → Verified × Db
  upsert_for user_id db =
      let caps = unwrap_or capabilities default_capabilities in
      after_upsert user_id caps
        (upsert f now peer_id user_id (column_of (serialize_capabilities (some caps))) db)

  -- the claims are decoded; then the user that `sub` names
  abbrev pub with_user : Option ℕ → Db → Verified × Db
  with_user none db = (rejected invalid_user_id, db)
  with_user (some user_id) db = upsert_for user_id db

  abbrev pub with_claims : Option (Option String) → Db → Verified × Db
  with_claims none db = (rejected invalid_token, db)
  with_claims (some none) db = (rejected no_sub, db)
  with_claims (some (some sub)) db = with_user (crypto.parse_uuid sub) db

  -- `now_secs` is the time by which the token is judged; without a database there is none to change
  unfoldable pub verify_and_register_worker :
      ℕ → String → Option (List ℕ) → Bool → Db → Verified × Db
  unfolding serialize_capabilities
  verify_and_register_worker now_secs jwt_token none has_db db = (rejected no_secret, db)
  verify_and_register_worker now_secs jwt_token (some secret) false db = (rejected no_database, db)
  verify_and_register_worker now_secs jwt_token (some secret) true db =
      with_claims (crypto.decode_sub secret now_secs jwt_token) db

-- the answer and the capabilities that the task reports
abbrev pub result_of : ℕ → ℕ → Verified → RegistrationResult
result_of peer_id channel (verified user_id caps) = record {
  peer_id = peer_id;
  ack = record { success = true; error = none; user_id = some user_id };
  capabilities = some caps;
  channel = channel;
}
result_of peer_id channel (rejected e) = record {
  peer_id = peer_id;
  ack = record { success = false; error = some e; user_id = none };
  capabilities = none;
  channel = channel;
}

-- the task that `spawn_register_worker_task` spawns
unfoldable pub register_worker_task :
    CryptoOps
    → F64Ops
    → ℕ
    → ℕ
    → Option (List ℕ)
    → Bool
    → ℕ
    → RegisterWorker
    → ℕ
    → Db
    → RegistrationResult × Db
unfolding verify_and_register_worker
register_worker_task crypto f now now_secs jwt_secret has_db peer_id request channel db =
    let (v, db') =
      verify_and_register_worker crypto f now peer_id request.capabilities now_secs
        request.jwt_token jwt_secret has_db db in
    (result_of peer_id channel v, db')

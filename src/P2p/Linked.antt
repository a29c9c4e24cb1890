-- ===== src/P2p/Linked.antt =====
-- What the registration of a worker does to the tables, and what the loop tells the worker and the
-- scheduler of it.
use decentralized_gpu_p2p_ne.Workers.Upsert.{IsLinked, UpsertOutcome, upsert_outcome}
use decentralized_gpu_p2p_ne.P2p.Loop.{
  handle_registration, MasterEventLoop, worker_event, online, send_register_ack,
}
use decentralized_gpu_p2p_ne.Auth.Crypto.{CryptoOps}
use decentralized_gpu_p2p_ne.Base.{
  ℕ, true, Option, none, some, List, [], ◌∷◌, ◌≡◌, refl, ap, map, inl, inr, String, unwrap_or, Bool,
  false, ◌⊎◌,
}
use decentralized_gpu_p2p_ne.Error.{ok, err, Result}
use decentralized_gpu_p2p_ne.Float.{F64Ops}
use decentralized_gpu_p2p_ne.Types.GpuBackend
use decentralized_gpu_p2p_ne.Types.GpuBackend.{
  GpuBackend, cuda, metal, rocm, cpu_only, ok_or_cpu_only,
}
use decentralized_gpu_p2p_ne.Types.Capabilities.{GpuInfo}
use decentralized_gpu_p2p_ne.Db.{Tables, Db}
use decentralized_gpu_p2p_ne.Scheduler.Wire.{
  ProtoCapabilities, ProtoGpu, backend_of_number, proto_caps_to_common, cpu_or_none,
}
use decentralized_gpu_p2p_ne.P2p.Registration.{
  backend_str, column_of, json_of, gpu_of_json, gpu_json, RegisterWorker, Verified,
  serialize_capabilities, default_capabilities, verified, after_upsert, rejected, upsert_for,
  RegistrationResult, register_worker_task, verify_and_register_worker, result_of, with_user,
  with_claims,
}

-- the word that is stored is read as the backend
stored_backend : (b : GpuBackend) → ok_or_cpu_only (GpuBackend.from_str (backend_str b)) ≡ b
unfolding GpuBackend.from_str
stored_backend cuda = refl
stored_backend metal = refl
stored_backend rocm = refl
stored_backend cpu_only = refl

abbrev gpu_info : ProtoGpu → GpuInfo
gpu_info g = record { name = g.name; vram_mb = g.vram_mb; backend = backend_of_number g.backend }

stored_gpu : (g : ProtoGpu) → gpu_of_json (gpu_json g) ≡ gpu_info g
stored_gpu g =
    ap (λ (b : GpuBackend). record { name = g.name; vram_mb = g.vram_mb; backend = b })
      (stored_backend (backend_of_number g.backend))

stored_gpus : (gs : List ProtoGpu) → map gpu_of_json (map gpu_json gs) ≡ map gpu_info gs
stored_gpus [] = refl
stored_gpus (g ∷ gs) = cc (stored_gpu g, stored_gpus gs)

-- the column holds what the scheduler makes of the same message
stored_lem : (caps : ProtoCapabilities) → column_of (json_of caps) ≡ proto_caps_to_common caps
unfolding proto_caps_to_common
stored_lem caps =
    ap
      (λ (gs : List GpuInfo). record {
        gpus = gs;
        cpu = cpu_or_none caps.cpu;
        ram_mb = caps.ram_mb;
        disk_mb = caps.disk_mb;
        os = caps.os;
        worker_version = caps.worker_version;
      })
      (stored_gpus caps.gpus)

module _ (crypto : CryptoOps) (f : F64Ops) (now now_secs peer : ℕ) (jwt_secret : Option (List ℕ))
    (request : RegisterWorker) where
  abbrev pub reported : ProtoCapabilities
  reported = unwrap_or request.capabilities default_capabilities

  -- the token is good, and names the user
  pub record IsToken (user_id : ℕ) : Type 0 where
    pub secret : List ℕ
    pub configured : jwt_secret ≡ some secret
    pub sub : String
    pub decoded : crypto.decode_sub secret now_secs request.jwt_token ≡ some (some sub)
    pub parsed : crypto.parse_uuid sub ≡ some user_id

  abbrev VerifiedOutcome : Tables → Verified → Tables → Type 0
  VerifiedOutcome t (verified u c) t' =
      IsToken u × (c ≡ reported) × IsLinked f now peer u (proto_caps_to_common reported) t t'
  VerifiedOutcome t (rejected e) t' = t' ≡ t

  after_upsert_lem :
      (u : ℕ) (t : Tables) (x : Result (Unit {0}) × Db)
      → IsToken u
      → UpsertOutcome f now peer u (proto_caps_to_common reported) t x.0 x.1.tables
      → VerifiedOutcome t (after_upsert u reported x).0 (after_upsert u reported x).1.tables
  after_upsert_lem u t (ok a, db) token h = (token, refl, h)
  after_upsert_lem u t (err e, db) token h = h

  upserted :
      (u : ℕ) (db : Db)
      → IsToken u
      → VerifiedOutcome db.tables
          (upsert_for crypto f now peer request.capabilities u db).0
          (upsert_for crypto f now peer request.capabilities u db).1.tables
  unfolding serialize_capabilities
  upserted u db token = after_upsert_lem u db.tables _ token (
      rw (stored_lem reported)
        ((upsert_outcome f now peer u (proto_caps_to_common reported) db.tables).holds db.faults))

  verified_lem :
      (has_db : Bool) (db : Db)
      → let (v, db') =
          verify_and_register_worker crypto f now peer request.capabilities now_secs
            request.jwt_token jwt_secret has_db db in
        VerifiedOutcome db.tables v db'.tables
  unfolding verify_and_register_worker
  verified_lem has_db db = at_secret jwt_secret refl has_db
    where
      at_user :
          (secret : List ℕ)
          → jwt_secret ≡ some secret
          → (sub : String) → crypto.decode_sub secret now_secs request.jwt_token ≡ some (some sub)
          → (o : Option ℕ) → crypto.parse_uuid sub ≡ o
          → VerifiedOutcome db.tables
              (with_user crypto f now peer request.capabilities o db).0
              (with_user crypto f now peer request.capabilities o db).1.tables
      at_user secret e sub d none q = refl
      at_user secret e sub d (some u) q =
          upserted u db
            (record { secret = secret; configured = e; sub = sub; decoded = d; parsed = q })

      at_claims :
          (secret : List ℕ)
          → jwt_secret ≡ some secret
          → (o : Option (Option String)) → crypto.decode_sub secret now_secs request.jwt_token ≡ o
          → VerifiedOutcome db.tables
              (with_claims crypto f now peer request.capabilities o db).0
              (with_claims crypto f now peer request.capabilities o db).1.tables
      at_claims secret e none d = refl
      at_claims secret e (some none) d = refl
      at_claims secret e (some (some sub)) d = at_user secret e sub d (crypto.parse_uuid sub) refl

      at_secret :
          (o : Option (List ℕ))
          → jwt_secret ≡ o
          → (h : Bool)
          → VerifiedOutcome db.tables
              (verify_and_register_worker crypto f now peer request.capabilities now_secs
                request.jwt_token o h db).0
              (verify_and_register_worker crypto f now peer request.capabilities now_secs
                request.jwt_token o h db).1.tables
      at_secret none e h = refl
      at_secret (some secret) e false = refl
      at_secret (some secret) e true =
          at_claims secret e (crypto.decode_sub secret now_secs request.jwt_token) refl

  -- The worker is refused, or it is linked to the user and the scheduler hears of it.
  pub record IsRefused (channel : ℕ) (r : RegistrationResult) (t t' : Tables)
      (s s' : MasterEventLoop) : Type 0 where
    pub failed : r.ack.success ≡ false
    pub nobody : r.ack.user_id ≡ none
    pub unchanged : t' ≡ t
    pub told : s' ≡ record s { actions = send_register_ack channel r.ack ∷ s.actions }

  pub record IsAccepted (channel : ℕ) (r : RegistrationResult) (t t' : Tables)
      (s s' : MasterEventLoop) : Type 0 where
    pub user_id : ℕ
    pub token : IsToken user_id
    pub succeeded : r.ack ≡ record { success = true; error = none; user_id = some user_id }
    pub linked : IsLinked f now peer user_id (proto_caps_to_common reported) t t'
    pub told : s' ≡ record s {
      actions = worker_event (online peer reported) ∷ send_register_ack channel r.ack ∷ s.actions;
    }

  answered :
      (channel : ℕ) (t : Tables) (s : MasterEventLoop) (v : Verified) (t' : Tables)
      → VerifiedOutcome t v t'
      → IsRefused channel
          (result_of peer channel v)
          t
          t'
          s
          (handle_registration (result_of peer channel v) s)
        ⊎ IsAccepted channel
            (result_of peer channel v)
            t
            t'
            s
            (handle_registration (result_of peer channel v) s)
  unfolding handle_registration
  answered channel t s (verified u c) t' (token, same, linked) = inr (record {
    user_id = u;
    token = token;
    succeeded = refl;
    linked = linked;
    told = rw same refl;
  })
  answered channel t s (rejected e) t' h =
      inl (record { failed = refl; nobody = refl; unchanged = h; told = refl })

  -- The registration of a worker, whichever statements fail, and what the loop does with its result:
  -- either the answer is a failure, no table has changed, and nothing is sent but this answer; or the
  -- token of the request is good and names a user, the answer is a success with this user, the worker
  -- has a row with the capabilities that the scheduler gets, `is_online`, under its old owner if it
  -- had a row and else under this user, every other worker and every other table is as it was, and
  -- the answer is sent, and after it the notice to the scheduler.
  pub registration_lem :
      (has_db : Bool) (channel : ℕ) (db : Db) (s : MasterEventLoop)
      → let (r, db') =
          register_worker_task crypto f now now_secs jwt_secret has_db peer request channel db in
        IsRefused channel r db.tables db'.tables s (handle_registration r s)
        ⊎ IsAccepted channel r db.tables db'.tables s (handle_registration r s)
  unfolding register_worker_task
  registration_lem has_db channel db s =
      let (v, db') =
        verify_and_register_worker crypto f now peer request.capabilities now_secs request.jwt_token
          jwt_secret has_db db in
      answered channel db.tables s v db'.tables (verified_lem has_db db)

-- ===== src/Master/Joined.antt =====
-- From the request of a worker to the map of the scheduler.
use decentralized_gpu_p2p_ne.P2p.Linked.{IsAccepted, IsRefused, registration_lem}
use decentralized_gpu_p2p_ne.Workers.Upsert.{row_after}
use decentralized_gpu_p2p_ne.Base.Int.{pos}
use decentralized_gpu_p2p_ne.P2p.Registration.{RegisterWorker}
use decentralized_gpu_p2p_ne.Matcher.{WorkerCandidate}
use decentralized_gpu_p2p_ne.WorkerNode.{WorkerEventLoop}
use decentralized_gpu_p2p_ne.Scheduler.Wire.{ProtoCapabilities, proto_caps_to_common}
use decentralized_gpu_p2p_ne.Types.Capabilities.{WorkerCapabilities}
use decentralized_gpu_p2p_ne.Base.{
  inl, inr, ℕ, String, lookup, some, none, false, true, ap, ◌∙◌, ==_refl, lookup-insert, insert,
  refl, ◌∷◌, Option, ◌≡◌, List, Bool, ◌⊎◌, inl,
}
use decentralized_gpu_p2p_ne.P2p.Loop.{
  online, MasterEventLoop, worker_event, send_register_ack, handle_registration,
}
use decentralized_gpu_p2p_ne.Scheduler.Kept.{try_pending-SameOnline}
use decentralized_gpu_p2p_ne.P2p.Registration.{RegistrationResult, register_worker_task}
use decentralized_gpu_p2p_ne.WorkerNode.{
  try_register_with_master, send_register, capabilities_to_proto,
}
use decentralized_gpu_p2p_ne.Auth.Crypto.{CryptoOps}
use decentralized_gpu_p2p_ne.Db.{Tables, WorkerRow, Db}
use decentralized_gpu_p2p_ne.Workers.{worker_of}
use decentralized_gpu_p2p_ne.Master.{message_of}
use decentralized_gpu_p2p_ne.Scheduler.{Env, handle, JobScheduler}
use decentralized_gpu_p2p_ne.Float.{F64Ops}
use decentralized_gpu_p2p_ne.WorkerNode.Capabilities.{capabilities_roundtrip}

-- the request that a worker sends with its token
abbrev pub request_of_worker : String → WorkerEventLoop → RegisterWorker
request_of_worker token w = record {
  jwt_token = token;
  capabilities = some (capabilities_to_proto w.capabilities);
}

-- the candidate that a worker is, once it has joined
abbrev pub joined : F64Ops → ℕ → WorkerCapabilities → WorkerCandidate
joined f peer caps = record {
  peer_id = peer;
  capabilities = caps;
  uptime_score = f.of_i64 (pos 100);
  jobs_completed = 0;
  is_busy = false;
}

module _ (f : F64Ops) (env : Env) where
  online_lem :
      (peer : ℕ) (caps : ProtoCapabilities) (s : JobScheduler)
      → lookup peer (handle f env (message_of (online peer caps)) s).online
        ≡ some (joined f peer (proto_caps_to_common caps))
  unfolding handle message_of
  online_lem peer caps s =
      let w = joined f peer (proto_caps_to_common caps) in
      ap (lookup peer) (try_pending-SameOnline f env (record s { online = insert peer w s.online }))
      ∙ lookup-insert peer peer w s.online
      ∙ rw (==_refl peer) refl

  -- A worker has joined: the token of its request names a user, its row holds its capabilities, and the
  -- loop's last notice makes the scheduler know it, with these capabilities.
  pub record IsJoined (peer channel : ℕ) (w : WorkerEventLoop) (r : RegistrationResult)
      (t' : Tables) (m m' : MasterEventLoop) (s : JobScheduler) : Type 0 where
    pub row : WorkerRow
    pub stored : worker_of peer t' ≡ some row
    pub same_capabilities : row.capabilities ≡ w.capabilities
    pub shown_online : row.is_online ≡ true
    pub sent : ProtoCapabilities
    pub told :
        m'.actions ≡ worker_event (online peer sent) ∷ send_register_ack channel r.ack ∷ m.actions
    pub known :
        lookup peer (handle f env (message_of (online peer sent)) s).online
        ≡ some (joined f peer w.capabilities)

  sent_lem :
      (token : String) (master : ℕ) (w : WorkerEventLoop)
      → w.auth_token ≡ some token
      → w.registration_attempted ≡ false
      → (try_register_with_master master w).actions
        ≡ send_register master (request_of_worker token w) ∷ w.actions
  unfolding try_register_with_master
  sent_lem token master w has free = rw (free, has) refl

  module _ (crypto : CryptoOps) (now now_secs peer : ℕ) (jwt_secret : Option (List ℕ))
      (token : String) (w : WorkerEventLoop) where
    abbrev sent_caps : ProtoCapabilities
    sent_caps = capabilities_to_proto w.capabilities

    abbrev row_of : Tables → ℕ → Option WorkerRow → WorkerRow
    row_of t u o = row_after f now peer u (proto_caps_to_common sent_caps) t o

    row_capabilities :
        (t : Tables) (u : ℕ) (o : Option WorkerRow) → (row_of t u o).capabilities ≡ w.capabilities
    row_capabilities t u none = capabilities_roundtrip w.capabilities
    row_capabilities t u (some x) = capabilities_roundtrip w.capabilities

    row_online : (t : Tables) (u : ℕ) (o : Option WorkerRow) → (row_of t u o).is_online ≡ true
    row_online t u none = refl
    row_online t u (some x) = refl

    accepted_joins :
        (channel : ℕ) (r : RegistrationResult) (t t' : Tables) (m m' : MasterEventLoop)
        (s : JobScheduler)
        → IsAccepted crypto f now now_secs peer jwt_secret
            (request_of_worker token w)
            channel
            r
            t
            t'
            m
            m'
        → IsJoined peer channel w r t' m m' s
    accepted_joins channel r t t' m m' s h = record {
      row = row_of t h.user_id (worker_of peer t);
      stored = h.linked.row;
      same_capabilities = row_capabilities t h.user_id (worker_of peer t);
      shown_online = row_online t h.user_id (worker_of peer t);
      sent = sent_caps;
      told = ap (λ (x : MasterEventLoop). x.actions) h.told;
      known =
          online_lem peer sent_caps s
          ∙ ap (λ c. some (joined f peer c)) (capabilities_roundtrip w.capabilities);
    }

    -- A worker that has a token and has not sent it yet, and finds the master: it sends its token and its
    -- capabilities. Whichever statements of the registration fail, the master refuses it and nothing has
    -- changed, or it is accepted: then its row holds its own capabilities and is online, and the notice
    -- that the master's loop sends, the newest after the answer, makes the scheduler know the worker with
    -- just these capabilities.
    pub joined_lem :
        (master channel : ℕ) (has_db : Bool) (db : Db) (m : MasterEventLoop) (s : JobScheduler)
        → w.auth_token ≡ some token
        → w.registration_attempted ≡ false
        → let request = request_of_worker token w in
          let (r, db') =
            register_worker_task crypto f now now_secs jwt_secret has_db peer request channel db in
          let m' = handle_registration r m in
          ((try_register_with_master master w).actions ≡ send_register master request ∷ w.actions)
          × (IsRefused crypto f now now_secs peer jwt_secret request channel r db.tables db'.tables
                m m'
              ⊎ IsJoined peer channel w r db'.tables m m' s)
    joined_lem master channel has_db db m s has free = (
      sent_lem token master w has free,
      (elim (registration_lem crypto f now now_secs peer jwt_secret (request_of_worker token w)
          has_db channel db m) [
            | inl refused ↦ inl refused
            | inr accepted ↦ inr (accepted_joins channel _ db.tables _ m _ s accepted)
          ]),
    )

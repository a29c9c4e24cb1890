-- ===== src/Workers/Registered.antt =====
-- The invariant of `workers` and `worker_sessions`: a worker has one row, and every session is one of
-- a worker that has a row; and what `upsert` does to the rows.
use decentralized_gpu_p2p_ne.Base.{
  ◌==◌, ℕ, ◌≡◌, refl, String, Bool, true, Option, none, some, List, [], ◌∷◌, All, if◌then◌else◌,
  Option-cases, Bool-cases, inl, inr, is_some, arith,
}
use decentralized_gpu_p2p_ne.Float.{F64, F64Ops}
use decentralized_gpu_p2p_ne.Types.Capabilities.{WorkerCapabilities}
use decentralized_gpu_p2p_ne.Db.{WorkerRow, WorkerSession, Tables}
use decentralized_gpu_p2p_ne.Db.Rules.{Post, Ensures, statement_rule, constrained_rule}
use decentralized_gpu_p2p_ne.Workers.{
  upsert, set_online, mark_all_offline, update_uptime, increment_jobs_completed,
  record_session_start, record_session_end, set_sessions, worker_of,
}
use decentralized_gpu_p2p_ne.Workers.Rows.{set_workers, has_worker, worker_in}

abbrev pub KeyedWorkers : List WorkerRow → Type 0
KeyedWorkers [] = Unit
KeyedWorkers (w ∷ ws) = (worker_in w.peer_id ws ≡ none) × KeyedWorkers ws

-- the worker of a session has a row
abbrev pub IsKnown : List WorkerRow → WorkerSession → Type 0
IsKnown ws s = is_some (worker_in s.peer_id ws) ≡ true

pub record IsRegistered (t : Tables) : Type 0 where
  pub keyed : KeyedWorkers t.workers
  pub known : All (IsKnown t.workers) t.worker_sessions

abbrev pub Registered : {A : Type 0} → Post A
Registered r t = IsRegistered t

module _ (p : WorkerRow → Bool) (f : WorkerRow → WorkerRow)
    (keep : (w : WorkerRow) → (f w).peer_id ≡ w.peer_id) where
  abbrev pub map_worker : Option WorkerRow → Option WorkerRow
  map_worker none = none
  map_worker (some w) = some (if p w then f w else w)

  pub set_workers_lem :
      (v : ℕ) (ws : List WorkerRow) → worker_in v (set_workers p f ws) ≡ map_worker (worker_in v ws)
  set_workers_lem v [] = refl
  set_workers_lem v (w ∷ ws) = ground (arith, keep w, set_workers_lem v ws)

  set_workers-Keyed : (ws : List WorkerRow) → KeyedWorkers ws → KeyedWorkers (set_workers p f ws)
  set_workers-Keyed [] h = tt
  set_workers-Keyed (w ∷ ws) h =
      ground (arith, keep w, set_workers-Keyed ws h.1, set_workers_lem w.peer_id ws)

  still_some : (o : Option WorkerRow) → is_some (map_worker o) ≡ is_some o
  still_some none = refl
  still_some (some w) = refl

  still-IsKnown :
      (ws : List WorkerRow) (ss : List WorkerSession)
      → All (IsKnown ws) ss
      → All (IsKnown (set_workers p f ws)) ss
  still-IsKnown ws [] h = tt
  still-IsKnown ws (s ∷ ss) h = (
    rw (set_workers_lem s.peer_id ws, still_some (worker_in s.peer_id ws)) h.0,
    still-IsKnown ws ss h.1,
  )

  update-IsRegistered :
      (t : Tables)
      → IsRegistered t
      → IsRegistered (record t { workers = set_workers p f t.workers })
  update-IsRegistered t s = record {
    keyed = set_workers-Keyed t.workers s.keyed;
    known = still-IsKnown t.workers t.worker_sessions s.known;
  }

IsKnown-with :
    (w : WorkerRow) (ws : List WorkerRow) (ss : List WorkerSession)
    → All (IsKnown ws) ss
    → All (IsKnown (w ∷ ws)) ss
IsKnown-with w ws [] h = tt
IsKnown-with w ws (s ∷ ss) h = (more, IsKnown-with w ws ss h.1)
  where
    more : IsKnown (w ∷ ws) s
    more = let old = h.0 in ground arith

ended-IsKnown :
    (ws : List WorkerRow) (q : WorkerSession → Bool) (f : WorkerSession → WorkerSession)
    → ((s : WorkerSession) → (f s).peer_id ≡ s.peer_id)
    → (ss : List WorkerSession) → All (IsKnown ws) ss
    → All (IsKnown ws) (set_sessions q f ss)
ended-IsKnown ws q f keep [] h = tt
ended-IsKnown ws q f keep (s ∷ ss) h = elim (Bool-cases (q s)) [
  | inl hit ↦ rw hit (rw (keep s) h.0, ended-IsKnown ws q f keep ss h.1)
  | inr miss ↦ rw miss (h.0, ended-IsKnown ws q f keep ss h.1)
]

upsert-IsRegistered :
    (f : F64Ops) (now p u : ℕ) (c : WorkerCapabilities) (t : Tables)
    → IsRegistered t
    → Ensures Registered (upsert f now p u c) t
unfolding upsert
upsert-IsRegistered f now p u c t s = constrained_rule _ _ _ s (λ _.
    elim (Option-cases (worker_of p t)) [
      | inl new ↦ rw new (record {
        keyed = (new, s.keyed);
        known = IsKnown-with _ t.workers t.worker_sessions s.known;
      })
      | inr (w, e) ↦ rw e (update-IsRegistered (has_worker p) _ (λ x. refl) t s)
    ])

-- The calls that change `workers` or `worker_sessions`, each with any failures.
pub data WorkerStep (f : F64Ops) (t : Tables) : Tables → Type 0 where
  upserted :
      (faults : List Bool) (now p u : ℕ) (c : WorkerCapabilities)
      → WorkerStep f t (upsert f now p u c (record { tables = t; faults = faults })).1.tables
  switched :
      (faults : List Bool) (now p : ℕ) (online : Bool)
      → WorkerStep f t (set_online now p online (record { tables = t; faults = faults })).1.tables
  all_offline :
      (faults : List Bool)
      → WorkerStep f t (mark_all_offline (record { tables = t; faults = faults })).1.tables
  uptime_updated :
      (faults : List Bool) (p : ℕ) (score : F64)
      → WorkerStep f t (update_uptime p score (record { tables = t; faults = faults })).1.tables
  job_counted :
      (faults : List Bool) (p : ℕ)
      → WorkerStep f t
          (increment_jobs_completed p (record { tables = t; faults = faults })).1.tables
  session_started :
      (faults : List Bool) (now id p : ℕ)
      → WorkerStep f t
          (record_session_start now id p (record { tables = t; faults = faults })).1.tables
  session_ended :
      (faults : List Bool) (now id : ℕ) (reason : Option String)
      → WorkerStep f t
          (record_session_end now id reason (record { tables = t; faults = faults })).1.tables

pub data WorkerHistory (f : F64Ops) (t : Tables) : Tables → Type 0 where
  at_start : WorkerHistory f t t
  next : {u v : Tables} → WorkerHistory f t u → WorkerStep f u v → WorkerHistory f t v

step-IsRegistered : (f : F64Ops) {t u : Tables} → WorkerStep f t u → IsRegistered t → IsRegistered u
unfolding set_online mark_all_offline update_uptime increment_jobs_completed record_session_start
    record_session_end
step-IsRegistered f {t} (upserted fs now p u c) s = (upsert-IsRegistered f now p u c t s).holds fs
step-IsRegistered f {t} (switched fs now p o) s =
    (statement_rule {P = Registered} _ s
        (update-IsRegistered (has_worker p) _ (λ w. refl) t s)).holds
      fs
step-IsRegistered f {t} (all_offline fs) s =
    (statement_rule {P = Registered} _ s (update-IsRegistered (λ w. true) _ (λ w. refl) t s)).holds
      fs
step-IsRegistered f {t} (uptime_updated fs p score) s =
    (statement_rule {P = Registered} _ s
        (update-IsRegistered (has_worker p) _ (λ w. refl) t s)).holds
      fs
step-IsRegistered f {t} (job_counted fs p) s =
    (constrained_rule _ _ _ {P = Registered} s
        (λ _. update-IsRegistered (has_worker p) _ (λ w. refl) t s)).holds
      fs
step-IsRegistered f {t} (session_started fs now id p) s =
    (constrained_rule _ _ _ {P = Registered} s
        (λ there. record { keyed = s.keyed; known = (there, s.known) })).holds
      fs
step-IsRegistered f {t} (session_ended fs now id reason) s =
    (statement_rule {P = Registered} _ s (record {
      keyed = s.keyed;
      known =
          ended-IsKnown t.workers (λ x. x.id == id)
            (λ x. record x { disconnected_at = some now; disconnect_reason = reason }) (λ x. refl)
            t.worker_sessions s.known;
    })).holds
      fs

-- Whatever calls of the repository of workers have been made, in whatever order and whichever of
-- their statements failed: from tables in which each worker has one row and every session belongs to
-- a worker that has one, they lead to such tables.
pub history-IsRegistered :
    (f : F64Ops) {t u : Tables} → WorkerHistory f t u → IsRegistered t → IsRegistered u
history-IsRegistered f at_start s = s
history-IsRegistered f (next past step) s = step-IsRegistered f step (history-IsRegistered f past s)

-- ===== src/Master/Updater.antt =====
-- The task that keeps the column `is_online` implements the last word of the P2P loop on each worker.
use decentralized_gpu_p2p_ne.Master.{record_event, record_events}
use decentralized_gpu_p2p_ne.Workers.{set_online, worker_of, set_workers, has_worker}
use decentralized_gpu_p2p_ne.Db.{Tables, WorkerRow, statement, Db}
use decentralized_gpu_p2p_ne.Base.{
  [], List, ◌∷◌, ℕ, true, false, Bool, ◌≡◌, refl, if_cases, ◌==◌, some, ap, ◌∙◌, if◌then◌else◌, sym,
}
use decentralized_gpu_p2p_ne.Workers.Registered.{set_workers_lem, map_worker}
use decentralized_gpu_p2p_ne.Workers.Upsert.{key_of}
use decentralized_gpu_p2p_ne.P2p.Loop.{WorkerEvent, online, offline, heartbeat_of}

-- whom a notice is about, and whether it is online then
abbrev pub peer_of : WorkerEvent → ℕ
peer_of (online p caps) = p
peer_of (offline p) = p
peer_of (heartbeat_of p uptime busy jobs) = p

abbrev pub says_online : WorkerEvent → Bool
says_online (online p caps) = true
says_online (offline p) = false
says_online (heartbeat_of p uptime busy jobs) = true

-- the last word on a worker
abbrev pub last_word : ℕ → List (ℕ × WorkerEvent) → Bool → Bool
last_word p [] before = before
last_word p ((now, e) ∷ rest) before =
    last_word p rest (if p == peer_of e then says_online e else before)

-- The worker has a row, which shows it online or not.
pub record IsShown (p : ℕ) (online_now : Bool) (t : Tables) : Type 0 where
  pub row : WorkerRow
  pub found : worker_of p t ≡ some row
  pub shown : row.is_online ≡ online_now

module _ (p q now : ℕ) (is_on : Bool) (t : Tables) where
  abbrev set_row : WorkerRow → WorkerRow
  set_row w = record w { is_online = is_on; last_seen = if is_on then some now else w.last_seen }

  row-IsShown :
      (w : WorkerRow)
      → worker_of p t ≡ some w
      → IsShown p
          (if p == q then is_on else w.is_online)
          (record t { workers = set_workers (has_worker q) set_row t.workers })
  row-IsShown w e = record {
    row = if w.peer_id == q then set_row w else w;
    found =
        set_workers_lem (has_worker q) set_row (λ x. refl) p t.workers
        ∙ ap (map_worker (has_worker q) set_row (λ x. refl)) e;
    shown =
        let same : (p == q) ≡ (w.peer_id == q) = ap (λ x. x == q) (sym (key_of p t.workers w e)) in
        if_cases (λ (x : WorkerRow). x.is_online ≡ (if p == q then is_on else w.is_online))
          (w.peer_id == q) (set_row w) w (λ h. rw (same ∙ h) refl) (λ h. rw (same ∙ h) refl);
  }

module _ (p now : ℕ) (db : Db) (w : WorkerRow) (sound : db.faults ≡ [])
    (found : worker_of p db.tables ≡ some w) where
  set-IsShown :
      (q : ℕ) (is_on : Bool)
      → IsShown p (if p == q then is_on else w.is_online) (set_online now q is_on db).1.tables
  unfolding set_online statement
  set-IsShown q is_on = rw sound (row-IsShown p q now is_on db.tables w found)

  event-IsShown :
      (e : WorkerEvent)
      → IsShown p
          (if p == peer_of e then says_online e else w.is_online)
          (record_event now e db).tables
  unfolding record_event
  event-IsShown (online q caps) = set-IsShown q true
  event-IsShown (offline q) = set-IsShown q false
  event-IsShown (heartbeat_of q uptime busy jobs) = set-IsShown q true

event_sound :
    (now : ℕ) (e : WorkerEvent) (db : Db) → db.faults ≡ [] → (record_event now e db).faults ≡ []
unfolding record_event set_online statement
event_sound now (online q caps) db sound = rw sound refl
event_sound now (offline q) db sound = rw sound refl
event_sound now (heartbeat_of q uptime busy jobs) db sound = rw sound refl

events-IsShown :
    (p : ℕ) (events : List (ℕ × WorkerEvent)) (db : Db) (before : Bool)
    → db.faults ≡ []
    → IsShown p before db.tables
    → IsShown p (last_word p events before) (record_events events db).tables
unfolding record_events
events-IsShown p [] db before sound h = h
events-IsShown p ((now, e) ∷ rest) db before sound h =
    let next = event-IsShown p now db h.row sound h.found e in
    events-IsShown p rest (record_event now e db) (if p == peer_of e then says_online e else before)
      (event_sound now e db sound)
      (record {
        row = next.row;
        found = next.found;
        shown = next.shown ∙ ap (λ b. if p == peer_of e then says_online e else b) h.shown;
      })

-- As far as no statement fails: once the task has taken up any notices, in their order, a worker that
-- had a row has one, and it is shown online or not by the last notice that is about it, and as before
-- where none is.
pub updater_lem :
    (p : ℕ) (events : List (ℕ × WorkerEvent)) (t : Tables) (w : WorkerRow)
    → worker_of p t ≡ some w
    → IsShown p
        (last_word p events w.is_online)
        (record_events events (record { tables = t; faults = [] })).tables
updater_lem p events t w found =
    events-IsShown p events _ w.is_online refl (record { row = w; found = found; shown = refl })

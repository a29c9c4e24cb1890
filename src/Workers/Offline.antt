-- ===== src/Workers/Offline.antt =====
-- The start of the master: after `mark_all_offline` no worker is listed as online.
use decentralized_gpu_p2p_ne.Base.{
  ℕ, ◌≡◌, refl, Bool, true, false, List, [], ◌∷◌, filter, length, ap, sort_by,
}
use decentralized_gpu_p2p_ne.Error.{Result, ok, err, database}
use decentralized_gpu_p2p_ne.Float.{F64Ops}
use decentralized_gpu_p2p_ne.Db.{WorkerRow, Tables, Db}
use decentralized_gpu_p2p_ne.Db.Rules.{Post, Ensures, statement_rule}
use decentralized_gpu_p2p_ne.Workers.{
  mark_all_offline, list_online, count_online, by_score_and_jobs,
}
use decentralized_gpu_p2p_ne.Workers.Rows.{set_workers}

abbrev all_off : List WorkerRow → List WorkerRow
all_off ws = set_workers (λ w. true) (λ w. record w { is_online = false }) ws

none_online : (ws : List WorkerRow) → filter (λ (w : WorkerRow). w.is_online) (all_off ws) ≡ []
none_online [] = refl
none_online (w ∷ ws) = none_online ws

-- every worker off, and nothing else changed
abbrev pub OfflineOutcome : Tables → Post ℕ
OfflineOutcome t (ok n) t' =
    (n ≡ length t.workers) × (t' ≡ record t { workers = all_off t.workers })
OfflineOutcome t (err e) t' = (e ≡ database) × (t' ≡ t)

offline_outcome : (t : Tables) → Ensures (OfflineOutcome t) mark_all_offline t
unfolding mark_all_offline
offline_outcome t = statement_rule _ (refl, refl) (refl, refl)

-- the answer is this one, or the error of the database
abbrev pub Answers : {A : Type 0} → A → Result A → Type 0
Answers a (ok x) = x ≡ a
Answers a (err e) = e ≡ database

listed :
    (f : F64Ops) (t : Tables) (faults : List Bool)
    → filter (λ (w : WorkerRow). w.is_online) t.workers ≡ []
    → Answers [] (list_online f (record { tables = t; faults = faults })).0
unfolding list_online
listed f t fs e =
    (statement_rule {P = λ (r : Result (List WorkerRow)) _. Answers {A = List WorkerRow} [] r} _
        {t = t} refl (ap (sort_by (by_score_and_jobs f)) e)).holds
      fs

counted :
    (t : Tables) (faults : List Bool)
    → filter (λ (w : WorkerRow). w.is_online) t.workers ≡ []
    → Answers 0 (count_online (record { tables = t; faults = faults })).0
unfolding count_online
counted t fs e =
    (statement_rule {P = λ (r : Result ℕ) _. Answers {A = ℕ} 0 r} _ {t = t} refl
        (ap length e)).holds
      fs

tables_after :
    (t : Tables) (n : ℕ) (x : Result ℕ × Db)
    → x.0 ≡ ok n
    → OfflineOutcome t x.0 x.1.tables
    → x.1.tables ≡ record t { workers = all_off t.workers }
tables_after t n (ok m, db) e h = h.1
tables_after t n (err m, db) e h = cc

-- After a `mark_all_offline` that succeeds, whatever the workers were, `list_online` answers the
-- empty list and `count_online` answers 0, or they fail with the error of the database.
pub none_after_offline :
    (f : F64Ops) (t : Tables) (faults faults' : List Bool) (n : ℕ)
    → let (x, db) = mark_all_offline (record { tables = t; faults = faults }) in
      let now_db : Db = record { tables = db.tables; faults = faults' } in
      x ≡ ok n → Answers [] (list_online f now_db).0 × Answers 0 (count_online now_db).0
none_after_offline f t fs fs' n x =
    let t1 = (mark_all_offline (record { tables = t; faults = fs })).1.tables in
    let after : t1 ≡ record t { workers = all_off t.workers } =
      tables_after t n (mark_all_offline (record { tables = t; faults = fs })) x
        ((offline_outcome t).holds fs) in
    let none_left : filter (λ (w : WorkerRow). w.is_online) t1.workers ≡ [] =
      rw after (none_online t.workers) in
    (listed f t1 fs' none_left, counted t1 fs' none_left)

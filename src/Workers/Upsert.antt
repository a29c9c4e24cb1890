-- ===== src/Workers/Upsert.antt =====
-- What `upsert` does to the row of a worker, and what it leaves.
use decentralized_gpu_p2p_ne.Base.{
  ℕ, true, Option, none, some, List, [], ◌∷◌, ◌≡◌, ◌≢◌, refl, ◌∙◌, ◌==◌, Bool-cases, Option-cases,
  inl, inr, ==_iff, ==_ne, ==_refl, sym,
}
use decentralized_gpu_p2p_ne.Base.Int.{pos}
use decentralized_gpu_p2p_ne.Error.{ok, err}
use decentralized_gpu_p2p_ne.Float.{F64Ops}
use decentralized_gpu_p2p_ne.Types.Capabilities.{WorkerCapabilities}
use decentralized_gpu_p2p_ne.Db.{Tables, WorkerRow}
use decentralized_gpu_p2p_ne.Db.Rules.{Ensures, Post, constrained_rule}
use decentralized_gpu_p2p_ne.Workers.{upsert, worker_of, worker_in, set_workers, has_worker}
use decentralized_gpu_p2p_ne.Workers.Registered.{set_workers_lem, map_worker}

pub key_of :
    (peer : ℕ) (ws : List WorkerRow) (w : WorkerRow) → worker_in peer ws ≡ some w → w.peer_id ≡ peer
key_of peer [] w h = cc
key_of peer (x ∷ ws) w h = elim (Bool-cases (x.peer_id == peer)) [
  | inl here ↦
      let e : x ≡ w = (let g = (rw here at h) in cc) in rw (sym e) ((==_iff x.peer_id peer).0 here)
  | inr there ↦ key_of peer ws w (rw there at h)
]

module _ (f : F64Ops) (now peer user_id : ℕ) (caps : WorkerCapabilities) (t : Tables) where
  -- the row of the worker: a new one is the user's, and one that was there keeps its owner
  abbrev pub row_after : Option WorkerRow → WorkerRow
  row_after none = record {
    peer_id = peer;
    user_id = user_id;
    capabilities = caps;
    uptime_score = f.of_i64 (pos 100);
    jobs_completed = pos 0;
    is_online = true;
    last_seen = some now;
    registered_at = now;
  }
  row_after (some w) = record w { capabilities = caps; is_online = true; last_seen = some now }

  pub record IsLinked (t' : Tables) : Type 0 where
    pub row : worker_of peer t' ≡ some (row_after (worker_of peer t))
    pub others : (v : ℕ) → v ≢ peer → worker_of v t' ≡ worker_of v t
    pub rest : t' ≡ record t { workers = t'.workers }

  abbrev pub UpsertOutcome : Post (Unit {0})
  UpsertOutcome (ok _) t' = IsLinked t'
  UpsertOutcome (err e) t' = t' ≡ t

  fresh-IsLinked :
      worker_of peer t ≡ none → IsLinked (record t { workers = row_after none ∷ t.workers })
  fresh-IsLinked new = record {
    row = rw (new, ==_refl peer) refl;
    others = λ v other. let apart = ==_ne peer v (λ e. other (sym e)) in rw apart refl;
    rest = refl;
  }

  abbrev renewed : WorkerRow → WorkerRow
  renewed w = record w { capabilities = caps; is_online = true; last_seen = some now }

  old-IsLinked :
      (w : WorkerRow)
      → worker_of peer t ≡ some w
      → IsLinked (record t { workers = set_workers (has_worker peer) renewed t.workers })
  old-IsLinked w e = record {
    row =
        let hit : (w.peer_id == peer) ≡ true = rw (key_of peer t.workers w e) (==_refl peer) in
        rw (set_workers_lem (has_worker peer) renewed (λ x. refl) peer t.workers, e, hit) refl;
    others = λ v other.
        set_workers_lem (has_worker peer) renewed (λ x. refl) v t.workers
        ∙ untouched v other (worker_in v t.workers) (key_of v t.workers);
    rest = refl;
  }
    where
      untouched :
          (v : ℕ)
          → v ≢ peer
          → (o : Option WorkerRow) → ((x : WorkerRow) → o ≡ some x → x.peer_id ≡ v)
          → map_worker (has_worker peer) renewed (λ x. refl) o ≡ o
      untouched v other none key = refl
      untouched v other (some x) key =
          let apart = ==_ne x.peer_id peer (λ q. other (sym (key x refl) ∙ q)) in rw apart refl

  pub upsert_outcome : Ensures UpsertOutcome (upsert f now peer user_id caps) t
  unfolding upsert
  upsert_outcome = constrained_rule _ _ _ refl (λ _. elim (Option-cases (worker_of peer t)) [
    | inl new ↦ rw new (fresh-IsLinked new)
    | inr (w, e) ↦ rw e (old-IsLinked w e)
  ])

-- ===== src/Workers/Rows.antt =====
-- The rows of `workers` under the clauses of crates/decentgpu-master/src/db/workers.rs.
use Prim.Native.Nat.{Ordering}
use decentralized_gpu_p2p_ne.Base.{
  ℕ, Bool, true, false, not, ◌&&◌, ◌||◌, Option, none, some, List, [], ◌∷◌, ltb, ◌==◌,
  if◌then◌else◌,
}
use decentralized_gpu_p2p_ne.Base.Int.{ltb_ℤ}
use decentralized_gpu_p2p_ne.Float.{F64Ops, F64}
use decentralized_gpu_p2p_ne.Db.{WorkerRow, Tables}

-- `WHERE peer_id = …`
abbrev pub has_worker : ℕ → WorkerRow → Bool
has_worker peer_id w = w.peer_id == peer_id

abbrev pub worker_in : ℕ → List WorkerRow → Option WorkerRow
worker_in p [] = none
worker_in p (w ∷ ws) = let rest = worker_in p ws in if w.peer_id == p then some w else rest

abbrev pub worker_of : ℕ → Tables → Option WorkerRow
worker_of p t = worker_in p t.workers

-- `SET` on the rows that a clause picks
abbrev pub set_workers :
    (WorkerRow → Bool) → (WorkerRow → WorkerRow) → List WorkerRow → List WorkerRow
set_workers p change [] = []
set_workers p change (w ∷ ws) = (if p w then change w else w) ∷ set_workers p change ws

-- `a` is greater than `b`
abbrev pub greater : F64Ops → F64 → F64 → Bool
greater f a b = elim (f.partial_cmp a b) [
  | none ↦ false
  | some o ↦ elim o [ Ordering.gt ↦ true | _ ↦ false ]
]

-- `ORDER BY uptime_score DESC, jobs_completed DESC`: `a` goes before `b`
abbrev pub by_score_and_jobs : F64Ops → WorkerRow → WorkerRow → Bool
by_score_and_jobs f a b =
    greater f a.uptime_score b.uptime_score
    || (not (greater f b.uptime_score a.uptime_score) && ltb_ℤ b.jobs_completed a.jobs_completed)

-- `ORDER BY is_online DESC, uptime_score DESC`
abbrev pub by_online : F64Ops → WorkerRow → WorkerRow → Bool
by_online f a b =
    if a.is_online
    then not b.is_online || greater f a.uptime_score b.uptime_score
    else not b.is_online && greater f a.uptime_score b.uptime_score

-- `ORDER BY registered_at DESC`
abbrev pub registered_later : WorkerRow → WorkerRow → Bool
registered_later a b = ltb b.registered_at a.registered_at

-- ===== src/Workers/Calls.antt =====
-- The calls of crates/decentgpu-master/src/db/workers.rs that change `workers` or `worker_sessions`, and
-- what they tell of one worker.
use decentralized_gpu_p2p_ne.Base.Int.{ℤ, ◌+ℤ◌, pos}
use decentralized_gpu_p2p_ne.Workers.{
  set_online, mark_all_offline, upsert, worker_of, update_uptime, increment_jobs_completed,
  record_session_start, record_session_end,
}
use decentralized_gpu_p2p_ne.Types.Capabilities.{WorkerCapabilities}
use decentralized_gpu_p2p_ne.Float.{F64Ops, F64}
use decentralized_gpu_p2p_ne.Error.{Result, ok, err}
use decentralized_gpu_p2p_ne.Base.{
  none, [], ◌∷◌, Option, List, some, ℕ, Bool, false, if◌then◌else◌, true, ◌==◌, String,
}
use decentralized_gpu_p2p_ne.Db.{Query, WorkerRow, Db, Tables}

-- What the row of a worker says after any calls of crates/decentgpu-master/src/db/workers.rs.

-- what a row says of its worker, without its capabilities and its score
pub record Standing : Type 0 where
  pub owner : ℕ
  pub since : ℕ
  pub online : Bool
  pub jobs : ℤ

abbrev pub standing : WorkerRow → Standing
standing w = record {
  owner = w.user_id;
  since = w.registered_at;
  online = w.is_online;
  jobs = w.jobs_completed;
}

abbrev pub standing_in : Option WorkerRow → Option Standing
standing_in none = none
standing_in (some w) = some (standing w)

abbrev pub standing_of : ℕ → Tables → Option Standing
standing_of p t = standing_in (worker_of p t)

-- the calls that change `workers` or `worker_sessions`
pub data Call : Type 0 where
  upserts : (now peer user : ℕ) → WorkerCapabilities → Call
  switches : (now peer : ℕ) → Bool → Call
  marks_offline : Call
  scores : (peer : ℕ) → F64 → Call
  counts : (peer : ℕ) → Call
  starts : (now id peer : ℕ) → Call
  ends : (now id : ℕ) → Option String → Call

abbrev pub at_peer : (p q : ℕ) → (Standing → Standing) → Option Standing → Option Standing
at_peer p q g none = none
at_peer p q g (some v) = some (if p == q then g v else v)

abbrev pub joins : (p now q user : ℕ) → Option Standing → Option Standing
joins p now q user none =
    if p == q
    then some (record { owner = user; since = now; online = true; jobs = pos 0 })
    else none
joins p now q user (some v) = some (if p == q then record v { online = true } else v)

abbrev pub leaves : Option Standing → Option Standing
leaves none = none
leaves (some v) = some (record v { online = false })

-- what a call that succeeds tells of the worker `p`
abbrev pub tells : ℕ → Call → Option Standing → Option Standing
tells p (upserts now q user caps) v = joins p now q user v
tells p (switches now q is_on) v = at_peer p q (λ s. record s { online = is_on }) v
tells p marks_offline v = leaves v
tells p (scores q score) v = v
tells p (counts q) v = at_peer p q (λ s. record s { jobs = s.jobs +ℤ pos 1 }) v
tells p (starts now id q) v = v
tells p (ends now id reason) v = v

-- whether a call succeeds, and the tables after it
abbrev pub succeeds : {A : Type 0} → Result A × Db → Bool × Tables
succeeds (ok a, db) = (true, db.tables)
succeeds (err e, db) = (false, db.tables)

abbrev pub made : {A : Type 0} → Query A → List Bool → Tables → Bool × Tables
made q faults t = succeeds (q (record { tables = t; faults = faults }))

unfoldable pub perform : F64Ops → List Bool → Call → Tables → Bool × Tables
perform f faults (upserts now p u caps) t = made (upsert f now p u caps) faults t
perform f faults (switches now p is_on) t = made (set_online now p is_on) faults t
perform f faults marks_offline t = made mark_all_offline faults t
perform f faults (scores p score) t = made (update_uptime p score) faults t
perform f faults (counts p) t = made (increment_jobs_completed p) faults t
perform f faults (starts now id p) t = made (record_session_start now id p) faults t
perform f faults (ends now id reason) t = made (record_session_end now id reason) faults t

-- the tables after the calls, each with its failures
abbrev pub perform_all : F64Ops → List (List Bool × Call) → Tables → Tables
perform_all f [] t = t
perform_all f ((faults, c) ∷ rest) t = perform_all f rest (perform f faults c t).1

-- what the calls tell of the worker `p`: those that succeed, one after another
abbrev pub tell_all :
    F64Ops → ℕ → List (List Bool × Call) → Tables → Option Standing → Option Standing
tell_all f p [] t v = v
tell_all f p ((faults, c) ∷ rest) t v =
    let (good, t') = perform f faults c t in tell_all f p rest t' (if good then tells p c v else v)

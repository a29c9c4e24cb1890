-- ===== src/Workers.antt =====
-- crates/decentgpu-master/src/db/workers.rs: the methods of `WorkerRepository` as calls of the database. A
-- generated key is an argument, as `now` is; a worker's capabilities stand for the JSON that the column
-- holds. `f` stands for the `f64` arithmetic of the program and of the database.
mod Rows
mod Tests
pub mod Registered
pub mod Upsert
pub mod Calls
pub mod Standing
pub mod Filters
pub mod Filtered
pub mod Offline
pub use Rows.{worker_of, worker_in, has_worker, set_workers}
use Prim.Native.Nat.{Ordering}
use decentralized_gpu_p2p_ne.Base.{
  ℕ, ◌+◌, String, Bool, true, false, not, ◌&&◌, ◌||◌, ◌-◌, Option, none, some, List, [], ◌∷◌,
  filter, length, ltb, ◌==◌, if◌then◌else◌, contains, is_some, any, head?, sort_by, unwrap_or,
}
use decentralized_gpu_p2p_ne.Base.Int.{ℤ, pos, ◌+ℤ◌, ◌-ℤ◌, leb_ℤ, fits_i64}
use decentralized_gpu_p2p_ne.Error.{Result, ok, err}
use decentralized_gpu_p2p_ne.Float.{F64, F64Ops}
use decentralized_gpu_p2p_ne.Types.GpuBackend.{GpuBackend, backend_eq}
use decentralized_gpu_p2p_ne.Types.Capabilities.{WorkerCapabilities, GpuInfo}
use decentralized_gpu_p2p_ne.Db.{
  paged, WorkerRow, WorkerSession, Tables, Query, statement, constrained, select, ◌>>=◌, pure,
  has_user,
}
use Rows.{by_score_and_jobs, by_online, registered_later}

-- `INSERT … ON CONFLICT (peer_id) DO UPDATE`; the owner of a row that is there stays
unfoldable pub upsert : F64Ops → ℕ → ℕ → ℕ → WorkerCapabilities → Query (Unit {0})
upsert f now peer_id user_id capabilities =
    constrained (λ t. is_some (worker_of peer_id t) || has_user user_id t.users) tt
      (λ t.
        if is_some (worker_of peer_id t)
        then record t {
          workers =
              set_workers (has_worker peer_id)
                (λ w. record w {
                  capabilities = capabilities;
                  is_online = true;
                  last_seen = some now;
                })
                t.workers;
        }
        else record t {
          workers =
              record {
                peer_id = peer_id;
                user_id = user_id;
                capabilities = capabilities;
                uptime_score = f.of_i64 (pos 100);
                jobs_completed = pos 0;
                is_online = true;
                last_seen = some now;
                registered_at = now;
              }
              ∷ t.workers;
        })

-- `UPDATE workers SET … WHERE …`
abbrev update_workers : (WorkerRow → Bool) → (WorkerRow → WorkerRow) → Query (Unit {0})
update_workers p change =
    statement (λ t. (ok tt, record t { workers = set_workers p change t.workers }))

unfoldable pub set_online : ℕ → ℕ → Bool → Query (Unit {0})
set_online now peer_id online =
    update_workers (has_worker peer_id)
      (λ w. record w { is_online = online; last_seen = if online then some now else w.last_seen })

unfoldable pub mark_all_offline : Query ℕ
mark_all_offline = statement (λ t. (
  ok (length t.workers),
  record t { workers = set_workers (λ w. true) (λ w. record w { is_online = false }) t.workers },
))

unfoldable pub update_uptime : ℕ → F64 → Query (Unit {0})
update_uptime peer_id uptime_score =
    update_workers (has_worker peer_id) (λ w. record w { uptime_score = uptime_score })

-- the new counter must fit a `bigint`
unfoldable pub increment_jobs_completed : ℕ → Query (Unit {0})
unfolding ◌+ℤ◌
increment_jobs_completed peer_id =
    constrained
      (λ t.
        not
          (any (λ w. has_worker peer_id w && not (fits_i64 (w.jobs_completed +ℤ pos 1))) t.workers))
      tt
      (λ t. record t {
        workers =
            set_workers (has_worker peer_id)
              (λ w. record w { jobs_completed = w.jobs_completed +ℤ pos 1 }) t.workers;
      })

unfoldable pub list_online : F64Ops → Query (List WorkerRow)
list_online f =
    select (λ t. sort_by (by_score_and_jobs f) (filter (λ (w : WorkerRow). w.is_online) t.workers))

unfoldable pub list_all_workers : F64Ops → Query (List WorkerRow)
list_all_workers f = select (λ t. sort_by (by_online f) t.workers)

unfoldable pub count_online : Query ℕ
count_online = select (λ t. length (filter (λ (w : WorkerRow). w.is_online) t.workers))

-- the worker must be known
unfoldable pub record_session_start : ℕ → ℕ → ℕ → Query ℕ
record_session_start now id peer_id =
    constrained (λ t. is_some (worker_of peer_id t)) id
      (λ t. record t {
        worker_sessions =
            record {
              id = id;
              peer_id = peer_id;
              connected_at = now;
              disconnected_at = none;
              disconnect_reason = none;
            }
            ∷ t.worker_sessions;
      })

abbrev pub set_sessions :
    (WorkerSession → Bool)
    → (WorkerSession → WorkerSession)
    → List WorkerSession
    → List WorkerSession
set_sessions p change [] = []
set_sessions p change (s ∷ ss) = (if p s then change s else s) ∷ set_sessions p change ss

unfoldable pub record_session_end : ℕ → ℕ → Option String → Query (Unit {0})
record_session_end now session_id reason = statement (λ t. (
  ok tt,
  record t {
    worker_sessions =
        set_sessions (λ s. s.id == session_id)
          (λ s. record s { disconnected_at = some now; disconnect_reason = reason })
          t.worker_sessions;
  },
))

-- `INTERVAL '30 days'`, in microseconds
abbrev pub thirty_days : ℕ
thirty_days = 2592000000000

-- the sessions of the worker that began within the last thirty days
abbrev pub recent : ℕ → ℕ → WorkerSession → Bool
recent now peer_id s = s.peer_id == peer_id && ltb now (s.connected_at + thirty_days)

-- the sum of the lengths of the sessions, in microseconds; one that goes on lasts until `now`
abbrev pub connected_time : ℕ → List WorkerSession → ℤ
connected_time now [] = pos 0
connected_time now (s ∷ ss) =
    pos (unwrap_or s.disconnected_at now) -ℤ pos s.connected_at +ℤ connected_time now ss

unfoldable pub calculate_uptime_score : F64Ops → ℕ → ℕ → Query F64
unfolding ◌+ℤ◌ ◌-ℤ◌
calculate_uptime_score f now peer_id = do
  time ← select (λ t. connected_time now (filter (recent now peer_id) t.worker_sessions))
  let connected = f.div (f.of_i64 time) (f.of_i64 (pos 1000000))
  let window = f.of_i64 (pos 2592000)
  pure (f.min (f.mul (f.div connected window) (f.of_i64 (pos 100))) (f.of_i64 (pos 100)))

unfoldable pub find_by_peer_id : ℕ → Query (Option WorkerRow)
find_by_peer_id peer_id = select (worker_of peer_id)

unfoldable pub find_by_user_id : ℕ → Query (Option WorkerRow)
find_by_user_id user_id = select (λ t.
    head? (sort_by registered_later (filter (λ (w : WorkerRow). w.user_id == user_id) t.workers)))

unfoldable pub count_total : Query ℕ
count_total = select (λ t. length t.workers)

-- ===== src/Api/Nodes.antt =====
-- crates/decentgpu-master/src/api/workers.rs: the handlers that answer workers.
use decentralized_gpu_p2p_ne.Types.Capabilities.{WorkerCapabilities}
use decentralized_gpu_p2p_ne.Workers.{find_by_peer_id, find_by_user_id}
use decentralized_gpu_p2p_ne.Base.Int.{ℤ, pos}
use decentralized_gpu_p2p_ne.Http.{Handler, await, answer, or_refuse, missing}
use decentralized_gpu_p2p_ne.Workers.Filters.{JsonText, list_with_filters}
use decentralized_gpu_p2p_ne.Auth.{AuthUser}
use decentralized_gpu_p2p_ne.Float.{F64Ops, F64}
use decentralized_gpu_p2p_ne.Db.{Query, WorkerRow}
use decentralized_gpu_p2p_ne.Credits.{clamp, at_least}
use decentralized_gpu_p2p_ne.Base.{Option, none, some, ℕ, Bool, List, String, map, unwrap_or, false}

pub record WorkerSummary : Type 0 where
  pub peer_id : ℕ
  pub is_online : Bool
  pub uptime_score : F64
  pub jobs_completed : ℤ
  pub capabilities : WorkerCapabilities
  pub last_seen : Option ℕ

-- `WorkerSummary::from`
abbrev pub summary_of : WorkerRow → WorkerSummary
summary_of w = record {
  peer_id = w.peer_id;
  is_online = w.is_online;
  uptime_score = w.uptime_score;
  jobs_completed = w.jobs_completed;
  capabilities = w.capabilities;
  last_seen = w.last_seen;
}

abbrev summaries : Option (Query (List WorkerRow)) → Option (Handler (List WorkerSummary))
summaries none = none
summaries (some q) = some (await q λ rows. answer (map summary_of rows))

-- none: the handler panics
unfoldable pub list_workers :
    F64Ops
    → JsonText
    → Option String
    → Option ℤ
    → Option Bool
    → Option ℤ
    → Option ℤ
    → Option (Handler (List WorkerSummary))
list_workers f json backend min_vram_mb online_only limit offset = summaries (
    list_with_filters f json backend min_vram_mb (unwrap_or online_only false)
      (clamp (unwrap_or limit (pos 50)) (pos 1) (pos 200))
      (at_least (unwrap_or offset (pos 0)) (pos 0)))

unfoldable pub get_my_worker : AuthUser → Handler WorkerSummary
get_my_worker user =
    await (find_by_user_id user.user_id) λ row. or_refuse row missing λ w. answer (summary_of w)

unfoldable pub get_worker_by_peer_id : ℕ → Handler WorkerSummary
get_worker_by_peer_id peer_id =
    await (find_by_peer_id peer_id) λ row. or_refuse row missing λ w. answer (summary_of w)

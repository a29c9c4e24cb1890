-- ===== src/Master.antt =====
-- crates/decentgpu-master/src/main.rs: the notices of the P2P loop, as they go both to the scheduler and
-- to the task that keeps the column `is_online`. Either one takes up its notices in their order.
pub mod Joined
pub mod Updater
mod Tests
use decentralized_gpu_p2p_ne.Workers.{set_online}
use decentralized_gpu_p2p_ne.Db.{Db}
use decentralized_gpu_p2p_ne.Base.{[], List, ◌∷◌, ℕ, true, false}
use decentralized_gpu_p2p_ne.P2p.Loop.{WorkerEvent, online, offline, heartbeat_of}
use decentralized_gpu_p2p_ne.Scheduler.{Message, worker_online, worker_offline, heartbeat}

-- the notice as `JobScheduler::run` takes it up
unfoldable pub message_of : WorkerEvent → Message
message_of (online peer_id capabilities) = worker_online peer_id capabilities
message_of (offline peer_id) = worker_offline peer_id
message_of (heartbeat_of peer_id uptime is_busy jobs) = heartbeat peer_id uptime is_busy jobs

-- the task that keeps the table: an error is only logged
unfoldable pub record_event : ℕ → WorkerEvent → Db → Db
record_event now (heartbeat_of peer_id uptime is_busy jobs) db = (set_online now peer_id true db).1
record_event now (online peer_id capabilities) db = (set_online now peer_id true db).1
record_event now (offline peer_id) db = (set_online now peer_id false db).1

-- its loop, over the notices and their times
unfoldable pub record_events : List (ℕ × WorkerEvent) → Db → Db
unfolding record_event
record_events [] db = db
record_events ((now, e) ∷ rest) db = record_events rest (record_event now e db)

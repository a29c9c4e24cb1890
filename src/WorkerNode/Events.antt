-- ===== src/WorkerNode/Events.antt =====
-- crates/decentgpu-worker/src/p2p/handler.rs: the events that `WorkerEventLoop` takes up, and what it asks
-- for and sends.
use decentralized_gpu_p2p_ne.Base.{ℕ, String, Bool, Option, List}
use decentralized_gpu_p2p_ne.Float.{F64}
use decentralized_gpu_p2p_ne.Scheduler.Wire.{JobSpec}
use decentralized_gpu_p2p_ne.P2p.Registration.{RegisterWorker}
use decentralized_gpu_p2p_ne.P2p.Loop.{JobCompleted}

pub record JobResult : Type 0 where
  pub job_id : String
  pub success : Bool
  pub output : String

-- the answer to an assignment; an empty identifier is none
pub record AssignmentAck : Type 0 where
  pub job_id : Option ℕ
  pub accepted : Bool
  pub reason : String

pub record HeartBeat : Type 0 where
  pub peer_id : ℕ
  pub uptime_percent : F64
  pub is_busy : Bool
  pub jobs_completed : ℕ

pub data Action : Type 0 where
  dial_bootstrap : (addr : ℕ) → Action
  dial_master : (addr : String) → Action
  rendezvous_register : (node ttl : ℕ) → Action
  autonat_add_server : (peer_id addr : ℕ) → Action
  kademlia_add_address : (peer_id addr : ℕ) → Action
  kademlia_bootstrap : Action
  add_external_address : (addr : ℕ) → Action
  send_completed : (master : ℕ) (completed : JobCompleted) → Action
  send_register : (master : ℕ) (request : RegisterWorker) → Action
  send_ack : (channel : ℕ) (ack : AssignmentAck) → Action
  offer_job : (spec : Option JobSpec) → Action  -- `job_tx.try_send`
  publish : HeartBeat → Action

pub data SwarmEvent : Type 0 where
  connection_closed : (peer_id : ℕ) → SwarmEvent
  external_addr_confirmed : SwarmEvent
  -- `connected`: whether the swarm is connected to the master that is known
  rendezvous_registered : (ttl : ℕ) (connected : Bool) → SwarmEvent
  rendezvous_expired : SwarmEvent
  -- `assignment`: none where the bytes are no assignment; `room`: whether the queue takes a job
  job_request : (channel : ℕ) (assignment : Option (Option JobSpec)) (room : Bool) → SwarmEvent
  identify_received :
      (peer_id : ℕ) (agent : String) (observed_addr : ℕ) (listen_addrs : List ℕ) → SwarmEvent
  logged_event : SwarmEvent  -- any event that is only logged

-- what `select!` takes up
pub data Input : Type 0 where
  swarm : SwarmEvent → Input
  heartbeat_tick : Input
  job_result : JobResult → Input
  reregister_fires : Input
  reconnect_fires : Input
  shutdown : Input

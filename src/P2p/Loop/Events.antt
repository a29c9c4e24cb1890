-- ===== src/P2p/Loop/Events.antt =====
-- crates/decentgpu-master/src/p2p/handler.rs: the events that `MasterEventLoop` takes up, and what it asks
-- for and sends.
use decentralized_gpu_p2p_ne.Base.{ℕ, String, Bool, Option, List}
use decentralized_gpu_p2p_ne.Float.{F64}
use decentralized_gpu_p2p_ne.Scheduler.{JobCommand}
use decentralized_gpu_p2p_ne.Scheduler.Wire.{JobAssignment, ProtoCapabilities}
use decentralized_gpu_p2p_ne.P2p.Registration.{RegisterWorker, RegisterAck, RegistrationResult}

pub data WorkerEvent : Type 0 where
  online : (peer_id : ℕ) (capabilities : ProtoCapabilities) → WorkerEvent
  offline : (peer_id : ℕ) → WorkerEvent
  heartbeat_of : (peer_id : ℕ) (uptime : F64) (is_busy : Bool) (jobs_completed : ℕ) → WorkerEvent

pub record JobCompleted : Type 0 where
  pub job_id : String
  pub success : Bool
  pub error_message : String
  pub duration_secs : ℕ
  pub result_size_bytes : ℕ
  pub output : String

-- the payloads of an envelope that the loop tells apart
pub data Payload : Type 0 where
  register_worker : RegisterWorker → Payload
  job_completed : JobCompleted → Payload
  heartbeat : (uptime : F64) (is_busy : Bool) (jobs_completed : ℕ) → Payload
  another_payload : Payload

pub record JobAck : Type 0 where
  pub job_id : String
  pub accepted : Bool
  pub reason : String

pub data Action : Type 0 where
  dial_bootstrap : (addr : ℕ) → Action
  dial_worker : (peer_id : ℕ) (addrs : List ℕ) → Action
  rendezvous_register : (node ttl : ℕ) → Action
  rendezvous_discover : (node : ℕ) → Action
  autonat_add_server : (peer_id addr : ℕ) → Action
  kademlia_add_address : (peer_id addr : ℕ) → Action
  kademlia_bootstrap : Action
  add_external_address : (addr : ℕ) → Action
  send_request : (peer_id : ℕ) (job : JobAssignment) → Action
  send_job_ack : (channel : ℕ) (ack : JobAck) → Action
  send_register_ack : (channel : ℕ) (ack : RegisterAck) → Action
  spawn_register : (peer_id : ℕ) (request : RegisterWorker) (channel : ℕ) → Action
  spawn_complete : (completed : JobCompleted) → Action
  worker_event : WorkerEvent → Action

-- the events of the swarm, those of its behaviours among them
pub data SwarmEvent : Type 0 where
  connection_established : (peer_id : ℕ) (dialer : Bool) → SwarmEvent
  connection_closed : (peer_id num_established : ℕ) → SwarmEvent
  outgoing_connection_error : (peer_id : Option ℕ) → SwarmEvent
  external_addr_confirmed : SwarmEvent
  rendezvous_registered : (ttl : ℕ) → SwarmEvent
  rendezvous_register_failed : SwarmEvent
  rendezvous_discovered : (registrations : List (ℕ × List ℕ)) → SwarmEvent
  gossip_message :
      (propagation_source : ℕ) (source : Option ℕ) (payload : Option Payload) → SwarmEvent
  gossip_unsubscribed : (peer_id : ℕ) → SwarmEvent
  job_request : (peer_id channel : ℕ) (payload : Option Payload) → SwarmEvent
  identify_received : (peer_id observed_addr : ℕ) (listen_addrs : List ℕ) → SwarmEvent
  logged_event : SwarmEvent  -- any event that is only logged

-- what `select!` takes up
pub data Input : Type 0 where
  swarm : SwarmEvent → Input
  command : (c : Option JobCommand) → Input  -- none: the channel is closed
  registration : RegistrationResult → Input
  reregister_fires : Input
  reconnect_fires : (accepted : Bool) → Input
  shutdown : Input

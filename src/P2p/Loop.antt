-- ===== src/P2p/Loop.antt =====
-- crates/decentgpu-master/src/p2p/handler.rs: `MasterEventLoop`, its state and what it does on every
-- event. Times are in seconds. An address is a number, as is the channel of an answer. What
-- `Envelope::decode` makes of the bytes of a message is a part of the event, and so is whether a dial is
-- accepted. What the loop asks of libp2p, and what it sends and spawns, is a list of actions, the newest
-- first; whether a channel has room for a message is up to its receiver.
mod State
mod Events
use Prim.Native.Nat.{min}
use decentralized_gpu_p2p_ne.Base.{
  ℕ, ◌+◌, ◌*◌, ◌/◌, ◌%◌, ◌^◌, String, Bool, true, false, Option, none, some, List, [], ◌∷◌, ◌==◌,
  if◌then◌else◌, is_some, unwrap_or, head?,
}
use decentralized_gpu_p2p_ne.Float.{F64}
use decentralized_gpu_p2p_ne.Scheduler.{JobCommand, assign, cancel}
use decentralized_gpu_p2p_ne.Scheduler.Wire.{JobAssignment, ProtoCapabilities}
use decentralized_gpu_p2p_ne.P2p.Registration.{
  RegisterWorker, RegisterAck, RegistrationResult, default_capabilities,
}
pub use decentralized_gpu_p2p_ne.P2p.Loop.Events.{
  WorkerEvent, online, offline, heartbeat_of, JobCompleted, Payload, register_worker, job_completed,
  heartbeat, another_payload, JobAck, Action, dial_bootstrap, dial_worker, rendezvous_register,
  rendezvous_discover, autonat_add_server, kademlia_add_address, kademlia_bootstrap,
  add_external_address, send_request, send_job_ack, send_register_ack, spawn_register,
  spawn_complete, worker_event, SwarmEvent, connection_established, connection_closed,
  outgoing_connection_error, external_addr_confirmed, rendezvous_registered,
  rendezvous_register_failed, rendezvous_discovered, gossip_message, gossip_unsubscribed,
  job_request, identify_received, logged_event, Input, swarm, command, registration,
  reregister_fires, reconnect_fires, shutdown,
}
pub use decentralized_gpu_p2p_ne.P2p.Loop.State.{
  rendezvous_ttl, reconnect_delay, far_future_secs, MasterEventLoop, act,
}
unfoldable pub use decentralized_gpu_p2p_ne.P2p.Loop.State.{new_loop}

-- the delay before the next attempt
unfoldable pub delay_secs : ℕ → ℕ
delay_secs attempts = min 30 (2 ^ min attempts 4)

abbrev pub is_peer : ℕ → Option ℕ → Bool
is_peer p none = false
is_peer p (some q) = p == q

unfoldable pub on_bootstrap_identified : ℕ → ℕ → MasterEventLoop → MasterEventLoop
on_bootstrap_identified peer_id addr s = act kademlia_bootstrap (
    act (rendezvous_discover peer_id) (
      act (rendezvous_register peer_id rendezvous_ttl) (
        act (kademlia_add_address peer_id addr)
          (act (autonat_add_server peer_id addr) (record s { bootstrap_peer_id = some peer_id })))))

abbrev pub register_with : Option ℕ → MasterEventLoop → MasterEventLoop
register_with none s = s
register_with (some node) s = act (rendezvous_register node rendezvous_ttl) s

unfoldable pub do_reregister : MasterEventLoop → MasterEventLoop
do_reregister s = register_with s.bootstrap_peer_id s

unfoldable pub handle_job_command : JobCommand → MasterEventLoop → MasterEventLoop
handle_job_command (assign peer_id job) s = act (send_request peer_id job) s
handle_job_command (cancel peer_id job_id) s = s

abbrev pub dial_all : List (ℕ × List ℕ) → MasterEventLoop → MasterEventLoop
dial_all [] s = s
dial_all ((peer_id, addrs) ∷ rs) s = dial_all rs (act (dial_worker peer_id addrs) s)

abbrev pub add_all : ℕ → List ℕ → MasterEventLoop → MasterEventLoop
add_all peer_id [] s = s
add_all peer_id (addr ∷ addrs) s = add_all peer_id addrs (act (kademlia_add_address peer_id addr) s)

-- `None` stands for bytes that are no envelope; only a heartbeat has an effect
unfoldable pub handle_gossip_message :
    ℕ → Option ℕ → Option Payload → MasterEventLoop → MasterEventLoop
handle_gossip_message propagation_source source none s = s
handle_gossip_message propagation_source source (some (heartbeat uptime is_busy jobs)) s =
    act (worker_event (heartbeat_of (unwrap_or source propagation_source) uptime is_busy jobs)) s
handle_gossip_message propagation_source source (some (register_worker r)) s = s
handle_gossip_message propagation_source source (some (job_completed c)) s = s
handle_gossip_message propagation_source source (some another_payload) s = s

-- the answer to a request that is no registration and no completion
abbrev pub rejection : String → JobAck
rejection reason = record { job_id = ""; accepted = false; reason = reason }

-- a request of a peer
unfoldable pub handle_request : ℕ → ℕ → Option Payload → MasterEventLoop → MasterEventLoop
handle_request peer channel none s =
    act (send_job_ack channel (rejection "master does not accept requests")) s
handle_request peer channel (some (register_worker r)) s = act (spawn_register peer r channel) s
handle_request peer channel (some (job_completed c)) s =
    act (send_job_ack channel (record { job_id = c.job_id; accepted = true; reason = "" }))
      (act (spawn_complete c) s)
handle_request peer channel (some (heartbeat _ _ _)) s =
    act (send_job_ack channel (rejection "unexpected request type")) s
handle_request peer channel (some another_payload) s =
    act (send_job_ack channel (rejection "unexpected request type")) s

unfoldable pub handle_established : Bool → MasterEventLoop → MasterEventLoop
handle_established dialer s =
    if is_some s.bootstrap_peer_id
    then s
    else if dialer
    then record s { reconnect_attempts = 0; reconnecting = false }
    else s

-- the next attempt after the delay
abbrev pub schedule : ℕ → MasterEventLoop → MasterEventLoop
schedule now s = record s {
  reconnecting = false;
  reconnect = now + delay_secs s.reconnect_attempts;
}

unfoldable pub handle_closed : ℕ → ℕ → ℕ → MasterEventLoop → MasterEventLoop
unfolding delay_secs
handle_closed now peer_id num_established s =
    if is_peer peer_id s.bootstrap_peer_id
    then (if num_established == 0 then schedule now s else s)
    else act (worker_event (offline peer_id)) s

-- `peer_id.is_none() || peer_id == self.bootstrap_peer_id`
abbrev pub concerns_bootstrap : Option ℕ → Option ℕ → Bool
concerns_bootstrap none b = true
concerns_bootstrap (some p) b = is_peer p b

unfoldable pub handle_outgoing_error : ℕ → Option ℕ → MasterEventLoop → MasterEventLoop
unfolding delay_secs
handle_outgoing_error now peer_id s =
    if concerns_bootstrap peer_id s.bootstrap_peer_id then schedule now s else s

-- The first peer that identifies itself is taken for the bootstrap node.
unfoldable pub handle_identify : ℕ → ℕ → List ℕ → MasterEventLoop → MasterEventLoop
unfolding on_bootstrap_identified
handle_identify peer_id observed_addr listen_addrs s =
    let seen = act (add_external_address observed_addr) s in
    add_all peer_id listen_addrs (
      if is_some s.bootstrap_peer_id
      then seen
      else on_bootstrap_identified peer_id (unwrap_or (head? listen_addrs) s.bootstrap_addr) seen)

-- `handle_swarm_event` and `handle_behaviour`
unfoldable pub handle_swarm_event : ℕ → SwarmEvent → MasterEventLoop → MasterEventLoop
unfolding handle_established handle_closed handle_outgoing_error do_reregister handle_gossip_message
    handle_request handle_identify
handle_swarm_event now (connection_established peer_id dialer) s = handle_established dialer s
handle_swarm_event now (connection_closed peer_id n) s = handle_closed now peer_id n s
handle_swarm_event now (outgoing_connection_error peer_id) s = handle_outgoing_error now peer_id s
handle_swarm_event now external_addr_confirmed s = do_reregister s
handle_swarm_event now (rendezvous_registered ttl) s = record s {
  reregister = now + ttl * 9 % 18446744073709551616 / 10;
}
handle_swarm_event now rendezvous_register_failed s = record s { reregister = now + 30 }
handle_swarm_event now (rendezvous_discovered registrations) s = dial_all registrations s
handle_swarm_event now (gossip_message p source payload) s =
    handle_gossip_message p source payload s
handle_swarm_event now (gossip_unsubscribed peer_id) s = act (worker_event (offline peer_id)) s
handle_swarm_event now (job_request peer_id channel payload) s =
    handle_request peer_id channel payload s
handle_swarm_event now (identify_received peer_id observed listen_addrs) s =
    handle_identify peer_id observed listen_addrs s
handle_swarm_event now logged_event s = s

-- the result of a registration: the answer to the worker, and the scheduler's notice
unfoldable pub handle_registration : RegistrationResult → MasterEventLoop → MasterEventLoop
handle_registration r s =
    let answered = act (send_register_ack r.channel r.ack) s in
    if r.ack.success
    then act (worker_event (online r.peer_id (unwrap_or r.capabilities default_capabilities)))
        answered
    else answered

-- the timer of the reconnects; `accepted` says whether the swarm accepts the dial
unfoldable pub handle_reconnect : ℕ → Bool → MasterEventLoop → MasterEventLoop
unfolding delay_secs
handle_reconnect now accepted s =
    if s.reconnecting
    then record s { reconnect = now + reconnect_delay }
    else if accepted
    then act (dial_bootstrap s.bootstrap_addr) (record s {
      reconnecting = true;
      reconnect_attempts = (s.reconnect_attempts + 1) % 4294967296;
      reconnect = now + far_future_secs;
    })
    else act (dial_bootstrap s.bootstrap_addr) (schedule now s)

unfoldable pub step : ℕ → Input → MasterEventLoop → MasterEventLoop
unfolding handle_swarm_event handle_job_command handle_registration do_reregister handle_reconnect
step now (swarm e) s = handle_swarm_event now e s
step now (command none) s = record s { stopped = true }
step now (command (some c)) s = handle_job_command c s
step now (registration r) s = handle_registration r s
step now reregister_fires s = record (do_reregister s) {
  reregister = now + rendezvous_ttl * 9 / 10;
}
step now (reconnect_fires accepted) s = handle_reconnect now accepted s
step now shutdown s = record s { stopped = true }

-- the loop, over what happens and when
unfoldable pub run : List (ℕ × Input) → MasterEventLoop → MasterEventLoop
unfolding step
run [] s = s
run ((now, i) ∷ rest) s = run rest (if s.stopped then s else step now i s)

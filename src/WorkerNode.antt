-- ===== src/WorkerNode.antt =====
-- crates/decentgpu-worker/src/p2p/handler.rs: `WorkerEventLoop`, its state and what it does on every
-- event. Times are in seconds. What the decoder makes of the bytes of a message is a part of the event,
-- as are the answers of libp2p and of the queue of the executor. What the loop asks for and sends is a
-- list of actions, the newest first. `parse` stands for `Multiaddr::from_str`, followed by the text of
-- the address, and `g` for the `f32` arithmetic. An address of a peer is a number.
mod State
mod Events
pub mod Budget
pub mod Once
pub mod Capabilities
mod Tests
use Prim.Native.String.{len}
use text.Mathlib.Text.{starts_with, find?}
use decentralized_gpu_p2p_ne.Base.{
  ℕ, ◌+◌, ◌-◌, ◌*◌, ◌/◌, ◌%◌, String, Bool, true, false, not, ◌&&◌, Option, none, some, List, [],
  ◌∷◌, ◌==◌, map, if◌then◌else◌, is_some, unwrap_or, head?,
}
use decentralized_gpu_p2p_ne.Base.Int.{ℤ, pos}
use decentralized_gpu_p2p_ne.Float.{F64, F64Ops}
use decentralized_gpu_p2p_ne.Types.GpuBackend.{GpuBackend, cuda, metal, rocm, cpu_only}
use decentralized_gpu_p2p_ne.Types.Capabilities.{WorkerCapabilities, GpuInfo}
use decentralized_gpu_p2p_ne.Scheduler.Wire.{JobSpec, ProtoCapabilities, ProtoGpu}
use decentralized_gpu_p2p_ne.P2p.Registration.{RegisterWorker}
use decentralized_gpu_p2p_ne.P2p.Loop.{
  JobCompleted, rendezvous_ttl, reconnect_delay, far_future_secs, is_peer,
}
pub use decentralized_gpu_p2p_ne.WorkerNode.Events.{
  JobResult, AssignmentAck, HeartBeat, Action, dial_bootstrap, dial_master, rendezvous_register,
  autonat_add_server, kademlia_add_address, kademlia_bootstrap, add_external_address,
  send_completed, send_register, send_ack, offer_job, publish, SwarmEvent, connection_closed,
  external_addr_confirmed, rendezvous_registered, rendezvous_expired, job_request,
  identify_received, logged_event, Input, swarm, heartbeat_tick, job_result, reregister_fires,
  reconnect_fires, shutdown,
}
pub use decentralized_gpu_p2p_ne.WorkerNode.State.{WorkerEventLoop, act}
unfoldable pub use decentralized_gpu_p2p_ne.WorkerNode.State.{new_loop}

abbrev pub backend_to_proto : GpuBackend → ℤ
backend_to_proto cuda = pos 1
backend_to_proto metal = pos 2
backend_to_proto rocm = pos 3
backend_to_proto cpu_only = pos 0

abbrev pub gpu_to_proto : GpuInfo → ProtoGpu
gpu_to_proto g = record { name = g.name; vram_mb = g.vram_mb; backend = backend_to_proto g.backend }

unfoldable pub capabilities_to_proto : WorkerCapabilities → ProtoCapabilities
capabilities_to_proto caps = record {
  gpus = map gpu_to_proto caps.gpus;
  cpu = some caps.cpu;
  ram_mb = caps.ram_mb;
  disk_mb = caps.disk_mb;
  os = caps.os;
  worker_version = caps.worker_version;
}

abbrev pub register_with : Option ℕ → WorkerEventLoop → WorkerEventLoop
register_with none s = s
register_with (some node) s = act (rendezvous_register node rendezvous_ttl) s

unfoldable pub do_register : WorkerEventLoop → WorkerEventLoop
do_register s = register_with s.bootstrap_peer_id s

unfoldable pub on_bootstrap_identified : ℕ → ℕ → WorkerEventLoop → WorkerEventLoop
unfolding do_register
on_bootstrap_identified peer_id addr s = act kademlia_bootstrap (
    do_register (
      act (kademlia_add_address peer_id addr)
        (act (autonat_add_server peer_id addr) (record s { bootstrap_peer_id = some peer_id }))))

-- the request with the token, if there is one
abbrev pub register_by : Option String → ℕ → WorkerEventLoop → WorkerEventLoop
register_by none master s = s
register_by (some token) master s =
    act
      (send_register master
        (record { jwt_token = token; capabilities = some (capabilities_to_proto s.capabilities) }))
      (record s { registration_attempted = true })

unfoldable pub try_register_with_master : ℕ → WorkerEventLoop → WorkerEventLoop
unfolding capabilities_to_proto
try_register_with_master master s =
    if s.registration_attempted then s else register_by s.auth_token master s

abbrev pub completed_of : JobResult → JobCompleted
completed_of r = record {
  job_id = r.job_id;
  success = r.success;
  error_message = if r.success then "" else r.output;
  duration_secs = 0;
  result_size_bytes = len r.output;
  output = r.output;
}

-- a result is dropped while the master is not known
abbrev pub report_to : Option ℕ → JobResult → WorkerEventLoop → WorkerEventLoop
report_to none r s = s
report_to (some master) r s = act (send_completed master (completed_of r)) s

unfoldable pub handle_job_result : JobResult → WorkerEventLoop → WorkerEventLoop
handle_job_result r s = report_to s.master_peer_id r s

unfoldable pub publish_heartbeat : F64Ops → ℕ → WorkerEventLoop → WorkerEventLoop
publish_heartbeat g now s =
    act
      (publish (record {
        peer_id = s.local_peer_id;
        uptime_percent =
            g.min
              (g.mul (g.div (g.of_i64 (pos (now - s.started_at))) (g.of_i64 (pos 86400)))
                (g.of_i64 (pos 100)))
              (g.of_i64 (pos 100));
        is_busy = false;
        jobs_completed = 0;
      }))
      s

unfoldable pub handle_closed : ℕ → ℕ → WorkerEventLoop → WorkerEventLoop
handle_closed now peer_id s =
    if is_peer peer_id s.bootstrap_peer_id
    then record s {
      bootstrap_peer_id = none;
      registration_attempted = false;
      reconnect = now + reconnect_delay;
    }
    else s

-- a wildcard address is no target of a dial
abbrev pub dial_parsed : Option String → WorkerEventLoop → WorkerEventLoop
dial_parsed none s = s
dial_parsed (some addr) s =
    if is_some (find? addr "/ip4/0.0.0.0") then s else act (dial_master addr) s

abbrev pub dial_configured :
    (String → Option String) → Option String → WorkerEventLoop → WorkerEventLoop
dial_configured parse none s = s
dial_configured parse (some text) s = dial_parsed (parse text) s

unfoldable pub handle_rendezvous_registered :
    (String → Option String) → ℕ → ℕ → Bool → WorkerEventLoop → WorkerEventLoop
handle_rendezvous_registered parse now ttl connected s =
    let t = record s { reregister = now + ttl * 9 % 18446744073709551616 / 10 } in
    if is_some s.master_peer_id && connected then t else dial_configured parse s.master_addr t

abbrev pub spec_job_id : Option JobSpec → Option ℕ
spec_job_id none = none
spec_job_id (some spec) = some spec.job_id

-- the text of a decoder's error is left out
unfoldable pub handle_job_request :
    ℕ → Option (Option JobSpec) → Bool → WorkerEventLoop → WorkerEventLoop
handle_job_request channel none room s =
    act (send_ack channel (record { job_id = none; accepted = false; reason = "decode error" })) s
handle_job_request channel (some spec) room s =
    act
      (send_ack channel (record {
        job_id = spec_job_id spec;
        accepted = room;
        reason = if room then "" else "executor queue full";
      }))
      (act (offer_job spec) s)

abbrev pub add_all : ℕ → List ℕ → WorkerEventLoop → WorkerEventLoop
add_all peer_id [] s = s
add_all peer_id (addr ∷ addrs) s = add_all peer_id addrs (act (kademlia_add_address peer_id addr) s)

-- The first peer that identifies itself is taken for the bootstrap node.
abbrev pub find_bootstrap : ℕ → List ℕ → WorkerEventLoop → WorkerEventLoop
find_bootstrap peer_id listen_addrs s =
    if is_some s.bootstrap_peer_id
    then s
    else on_bootstrap_identified peer_id (unwrap_or (head? listen_addrs) s.bootstrap_addr) s

-- Whoever names an agent that begins with `master/` is taken for the master.
abbrev pub find_master : ℕ → String → WorkerEventLoop → WorkerEventLoop
find_master peer_id agent s =
    if starts_with agent "master/"
    then (let found = record s { master_peer_id = some peer_id } in
        if not s.registration_attempted then try_register_with_master peer_id found else found)
    else s

unfoldable pub handle_identify : ℕ → String → ℕ → List ℕ → WorkerEventLoop → WorkerEventLoop
unfolding on_bootstrap_identified try_register_with_master
handle_identify peer_id agent observed_addr listen_addrs s = find_master peer_id agent (
    add_all peer_id listen_addrs
      (find_bootstrap peer_id listen_addrs (act (add_external_address observed_addr) s)))

-- `handle_swarm_event` and `handle_behaviour_event`
unfoldable pub handle_swarm_event :
    (String → Option String) → ℕ → SwarmEvent → WorkerEventLoop → WorkerEventLoop
unfolding handle_closed do_register handle_rendezvous_registered handle_job_request handle_identify
handle_swarm_event parse now (connection_closed peer_id) s = handle_closed now peer_id s
handle_swarm_event parse now external_addr_confirmed s = do_register s
handle_swarm_event parse now (rendezvous_registered ttl connected) s =
    handle_rendezvous_registered parse now ttl connected s
handle_swarm_event parse now rendezvous_expired s = do_register s
handle_swarm_event parse now (job_request channel assignment room) s =
    handle_job_request channel assignment room s
handle_swarm_event parse now (identify_received peer_id agent observed listen_addrs) s =
    handle_identify peer_id agent observed listen_addrs s
handle_swarm_event parse now logged_event s = s

unfoldable pub step :
    (String → Option String) → F64Ops → ℕ → Input → WorkerEventLoop → WorkerEventLoop
unfolding handle_swarm_event publish_heartbeat handle_job_result do_register
step parse g now (swarm e) s = handle_swarm_event parse now e s
step parse g now heartbeat_tick s = publish_heartbeat g now s
step parse g now (job_result r) s = handle_job_result r s
step parse g now reregister_fires s = record (do_register s) {
  reregister = now + rendezvous_ttl * 9 / 10;
}
step parse g now reconnect_fires s =
    act (dial_bootstrap s.bootstrap_addr) (record s { reconnect = now + reconnect_delay })
step parse g now shutdown s = record s { stopped = true }

unfoldable pub run :
    (String → Option String) → F64Ops → List (ℕ × Input) → WorkerEventLoop → WorkerEventLoop
unfolding step
run parse g [] s = s
run parse g ((now, i) ∷ rest) s = run parse g rest (if s.stopped then s else step parse g now i s)

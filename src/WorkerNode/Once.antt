-- ===== src/WorkerNode/Once.antt =====
-- How often a worker sends its token, by how often it loses the bootstrap node.
use decentralized_gpu_p2p_ne.Base.{
  true, Bool-cases, inl, inr, ap, ℕ, ◌+◌, ◌≤◌, String, Bool, ◌&&◌, Option, none, List, [], ◌∷◌, ◌≡◌,
  refl, ◌∙◌, if◌then◌else◌, if_cases, arith, is_some,
}
use decentralized_gpu_p2p_ne.Float.{F64Ops}
use decentralized_gpu_p2p_ne.P2p.Loop.{is_peer}
use decentralized_gpu_p2p_ne.WorkerNode.{
  add_external_address, WorkerEventLoop, Input, swarm, heartbeat_tick, job_result, reregister_fires,
  reconnect_fires, shutdown, SwarmEvent, connection_closed, external_addr_confirmed,
  rendezvous_registered, rendezvous_expired, job_request, identify_received, logged_event, act,
  add_all, do_register, handle_job_result, publish_heartbeat, handle_closed,
  handle_rendezvous_registered, find_bootstrap, handle_identify, handle_swarm_event, step, run,
}
use decentralized_gpu_p2p_ne.WorkerNode.Budget.{
  register_count, budget, Quiet, quiet, then-Quiet, add_all-Quiet, register_with-Quiet, found_peer,
  bootstrap-Finds, dial-Quiet, Within, of_Quiet, master-Within, report-Quiet, request-Quiet,
}

-- what an input makes of the bootstrap node
abbrev pub next_peer : Input → Option ℕ → Option ℕ
next_peer (swarm (connection_closed p)) b = if is_peer p b then none else b
next_peer (swarm (identify_received p agent observed addrs)) b = found_peer p b
next_peer _ b = b

-- a connection to the bootstrap node closes
abbrev pub losing : Input → Option ℕ → ℕ
losing (swarm (connection_closed p)) b = if is_peer p b then 1 else 0
losing _ b = 0

-- how often this happens, where `b` is the bootstrap node at first
abbrev pub losses : Option ℕ → List (ℕ × Input) → ℕ
losses b [] = 0
losses b ((now, i) ∷ rest) = losing i b + losses (next_peer i b) rest

module _ (parse : String → Option String) (g : F64Ops) (now : ℕ) (s : WorkerEventLoop) where
  abbrev After : Input → WorkerEventLoop → Type 0
  After i t = Within (losing i s.bootstrap_peer_id) (next_peer i s.bootstrap_peer_id) s t

  closed-Within : (p : ℕ) → After (swarm (connection_closed p)) (handle_closed now p s)
  unfolding handle_closed budget
  closed-Within p = elim (Bool-cases (is_peer p s.bootstrap_peer_id)) [
    | inl own ↦ rw own (record { bound = omega arith; peer = refl })
    | inr other ↦ rw other (record { bound = omega arith; peer = refl })
  ]

  registered-Quiet :
      (ttl : ℕ) (connected : Bool)
      → Quiet s (handle_rendezvous_registered parse now ttl connected s)
  unfolding handle_rendezvous_registered
  registered-Quiet ttl connected =
      if_cases (Quiet s) (is_some s.master_peer_id && connected) _ _
        (λ _. record { same_count = refl; same_flag = refl; same_peer = refl })
        (λ _.
          then-Quiet s _ _ (record { same_count = refl; same_flag = refl; same_peer = refl })
            (dial-Quiet parse s.master_addr _))

  identify-Within :
      (p : ℕ) (agent : String) (observed : ℕ) (addrs : List ℕ)
      → After
          (swarm (identify_received p agent observed addrs))
          (handle_identify p agent observed addrs s)
  unfolding handle_identify budget
  identify-Within p agent observed addrs =
      let seen : WorkerEventLoop = act (add_external_address observed) s in
      let found : WorkerEventLoop = find_bootstrap p addrs seen in
      let known : WorkerEventLoop = add_all p addrs found in
      let finds = bootstrap-Finds p addrs seen in
      let all : Quiet found known = add_all-Quiet p addrs found found (quiet found) in
      let w = master-Within p agent known in
      let same_flag : known.registration_attempted ≡ s.registration_attempted =
        all.same_flag ∙ finds.same_flag in
      let same_count : register_count known.actions ≡ register_count s.actions =
        all.same_count ∙ finds.same_count in
      let same : budget known ≡ budget s = rw (same_count, same_flag) refl in
      record { bound = omega (arith, w.bound, same); peer = w.peer ∙ all.same_peer ∙ finds.found }

  swarm-Within : (e : SwarmEvent) → After (swarm e) (handle_swarm_event parse now e s)
  unfolding handle_swarm_event do_register
  swarm-Within (connection_closed p) = closed-Within p
  swarm-Within external_addr_confirmed = of_Quiet s _ (register_with-Quiet s.bootstrap_peer_id s)
  swarm-Within (rendezvous_registered ttl connected) = of_Quiet s _ (registered-Quiet ttl connected)
  swarm-Within rendezvous_expired = of_Quiet s _ (register_with-Quiet s.bootstrap_peer_id s)
  swarm-Within (job_request channel a room) = of_Quiet s _ (request-Quiet channel a room s)
  swarm-Within (identify_received p agent observed addrs) = identify-Within p agent observed addrs
  swarm-Within logged_event = of_Quiet s _ (quiet s)

  still-Quiet :
      (t : WorkerEventLoop)
      → register_count t.actions ≡ register_count s.actions
      → t.registration_attempted ≡ s.registration_attempted
      → t.bootstrap_peer_id ≡ s.bootstrap_peer_id
      → Within 0 s.bootstrap_peer_id s t
  still-Quiet t count flag peer =
      of_Quiet s t (record { same_count = count; same_flag = flag; same_peer = peer })

  step-Within : (i : Input) → After i (step parse g now i s)
  unfolding step do_register handle_job_result publish_heartbeat
  step-Within (swarm e) = swarm-Within e
  step-Within heartbeat_tick = still-Quiet _ refl refl refl
  step-Within (job_result r) = of_Quiet s _ (report-Quiet s.master_peer_id r s)
  step-Within reregister_fires = of_Quiet s _ (
      then-Quiet s _ _ (register_with-Quiet s.bootstrap_peer_id s)
        (record { same_count = refl; same_flag = refl; same_peer = refl }))
  step-Within reconnect_fires = still-Quiet _ refl refl refl
  step-Within shutdown = still-Quiet _ refl refl refl

run_stopped :
    (parse : String → Option String) (g : F64Ops) (inputs : List (ℕ × Input)) (s : WorkerEventLoop)
    → s.stopped ≡ true
    → run parse g inputs s ≡ s
unfolding run
run_stopped parse g [] s h = refl
run_stopped parse g ((now, i) ∷ rest) s h =
    if_cases (λ t. run parse g rest t ≡ s) s.stopped s (step parse g now i s)
      (λ _. run_stopped parse g rest s h) (λ off. absurd (let k = h in cc))

run-budget :
    (parse : String → Option String) (g : F64Ops) (inputs : List (ℕ × Input)) (s : WorkerEventLoop)
    (b : Option ℕ)
    → s.bootstrap_peer_id ≡ b
    → budget (run parse g inputs s) ≤ budget s + losses b inputs
unfolding run
run-budget parse g [] s b h = omega arith
run-budget parse g ((now, i) ∷ rest) s b h =
    if_cases
      (λ t. budget (run parse g rest t) ≤ budget s + (losing i b + losses (next_peer i b) rest))
      s.stopped s (step parse g now i s)
      (λ over. omega (arith, ap budget (run_stopped parse g rest s over)))
      (λ _.
        let w = step-Within parse g now s i in
        let peer : (step parse g now i s).bootstrap_peer_id ≡ next_peer i b =
          w.peer ∙ ap (next_peer i) h in
        omega (
          arith,
          run-budget parse g rest (step parse g now i s) (next_peer i b) peer,
          w.bound,
          ap (losing i) h,
        ))

-- Whatever happens, in whatever order: from a state of the worker on, it sends its token to a master at
-- most as often as the connection to the bootstrap node is lost, and once more if it has not sent it
-- since the last such loss. The bootstrap node is the first peer that identifies itself while none is
-- known, and the close of any other connection, that to the master included, does not count.
pub registers_once :
    (parse : String → Option String) (g : F64Ops) (inputs : List (ℕ × Input)) (s : WorkerEventLoop)
    → register_count (run parse g inputs s).actions
      ≤ register_count s.actions
        + (if s.registration_attempted then 0 else 1)
        + losses s.bootstrap_peer_id inputs
unfolding budget
registers_once parse g inputs s =
    omega (arith, run-budget parse g inputs s s.bootstrap_peer_id refl)

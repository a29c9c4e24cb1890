-- ===== src/P2p/Change.antt =====
-- What one input does to the search for the bootstrap node, once this node is known.
use decentralized_gpu_p2p_ne.Scheduler.{assign, cancel}
use decentralized_gpu_p2p_ne.P2p.Registration.{RegistrationResult}
use decentralized_gpu_p2p_ne.Base.{
  ℕ, Bool, true, false, Option, none, some, List, [], ◌∷◌, ◌≡◌, refl, is_some, ◌==◌, ap, if_cases,
  Bool-cases, inl, inr,
}
use decentralized_gpu_p2p_ne.P2p.Loop.{
  external_addr_confirmed, rendezvous_register_failed, another_payload, logged_event, shutdown,
  reregister_fires, MasterEventLoop, Input, SwarmEvent, Payload, step, handle_swarm_event, dial_all,
  add_all, handle_gossip_message, handle_request, handle_identify, handle_established,
  handle_closed, handle_outgoing_error, handle_registration, handle_job_command, handle_reconnect,
  do_reregister, schedule, is_peer, swarm, command, registration, reregister_fires, reconnect_fires,
  shutdown, act, connection_closed, dial_worker, kademlia_add_address, connection_established,
  heartbeat, outgoing_connection_error, register_worker, job_completed, rendezvous_registered,
  rendezvous_discovered, gossip_message, gossip_unsubscribed, job_request, identify_received,
  register_with,
}
use decentralized_gpu_p2p_ne.P2p.Concern.{
  SameSearch, same, Scheduled, Retried, waits, dials, refused, Ended, concern, Change,
}

dial_all-same :
    (rs : List (ℕ × List ℕ)) (s t : MasterEventLoop) → SameSearch s t → SameSearch s (dial_all rs t)
dial_all-same [] s t h = h
dial_all-same ((p, addrs) ∷ rs) s t h = dial_all-same rs s (act (dial_worker p addrs) t) (record {
  same_peer = h.same_peer;
  same_guard = h.same_guard;
  same_timer = h.same_timer;
  same_attempts = h.same_attempts;
  same_stopped = h.same_stopped;
})

add_all-same :
    (p : ℕ) (addrs : List ℕ) (s t : MasterEventLoop)
    → SameSearch s t
    → SameSearch s (add_all p addrs t)
add_all-same p [] s t h = h
add_all-same p (a ∷ addrs) s t h =
    add_all-same p addrs s (act (kademlia_add_address p a) t) (record {
      same_peer = h.same_peer;
      same_guard = h.same_guard;
      same_timer = h.same_timer;
      same_attempts = h.same_attempts;
      same_stopped = h.same_stopped;
    })

Scheduled-now : (now : ℕ) (s : MasterEventLoop) → Scheduled now s (schedule now s)
Scheduled-now now s = record {
  kept_peer = refl;
  free = refl;
  timer = refl;
  kept_attempts = refl;
  kept_stopped = refl;
}

Ended-now : (s : MasterEventLoop) → Ended s (record s { stopped = true })
Ended-now s = record {
  last_peer = refl;
  last_guard = refl;
  last_timer = refl;
  last_attempts = refl;
  stops = refl;
}

module _ (b now : ℕ) (s : MasterEventLoop) (known : s.bootstrap_peer_id ≡ some b) where
  still_known : is_some s.bootstrap_peer_id ≡ true
  still_known = ap is_some known

  unknown : is_some s.bootstrap_peer_id ≡ false → ⊥
  unknown h = let k = still_known in cc

  is_bootstrap : (p : ℕ) → is_peer p s.bootstrap_peer_id ≡ (p == b)
  is_bootstrap p = ap (is_peer p) known

  abbrev After : Input → MasterEventLoop → Type 0
  After i t = Change now (concern b i) s t

  still :
      {t : MasterEventLoop}
      → t.bootstrap_peer_id ≡ s.bootstrap_peer_id
      → t.reconnecting ≡ s.reconnecting
      → t.reconnect ≡ s.reconnect
      → t.reconnect_attempts ≡ s.reconnect_attempts
      → t.stopped ≡ s.stopped
      → SameSearch s t
  still peer guard timer attempts stopped = record {
    same_peer = peer;
    same_guard = guard;
    same_timer = timer;
    same_attempts = attempts;
    same_stopped = stopped;
  }

  established-same : (dialer : Bool) → SameSearch s (handle_established dialer s)
  unfolding handle_established
  established-same dialer =
      if_cases (SameSearch s) (is_some s.bootstrap_peer_id) _ _ (λ _. same s)
        (λ none_yet. absurd (unknown none_yet))

  closed-Change : (p n : ℕ) → After (swarm (connection_closed p n)) (handle_closed now p n s)
  unfolding handle_closed
  closed-Change p n = elim (Bool-cases (p == b)) [
    | inl own ↦ elim (Bool-cases (n == 0)) [
      | inl last ↦ rw (is_bootstrap p, own, last) (Scheduled-now now s)
      | inr more ↦ rw (is_bootstrap p, own, more) (same s)
    ]
    | inr other ↦ rw (is_bootstrap p, other) (still refl refl refl refl refl)
  ]

  outgoing-Change :
      (p : Option ℕ) → After (swarm (outgoing_connection_error p)) (handle_outgoing_error now p s)
  unfolding handle_outgoing_error
  outgoing-Change none = Scheduled-now now s
  outgoing-Change (some p) = elim (Bool-cases (p == b)) [
    | inl own ↦ rw (is_bootstrap p, own) (Scheduled-now now s)
    | inr other ↦ rw (is_bootstrap p, other) (same s)
  ]

  gossip-same :
      (p : ℕ) (source : Option ℕ) (m : Option Payload)
      → SameSearch s (handle_gossip_message p source m s)
  unfolding handle_gossip_message
  gossip-same p source none = still refl refl refl refl refl
  gossip-same p source (some (heartbeat u i j)) = still refl refl refl refl refl
  gossip-same p source (some (register_worker r)) = still refl refl refl refl refl
  gossip-same p source (some (job_completed c)) = still refl refl refl refl refl
  gossip-same p source (some another_payload) = still refl refl refl refl refl

  request-same : (p channel : ℕ) (m : Option Payload) → SameSearch s (handle_request p channel m s)
  unfolding handle_request
  request-same p channel none = still refl refl refl refl refl
  request-same p channel (some (heartbeat u i j)) = still refl refl refl refl refl
  request-same p channel (some (register_worker r)) = still refl refl refl refl refl
  request-same p channel (some (job_completed c)) = still refl refl refl refl refl
  request-same p channel (some another_payload) = still refl refl refl refl refl

  register_with-same : (node : Option ℕ) → SameSearch s (register_with node s)
  register_with-same none = still refl refl refl refl refl
  register_with-same (some n) = still refl refl refl refl refl

  reregister_fires-same :
      (node : Option ℕ) (at : ℕ) → SameSearch s (record (register_with node s) { reregister = at })
  reregister_fires-same none at = still refl refl refl refl refl
  reregister_fires-same (some n) at = still refl refl refl refl refl

  identify-same :
      (p observed : ℕ) (addrs : List ℕ) → SameSearch s (handle_identify p observed addrs s)
  unfolding handle_identify
  identify-same p observed addrs =
      (add_all-same p addrs s _ (
        if_cases (SameSearch s) (is_some s.bootstrap_peer_id) _ _
          (λ _. record {
            same_peer = refl;
            same_guard = refl;
            same_timer = refl;
            same_attempts = refl;
            same_stopped = refl;
          })
          (λ none_yet. absurd (unknown none_yet))))

  swarm-Change : (e : SwarmEvent) → After (swarm e) (handle_swarm_event now e s)
  unfolding handle_swarm_event do_reregister
  swarm-Change (connection_established p dialer) = established-same dialer
  swarm-Change (connection_closed p n) = closed-Change p n
  swarm-Change (outgoing_connection_error p) = outgoing-Change p
  swarm-Change external_addr_confirmed = register_with-same s.bootstrap_peer_id
  swarm-Change (rendezvous_registered ttl) = still refl refl refl refl refl
  swarm-Change rendezvous_register_failed = still refl refl refl refl refl
  swarm-Change (rendezvous_discovered rs) = dial_all-same rs s s (same s)
  swarm-Change (gossip_message p source m) = gossip-same p source m
  swarm-Change (gossip_unsubscribed p) = still refl refl refl refl refl
  swarm-Change (job_request p channel m) = request-same p channel m
  swarm-Change (identify_received p observed addrs) = identify-same p observed addrs
  swarm-Change logged_event = still refl refl refl refl refl

  registration-same : (r : RegistrationResult) → SameSearch s (handle_registration r s)
  unfolding handle_registration
  registration-same r =
      if_cases (SameSearch s) r.ack.success _ _ (λ _. still refl refl refl refl refl)
        (λ _. still refl refl refl refl refl)

  reconnect-Change : (accepted : Bool) → Retried now accepted s (handle_reconnect now accepted s)
  unfolding handle_reconnect
  reconnect-Change accepted =
      if_cases (Retried now accepted s) s.reconnecting _ _ (λ out. waits out refl out refl refl)
        (λ in_.
          if_cases (Retried now accepted s) accepted _ _ (λ yes. dials in_ yes refl refl refl refl)
            (λ no. refused in_ no (record {
              kept_peer = refl;
              free = refl;
              timer = refl;
              kept_attempts = refl;
              kept_stopped = refl;
            })))

  pub step-Change : (i : Input) → After i (step now i s)
  unfolding step do_reregister handle_job_command
  step-Change (swarm e) = swarm-Change e
  step-Change (command none) = Ended-now s
  step-Change (command (some (assign p job))) = still refl refl refl refl refl
  step-Change (command (some (cancel p job))) = still refl refl refl refl refl
  step-Change (registration r) = registration-same r
  step-Change reregister_fires = reregister_fires-same s.bootstrap_peer_id _
  step-Change (reconnect_fires accepted) = reconnect-Change accepted
  step-Change shutdown = Ended-now s

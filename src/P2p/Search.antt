-- ===== src/P2p/Search.antt =====
-- The search for a bootstrap node that is known, as the inputs of the master's loop determine it, and the
-- state of the loop at each point of it.
use Prim.Native.Nat.{min}
use decentralized_gpu_p2p_ne.Base.{
  ℕ, zero, suc, ◌+◌, ◌≤◌, Bool, true, false, List, [], ◌∷◌, ◌≡◌, refl, arith, ◌∙◌, if_cases,
}
use decentralized_gpu_p2p_ne.P2p.Loop.{
  MasterEventLoop, Input, delay_secs, step, handle_reconnect, reconnect_fires, dial_bootstrap,
}
use decentralized_gpu_p2p_ne.P2p.Concern.{
  Scheduled, waits, dials, refused, Concern, unconcerned, lost, retried, ended, concern, Change,
}

pub delay_bounds : (a : ℕ) → (1 ≤ delay_secs a) × (delay_secs a ≤ 16)
unfolding delay_secs
delay_bounds zero = omega arith
delay_bounds (suc zero) = omega arith
delay_bounds (suc (suc zero)) = omega arith
delay_bounds (suc (suc (suc zero))) = omega arith
delay_bounds (suc (suc (suc (suc a)))) =
    let four : min (suc (suc (suc (suc a)))) 4 ≡ 4 = omega arith in rw four (omega arith)

-- The search for a bootstrap node that is known: the loop waits for the next dial, since some time, or
-- it has dialled, or it has ended.
pub data Search : Type 0 where
  waiting : ℕ → Search
  dialling : Search
  over : Search

-- The loss of the node, and a dial that fails, start the wait anew; the timer makes the wait a dial, if
-- the swarm accepts it.
abbrev pub next : ℕ → Search → Concern → Search
next now over k = over
next now (waiting since) unconcerned = waiting since
next now (waiting since) lost = waiting now
next now (waiting since) (retried true) = dialling
next now (waiting since) (retried false) = waiting now
next now (waiting since) ended = over
next now dialling unconcerned = dialling
next now dialling lost = waiting now
next now dialling (retried accepted) = dialling
next now dialling ended = over

abbrev pub search : ℕ → Search → List (ℕ × Input) → Search
search b w [] = w
search b w ((now, i) ∷ rest) = search b (next now w (concern b i)) rest

-- What the state of the loop is at a point of the search: while it waits, no dial is out, the timer of
-- the next one stands 1 to 16 seconds after the start of the wait, and the loop dials when it fires.
abbrev pub IsAt : Search → MasterEventLoop → Type 0
IsAt (waiting since) s =
    (s.stopped ≡ false)
    × (s.reconnecting ≡ false)
    × (since + 1 ≤ s.reconnect)
    × (s.reconnect ≤ since + 16)
    × ((at : ℕ) (accepted : Bool)
        → (step at (reconnect_fires accepted) s).actions
          ≡ dial_bootstrap s.bootstrap_addr ∷ s.actions)
IsAt dialling s =
    (s.stopped ≡ false)
    × (s.reconnecting ≡ true)
    × ((at : ℕ) (accepted : Bool) → (step at (reconnect_fires accepted) s).actions ≡ s.actions)
IsAt over s = s.stopped ≡ true

fires_dial :
    (at : ℕ) (accepted : Bool) (s : MasterEventLoop)
    → s.reconnecting ≡ false
    → (step at (reconnect_fires accepted) s).actions ≡ dial_bootstrap s.bootstrap_addr ∷ s.actions
unfolding step handle_reconnect
fires_dial at accepted s free =
    let Dials : MasterEventLoop → Type 0 =
      λ t. t.actions ≡ dial_bootstrap s.bootstrap_addr ∷ s.actions in
    if_cases Dials s.reconnecting _ _ (λ out. absurd (let f = free in cc))
      (λ _. if_cases Dials accepted _ _ (λ _. refl) (λ _. refl))

fires_none :
    (at : ℕ) (accepted : Bool) (s : MasterEventLoop)
    → s.reconnecting ≡ true
    → (step at (reconnect_fires accepted) s).actions ≡ s.actions
unfolding step handle_reconnect
fires_none at accepted s out =
    if_cases (λ (t : MasterEventLoop). t.actions ≡ s.actions) s.reconnecting _ _ (λ _. refl)
      (λ free. absurd (let o = out in cc))

waits-IsAt :
    (since : ℕ) (s : MasterEventLoop)
    → s.stopped ≡ false
    → s.reconnecting ≡ false
    → since + 1 ≤ s.reconnect
    → s.reconnect ≤ since + 16
    → IsAt (waiting since) s
waits-IsAt since s on free low high =
    (on, free, low, high, λ at accepted. fires_dial at accepted s free)

dials-IsAt : (s : MasterEventLoop) → s.stopped ≡ false → s.reconnecting ≡ true → IsAt dialling s
dials-IsAt s on out = (on, out, λ at accepted. fires_none at accepted s out)

-- a wait starts where the timer is set
pub sets :
    (now : ℕ) (s t : MasterEventLoop) → s.stopped ≡ false → Scheduled now s t → IsAt (waiting now) t
sets now s t on c =
    let bound = delay_bounds s.reconnect_attempts in
    waits-IsAt now t (c.kept_stopped ∙ on) c.free (rw c.timer (omega arith))
      (rw c.timer (omega arith))

next_wait :
    (now since : ℕ) (k : Concern) (s t : MasterEventLoop)
    → IsAt (waiting since) s
    → Change now k s t
    → IsAt (next now (waiting since) k) t
next_wait now since unconcerned s t (on, free, low, high, fires) c =
    waits-IsAt since t (c.same_stopped ∙ on) (c.same_guard ∙ free) (rw c.same_timer low)
      (rw c.same_timer high)
next_wait now since lost s t (on, free, low, high, fires) c = sets now s t on c
next_wait now since (retried true) s t (on, free, low, high, fires) (waits out peer guard n st) =
    absurd (let f = free in cc)
next_wait now since (retried true) s t (on, free, low, high, fires) (dials f took peer guard n st) =
    dials-IsAt t (st ∙ on) guard
next_wait now since (retried true) s t (on, free, low, high, fires) (refused f denied c) =
    absurd (let a = denied in cc)
next_wait now since (retried false) s t (on, free, low, high, fires) (waits out peer guard n st) =
    absurd (let f = free in cc)
next_wait now since (retried false) s t (on, free, low, high, fires)
      (dials f took peer guard n st) =
    absurd (let a = took in cc)
next_wait now since (retried false) s t (on, free, low, high, fires) (refused f denied c) =
    sets now s t on c
next_wait now since ended s t h c = c.stops

next_dial :
    (now : ℕ) (k : Concern) (s t : MasterEventLoop)
    → IsAt dialling s
    → Change now k s t
    → IsAt (next now dialling k) t
next_dial now unconcerned s t (on, out, fires) c =
    dials-IsAt t (c.same_stopped ∙ on) (c.same_guard ∙ out)
next_dial now lost s t (on, out, fires) c = sets now s t on c
next_dial now (retried accepted) s t (on, out, fires) (waits o peer guard n st) =
    dials-IsAt t (st ∙ on) guard
next_dial now (retried accepted) s t (on, out, fires) (dials free took peer guard n st) =
    absurd (let o = out in cc)
next_dial now (retried accepted) s t (on, out, fires) (refused free denied c) =
    absurd (let o = out in cc)
next_dial now ended s t h c = c.stops

pub next-IsAt :
    (now : ℕ) (w : Search) (k : Concern) (s t : MasterEventLoop)
    → s.stopped ≡ false
    → IsAt w s
    → Change now k s t
    → IsAt (next now w k) t
next-IsAt now (waiting since) k s t on h c = next_wait now since k s t h c
next-IsAt now dialling k s t on h c = next_dial now k s t h c
next-IsAt now over k s t on h c = absurd (let o = on in cc)

-- a loop that has ended has no search
pub stays_over :
    (now : ℕ) (w : Search) (k : Concern) (s : MasterEventLoop)
    → s.stopped ≡ true
    → IsAt w s
    → IsAt (next now w k) s
stays_over now (waiting since) k s end h = absurd (let on = h.0 in cc)
stays_over now dialling k s end h = absurd (let on = h.0 in cc)
stays_over now over k s end h = h

pub kept_peer_of :
    (now : ℕ) (k : Concern) (s t : MasterEventLoop)
    → Change now k s t
    → t.bootstrap_peer_id ≡ s.bootstrap_peer_id
kept_peer_of now unconcerned s t c = c.same_peer
kept_peer_of now lost s t c = c.kept_peer
kept_peer_of now (retried accepted) s t (waits o peer guard n st) = peer
kept_peer_of now (retried accepted) s t (dials free took peer guard n st) = peer
kept_peer_of now (retried accepted) s t (refused free denied c) = c.kept_peer
kept_peer_of now ended s t c = c.last_peer

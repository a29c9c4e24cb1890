-- ===== src/P2p/Reconnect.antt =====
-- The master's search for its bootstrap node: what the loop does after the loss of a connection and after
-- a dial that fails, and how long it waits.
use Prim.Native.Nat.{min}
use decentralized_gpu_p2p_ne.Base.{
  ℕ, ◌+◌, ◌≤◌, true, false, some, List, [], ◌∷◌, ◌≡◌, refl, arith, ◌∙◌, if_cases, length, ◌==◌, ◌<◌,
}
use decentralized_gpu_p2p_ne.P2p.Loop.{
  MasterEventLoop, Input, delay_secs, step, swarm, connection_closed, run,
}
use decentralized_gpu_p2p_ne.P2p.Change.{step-Change}
use decentralized_gpu_p2p_ne.P2p.Concern.{
  Scheduled, waits, dials, refused, Concern, unconcerned, lost, retried, ended, concern, Change,
}
use decentralized_gpu_p2p_ne.P2p.Search.{
  Search, waiting, next, search, IsAt, sets, next-IsAt, stays_over, kept_peer_of,
}

module _ (b : ℕ) where
  run-IsAt :
      (inputs : List (ℕ × Input)) (w : Search) (s : MasterEventLoop)
      → s.bootstrap_peer_id ≡ some b
      → IsAt w s
      → IsAt (search b w inputs) (run inputs s) × ((run inputs s).bootstrap_peer_id ≡ some b)
  unfolding run
  run-IsAt [] w s known h = (h, known)
  run-IsAt ((now, i) ∷ rest) w s known h =
      let After : MasterEventLoop → Type 0 = λ t.
        IsAt (search b (next now w (concern b i)) rest) (run rest t)
        × ((run rest t).bootstrap_peer_id ≡ some b) in
      let k : Concern = concern b i in
      if_cases After s.stopped s (step now i s)
        (λ end. run-IsAt rest (next now w k) s known (stays_over now w k s end h))
        (λ on.
          let c = step-Change b now s known i in
          run-IsAt rest (next now w k) (step now i s)
            (kept_peer_of now k s (step now i s) c ∙ known)
            (next-IsAt now w k s (step now i s) on h c))

  -- The bootstrap node is `b` and the loop has not ended. From the close of the last connection to this
  -- node on, whatever happens, in whatever order: the loop goes on to know this node, and its search is
  -- where an independent account of the inputs has it. It waits since the last loss of the node, since
  -- the last dial to it, or to a peer that is not named, that failed, or since the last dial that the
  -- swarm refused, or it has dialled since, or it has ended. While it waits, no dial counts as out, the
  -- timer of the next one stands 1 to 16 seconds after the start of the wait, and when the timer fires
  -- the loop dials the address of the node, whether or not the swarm accepts this. While a dial is out,
  -- the timer makes no other.
  pub keeps_trying :
      (now : ℕ) (inputs : List (ℕ × Input)) (s : MasterEventLoop)
      → s.bootstrap_peer_id ≡ some b
      → s.stopped ≡ false
      → let t = run inputs (step now (swarm (connection_closed b 0)) s) in
        IsAt (search b (waiting now) inputs) t × (t.bootstrap_peer_id ≡ some b)
  keeps_trying now inputs s known on =
      let closed : MasterEventLoop = step now (swarm (connection_closed b 0)) s in
      let c : Scheduled now s closed =
        rw (self b) at (step-Change b now s known (swarm (connection_closed b 0))) in
      run-IsAt inputs (waiting now) closed (c.kept_peer ∙ known) (sets now s closed on c)
    where
      self : (n : ℕ) → (n == n) ≡ true
      self n = ground arith

  -- the attempts after one input
  grown :
      (now : ℕ) (k : Concern) (s t : MasterEventLoop)
      → s.reconnect_attempts + 1 < 4294967296
      → Change now k s t
      → (s.reconnect_attempts ≤ t.reconnect_attempts)
        × (t.reconnect_attempts ≤ s.reconnect_attempts + 1)
        × (t.bootstrap_peer_id ≡ s.bootstrap_peer_id)
  grown now unconcerned s t small c =
      (rw c.same_attempts (omega arith), rw c.same_attempts (omega arith), c.same_peer)
  grown now lost s t small c =
      (rw c.kept_attempts (omega arith), rw c.kept_attempts (omega arith), c.kept_peer)
  grown now (retried accepted) s t small (waits o peer guard n st) =
      (omega arith, omega arith, peer)
  grown now (retried accepted) s t small (dials free took peer guard n st) =
      (omega arith, omega arith, peer)
  grown now (retried accepted) s t small (refused free denied c) =
      (rw c.kept_attempts (omega arith), rw c.kept_attempts (omega arith), c.kept_peer)
  grown now ended s t small c =
      (rw c.last_attempts (omega arith), rw c.last_attempts (omega arith), c.last_peer)

  attempts_grow :
      (inputs : List (ℕ × Input)) (s : MasterEventLoop)
      → s.bootstrap_peer_id ≡ some b
      → s.reconnect_attempts + length inputs < 4294967296
      → s.reconnect_attempts ≤ (run inputs s).reconnect_attempts
  unfolding run
  attempts_grow [] s known small = omega arith
  attempts_grow ((now, i) ∷ rest) s known small =
      if_cases (λ t. s.reconnect_attempts ≤ (run rest t).reconnect_attempts) s.stopped s _
        (λ _. attempts_grow rest s known (omega arith))
        (λ _.
          let (more, one, peer) =
            grown now (concern b i) s (step now i s) (omega arith) (step-Change b now s known i) in
          let later = attempts_grow rest (step now i s) (peer ∙ known) (omega arith) in omega arith)

  delay_late : (a : ℕ) → 4 ≤ a → delay_secs a ≡ 16
  unfolding delay_secs
  delay_late a h = let four : min a 4 ≡ 4 = omega arith in rw four refl

  -- Once the bootstrap node is known and four attempts have been made to reach it, the delay of every
  -- later attempt is 16 seconds, whatever happens, a connection that is established again included, as
  -- far as the counter of 32 bits does not wrap: the attempts are never set back.
  pub delay_stays :
      (inputs : List (ℕ × Input)) (s : MasterEventLoop)
      → s.bootstrap_peer_id ≡ some b
      → 4 ≤ s.reconnect_attempts
      → s.reconnect_attempts + length inputs < 4294967296
      → delay_secs (run inputs s).reconnect_attempts ≡ 16
  delay_stays inputs s known four small =
      let grows = attempts_grow inputs s known small in delay_late _ (omega arith)

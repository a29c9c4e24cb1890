-- ===== src/Scheduler/Known.antt =====
-- Whom the scheduler takes to be online: what the messages about each worker say.
use decentralized_gpu_p2p_ne.Scheduler.Kept.{
  try_one-SameOnline, try_pending-SameOnline, offline-SameOnline, retry-SameOnline,
}
use decentralized_gpu_p2p_ne.Matcher.{WorkerCandidate}
use decentralized_gpu_p2p_ne.Scheduler.Wire.{
  ProtoCapabilities, no_capabilities, proto_caps_to_common,
}
use decentralized_gpu_p2p_ne.Float.{F64, F64Ops}
use decentralized_gpu_p2p_ne.Base.{
  insert, remove, ℕ, none, some, Option, List, [], ◌∷◌, ◌≡◌, refl, lookup, lookup-insert,
  lookup-remove, ap, ◌∙◌, if◌then◌else◌, ◌==◌, true, false, Bool, Bool-cases, inl, ==_iff, sym, inr,
}
use decentralized_gpu_p2p_ne.Base.Int.{pos}
use decentralized_gpu_p2p_ne.Scheduler.{
  retry_tick, closed, handle, run, heartbeat_of, Env, Message, JobScheduler, worker_online, enqueue,
  worker_offline, heartbeat,
}

-- a worker that has come online
abbrev pub newcomer : F64Ops → ℕ → ProtoCapabilities → WorkerCandidate
newcomer f p caps = record {
  peer_id = p;
  capabilities = proto_caps_to_common caps;
  uptime_score = f.of_i64 (pos 100);
  jobs_completed = 0;
  is_busy = false;
}

-- a worker after a heartbeat; of one that was not known the capabilities are not known either
abbrev pub after_heartbeat : ℕ → F64 → Bool → ℕ → Option WorkerCandidate → WorkerCandidate
after_heartbeat p uptime busy jobs (some w) = record w {
  uptime_score = uptime;
  is_busy = busy;
  jobs_completed = jobs;
}
after_heartbeat p uptime busy jobs none = record {
  peer_id = p;
  capabilities = no_capabilities;
  uptime_score = uptime;
  jobs_completed = jobs;
  is_busy = busy;
}

-- what a message says of the worker `p`
abbrev pub says : F64Ops → ℕ → Message → Option WorkerCandidate → Option WorkerCandidate
says f p (worker_online q caps) known = if p == q then some (newcomer f q caps) else known
says f p (worker_offline q) known = if p == q then none else known
says f p (heartbeat q uptime busy jobs) known =
    if p == q then some (after_heartbeat q uptime busy jobs known) else known
says f p (enqueue job request) known = known
says f p retry_tick known = known
says f p closed known = known

-- what the messages say one after another, up to the close of the channel
abbrev pub all_say :
    F64Ops → ℕ → List (Env × Message) → Option WorkerCandidate → Option WorkerCandidate
all_say f p [] known = known
all_say f p ((env, closed) ∷ turns) known = known
all_say f p ((env, m) ∷ turns) known = all_say f p turns (says f p m known)

module _ (f : F64Ops) (env : Env) (p : ℕ) (s : JobScheduler) where
  beaten :
      (q : ℕ) (u : F64) (busy : Bool) (j : ℕ) (o : Option WorkerCandidate)
      → lookup p (heartbeat_of f env q u busy j o s).online
        ≡ (if p == q then some (after_heartbeat q u busy j o) else lookup p s.online)
  beaten q u busy j (some w) = lookup-insert q p _ s.online
  beaten q u true j none = lookup-insert q p _ s.online
  beaten q u false j none =
      ap (lookup p) (try_pending-SameOnline f env _) ∙ lookup-insert q p _ s.online

  same_worker :
      (q : ℕ) (u : F64) (busy : Bool) (j : ℕ)
      → (if p == q
          then some (after_heartbeat q u busy j (lookup q s.online))
          else lookup p s.online)
        ≡ says f p (heartbeat q u busy j) (lookup p s.online)
  same_worker q u busy j = elim (Bool-cases (p == q)) [
    | inl same ↦
        let e : p ≡ q = (==_iff p q).0 same in
        rw same (ap (λ k. some (after_heartbeat q u busy j (lookup k s.online))) (sym e))
    | inr other ↦ rw other refl
  ]

  handled : (m : Message) → lookup p (handle f env m s).online ≡ says f p m (lookup p s.online)
  unfolding handle
  handled (enqueue job r) =
      ap (lookup p)
        (try_one-SameOnline f env job r (record s { pending = insert job [] s.pending }))
  handled (worker_online q caps) =
      ap (lookup p)
        (try_pending-SameOnline f env (record s { online = insert q (newcomer f q caps) s.online }))
      ∙ lookup-insert q p (newcomer f q caps) s.online
  handled (worker_offline q) =
      ap (lookup p) (offline-SameOnline env q (record s { online = remove q s.online }))
      ∙ lookup-remove q p s.online
  handled (heartbeat q u b j) = beaten q u b j (lookup q s.online) ∙ same_worker q u b j
  handled retry_tick = ap (lookup p) (retry-SameOnline f env s)
  handled closed = refl

-- Whatever messages `run` receives, in whatever order, and whichever statements fail: the scheduler knows
-- each worker as the messages about this worker say, up to the close of the channel. It is the one that
-- came online, with its capabilities and without a record; a heartbeat sets its uptime, its count of jobs
-- and whether it is busy, and makes a worker known, without capabilities, that was not; one that went
-- offline is not known; and no assignment and no retry changes any of it.
pub run_lem :
    (f : F64Ops) (turns : List (Env × Message)) (s : JobScheduler) (p : ℕ)
    → lookup p (run f turns s).online ≡ all_say f p turns (lookup p s.online)
unfolding run
run_lem f [] s p = refl
run_lem f ((env, closed) ∷ turns) s p = refl
run_lem f ((env, enqueue job r) ∷ turns) s p =
    run_lem f turns _ p ∙ ap (all_say f p turns) (handled f env p s (enqueue job r))
run_lem f ((env, worker_online q caps) ∷ turns) s p =
    run_lem f turns _ p ∙ ap (all_say f p turns) (handled f env p s (worker_online q caps))
run_lem f ((env, worker_offline q) ∷ turns) s p =
    run_lem f turns _ p ∙ ap (all_say f p turns) (handled f env p s (worker_offline q))
run_lem f ((env, heartbeat q u b j) ∷ turns) s p =
    run_lem f turns _ p ∙ ap (all_say f p turns) (handled f env p s (heartbeat q u b j))
run_lem f ((env, retry_tick) ∷ turns) s p =
    run_lem f turns _ p ∙ ap (all_say f p turns) (handled f env p s retry_tick)

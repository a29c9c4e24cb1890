-- ===== src/Scheduler/Messages.antt =====
-- The invariants of the scheduler under each message of `run`.
use decentralized_gpu_p2p_ne.Base.{
  ℕ, some, List, [], ◌∷◌, ◌≡◌, refl, All, lookup, remove-All, arith, keys, ◌≢◌, ◌⊎◌, inl, inr, sym,
  ◌∙◌,
}
use decentralized_gpu_p2p_ne.Float.{F64Ops}
use decentralized_gpu_p2p_ne.Matcher.{WorkerCandidate, MatchRequest}
use decentralized_gpu_p2p_ne.Scheduler.{
  Env, JobScheduler, Message, enqueue, worker_online, worker_offline, heartbeat, retry_tick, closed,
  handle, run, retry_stale_pending, assigned, try_assign_one, pending,
}
use decentralized_gpu_p2p_ne.Scheduler.Assign.{assign_outcome, not_pending_lem}
use decentralized_gpu_p2p_ne.Scheduler.Online.{
  IsConsistent, IsOwn, try_one_IsConsistent, try_pending_IsConsistent, retry_each-IsConsistent,
  offline_IsConsistent, insert-IsConsistent, heartbeat_IsConsistent,
}

lookup_own :
    (p : ℕ) (m : List (ℕ × WorkerCandidate)) (w : WorkerCandidate)
    → All IsOwn m
    → lookup p m ≡ some w
    → w.peer_id ≡ p
lookup_own p [] w h e = cc
lookup_own p ((k, v) ∷ m) w h e = ground (arith, lookup_own p m w h.1, h.0)

module _ (f : F64Ops) (env : Env) where
  stale_IsConsistent :
      (s : JobScheduler) → IsConsistent s → IsConsistent (retry_stale_pending f env s)
  unfolding retry_stale_pending
  stale_IsConsistent s c = retry_each-IsConsistent f env (keys s.pending) s c

  handle-IsConsistent :
      (m : Message) (s : JobScheduler) → IsConsistent s → IsConsistent (handle f env m s)
  unfolding handle
  handle-IsConsistent (enqueue job r) s c =
      try_one_IsConsistent f env job r _ (record { own = c.own; timely = c.timely })
  handle-IsConsistent (worker_online p caps) s c =
      try_pending_IsConsistent f env _ (insert-IsConsistent f env p _ s refl c)
  handle-IsConsistent (worker_offline p) s c =
      offline_IsConsistent f env p _
        (record { own = remove-All IsOwn p s.online c.own; timely = c.timely })
  handle-IsConsistent (heartbeat p u b jobs) s c =
      heartbeat_IsConsistent f env p u b jobs (lookup p s.online) s
        (λ w e. lookup_own p s.online w c.own e) c
  handle-IsConsistent retry_tick s c = stale_IsConsistent s c
  handle-IsConsistent closed s c = c

-- Whatever messages `run` receives, in whatever order, and whichever statements fail: a scheduler
-- that holds every worker under its own identifier, over a table of jobs with unique keys and a time
-- for every status reached, goes on to be such a scheduler.
pub run-IsConsistent :
    (f : F64Ops) (turns : List (Env × Message)) (s : JobScheduler)
    → IsConsistent s
    → IsConsistent (run f turns s)
unfolding run
run-IsConsistent f [] s c = c
run-IsConsistent f ((env, enqueue job r) ∷ turns) s c =
    run-IsConsistent f turns _ (handle-IsConsistent f env (enqueue job r) s c)
run-IsConsistent f ((env, worker_online p caps) ∷ turns) s c =
    run-IsConsistent f turns _ (handle-IsConsistent f env (worker_online p caps) s c)
run-IsConsistent f ((env, worker_offline p) ∷ turns) s c =
    run-IsConsistent f turns _ (handle-IsConsistent f env (worker_offline p) s c)
run-IsConsistent f ((env, heartbeat p u b jobs) ∷ turns) s c =
    run-IsConsistent f turns _ (handle-IsConsistent f env (heartbeat p u b jobs) s c)
run-IsConsistent f ((env, retry_tick) ∷ turns) s c =
    run-IsConsistent f turns _ (handle-IsConsistent f env retry_tick s c)
run-IsConsistent f ((env, closed) ∷ turns) s c = c

assigned_not_pending : assigned ≢ pending
assigned_not_pending e = cc

-- Of two attempts on one job, one right after the other, at most one sends a message: `try_assign_one`
-- moves the job out of `pending` before it sends it, in a scheduler whose table of jobs has unique
-- keys and a time for every status reached.
pub sends_once :
    (f : F64Ops) (env env' : Env) (job : ℕ) (r r' : MatchRequest) (s : JobScheduler)
    → IsConsistent s
    → let s1 = try_assign_one f env job r s in
      let s2 = try_assign_one f env' job r' s1 in (s1.sent ≡ s.sent) ⊎ (s2.sent ≡ s1.sent)
sends_once f env env' job r r' s c =
    let s1 = try_assign_one f env job r s in
    let c1 : IsConsistent s1 = try_one_IsConsistent f env job r s c in
    elim (assign_outcome f env job r s c.timely) [
      | inl nothing ↦ inl nothing.0
      | inr (w, j, row, sent) ↦
          let moved : row.status ≢ pending =
            λ e. assigned_not_pending (sym sent.row_now.1.status ∙ e) in
          inr ((not_pending_lem f env' job r' s1 row c1.timely sent.row_now.0 moved).0)
    ]

-- ===== src/WorkerNode/Budget.antt =====
-- The requests to register that a worker has sent and may send, and the parts of its handlers that leave
-- them as they are.
use decentralized_gpu_p2p_ne.Base.{
  sym, true, ℕ, suc, ◌+◌, ◌≤◌, String, Bool, false, not, Option, none, some, List, [], ◌∷◌, ◌≡◌,
  refl, ◌∙◌, if◌then◌else◌, if_cases, arith, is_some,
}
use decentralized_gpu_p2p_ne.Scheduler.Wire.{JobSpec}
use text.Mathlib.Text.{starts_with, find?}
use decentralized_gpu_p2p_ne.WorkerNode.{
  Action, send_register, kademlia_add_address, WorkerEventLoop, act, add_all, register_with,
  do_register, on_bootstrap_identified, register_by, try_register_with_master, report_to,
  dial_parsed, dial_configured, handle_job_request, find_bootstrap, find_master, JobResult,
}

abbrev pub tally : Action → ℕ → ℕ
tally (send_register _ _) n = suc n
tally _ n = n

-- the requests to register among the actions
abbrev pub register_count : List Action → ℕ
register_count [] = 0
register_count (a ∷ as_) = tally a (register_count as_)

-- those that have been sent, and the one that may be
unfoldable pub budget : WorkerEventLoop → ℕ
budget s = register_count s.actions + (if s.registration_attempted then 0 else 1)

pub record Quiet (s t : WorkerEventLoop) : Type 0 where
  pub same_count : register_count t.actions ≡ register_count s.actions
  pub same_flag : t.registration_attempted ≡ s.registration_attempted
  pub same_peer : t.bootstrap_peer_id ≡ s.bootstrap_peer_id

pub Quiet-budget : (s t : WorkerEventLoop) → Quiet s t → budget t ≤ budget s
unfolding budget
Quiet-budget s t q = rw (q.same_count, q.same_flag) (omega arith)

pub quiet : (s : WorkerEventLoop) → Quiet s s
quiet s = record { same_count = refl; same_flag = refl; same_peer = refl }

pub then-Quiet : (s t u : WorkerEventLoop) → Quiet s t → Quiet t u → Quiet s u
then-Quiet s t u p q = record {
  same_count = q.same_count ∙ p.same_count;
  same_flag = q.same_flag ∙ p.same_flag;
  same_peer = q.same_peer ∙ p.same_peer;
}

pub add_all-Quiet :
    (p : ℕ) (addrs : List ℕ) (s t : WorkerEventLoop) → Quiet s t → Quiet s (add_all p addrs t)
add_all-Quiet p [] s t h = h
add_all-Quiet p (a ∷ addrs) s t h =
    add_all-Quiet p addrs s (act (kademlia_add_address p a) t)
      (record { same_count = h.same_count; same_flag = h.same_flag; same_peer = h.same_peer })

pub register_with-Quiet : (o : Option ℕ) (s : WorkerEventLoop) → Quiet s (register_with o s)
register_with-Quiet none s = quiet s
register_with-Quiet (some n) s = record { same_count = refl; same_flag = refl; same_peer = refl }

-- the bootstrap node, once a peer has identified itself
abbrev pub found_peer : ℕ → Option ℕ → Option ℕ
found_peer p none = some p
found_peer p (some b) = some b

-- as Quiet, where the bootstrap node is what it is after `p` has identified itself
pub record Finds (p : ℕ) (s t : WorkerEventLoop) : Type 0 where
  pub same_count : register_count t.actions ≡ register_count s.actions
  pub same_flag : t.registration_attempted ≡ s.registration_attempted
  pub found : t.bootstrap_peer_id ≡ found_peer p s.bootstrap_peer_id

pub bootstrap-Finds :
    (p : ℕ) (addrs : List ℕ) (s : WorkerEventLoop) → Finds p s (find_bootstrap p addrs s)
unfolding on_bootstrap_identified do_register
bootstrap-Finds p addrs s =
    if_cases (Finds p s) (is_some s.bootstrap_peer_id) s _
      (λ known. record {
        same_count = refl;
        same_flag = refl;
        found = sym (stays s.bootstrap_peer_id known);
      })
      (λ unknown. record {
        same_count = refl;
        same_flag = refl;
        found = sym (fresh s.bootstrap_peer_id unknown);
      })
  where
    stays : (o : Option ℕ) → is_some o ≡ true → found_peer p o ≡ o
    stays none h = cc
    stays (some b) h = refl

    fresh : (o : Option ℕ) → is_some o ≡ false → found_peer p o ≡ some p
    fresh none h = refl
    fresh (some b) h = cc

pub dial-Quiet :
    (parse : String → Option String) (o : Option String) (s : WorkerEventLoop)
    → Quiet s (dial_configured parse o s)
dial-Quiet parse none s = quiet s
dial-Quiet parse (some text) s = at_parsed (parse text)
  where
    at_parsed : (o : Option String) → Quiet s (dial_parsed o s)
    at_parsed none = quiet s
    at_parsed (some addr) =
        if_cases (Quiet s) (is_some (find? addr "/ip4/0.0.0.0")) s _ (λ _. quiet s)
          (λ _. record { same_count = refl; same_flag = refl; same_peer = refl })

-- A state after an input: the requests that it has sent and that it may send are no more than `n` above
-- those before it, and the bootstrap node is `b`.
pub record Within (n : ℕ) (b : Option ℕ) (s t : WorkerEventLoop) : Type 0 where
  pub bound : budget t ≤ budget s + n
  pub peer : t.bootstrap_peer_id ≡ b

pub of_Quiet : (s t : WorkerEventLoop) → Quiet s t → Within 0 s.bootstrap_peer_id s t
of_Quiet s t q = record { bound = omega (arith, Quiet-budget s t q); peer = q.same_peer }

-- the request takes up what the budget leaves
register_by-Within :
    (o : Option String) (p : ℕ) (s : WorkerEventLoop)
    → s.registration_attempted ≡ false
    → Within 0 s.bootstrap_peer_id s (register_by o p s)
unfolding budget
register_by-Within none p s e = record { bound = omega arith; peer = refl }
register_by-Within (some token) p s e = record { bound = rw e (omega arith); peer = refl }

pub master-Within :
    (p : ℕ) (agent : String) (s : WorkerEventLoop)
    → Within 0 s.bootstrap_peer_id s (find_master p agent s)
unfolding try_register_with_master budget
master-Within p agent s =
    let found : WorkerEventLoop = record s { master_peer_id = some p } in
    let still : Within 0 s.bootstrap_peer_id s found = record {
      bound = omega arith;
      peer = refl;
    } in
    if_cases (Within 0 s.bootstrap_peer_id s) (starts_with agent "master/") _ s
      (λ _.
        if_cases (Within 0 s.bootstrap_peer_id s) (not s.registration_attempted) _ _
          (λ fresh.
            if_cases (Within 0 s.bootstrap_peer_id s) s.registration_attempted _ _ (λ _. still)
              (λ e.
                let w = register_by-Within s.auth_token p found e in
                record { bound = w.bound; peer = w.peer }))
          (λ _. still))
      (λ _. record { bound = omega arith; peer = refl })

pub report-Quiet : (o : Option ℕ) (r : JobResult) (s : WorkerEventLoop) → Quiet s (report_to o r s)
report-Quiet none r s = quiet s
report-Quiet (some m) r s = record { same_count = refl; same_flag = refl; same_peer = refl }

pub request-Quiet :
    (channel : ℕ) (a : Option (Option JobSpec)) (room : Bool) (s : WorkerEventLoop)
    → Quiet s (handle_job_request channel a room s)
unfolding handle_job_request
request-Quiet channel none room s = record { same_count = refl; same_flag = refl; same_peer = refl }
request-Quiet channel (some spec) room s = record {
  same_count = refl;
  same_flag = refl;
  same_peer = refl;
}

-- ===== src/Workers/Standing.antt =====
-- What the row of a worker says after any calls of crates/decentgpu-master/src/db/workers.rs.
use decentralized_gpu_p2p_ne.Workers.Upsert.{UpsertOutcome, IsLinked, key_of, upsert_outcome}
use decentralized_gpu_p2p_ne.Workers.Registered.{map_worker, set_workers_lem}
use decentralized_gpu_p2p_ne.Workers.{
  set_online, has_worker, mark_all_offline, set_workers, upsert, worker_of, update_uptime,
  increment_jobs_completed, record_session_start, record_session_end,
}
use decentralized_gpu_p2p_ne.Db.Rules.{Post, Ensures, statement_rule, constrained_rule}
use decentralized_gpu_p2p_ne.Types.Capabilities.{WorkerCapabilities}
use decentralized_gpu_p2p_ne.Float.{F64Ops}
use decentralized_gpu_p2p_ne.Error.{Result, ok, err}
use decentralized_gpu_p2p_ne.Base.{
  none, [], ◌∷◌, ◌≢◌, Option, List, some, ℕ, Bool, false, if◌then◌else◌, ◌≡◌, true, ◌==◌, ==_refl,
  ap, Bool-cases, inl, ◌∙◌, ==_iff, inr, refl, if_cases,
}
use decentralized_gpu_p2p_ne.Db.{Query, WorkerRow, Db, Tables}
use decentralized_gpu_p2p_ne.Workers.Calls.{
  Standing, standing, standing_in, standing_of, Call, upserts, switches, marks_offline, scores,
  counts, starts, ends, at_peer, joins, leaves, tells, succeeds, made, perform, perform_all,
  tell_all,
}

module _ (p : ℕ) where
  abbrev Says : {A : Type 0} → Option Standing → Option Standing → Post A
  Says told before (ok a) t = standing_of p t ≡ told
  Says told before (err e) t = standing_of p t ≡ before

  abbrev IsTold : Option Standing → Option Standing → Bool × Tables → Type 0
  IsTold told before (good, t) = standing_of p t ≡ (if good then told else before)

  IsTold-by :
      {A : Type 0} (told before : Option Standing) (x : Result A × Db)
      → Says told before x.0 x.1.tables
      → IsTold told before (succeeds x)
  IsTold-by told before (ok a, db) h = h
  IsTold-by told before (err e, db) h = h

  Ensures-IsTold :
      {A : Type 0} (told : Option Standing) (q : Query A) (faults : List Bool) (t : Tables)
      → Ensures (Says {A = A} told (standing_of p t)) q t
      → IsTold told (standing_of p t) (made q faults t)
  Ensures-IsTold told q faults t h = IsTold-by told (standing_of p t) _ (h.holds faults)

  module _ (q : ℕ) (change : WorkerRow → WorkerRow)
      (keep : (w : WorkerRow) → (change w).peer_id ≡ w.peer_id) (g : Standing → Standing)
      (same : (w : WorkerRow) → standing (change w) ≡ g (standing w)) where
    at_row :
        (o : Option WorkerRow)
        → ((w : WorkerRow) → o ≡ some w → w.peer_id ≡ p)
        → standing_in (map_worker (has_worker q) change keep o) ≡ at_peer p q g (standing_in o)
    at_row none key = refl
    at_row (some w) key =
        let e : (w.peer_id == q) ≡ (p == q) = ap (λ x. x == q) (key w refl) in
        elim (Bool-cases (p == q)) [
          | inl own ↦ rw (e, own) (ap (λ s. some s) (same w))
          | inr other ↦ rw (e, other) refl
        ]

    set_told :
        (t : Tables)
        → standing_of p (record t { workers = set_workers (has_worker q) change t.workers })
          ≡ at_peer p q g (standing_of p t)
    set_told t =
        ap standing_in (set_workers_lem (has_worker q) change keep p t.workers)
        ∙ at_row (worker_of p t) (key_of p t.workers)

  leaves_lem :
      (change : WorkerRow → WorkerRow) (keep : (w : WorkerRow) → (change w).peer_id ≡ w.peer_id)
      (same : (w : WorkerRow) → standing (change w) ≡ record (standing w) { online = false })
      (o : Option WorkerRow)
      → standing_in (map_worker (λ w. true) change keep o) ≡ leaves (standing_in o)
  leaves_lem change keep same none = refl
  leaves_lem change keep same (some w) = ap (λ s. some s) (same w)

  joins_lem :
      (f : F64Ops) (now q user : ℕ) (caps : WorkerCapabilities) (t t' : Tables)
      → IsLinked f now q user caps t t'
      → standing_of p t' ≡ joins p now q user (standing_of p t)
  joins_lem f now q user caps t t' link = elim (Bool-cases (p == q)) [
    | inl own ↦ by_owner (worker_of q t) ((==_iff p q).0 own) refl own
    | inr other ↦
        let apart : p ≢ q = λ e. (let s = rw e at other in absurd (let r = ==_refl q in cc)) in
        ap standing_in (link.others p apart) ∙ unmoved (standing_of p t) other
  ]
    where
      unmoved : (o : Option Standing) → (p == q) ≡ false → o ≡ joins p now q user o
      unmoved none h = rw h refl
      unmoved (some v) h = rw h refl

      by_owner :
          (o : Option WorkerRow)
          → p ≡ q
          → worker_of q t ≡ o
          → (p == q) ≡ true
          → standing_of p t' ≡ joins p now q user (standing_of p t)
      by_owner none e found own = rw (e, link.row, found, ==_refl q) refl
      by_owner (some w) e found own = rw (e, link.row, found, ==_refl q) refl

module _ (f : F64Ops) (p : ℕ) where
  perform-IsTold :
      (faults : List Bool) (c : Call) (t : Tables)
      → IsTold p (tells p c (standing_of p t)) (standing_of p t) (perform f faults c t)
  unfolding perform set_online mark_all_offline update_uptime increment_jobs_completed
      record_session_start record_session_end
  perform-IsTold faults (upserts now q user caps) t =
      let linked = upsert_outcome f now q user caps t in
      IsTold-by p _ _ (upsert f now q user caps (record { tables = t; faults = faults })) (
        linked_says (upsert f now q user caps (record { tables = t; faults = faults }))
          (linked.holds faults))
    where
      linked_says :
          (x : Result (Unit {0}) × Db)
          → UpsertOutcome f now q user caps t x.0 x.1.tables
          → Says p (joins p now q user (standing_of p t)) (standing_of p t) x.0 x.1.tables
      linked_says (ok a, db) h = joins_lem p f now q user caps t db.tables h
      linked_says (err e, db) h = ap (standing_of p) h
  perform-IsTold faults (switches now q is_on) t =
      Ensures-IsTold p _ (set_online now q is_on) faults t
        (statement_rule _ refl (set_told p q _ (λ w. refl) _ (λ w. refl) t))
  perform-IsTold faults marks_offline t = Ensures-IsTold p _ mark_all_offline faults t (
      statement_rule _ refl (
        ap standing_in (set_workers_lem (λ w. true) _ (λ w. refl) p t.workers)
        ∙ leaves_lem p _ (λ w. refl) (λ w. refl) (worker_of p t)))
  perform-IsTold faults (scores q score) t = Ensures-IsTold p _ (update_uptime q score) faults t (
      statement_rule _ refl
        (set_told p q _ (λ w. refl) (λ s. s) (λ w. refl) t ∙ same_all (standing_of p t)))
    where
      same_all : (o : Option Standing) → at_peer p q (λ s. s) o ≡ o
      same_all none = refl
      same_all (some v) =
          ap (λ s. some s) (if_cases (λ s. s ≡ v) (p == q) v v (λ _. refl) (λ _. refl))
  perform-IsTold faults (counts q) t =
      Ensures-IsTold p _ (increment_jobs_completed q) faults t
        (constrained_rule _ _ _ refl (λ _. set_told p q _ (λ w. refl) _ (λ w. refl) t))
  perform-IsTold faults (starts now id q) t =
      Ensures-IsTold p _ (record_session_start now id q) faults t
        (constrained_rule _ _ _ refl (λ _. refl))
  perform-IsTold faults (ends now id reason) t =
      Ensures-IsTold p _ (record_session_end now id reason) faults t (statement_rule _ refl refl)

-- Whatever calls of the repository have been made, in whatever order and whichever of their statements
-- failed: the owner of a worker, the time of its registration, its flag and its count of jobs, as its
-- row has them if there is one, are what the calls that report success tell, one after another. The
-- first `upsert` of the worker makes the row, the user's from then on, with no jobs and online; a later
-- one, by any user, only sets it online; `set_online` of this worker sets its flag, `mark_all_offline`
-- clears it, and `increment_jobs_completed` of this worker adds one to its jobs. Every other call, each
-- call that fails, and those for another worker leave all four as they are.
pub standing_lem :
    (f : F64Ops) (p : ℕ) (calls : List (List Bool × Call)) (t : Tables)
    → standing_of p (perform_all f calls t) ≡ tell_all f p calls t (standing_of p t)
standing_lem f p [] t = refl
standing_lem f p ((faults, c) ∷ rest) t =
    standing_lem f p rest (perform f faults c t).1
    ∙ ap (tell_all f p rest (perform f faults c t).1) (perform-IsTold f p faults c t)

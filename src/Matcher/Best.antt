-- ===== src/Matcher/Best.antt =====
-- The scores of the workers that `select_workers` picks.
use decentralized_gpu_p2p_ne.Base.{
  ℕ, zero, suc, All-take, Bool-cases, In-drop, ◌≡◌, refl, ◌⊎◌, false, some, List, [], ◌∷◌, inl, inr,
  In, All, All-in, head?, take, drop, In-take-drop, sym, ap, ◌∙◌, subst, suc, In-drop, Ordered,
}
use decentralized_gpu_p2p_ne.Float.{F64, F64Ops}
use decentralized_gpu_p2p_ne.Matcher.{
  WorkerCandidate, MatchRequest, total_score, max_jobs, scored_from, sort_descending, peers,
  select_workers, outranks,
}
use decentralized_gpu_p2p_ne.Matcher.Sorting.{
  Above, not-Above, outranks-Above, sort_descending-All, sort_descending-Ordered, IsComparable,
  In-sort_descending,
}
use decentralized_gpu_p2p_ne.Matcher.Filters.{
  Suits, ScoreOf, scored_from-ScoreOf, ScoreOf-scored_from,
}

In-peers_of : (xs : List (F64 × ℕ)) (x : F64 × ℕ) → In x xs → In x.1 (peers xs)
In-peers_of [] x m = elim m [ ]
In-peers_of (y ∷ xs) x (inl e) = inl (ap (λ (z : F64 × ℕ). z.1) e)
In-peers_of (y ∷ xs) x (inr m) = inr (In-peers_of xs x m)

module _ (f : F64Ops) where
  -- An element behind the first `n` outranks none of them.
  behind :
      (n : ℕ) (xs : List (F64 × ℕ)) (y : F64 × ℕ)
      → Ordered (outranks f) xs
      → In y (drop n xs)
      → All (λ x. outranks f y x ≡ false) (take n xs)
  behind zero xs y d m = tt
  behind (suc n) [] y d m = tt
  behind (suc n) (x ∷ xs) y d m =
      (All-in (λ z. outranks f z x ≡ false) xs y d.0 (In-drop n xs y m), behind n xs y d.1 m)

module _ (f : F64Ops) (ws : List WorkerCandidate) (r : MatchRequest) where
  abbrev pub score : WorkerCandidate → F64 × ℕ
  score c = (total_score f (max_jobs ws) r c, c.peer_id)

  -- The worker `p` is a candidate that suits the job, and `c` has no greater score.
  abbrev pub NoBetter : WorkerCandidate → ℕ → Type 0
  NoBetter c p =
      (d : WorkerCandidate) × In d ws
      × (d.peer_id ≡ p)
      × Suits r d
      × (¬ Above f (score c).0 (score d).0)

  no_better :
      (c : WorkerCandidate) (xs : List (F64 × ℕ))
      → All (ScoreOf f (max_jobs ws) r ws) xs
      → All (λ x. outranks f (score c) x ≡ false) xs
      → All (NoBetter c) (peers xs)
  no_better c [] s h = tt
  no_better c (x ∷ xs) s h =
      let (d, m, suits, e) = s.0 in
      (
        (
          d,
          m,
          sym (ap (λ (y : F64 × ℕ). y.1) e),
          suits,
          not-Above f (score c) (score d) (subst (λ y. outranks f (score c) y ≡ false) e h.0),
        ),
        no_better c xs s.1 h.1,
      )

  -- the entries, sorted
  abbrev ranked : List (F64 × ℕ)
  ranked = sort_descending f (scored_from f (max_jobs ws) r ws)

  ranked-ScoreOf : All (ScoreOf f (max_jobs ws) r ws) ranked
  ranked-ScoreOf =
      sort_descending-All f (ScoreOf f (max_jobs ws) r ws) (scored_from f (max_jobs ws) r ws)
        (scored_from-ScoreOf f (max_jobs ws) r ws)

  In-ranked : (c : WorkerCandidate) → In c ws → Suits r c → In (score c) ranked
  In-ranked c m s = In-sort_descending f _ _ (ScoreOf-scored_from f (max_jobs ws) r ws c m s)

  -- the scores that the call compares
  abbrev pub Compared : F64 → Type 0
  Compared x = (c : WorkerCandidate) × In c ws × (x ≡ (score c).0)

  compared :
      (xs : List (F64 × ℕ)) → All (ScoreOf f (max_jobs ws) r ws) xs → All (λ x. Compared x.0) xs
  compared [] h = tt
  compared (x ∷ xs) ((c, m, s, e), h) = ((c, m, ap (λ (y : F64 × ℕ). y.0) e), compared xs h)

  module _ (comparable : IsComparable f Compared) where
    ranked-Descending : Ordered (outranks f) ranked
    ranked-Descending =
        sort_descending-Ordered f Compared comparable _
          (compared _ (scored_from-ScoreOf f (max_jobs ws) r ws))

    -- Where the scores of the candidates are comparable, as without NaN, a candidate that suits
    -- the job is selected by `select_workers`, or its score is not greater than that
    -- of any worker that is selected.
    pub select_workers_best :
        (c : WorkerCandidate)
        → In c ws
        → Suits r c
        → In c.peer_id (select_workers f ws r) ⊎ All (NoBetter c) (select_workers f ws r)
    unfolding select_workers
    select_workers_best c m s = elim (In-take-drop 3 ranked (score c) (In-ranked c m s)) [
      | inl chosen ↦ inl (In-peers_of (take 3 ranked) (score c) chosen)
      | inr left ↦ inr (
          no_better c (take 3 ranked) (All-take _ 3 ranked ranked-ScoreOf)
            (behind f 3 ranked (score c) ranked-Descending left))
    ]

    not_self : (x : F64 × ℕ) → Compared x.0 → outranks f x x ≡ false
    not_self x cx = elim (Bool-cases (outranks f x x)) [
      | inl over ↦
          let above = outranks-Above f x x over in
          absurd (comparable.asymmetric x.0 x.0 cx cx above above)
      | inr even ↦ even
    ]

    head-NoBetter :
        (xs : List (F64 × ℕ)) (c : WorkerCandidate) (p : ℕ)
        → In c ws
        → All (ScoreOf f (max_jobs ws) r ws) xs
        → Ordered (outranks f) xs
        → In (score c) xs
        → head? (peers (take 3 xs)) ≡ some p
        → NoBetter c p
    head-NoBetter [] c p m sx d n h = elim n [ ]
    head-NoBetter (x ∷ xs) c p m sx d n h =
        let (e, k, suits, q) = sx.0 in
        let first_peer : x.1 ≡ p = cc in
        let at_x : outranks f (score c) x ≡ false = elim n [
          | inl same ↦ rw (← same) (not_self (score c) (c, m, refl))
          | inr behind_x ↦ All-in (λ z. outranks f z x ≡ false) xs (score c) d.0 behind_x
        ] in
        (
          e,
          k,
          sym (ap (λ (y : F64 × ℕ). y.1) q) ∙ first_peer,
          suits,
          not-Above f (score c) (score e) (subst (λ y. outranks f (score c) y ≡ false) q at_x),
        )

    -- Where the scores of the candidates are comparable, as without NaN, the worker that
    -- `select_workers` names first, the one that the scheduler assigns, is a candidate that suits
    -- the job, and no candidate that suits it has a greater score.
    pub first_best :
        (p : ℕ)
        → head? (select_workers f ws r) ≡ some p
        → (c : WorkerCandidate) → In c ws
        → Suits r c
        → NoBetter c p
    unfolding select_workers
    first_best p h c m s =
        head-NoBetter ranked c p m ranked-ScoreOf ranked-Descending (In-ranked c m s) h

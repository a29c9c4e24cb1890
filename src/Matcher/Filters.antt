-- ===== src/Matcher/Filters.antt =====
-- The hard filters of `select_workers`, and how many workers it selects.
use Prim.Native.Nat.{min}
use decentralized_gpu_p2p_ne.Base.{
  ◌||◌, ℕ, ◌≤◌, ◌≡◌, refl, ◌⊎◌, ◌↔◌, Bool, true, false, List, [], ◌∷◌, arith, Bool-cases, inl, inr,
  length, In, any, filter, take, suc, subst, sym, All-in, In-take, length-take_min, ◌∙◌, ap, All,
  leb,
}
use decentralized_gpu_p2p_ne.Float.{F64, F64Ops}
use decentralized_gpu_p2p_ne.Types.GpuBackend.{GpuBackend, cpu_only, backend_eq}
use decentralized_gpu_p2p_ne.Types.Capabilities.{GpuInfo}
use decentralized_gpu_p2p_ne.Matcher.{
  WorkerCandidate, MatchRequest, backend_matches, has_enough_vram, eligible, total_score, max_jobs,
  scored_from, sort_descending, peers, select_workers,
}
use decentralized_gpu_p2p_ne.Matcher.Sorting.{length-sort_descending, sort_descending-All}

any_some :
    {A : Type 0} (p : A → Bool) (xs : List A) → any p xs ≡ true → (x : A) × In x xs × (p x ≡ true)
any_some p [] h = cc
any_some p (x ∷ xs) h = elim (Bool-cases (p x)) [
  | inl yes_here ↦ (x, inl refl, yes_here)
  | inr no_here ↦ let (y, m, q) = any_some p xs (ground arith) in (y, inr m, q)
]

some_any :
    {A : Type 0} (p : A → Bool) (xs : List A) (x : A) → In x xs → p x ≡ true → any p xs ≡ true
some_any p [] x m h = elim m [ ]
some_any p (y ∷ ys) x (inl e) h = rw (← e, h)
some_any p (y ∷ ys) x (inr m) h = ground (arith, some_any p ys x m h)

backend_eq_iff : (a b : GpuBackend) → (backend_eq a b ≡ true) ↔ (a ≡ b)
backend_eq_iff a b = ground arith

-- A worker suits a job if it is idle and, unless the job asks for the CPU alone, has a GPU of the
-- backend and has a GPU with the memory.
pub record Suits (request : MatchRequest) (c : WorkerCandidate) : Type 0 where
  pub idle : c.is_busy ≡ false
  pub has_backend :
      (request.required_backend ≡ cpu_only)
      ⊎ ((g : GpuInfo) × In g c.capabilities.gpus × (g.backend ≡ request.required_backend))
  pub has_memory :
      (request.required_backend ≡ cpu_only)
      ⊎ ((g : GpuInfo) × In g c.capabilities.gpus × (request.memory_limit_mb ≤ g.vram_mb))

eligible-Suits : (r : MatchRequest) (c : WorkerCandidate) → eligible r c ≡ true → Suits r c
unfolding eligible backend_matches has_enough_vram
eligible-Suits r c h = elim (Bool-cases (backend_eq r.required_backend cpu_only)) [
  | inl cpu ↦
      let e : r.required_backend ≡ cpu_only = (backend_eq_iff _ _).0 cpu in
      record { idle = ground arith; has_backend = inl e; has_memory = inl e }
  | inr gpu ↦ record {
    idle = ground arith;
    has_backend =
        let (g, m, q) =
          any_some (λ g. backend_eq g.backend r.required_backend) c.capabilities.gpus
            (ground arith) in
        inr (g, m, (backend_eq_iff _ _).0 q);
    has_memory =
        let (g, m, q) =
          any_some (λ g. leb r.memory_limit_mb g.vram_mb) c.capabilities.gpus (ground arith) in
        inr (g, m, ground arith);
  }
]

backend_matches_lem :
    (r : MatchRequest) (c : WorkerCandidate)
    → (r.required_backend ≡ cpu_only)
      ⊎ ((g : GpuInfo) × In g c.capabilities.gpus × (g.backend ≡ r.required_backend))
    → backend_matches c r.required_backend ≡ true
unfolding backend_matches
backend_matches_lem r c (inl e) = rw e
backend_matches_lem r c (inr (g, m, q)) =
    elim (Bool-cases (backend_eq r.required_backend cpu_only)) [
      | inl cpu ↦ rw cpu
      | inr gpu ↦ rw gpu (
          some_any (λ g. backend_eq g.backend r.required_backend) c.capabilities.gpus g m
            ((backend_eq_iff _ _).1 q))
    ]

enough_vram_lem :
    (r : MatchRequest) (c : WorkerCandidate)
    → (r.required_backend ≡ cpu_only)
      ⊎ ((g : GpuInfo) × In g c.capabilities.gpus × (r.memory_limit_mb ≤ g.vram_mb))
    → (backend_eq r.required_backend cpu_only || has_enough_vram c r.memory_limit_mb) ≡ true
unfolding has_enough_vram
enough_vram_lem r c (inl e) = rw e
enough_vram_lem r c (inr (g, m, q)) = elim (Bool-cases (backend_eq r.required_backend cpu_only)) [
  | inl cpu ↦ rw cpu
  | inr gpu ↦
      rw gpu
        (some_any (λ g. leb r.memory_limit_mb g.vram_mb) c.capabilities.gpus g m (ground arith))
]

Suits-eligible : (r : MatchRequest) (c : WorkerCandidate) → Suits r c → eligible r c ≡ true
unfolding eligible
Suits-eligible r c s =
    rw (s.idle, backend_matches_lem r c s.has_backend, enough_vram_lem r c s.has_memory)

-- The filters let exactly the workers pass that suit the job.
pub eligible_iff : (r : MatchRequest) (c : WorkerCandidate) → (eligible r c ≡ true) ↔ Suits r c
eligible_iff r c = (eligible-Suits r c, Suits-eligible r c)

module _ (f : F64Ops) (jobs : ℕ) (r : MatchRequest) where
  -- what a scored entry stands for
  abbrev pub ScoreOf : List WorkerCandidate → F64 × ℕ → Type 0
  ScoreOf ws x =
      (c : WorkerCandidate) × In c ws × Suits r c × (x ≡ (total_score f jobs r c, c.peer_id))

  widen :
      (c : WorkerCandidate) (ws : List WorkerCandidate) (xs : List (F64 × ℕ))
      → All (ScoreOf ws) xs
      → All (ScoreOf (c ∷ ws)) xs
  widen c ws [] h = tt
  widen c ws (x ∷ xs) ((d, m, s, e), h) = ((d, inr m, s, e), widen c ws xs h)

  pub scored_from-ScoreOf : (ws : List WorkerCandidate) → All (ScoreOf ws) (scored_from f jobs r ws)
  scored_from-ScoreOf [] = tt
  scored_from-ScoreOf (c ∷ ws) = elim (Bool-cases (eligible r c)) [
    | inl good ↦
        rw good
          ((c, inl refl, eligible-Suits r c good, refl), widen c ws _ (scored_from-ScoreOf ws))
    | inr bad ↦ rw bad (widen c ws _ (scored_from-ScoreOf ws))
  ]

  pub ScoreOf-scored_from :
      (ws : List WorkerCandidate) (c : WorkerCandidate)
      → In c ws
      → Suits r c
      → In (total_score f jobs r c, c.peer_id) (scored_from f jobs r ws)
  ScoreOf-scored_from [] c m s = elim m [ ]
  ScoreOf-scored_from (d ∷ ws) c (inl e) s =
      rw (Suits-eligible r d (subst (Suits r) e s)) (inl (rw e))
  ScoreOf-scored_from (d ∷ ws) c (inr m) s = elim (Bool-cases (eligible r d)) [
    | inl good ↦ rw good (inr (ScoreOf-scored_from ws c m s))
    | inr bad ↦ rw bad (ScoreOf-scored_from ws c m s)
  ]

  scored_from-length :
      (ws : List WorkerCandidate)
      → length (scored_from f jobs r ws) ≡ length (filter (eligible r) ws)
  scored_from-length [] = refl
  scored_from-length (c ∷ ws) = ground (arith, scored_from-length ws)

length-peers : (xs : List (F64 × ℕ)) → length (peers xs) ≡ length xs
length-peers [] = refl
length-peers (x ∷ xs) = ap suc (length-peers xs)

length-select_workers :
    (f : F64Ops) (ws : List WorkerCandidate) (r : MatchRequest)
    → length (select_workers f ws r) ≡ min 3 (length (filter (eligible r) ws))
unfolding select_workers
length-select_workers f ws r =
    let xs = scored_from f (max_jobs ws) r ws in
    omega (
      arith,
      length-peers (take 3 (sort_descending f xs)),
      length-take_min 3 (sort_descending f xs),
      length-sort_descending f xs,
      scored_from-length f (max_jobs ws) r ws,
    )

In-peers : (xs : List (F64 × ℕ)) (p : ℕ) → In p (peers xs) → (x : F64 × ℕ) × In x xs × (x.1 ≡ p)
In-peers [] p m = elim m [ ]
In-peers ((s, q) ∷ xs) p (inl e) = ((s, q), inl refl, sym e)
In-peers ((s, q) ∷ xs) p (inr m) = let (x, n, e) = In-peers xs p m in (x, inr n, e)

pub selected_Suits :
    (f : F64Ops) (ws : List WorkerCandidate) (r : MatchRequest) (p : ℕ)
    → In p (select_workers f ws r)
    → (c : WorkerCandidate) × In c ws × (c.peer_id ≡ p) × Suits r c
unfolding select_workers
selected_Suits f ws r p m =
    let xs = scored_from f (max_jobs ws) r ws in
    let (x, n, e) = In-peers (take 3 (sort_descending f xs)) p m in
    let (c, k, s, q) =
      All-in (ScoreOf f (max_jobs ws) r ws) (sort_descending f xs) x
        (sort_descending-All f (ScoreOf f (max_jobs ws) r ws) xs
          (scored_from-ScoreOf f (max_jobs ws) r ws))
        (In-take 3 (sort_descending f xs) x n) in
    (c, k, sym (ap (λ (y : F64 × ℕ). y.1) q) ∙ e, s)

-- `select_workers` selects as many workers as pass the filters, and three where more do, and each that it
-- selects is a candidate that suits the job.
pub select_workers_lem :
    (f : F64Ops) (ws : List WorkerCandidate) (r : MatchRequest)
    → (length (select_workers f ws r) ≡ min 3 (length (filter (eligible r) ws)))
      × ((p : ℕ)
          → In p (select_workers f ws r)
          → (c : WorkerCandidate) × In c ws × (c.peer_id ≡ p) × Suits r c)
select_workers_lem f ws r = (length-select_workers f ws r, selected_Suits f ws r)

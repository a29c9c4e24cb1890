-- ===== src/Db/Pages.antt =====
-- A page of sorted rows, `ORDER BY … LIMIT … OFFSET …`.
use decentralized_gpu_p2p_ne.Base.{
  ℕ, zero, suc, ◌≡◌, refl, Bool, true, false, List, [], ◌∷◌, Bool-cases, inl, inr, In, All,
  All-take, length, length-take, take, drop, filter, sort_by, sort_by-All, sort_by-Ordered, Ordered,
  arith,
}
use decentralized_gpu_p2p_ne.Base.Int.{ℤ, pos, negsuc, ◌≤ℤ◌}
use decentralized_gpu_p2p_ne.Error.{Result, ok, err, database}
use decentralized_gpu_p2p_ne.Db.Statements.{paged}

module _ {A : Type 0} where
  All-drop : (P : A → Type 0) (n : ℕ) (xs : List A) → All P xs → All P (drop n xs)
  All-drop P zero xs h = h
  All-drop P (suc n) [] h = tt
  All-drop P (suc n) (x ∷ xs) h = All-drop P n xs h.1

  module _ (over : A → A → Bool) where
    Ordered-take : (n : ℕ) (xs : List A) → Ordered over xs → Ordered over (take n xs)
    Ordered-take zero xs h = tt
    Ordered-take (suc n) [] h = tt
    Ordered-take (suc n) (x ∷ xs) h =
        (All-take (λ y. over y x ≡ false) n xs h.0, Ordered-take n xs h.1)

    Ordered-drop : (n : ℕ) (xs : List A) → Ordered over xs → Ordered over (drop n xs)
    Ordered-drop zero xs h = h
    Ordered-drop (suc n) [] h = tt
    Ordered-drop (suc n) (x ∷ xs) h = Ordered-drop n xs h.1

  -- what a filter lets pass of the elements that stand in a list
  pub All-filter :
      (p : A → Bool) (P : A → Type 0) (xs : List A)
      → ((x : A) → In x xs → p x ≡ true → P x)
      → All P (filter p xs)
  All-filter p P [] h = tt
  All-filter p P (x ∷ xs) h = elim (Bool-cases (p x)) [
    | inl hit ↦ rw hit (h x (inl refl) hit, All-filter p P xs (λ y m. h y (inr m)))
    | inr miss ↦ rw miss (All-filter p P xs (λ y m. h y (inr m)))
  ]

All-unit : {A : Type 0} (xs : List A) → All (λ x. Unit {0}) xs
All-unit [] = tt
All-unit (x ∷ xs) = (tt, All-unit xs)

-- at most `limit` rows, in order, all with a property; or the error of the database
module _ {A : Type 0} (over : A → A → Bool) (P : A → Type 0) (limit : ℤ) where
  abbrev pub IsPage : Result (List A) → Type 0
  IsPage (ok rows) = All P rows × Ordered over rows × (pos (length rows) ≤ℤ limit)
  IsPage (err e) = e ≡ database

module _ {A : Type 0} (over : A → A → Bool)
    (trans : (x y z : A)
      → Unit {0}
      → Unit {0}
      → Unit {0}
      → over y x ≡ false
      → over z y ≡ false
      → over z x ≡ false)
    (asym : (x y : A) → Unit {0} → Unit {0} → over y x ≡ true → over x y ≡ false) (P : A → Type 0)
    (xs : List A) (all : All P xs) where
  pub paged-IsPage : (limit offset : ℤ) → IsPage over P limit (paged limit offset (sort_by over xs))
  paged-IsPage (pos l) (pos o) = (
    All-take P l _ (All-drop P o _ (sort_by-All over P xs all)),
    Ordered-take over l _
        (Ordered-drop over o _ (sort_by-Ordered over (λ x. Unit {0}) trans asym xs (All-unit xs))),
    omega (arith, length-take l (drop o (sort_by over xs))),
  )
  paged-IsPage (negsuc l) o = refl
  paged-IsPage (pos l) (negsuc o) = refl

-- at most `limit` rows with a property, in whatever order; or the error of the database
module _ {A : Type 0} (P : A → Type 0) (limit : ℤ) where
  abbrev pub IsPart : Result (List A) → Type 0
  IsPart (ok rows) = All P rows × (pos (length rows) ≤ℤ limit)
  IsPart (err e) = e ≡ database

pub paged-IsPart :
    {A : Type 0} (over : A → A → Bool) (P : A → Type 0) (xs : List A)
    → All P xs
    → (limit offset : ℤ) → IsPart P limit (paged limit offset (sort_by over xs))
paged-IsPart over P xs all (pos l) (pos o) = (
  All-take P l _ (All-drop P o _ (sort_by-All over P xs all)),
  omega (arith, length-take l (drop o (sort_by over xs))),
)
paged-IsPart over P xs all (negsuc l) o = refl
paged-IsPart over P xs all (pos l) (negsuc o) = refl

-- ===== src/Base/Lists.antt =====
-- Lists measured by native numbers, Boolean searches and the predicates that the components share.
use Prim.Native.Nat.{ℕ, min, zero, suc, ◌+◌, ◌≤◌}
use mathlib.Core.Path.{◌≡◌, refl, ap}
use mathlib.Core.Logic.{◌⊎◌, inl, inr}
use mathlib.Core.Bool.{Bool, true, false, ◌||◌}
use mathlib.Core.Option.{Option, none, some}
use mathlib.Core.List.{List, [], ◌∷◌, ◌++◌}
use Prim.Native.Char.{code}
use Prim.Native.String.{String}
use native.Mathlib.Omega.{arith}
use decentralized_gpu_p2p_ne.Base.Tests.{◌==◌, if◌then◌else◌, Bool-cases}

module _ {ℓ} {A : Type ℓ} where
  abbrev pub length : List A → ℕ
  length [] = 0
  length (x ∷ xs) = suc (length xs)

  -- `Vec::truncate` and SQL's `LIMIT`
  abbrev pub take : ℕ → List A → List A
  take zero xs = []
  take (suc n) [] = []
  take (suc n) (x ∷ xs) = x ∷ take n xs

  -- SQL's `OFFSET`
  abbrev pub drop : ℕ → List A → List A
  drop zero xs = xs
  drop (suc n) [] = []
  drop (suc n) (x ∷ xs) = drop n xs

  abbrev pub head? : List A → Option A
  head? [] = none
  head? (x ∷ xs) = some x

  -- `iter().any`
  abbrev pub any : (A → Bool) → List A → Bool
  any p [] = false
  any p (x ∷ xs) = p x || any p xs

  -- `iter().filter`, and SQL's `WHERE`
  abbrev pub filter : (A → Bool) → List A → List A
  filter p [] = []
  filter p (x ∷ xs) = let rest = filter p xs in if p x then x ∷ rest else rest

  -- the first row that a unique key picks
  abbrev pub find : (A → Bool) → List A → Option A
  find p [] = none
  find p (x ∷ xs) = let rest = find p xs in if p x then some x else rest

  abbrev pub All {κ} : (A → Type κ) → List A → Type κ
  All P [] = Unit
  All P (x ∷ xs) = P x × All P xs

  pub length-take : (n : ℕ) (xs : List A) → length (take n xs) ≤ n
  length-take zero xs = omega arith
  length-take (suc n) [] = omega arith
  length-take (suc n) (x ∷ xs) = omega (arith, length-take n xs)

  pub append_assoc : (xs ys zs : List A) → (xs ++ ys) ++ zs ≡ xs ++ (ys ++ zs)
  append_assoc [] ys zs = refl
  append_assoc (x ∷ xs) ys zs = ap (λ ws. x ∷ ws) (append_assoc xs ys zs)

  pub length-append : (xs ys : List A) → length (xs ++ ys) ≡ length xs + length ys
  length-append [] ys = omega arith
  length-append (x ∷ xs) ys = omega (arith, length-append xs ys)

module _ {A : Type 0} where
  -- `x` stands in the list
  abbrev pub In : A → List A → Type 0
  In a [] = ⊥
  In a (x ∷ xs) = (a ≡ x) ⊎ In a xs

  pub All-in {κ} : (P : A → Type κ) (xs : List A) (a : A) → All P xs → In a xs → P a
  All-in P [] a h m = elim m [ ]
  All-in P (x ∷ xs) a h (inl e) = rw e h.0
  All-in P (x ∷ xs) a h (inr m) = All-in P xs a h.1 m

module _ {A : Type 0} where
  pub All-take : (P : A → Type 0) (n : ℕ) (xs : List A) → All P xs → All P (take n xs)
  All-take P zero xs h = tt
  All-take P (suc n) [] h = tt
  All-take P (suc n) (x ∷ xs) h = (h.0, All-take P n xs h.1)

  pub In-take : (n : ℕ) (xs : List A) (a : A) → In a (take n xs) → In a xs
  In-take zero xs a m = elim m [ ]
  In-take (suc n) [] a m = elim m [ ]
  In-take (suc n) (x ∷ xs) a (inl e) = inl e
  In-take (suc n) (x ∷ xs) a (inr m) = inr (In-take n xs a m)

  pub In-drop : (n : ℕ) (xs : List A) (a : A) → In a (drop n xs) → In a xs
  In-drop zero xs a m = m
  In-drop (suc n) [] a m = elim m [ ]
  In-drop (suc n) (x ∷ xs) a m = inr (In-drop n xs a m)

  -- What stands in a list stands in its first part or behind it.
  pub In-take-drop : (n : ℕ) (xs : List A) (a : A) → In a xs → In a (take n xs) ⊎ In a (drop n xs)
  In-take-drop zero xs a m = inr m
  In-take-drop (suc n) [] a m = elim m [ ]
  In-take-drop (suc n) (x ∷ xs) a (inl e) = inl (inl e)
  In-take-drop (suc n) (x ∷ xs) a (inr m) = elim (In-take-drop n xs a m) [
    | inl first ↦ inl (inr first)
    | inr behind ↦ inr behind
  ]

  pub length-take_min : (n : ℕ) (xs : List A) → length (take n xs) ≡ min n (length xs)
  length-take_min zero xs = omega arith
  length-take_min (suc n) [] = omega arith
  length-take_min (suc n) (x ∷ xs) = omega (arith, length-take_min n xs)

pub In-filter :
    {A : Type 0} (p : A → Bool) (xs : List A) (a : A) → In a (filter p xs) → In a xs × (p a ≡ true)
In-filter p [] a m = elim m [ ]
In-filter p (x ∷ xs) a m = elim (Bool-cases (p x)) [
  | inl hit ↦ elim (rw hit at m) [
    | inl e ↦ (inl e, rw e hit)
    | inr n ↦ let (k, q) = In-filter p xs a n in (inr k, q)
  ]
  | inr miss ↦ let (k, q) = In-filter p xs a (rw miss at m) in (inr k, q)
]

-- `contains` on a list of identifiers
abbrev pub contains : ℕ → List ℕ → Bool
contains a [] = false
contains a (x ∷ xs) = a == x || contains a xs

-- the code points of a text
abbrev pub codes : String → List ℕ
codes String.[] = []
codes (String.◌∷◌ c s) = code c ∷ codes s

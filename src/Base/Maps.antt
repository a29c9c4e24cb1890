-- ===== src/Base/Maps.antt =====
-- A `HashMap` as an association list. The order of its keys, which the source leaves open, is that of
-- the list.
use decentralized_gpu_p2p_ne.Base.Tests.{◌==◌, if◌then◌else◌, Bool-cases}
use mathlib.Core.Logic.{inl, inr}
use decentralized_gpu_p2p_ne.Base.Lists.{All}
use Prim.Native.Nat.{ℕ}
use mathlib.Core.Path.{◌≡◌}
use mathlib.Core.Option.{Option, none, some}
use mathlib.Core.List.{List, [], ◌∷◌}
use native.Mathlib.Omega.{arith}

module _ {A : Type 0} where
  -- `get`
  abbrev pub lookup : ℕ → List (ℕ × A) → Option A
  lookup k [] = none
  lookup k ((l, a) ∷ m) = let rest = lookup k m in if l == k then some a else rest

  -- `insert`: a key that is there gets the new value
  abbrev pub insert : ℕ → A → List (ℕ × A) → List (ℕ × A)
  insert k a [] = (k, a) ∷ []
  insert k a ((l, b) ∷ m) = let rest = insert k a m in if l == k then (k, a) ∷ m else (l, b) ∷ rest

  abbrev pub remove : ℕ → List (ℕ × A) → List (ℕ × A)
  remove k [] = []
  remove k ((l, b) ∷ m) = let rest = remove k m in if l == k then rest else (l, b) ∷ rest

  abbrev pub keys : List (ℕ × A) → List ℕ
  keys [] = []
  keys ((k, _) ∷ m) = k ∷ keys m

  abbrev pub values : List (ℕ × A) → List A
  values [] = []
  values ((_, a) ∷ m) = a ∷ values m

  pub lookup-insert :
      (k v : ℕ) (a : A) (m : List (ℕ × A))
      → lookup v (insert k a m) ≡ (if v == k then some a else lookup v m)
  lookup-insert k v a [] = ground arith
  lookup-insert k v a ((l, b) ∷ m) = ground (arith, lookup-insert k v a m)

  pub lookup-remove :
      (k v : ℕ) (m : List (ℕ × A)) → lookup v (remove k m) ≡ (if v == k then none else lookup v m)
  lookup-remove k v [] = ground arith
  lookup-remove k v ((l, b) ∷ m) = ground (arith, lookup-remove k v m)

  -- A property of all entries.
  pub insert-All :
      (P : ℕ × A → Type 0) (k : ℕ) (a : A) (m : List (ℕ × A))
      → P (k, a)
      → All P m
      → All P (insert k a m)
  insert-All P k a [] p h = (p, tt)
  insert-All P k a ((l, b) ∷ m) p h = elim (Bool-cases (l == k)) [
    | inl here ↦ rw here (p, h.1)
    | inr there ↦ rw there (h.0, insert-All P k a m p h.1)
  ]

  pub remove-All : (P : ℕ × A → Type 0) (k : ℕ) (m : List (ℕ × A)) → All P m → All P (remove k m)
  remove-All P k [] h = tt
  remove-All P k ((l, b) ∷ m) h = elim (Bool-cases (l == k)) [
    | inl here ↦ rw here (remove-All P k m h.1)
    | inr there ↦ rw there (h.0, remove-All P k m h.1)
  ]

-- ===== src/Base/Sorting.antt =====
-- A sort by a Boolean comparison: SQL's `ORDER BY`. Of two rows that compare equal either may come
-- first in SQL; here the one that stands first in the table does.
use decentralized_gpu_p2p_ne.Base.Tests.{if◌then◌else◌, Bool-cases}
use decentralized_gpu_p2p_ne.Base.Lists.{length, All, In}
use Prim.Native.Nat.{suc}
use mathlib.Core.Path.{◌≡◌, refl}
use mathlib.Core.Logic.{inl, inr}
use mathlib.Core.Bool.{Bool, true, false}
use mathlib.Core.List.{List, [], ◌∷◌}
use native.Mathlib.Omega.{arith}

module _ {A : Type 0} (over : A → A → Bool) where
  -- `x` goes before the first element that does not go over it
  abbrev pub insert_by : A → List A → List A
  insert_by x [] = x ∷ []
  insert_by x (y ∷ ys) = let rest = insert_by x ys in if over y x then y ∷ rest else x ∷ y ∷ ys

  abbrev pub sort_by : List A → List A
  sort_by [] = []
  sort_by (x ∷ xs) = insert_by x (sort_by xs)

  -- no element goes over one that stands before it
  abbrev pub Ordered : List A → Type 0
  Ordered [] = Unit
  Ordered (x ∷ xs) = All (λ y. over y x ≡ false) xs × Ordered xs

  insert_by-All : (P : A → Type 0) (x : A) (ys : List A) → P x → All P ys → All P (insert_by x ys)
  insert_by-All P x [] px h = (px, tt)
  insert_by-All P x (y ∷ ys) px h = elim (Bool-cases (over y x)) [
    | inl later ↦ rw later (h.0, insert_by-All P x ys px h.1)
    | inr here ↦ rw here (px, h)
  ]

  pub sort_by-All : (P : A → Type 0) (xs : List A) → All P xs → All P (sort_by xs)
  sort_by-All P [] h = tt
  sort_by-All P (x ∷ xs) h = insert_by-All P x _ h.0 (sort_by-All P xs h.1)

  insert_by-length : (x : A) (ys : List A) → length (insert_by x ys) ≡ suc (length ys)
  insert_by-length x [] = refl
  insert_by-length x (y ∷ ys) = ground (arith, insert_by-length x ys)

  pub sort_by-length : (xs : List A) → length (sort_by xs) ≡ length xs
  sort_by-length [] = refl
  sort_by-length (x ∷ xs) = omega (arith, insert_by-length x (sort_by xs), sort_by-length xs)

  In-insert_by : (x : A) (ys : List A) (z : A) → In z (x ∷ ys) → In z (insert_by x ys)
  In-insert_by x [] z m = m
  In-insert_by x (y ∷ ys) z m = elim (Bool-cases (over y x)) [
    | inl later ↦ rw later (elim m [
      | inl e ↦ inr (In-insert_by x ys z (inl e))
      | inr n ↦ elim n [ inl e ↦ inl e | inr k ↦ inr (In-insert_by x ys z (inr k)) ]
    ])
    | inr here ↦ rw here m
  ]

  pub In-sort_by : (xs : List A) (z : A) → In z xs → In z (sort_by xs)
  In-sort_by [] z m = m
  In-sort_by (x ∷ xs) z (inl e) = In-insert_by x _ z (inl e)
  In-sort_by (x ∷ xs) z (inr m) = In-insert_by x _ z (inr (In-sort_by xs z m))

  -- where the comparison is an order on the elements that `S` holds of
  module _ (S : A → Type 0)
      (trans : (x y z : A)
        → S x
        → S y
        → S z
        → over y x ≡ false
        → over z y ≡ false
        → over z x ≡ false)
      (asym : (x y : A) → S x → S y → over y x ≡ true → over x y ≡ false) where
    below :
        (x y : A) (ys : List A)
        → S x
        → S y
        → All S ys
        → over y x ≡ false
        → All (λ z. over z y ≡ false) ys
        → All (λ z. over z x ≡ false) ys
    below x y [] sx sy all h s = tt
    below x y (z ∷ zs) sx sy all h s =
        (trans x y z sx sy all.0 h s.0, below x y zs sx sy all.1 h s.1)

    insert_by-Ordered :
        (x : A) (ys : List A) → S x → All S ys → Ordered ys → Ordered (insert_by x ys)
    insert_by-Ordered x [] sx all h = (tt, tt)
    insert_by-Ordered x (y ∷ ys) sx all h = elim (Bool-cases (over y x)) [
      | inl later ↦ rw later (
        insert_by-All (λ z. over z y ≡ false) x ys (asym x y sx all.0 later) h.0,
        insert_by-Ordered x ys sx all.1 h.1,
      )
      | inr here ↦ rw here ((here, below x y ys sx all.0 all.1 here h.0), h)
    ]

    pub sort_by-Ordered : (xs : List A) → All S xs → Ordered (sort_by xs)
    sort_by-Ordered [] all = tt
    sort_by-Ordered (x ∷ xs) all =
        insert_by-Ordered x _ all.0 (sort_by-All S xs all.1) (sort_by-Ordered xs all.1)

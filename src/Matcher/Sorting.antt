-- ===== src/Matcher/Sorting.antt =====
-- The sort of `select_workers`: in descending order where the scores are comparable.
use Prim.Native.Nat.{Ordering}
use decentralized_gpu_p2p_ne.Base.{
  ℕ, ◌≡◌, refl, some, true, false, List, All, In, Bool-cases, inl, inr, arith, length, Ordered,
  sort_by-All, sort_by-length, In-sort_by, sort_by-Ordered,
}
use decentralized_gpu_p2p_ne.Float.{F64, F64Ops}
use decentralized_gpu_p2p_ne.Matcher.{outranks, sort_descending}

module _ (f : F64Ops) where
  pub length-sort_descending : (xs : List (F64 × ℕ)) → length (sort_descending f xs) ≡ length xs
  unfolding sort_descending
  length-sort_descending xs = sort_by-length (outranks f) xs

  pub sort_descending-All :
      (P : F64 × ℕ → Type 0) (xs : List (F64 × ℕ)) → All P xs → All P (sort_descending f xs)
  unfolding sort_descending
  sort_descending-All P xs h = sort_by-All (outranks f) P xs h

  pub In-sort_descending :
      (xs : List (F64 × ℕ)) (z : F64 × ℕ) → In z xs → In z (sort_descending f xs)
  unfolding sort_descending
  In-sort_descending xs z m = In-sort_by (outranks f) xs z m

  -- `x` is greater than `y`
  abbrev pub Above : F64 → F64 → Type 0
  Above x y = f.partial_cmp x y ≡ some Ordering.gt

  -- Scores that can be put in order, as without NaN: not to be greater is transitive, and of two
  -- scores one is not greater than the other.
  pub record IsComparable (S : F64 → Type 0) : Type 0 where
    pub transitive : (x y z : F64) → S x → S y → S z → ¬ Above y x → ¬ Above z y → ¬ Above z x
    pub asymmetric : (x y : F64) → S x → S y → Above y x → ¬ Above x y

  pub outranks-Above : (y x : F64 × ℕ) → outranks f y x ≡ true → Above y.0 x.0
  outranks-Above y x h = ground arith

  pub Above-outranks : (y x : F64 × ℕ) → Above y.0 x.0 → outranks f y x ≡ true
  Above-outranks y x h = rw (h, outranks) refl

  pub not-Above : (y x : F64 × ℕ) → outranks f y x ≡ false → ¬ Above y.0 x.0
  not-Above y x h a = let over = Above-outranks y x a in cc

  pub not_outranks : (y x : F64 × ℕ) → ¬ Above y.0 x.0 → outranks f y x ≡ false
  not_outranks y x h = elim (Bool-cases (outranks f y x)) [
    | inl over ↦ absurd (h (outranks-Above y x over))
    | inr even ↦ even
  ]

  module _ (S : F64 → Type 0) (c : IsComparable S) where
    never_over :
        (x y z : F64 × ℕ)
        → S x.0
        → S y.0
        → S z.0
        → outranks f y x ≡ false
        → outranks f z y ≡ false
        → outranks f z x ≡ false
    never_over x y z sx sy sz h k =
        not_outranks z x (c.transitive x.0 y.0 z.0 sx sy sz (not-Above y x h) (not-Above z y k))

    one_over : (x y : F64 × ℕ) → S x.0 → S y.0 → outranks f y x ≡ true → outranks f x y ≡ false
    one_over x y sx sy h = not_outranks x y (c.asymmetric x.0 y.0 sx sy (outranks-Above y x h))

    pub sort_descending-Ordered :
        (xs : List (F64 × ℕ)) → All (λ x. S x.0) xs → Ordered (outranks f) (sort_descending f xs)
    unfolding sort_descending
    sort_descending-Ordered xs all =
        sort_by-Ordered (outranks f) (λ x. S x.0) never_over one_over xs all

-- ===== src/Ledger/Accounts.antt =====
-- The rows of `compute_unit_balances` under an update, and the invariants of the table.
use decentralized_gpu_p2p_ne.Base.{
  ℕ, true, false, ◌≡◌, refl, Option, none, some, List, [], ◌∷◌, ◌==◌, if◌then◌else◌, arith, All,
  Bool-cases, ==_iff, ◌⊎◌, ◌∙◌, subst, sym, inl, inr,
}
use decentralized_gpu_p2p_ne.Base.Int.{pos, ◌≤ℤ◌, IsI64}
use decentralized_gpu_p2p_ne.Db.{Balance}
use decentralized_gpu_p2p_ne.Ledger.Rows.{balance_in, set_rows, rows_check, balance_check}

-- What is reserved is covered by the balance, and both columns hold numbers from 0 up.
pub record IsSolvent (b : Balance) : Type 0 where
  pub reserved_nonneg : pos 0 ≤ℤ b.cu_reserved
  pub covered : b.cu_reserved ≤ℤ b.cu_balance
  pub fits : IsI64 b.cu_balance

-- `user_id` is the primary key.
abbrev pub Keyed : List Balance → Type 0
Keyed [] = Unit
Keyed (b ∷ bs) = (balance_in b.user_id bs ≡ none) × Keyed bs

-- Updates of the columns that are not the key.
abbrev pub KeepsKey : (Balance → Balance) → Type 0
KeepsKey f = (b : Balance) → (f b).user_id ≡ b.user_id

abbrev pub map_row : (Balance → Balance) → Option Balance → Option Balance
map_row f none = none
map_row f (some b) = some (f b)

module _ (u : ℕ) (f : Balance → Balance) (keep : KeepsKey f) where
  pub balance_in-set_rows :
      (v : ℕ) (bs : List Balance)
      → balance_in v (set_rows u f bs)
        ≡ (if v == u then map_row f (balance_in v bs) else balance_in v bs)
  balance_in-set_rows v [] = ground arith
  balance_in-set_rows v (b ∷ bs) = ground (arith, keep b, balance_in-set_rows v bs)

  pub set_rows-Keyed : (bs : List Balance) → Keyed bs → Keyed (set_rows u f bs)
  set_rows-Keyed [] h = tt
  set_rows-Keyed (b ∷ bs) h =
      ground (arith, keep b, set_rows-Keyed bs h.1, balance_in-set_rows b.user_id bs)

-- The account of `v` after an update of the row of `u`.
pub account_after :
    (u : ℕ) (f : Balance → Balance) (keep : KeepsKey f) (bs : List Balance) (b : Balance) (v : ℕ)
    → balance_in u bs ≡ some b
    → balance_in v (set_rows u f bs) ≡ (if v == u then some (f b) else balance_in v bs)
account_after u f keep bs b v e = balance_in-set_rows u f keep v bs ∙ pick (Bool-cases (v == u))
  where
    pick :
        ((v == u) ≡ true) ⊎ ((v == u) ≡ false)
        → (if v == u then map_row f (balance_in v bs) else balance_in v bs)
          ≡ (if v == u then some (f b) else balance_in v bs)
    pick (inl same) = rw ((==_iff v u).0 same, e)
    pick (inr other) = rw other

-- Under a unique key an update touches the one row that the key finds.
module _ (u : ℕ) (f : Balance → Balance) where
  pub set_rows_absent : (bs : List Balance) → balance_in u bs ≡ none → set_rows u f bs ≡ bs
  set_rows_absent [] h = refl
  set_rows_absent (b ∷ bs) h = ground (arith, set_rows_absent bs)

  pub rows_check_absent : (bs : List Balance) → balance_in u bs ≡ none → rows_check u f bs ≡ true
  rows_check_absent [] h = refl
  rows_check_absent (b ∷ bs) h = ground (arith, rows_check_absent bs)

  pub rows_check_found :
      (bs : List Balance) (r : Balance)
      → Keyed bs
      → balance_in u bs ≡ some r
      → rows_check u f bs ≡ balance_check (f r)
  rows_check_found [] r k e = cc
  rows_check_found (b ∷ bs) r k e = ground (arith, rows_check_found bs r k.1, rows_check_absent bs)

  pub set_rows_found :
      (P : Balance → Type 0) (bs : List Balance) (r : Balance)
      → Keyed bs
      → balance_in u bs ≡ some r
      → P (f r)
      → All P bs
      → All P (set_rows u f bs)
  set_rows_found P [] r k e h all = all
  set_rows_found P (b ∷ bs) r k e h all = elim (Bool-cases (b.user_id == u)) [
    | inl same ↦
        let p : b ≡ r = ground arith in
        let absent : balance_in u bs ≡ none = ground arith in
        (rw same (subst (λ x. P (f x)) (sym p) h), rw (set_rows_absent bs absent) all.1)
    | inr other ↦
        let rest : balance_in u bs ≡ some r = ground arith in
        (rw other all.0, set_rows_found P bs r k.1 rest h all.1)
  ]

pub balance_in_All :
    (P : Balance → Type 0) (u : ℕ) (bs : List Balance) (r : Balance)
    → balance_in u bs ≡ some r
    → All P bs
    → P r
balance_in_All P u [] r e all = cc
balance_in_All P u (b ∷ bs) r e all = elim (Bool-cases (b.user_id == u)) [
  | inl same ↦ let p : b ≡ r = ground arith in subst P p all.0
  | inr other ↦ balance_in_All P u bs r (ground arith) all.1
]

-- What the constraints say of a row that they admit.
pub balance_check_parts :
    (b : Balance)
    → balance_check b ≡ true
    → (pos 0 ≤ℤ b.cu_balance) × (pos 0 ≤ℤ b.cu_reserved) × IsI64 b.cu_balance
balance_check_parts b h = ground arith

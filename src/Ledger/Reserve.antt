-- ===== src/Ledger/Reserve.antt =====
-- `ComputeUnitLedger::reserve` on every path.
use decentralized_gpu_p2p_ne.Base.{
  ℕ, ◌≡◌, refl, Option, some, none, ◌∷◌, arith, All, ◌==◌, if◌then◌else◌, inl, inr, Option-cases,
  Bool-cases, false, true,
}
use decentralized_gpu_p2p_ne.Base.Int.{ℤ, pos, ◌≤ℤ◌, ◌<ℤ◌, ◌+ℤ◌, ◌-ℤ◌, wrap_i64_id, wrap_i64, ltb_ℤ}
use decentralized_gpu_p2p_ne.Error.{
  Result, ok, err, database, not_found, insufficient_compute_units,
}
use decentralized_gpu_p2p_ne.Db.{Balance, Tables, job_debit}
use decentralized_gpu_p2p_ne.Db.Rules.{
  Ensures, OrBack, transaction_rule, step_rule, bind_rule, pure_rule, fail_rule,
  constrained_step_rule, constrained_rule,
}
use decentralized_gpu_p2p_ne.Ledger.{balance_of, reserve, reserve_from}
use decentralized_gpu_p2p_ne.Ledger.Accounts.{IsSolvent, account_after, balance_in_All}

-- What a call of `reserve` has done by its result: to the account of any user `v`, and to the log.
module _ (now hirer_id job_id : ℕ) (amount : ℤ) (t : Tables) (v : ℕ) where
  abbrev pub ReserveOutcome : Option Balance → Result (Unit {0}) → Tables → Type 0
  ReserveOutcome (some b) (ok _) t' =
      (amount ≤ℤ b.cu_balance -ℤ b.cu_reserved)
      × (balance_of v t' ≡ (
          if v == hirer_id
          then some (record b { cu_reserved = b.cu_reserved +ℤ amount })
          else balance_of v t))
      × (t' ≡ record t {
        balances = t'.balances;
        transactions =
            record {
              user_id = hirer_id;
              cu_amount = wrap_i64 (pos 0 -ℤ amount);
              tx_type = job_debit;
              job_id = some job_id;
              created_at = now;
            }
            ∷ t.transactions;
      })
  ReserveOutcome (some b) (err (insufficient_compute_units available required)) t' =
      (available ≡ b.cu_balance -ℤ b.cu_reserved)
      × (required ≡ amount)
      × (available <ℤ amount)
      × (t' ≡ t)
  ReserveOutcome none (err not_found) t' = t' ≡ t
  ReserveOutcome _ (err database) t' = t' ≡ t
  ReserveOutcome _ _ t' = ⊥

pub available_fits :
    (b : Balance)
    → IsSolvent b
    → wrap_i64 (b.cu_balance -ℤ b.cu_reserved) ≡ b.cu_balance -ℤ b.cu_reserved
unfolding ◌-ℤ◌
available_fits b s = wrap_i64_id (b.cu_balance -ℤ b.cu_reserved) (ground arith)

pub covered_of :
    (b : Balance) (a : ℤ)
    → IsSolvent b
    → ltb_ℤ (wrap_i64 (b.cu_balance -ℤ b.cu_reserved)) a ≡ false
    → a ≤ℤ b.cu_balance -ℤ b.cu_reserved
covered_of b a s = rw (available_fits b s) (λ h. ground arith)

short_of :
    (b : Balance) (a : ℤ)
    → IsSolvent b
    → ltb_ℤ (wrap_i64 (b.cu_balance -ℤ b.cu_reserved)) a ≡ true
    → wrap_i64 (b.cu_balance -ℤ b.cu_reserved) <ℤ a
short_of b a s h = ground arith

module _ (now h j : ℕ) (a : ℤ) (t : Tables) (v : ℕ) where
  reserve_row :
      (b : Balance)
      → balance_of h t ≡ some b
      → IsSolvent b
      → Ensures (OrBack t (ReserveOutcome now h j a t v (some b))) (reserve_from now h j a b) t
  unfolding reserve_from
  reserve_row b e s = elim (Bool-cases (ltb_ℤ (wrap_i64 (b.cu_balance -ℤ b.cu_reserved)) a)) [
    | inl short ↦ rw short (fail_rule _ (available_fits b s, refl, short_of b a s short, refl))
    | inr enough ↦
        let f : Balance → Balance = λ x. record x { cu_reserved = x.cu_reserved +ℤ a } in
        rw enough (
          constrained_step_rule _ tt _ _ refl (λ _.
            constrained_rule _ tt _ refl (λ _.
              (covered_of b a s enough, account_after h f (λ x. refl) t.balances b v e, refl))))
  ]

-- `reserve`, whichever of its statements fail, on balances that are all solvent. If the hirer has
-- a row and it succeeds: the amount was available, the hirer's `cu_reserved` has grown by the
-- amount, every other account is as it was, and the transaction log has one new entry, the debit.
-- If it reports too few Compute Units: the numbers it reports are what was available and what was
-- asked, the former is less, and nothing has changed. `NotFound` is the answer to a hirer without
-- a row, and then, as with an error of the database, nothing has changed. There is no other
-- outcome.
pub reserve_outcome :
    (now hirer_id job_id : ℕ) (amount : ℤ) (t : Tables) (v : ℕ)
    → All IsSolvent t.balances
    → Ensures
        (ReserveOutcome now hirer_id job_id amount t v (balance_of hirer_id t))
        (reserve now hirer_id job_id amount)
        t
unfolding reserve
reserve_outcome now h j a t v s = elim (Option-cases (balance_of h t)) [
  | inl missing ↦
      rw missing (
        transaction_rule _ refl
          (step_rule _ _ refl (rw missing (bind_rule _ _ (fail_rule _ refl)))))
  | inr (b, e) ↦ rw e (
      transaction_rule _ refl (
        step_rule _ _ refl (
          rw e (
            bind_rule _ _ (
              pure_rule b
                (reserve_row now h j a t v b e (balance_in_All IsSolvent h t.balances b e s)))))))
]

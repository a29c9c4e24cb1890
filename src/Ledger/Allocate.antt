-- ===== src/Ledger/Allocate.antt =====
-- `ComputeUnitLedger::allocate` and `refund_full` on every path.
use decentralized_gpu_p2p_ne.Base.{
  ℕ, ap, sym, ◌∙◌, ◌≡◌, refl, Option, some, none, ◌∷◌, arith, All, ◌==◌, if◌then◌else◌, inl, inr,
  Option-cases,
}
use decentralized_gpu_p2p_ne.Base.Int.{ℤ, pos, ◌≤ℤ◌, ◌+ℤ◌, ◌-ℤ◌, wrap_i64, IsI64}
use decentralized_gpu_p2p_ne.Error.{Result, ok, err, database, not_found}
use decentralized_gpu_p2p_ne.Db.{Balance, Tables, allocation, job_refund}
use decentralized_gpu_p2p_ne.Db.Rules.{
  Ensures, transaction_rule, step_rule, bind_rule, pure_rule, fail_rule, constrained_step_rule,
  constrained_rule,
}
use decentralized_gpu_p2p_ne.Ledger.{balance_of, allocate, refund_full}
use decentralized_gpu_p2p_ne.Ledger.Accounts.{
  IsSolvent, Keyed, balance_in-set_rows, map_row, account_after, balance_in_All,
  balance_check_parts, rows_check_found,
}

-- What a call of `allocate` has done by its result: to the account of any user `v`, and to the log.
module _ (now user_id : ℕ) (amount : ℤ) (t : Tables) (v : ℕ) where
  abbrev pub AllocateOutcome : Option Balance → Result ℤ → Tables → Type 0
  AllocateOutcome (some b) (ok new_balance) t' =
      (new_balance ≡ b.cu_balance +ℤ amount)
      × (balance_of v t' ≡ (
          if v == user_id
          then some (record b { cu_balance = b.cu_balance +ℤ amount })
          else balance_of v t))
      × (t' ≡ record t {
        balances = t'.balances;
        transactions =
            record {
              user_id = user_id;
              cu_amount = amount;
              tx_type = allocation;
              job_id = none;
              created_at = now;
            }
            ∷ t.transactions;
      })
  AllocateOutcome none (err not_found) t' = t' ≡ t
  AllocateOutcome _ (err database) t' = t' ≡ t
  AllocateOutcome _ _ t' = ⊥

abbrev pub refunded : ℤ → Balance → Balance
refunded amount b = record b {
  cu_balance = b.cu_balance +ℤ amount;
  cu_reserved = b.cu_reserved -ℤ amount;
}

-- `refund_full` asks for no row: where the hirer has none, only the log changes.
module _ (now hirer_id job_id : ℕ) (amount : ℤ) (t : Tables) (v : ℕ) where
  abbrev pub RefundOutcome : Result (Unit {0}) → Tables → Type 0
  RefundOutcome (ok _) t' =
      (balance_of v t'
        ≡ (if v == hirer_id then map_row (refunded amount) (balance_of v t) else balance_of v t))
      × (t' ≡ record t {
        balances = t'.balances;
        transactions =
            record {
              user_id = hirer_id;
              cu_amount = amount;
              tx_type = job_refund;
              job_id = some job_id;
              created_at = now;
            }
            ∷ t.transactions;
      })
  RefundOutcome (err database) t' = t' ≡ t
  RefundOutcome (err _) t' = ⊥

-- An allocation that the constraints admit has not wrapped.
pub not_wrapped :
    (b : Balance) (a : ℤ)
    → IsSolvent b
    → pos 0 ≤ℤ a
    → IsI64 a
    → pos 0 ≤ℤ wrap_i64 (b.cu_balance +ℤ a)
    → wrap_i64 (b.cu_balance +ℤ a) ≡ b.cu_balance +ℤ a
unfolding wrap_i64 ◌+ℤ◌
not_wrapped b a s h fits ok_balance = ground arith

-- `allocate` of an amount that is not negative and fits an `i64`, whichever of its statements
-- fail, on solvent balances with unique keys. If it succeeds: the user had a row, the answer and
-- the new balance are the old one plus the amount, without a wrap, every other account is as it
-- was, and the log has one new entry, the allocation. `NotFound` is the answer to a user without
-- a row, and then, as with an error of the database, nothing has changed. There is no other
-- outcome.
pub allocate_outcome :
    (now user_id : ℕ) (amount : ℤ) (t : Tables) (v : ℕ)
    → All IsSolvent t.balances
    → Keyed t.balances
    → pos 0 ≤ℤ amount
    → IsI64 amount
    → Ensures
        (AllocateOutcome now user_id amount t v (balance_of user_id t))
        (allocate now user_id amount)
        t
unfolding allocate
allocate_outcome now u a t v s k h fits = elim (Option-cases (balance_of u t)) [
  | inl missing ↦
      rw missing (
        transaction_rule _ refl
          (step_rule _ _ refl (rw missing (bind_rule _ _ (fail_rule _ refl)))))
  | inr (b, e) ↦
      let new = wrap_i64 (b.cu_balance +ℤ a) in
      let f : Balance → Balance = λ x. record x { cu_balance = new } in
      let solvent : IsSolvent b = balance_in_All IsSolvent u t.balances b e s in
      rw e (
        transaction_rule _ refl (
          step_rule _ _ refl (
            rw e (
              bind_rule _ _ (
                pure_rule b (
                  constrained_step_rule _ tt _ _ refl (λ rows.
                    constrained_step_rule _ tt _ _ refl (λ _.
                      let valid =
                        balance_check_parts (f b)
                          (sym (rows_check_found u f t.balances b k e) ∙ rows) in
                      let exact = not_wrapped b a solvent h fits valid.0 in
                      pure_rule new (
                        exact,
                        account_after u f (λ x. refl) t.balances b v e
                            ∙ ap
                                (λ n.
                                  if v == u
                                  then some (record b { cu_balance = n })
                                  else balance_of v t)
                                exact,
                        refl,
                      )))))))))
]

-- `refund_full`, whichever of its statements fail. If it succeeds: a row of the hirer, if there
-- is one, has the amount added to `cu_balance` and taken from `cu_reserved`, every other account
-- is as it was, and the log has one new entry, the refund. The only error is that of the
-- database, and then nothing has changed.
pub refund_outcome :
    (now hirer_id job_id : ℕ) (amount : ℤ) (t : Tables) (v : ℕ)
    → Ensures
        (RefundOutcome now hirer_id job_id amount t v)
        (refund_full now hirer_id job_id amount)
        t
unfolding refund_full
refund_outcome now h j a t v = transaction_rule _ refl (
    constrained_step_rule _ tt _ _ refl (λ _.
      constrained_rule _ tt _ refl
        (λ _. (balance_in-set_rows h (refunded a) (λ b. refl) v t.balances, refl))))

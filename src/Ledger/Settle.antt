-- ===== src/Ledger/Settle.antt =====
-- `ComputeUnitLedger::settle` on every path.
use decentralized_gpu_p2p_ne.Base.{
  ℕ, ◌≡◌, refl, Option, some, List, ◌∷◌, ◌==◌, if◌then◌else◌, inl, inr, Bool-cases,
}
use decentralized_gpu_p2p_ne.Base.Int.{ℤ, pos, ◌+ℤ◌, ◌-ℤ◌, wrap_i64, ltb_ℤ}
use decentralized_gpu_p2p_ne.Error.{Result, ok, err, database}
use decentralized_gpu_p2p_ne.Float.{F64Ops}
use decentralized_gpu_p2p_ne.Types.GpuBackend.{GpuBackend}
use decentralized_gpu_p2p_ne.Db.{Balance, Transaction, Tables, job_refund, job_credit}
use decentralized_gpu_p2p_ne.Db.Rules.{
  Ensures, transaction_rule, step_rule, pure_rule, constrained_step_rule, constrained_rule,
  bind_rule, OrBack,
}
use decentralized_gpu_p2p_ne.Ledger.{balance_of, settle, settle_body, actual_charge, worker_payout}
use decentralized_gpu_p2p_ne.Ledger.Rows.{set_rows}
use decentralized_gpu_p2p_ne.Ledger.Accounts.{balance_in-set_rows, map_row}

abbrev pub released : ℤ → ℤ → Balance → Balance
released refund reserved b = record b {
  cu_balance = b.cu_balance +ℤ refund;
  cu_reserved = b.cu_reserved -ℤ reserved;
}

abbrev pub paid : ℤ → Balance → Balance
paid payout b = record b { cu_balance = b.cu_balance +ℤ payout }

module _ (now hirer_id worker_user_id job_id : ℕ) (reserved refund payout : ℤ) (t : Tables)
    (v : ℕ) where
  -- the account of `v`: the hirer's row first, then the worker's, which may be the same
  abbrev pub account_settled : Option Balance
  account_settled =
      let hirer_done =
        if v == hirer_id
        then map_row (released refund reserved) (balance_of v t)
        else balance_of v t in
      if v == worker_user_id then map_row (paid payout) hirer_done else hirer_done

  abbrev pub refund_entry : List Transaction → List Transaction
  refund_entry log =
      if ltb_ℤ (pos 0) refund
      then record {
        user_id = hirer_id;
        cu_amount = refund;
        tx_type = job_refund;
        job_id = some job_id;
        created_at = now;
      }
        ∷ log
      else log

  abbrev pub SettleOutcome : Result (Unit {0}) → Tables → Type 0
  SettleOutcome (ok _) t' =
      (balance_of v t' ≡ account_settled)
      × (t' ≡ record t {
        balances = t'.balances;
        transactions =
            record {
              user_id = worker_user_id;
              cu_amount = payout;
              tx_type = job_credit;
              job_id = some job_id;
              created_at = now;
            }
            ∷ refund_entry t.transactions;
      })
  SettleOutcome (err database) t' = t' ≡ t
  SettleOutcome (err _) t' = ⊥

module _ (now h w j : ℕ) (r refund payout : ℤ) (t : Tables) (v : ℕ) where
  both_rows :
      balance_of v (record t {
        balances = set_rows w (paid payout) (set_rows h (released refund r) t.balances);
      })
      ≡ account_settled now h w j r refund payout t v
  both_rows = rw (
    balance_in-set_rows w (paid payout) (λ b. refl) v (set_rows h (released refund r) t.balances),
    balance_in-set_rows h (released refund r) (λ b. refl) v t.balances,
  )

  settle_body_outcome :
      Ensures
        (OrBack t (SettleOutcome now h w j r refund payout t v))
        (settle_body now h w j r refund payout)
        t
  unfolding settle_body
  settle_body_outcome = step_rule _ _ refl (
      step_rule _ _ refl (
        constrained_step_rule _ tt _ _ refl (λ _. constrained_step_rule _ tt _ _ refl (λ _.
          elim (Bool-cases (ltb_ℤ (pos 0) refund)) [
            | inl some_refund ↦ rw some_refund (
                constrained_step_rule _ tt _ _ refl
                  (λ _. constrained_rule _ tt _ refl (λ _. (both_rows, rw some_refund))))
            | inr no_refund ↦ rw no_refund (
                bind_rule _ _
                  (pure_rule tt (constrained_rule _ tt _ refl (λ _. (both_rows, rw no_refund)))))
          ]))))

-- `settle`, whichever of its statements fail. If it succeeds: the hirer's row has the refund
-- added to `cu_balance` and the reservation taken from `cu_reserved`, then the worker's row,
-- which may be the same, has the payout added, every other account is as it was, and the log has
-- the worker's credit as its new entry, after the hirer's refund where that is more than 0. The
-- only error is that of the database, and then nothing has changed.
pub settle_outcome :
    (f : F64Ops) (now hirer_id worker_user_id job_id : ℕ) (reserved : ℤ) (secs : ℕ) (g : GpuBackend)
    (t : Tables) (v : ℕ)
    → let charge = actual_charge f g secs reserved in
      Ensures
        (SettleOutcome now hirer_id worker_user_id job_id reserved
          (wrap_i64 (reserved -ℤ charge))
          (worker_payout f charge)
          t
          v)
        (settle f now hirer_id worker_user_id job_id reserved secs g)
        t
unfolding settle
settle_outcome f now h w j r secs g t v =
    transaction_rule _ refl (settle_body_outcome now h w j r _ _ t v)

-- ===== src/Ledger.antt =====
-- The Compute Unit ledger, crates/decentgpu-master/src/credits/engine.rs: each method of
-- `ComputeUnitLedger` as a call of the database. `f` stands for the machine's `f64` arithmetic, and
-- `now` for what `now()` returns.
mod Rows
pub use Rows.{balance_of}
pub mod Accounts
pub mod Reserve
pub mod Allocate
pub mod Charges
pub mod Settle
pub mod Solvency
pub mod History
pub mod Cycle
mod Tests
use decentralized_gpu_p2p_ne.Base.{
  ℕ, Bool, true, false, Option, none, some, List, [], ◌∷◌, ltb, if◌then◌else◌,
}
use decentralized_gpu_p2p_ne.Base.Int.{ℤ, pos, ◌+ℤ◌, ◌-ℤ◌, ltb_ℤ, min_ℤ, wrap_i64}
use decentralized_gpu_p2p_ne.Error.{Result, ok, err, not_found, insufficient_compute_units}
use decentralized_gpu_p2p_ne.Float.{F64, F64Ops}
use decentralized_gpu_p2p_ne.Types.GpuBackend
use decentralized_gpu_p2p_ne.Types.GpuBackend.{GpuBackend}
use decentralized_gpu_p2p_ne.Types.Capabilities.{base_rate_per_hour}
use decentralized_gpu_p2p_ne.Db.{
  Balance, CuTxType, allocation, job_debit, job_credit, job_refund, Db, Query, statement, select,
  ◌>>=◌, ◌>>◌, pure, fail, transaction,
}
use Rows.{insert_balance, update_balance, insert_transaction}

-- `Option::ok_or_else(NotFound)`
abbrev or_not_found : {A : Type 0} → Option A → Query A
or_not_found none = fail not_found
or_not_found (some a) = pure a

-- `calculate_price`
unfoldable pub calculate_price : F64Ops → GpuBackend → F64 → ℤ
unfolding GpuBackend.price_multiplier
calculate_price f backend duration_hours = f.ceil_i64 (
    f.mul (f.mul (f.of_i64 base_rate_per_hour) duration_hours)
      (f.of_i64 (pos (GpuBackend.price_multiplier backend))))

unfoldable pub initialize : ℕ → Query (Unit {0})
initialize user_id = insert_balance user_id

unfoldable pub allocate : ℕ → ℕ → ℤ → Query ℤ
unfolding ◌+ℤ◌ wrap_i64
allocate now user_id amount = transaction (do
  found ← select (balance_of user_id)
  row ← or_not_found found
  let new_balance = wrap_i64 (row.cu_balance +ℤ amount)
  update_balance user_id (λ b. record b { cu_balance = new_balance })
  insert_transaction now user_id amount allocation none
  pure new_balance)

-- `reserve` from the row that it has locked on; the early return drops the transaction
reserve_from : ℕ → ℕ → ℕ → ℤ → Balance → Query (Unit {0})
unfolding ◌+ℤ◌ ◌-ℤ◌ wrap_i64
reserve_from now hirer_id job_id amount row =
    let available = wrap_i64 (row.cu_balance -ℤ row.cu_reserved) in
    if ltb_ℤ available amount then fail (insufficient_compute_units available amount) else (do
      update_balance hirer_id (λ b. record b { cu_reserved = b.cu_reserved +ℤ amount })
      insert_transaction now hirer_id (wrap_i64 (pos 0 -ℤ amount)) job_debit (some job_id))

unfoldable pub reserve : ℕ → ℕ → ℕ → ℤ → Query (Unit {0})
unfolding reserve_from
reserve now hirer_id job_id amount = transaction (do
  found ← select (balance_of hirer_id)
  row ← or_not_found found
  reserve_from now hirer_id job_id amount row)

-- the two rows that `settle` locks, the lower user first
unfoldable pub lock_order : ℕ → ℕ → ℕ × ℕ
lock_order hirer_id worker_user_id =
    if ltb hirer_id worker_user_id then (hirer_id, worker_user_id) else (worker_user_id, hirer_id)

unfoldable pub actual_charge : F64Ops → GpuBackend → ℕ → ℤ → ℤ
unfolding calculate_price
actual_charge f backend actual_duration_secs reserved_amount =
    min_ℤ
      (calculate_price f backend
        (f.div (f.of_i64 (pos actual_duration_secs)) (f.of_i64 (pos 3600))))
      reserved_amount

-- `pricing::WORKER_PAYOUT_FRACTION` is 0.85
unfoldable pub worker_payout : F64Ops → ℤ → ℤ
worker_payout f charge = f.trunc_i64 (f.mul (f.of_i64 charge) (f.ratio 85 100))

-- the statements of `settle` between `BEGIN` and `COMMIT`
unfoldable pub settle_body : ℕ → ℕ → ℕ → ℕ → ℤ → ℤ → ℤ → Query (Unit {0})
unfolding ◌+ℤ◌ ◌-ℤ◌ lock_order
settle_body now hirer_id worker_user_id job_id reserved_amount refund payout = do
  let locks = lock_order hirer_id worker_user_id
  select (balance_of locks.0)
  select (balance_of locks.1)
  update_balance hirer_id (λ b. record b {
    cu_balance = b.cu_balance +ℤ refund;
    cu_reserved = b.cu_reserved -ℤ reserved_amount;
  })
  update_balance worker_user_id (λ b. record b { cu_balance = b.cu_balance +ℤ payout })
  if ltb_ℤ (pos 0) refund
      then insert_transaction now hirer_id refund job_refund (some job_id)
      else pure tt
  insert_transaction now worker_user_id payout job_credit (some job_id)

unfoldable pub settle : F64Ops → ℕ → ℕ → ℕ → ℕ → ℤ → ℕ → GpuBackend → Query (Unit {0})
unfolding ◌-ℤ◌ wrap_i64 actual_charge worker_payout settle_body
settle f now hirer_id worker_user_id job_id reserved_amount actual_duration_secs backend =
    let charge = actual_charge f backend actual_duration_secs reserved_amount in
    transaction (
      settle_body now hirer_id worker_user_id job_id reserved_amount
        (wrap_i64 (reserved_amount -ℤ charge)) (worker_payout f charge))

unfoldable pub refund_full : ℕ → ℕ → ℕ → ℤ → Query (Unit {0})
unfolding ◌+ℤ◌ ◌-ℤ◌
refund_full now hirer_id job_id reserved_amount = transaction (do
  update_balance hirer_id (λ b. record b {
    cu_balance = b.cu_balance +ℤ reserved_amount;
    cu_reserved = b.cu_reserved -ℤ reserved_amount;
  })
  insert_transaction now hirer_id reserved_amount job_refund (some job_id))

unfoldable pub get_balance : ℕ → Query Balance
get_balance user_id = do found ← select (balance_of user_id); or_not_found found

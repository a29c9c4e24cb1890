-- ===== src/Ledger/Tests.antt =====
-- Runs of the ledger, and the theorems at concrete inputs.
use decentralized_gpu_p2p_ne.Db.Example.{example_user}
use decentralized_gpu_p2p_ne.Base.{◌≡◌, refl, [], ◌∷◌, some, arith, All}
use decentralized_gpu_p2p_ne.Base.Int.{pos, wrap_i64, ◌+ℤ◌, ◌-ℤ◌, ◌≤ℤ◌}
use decentralized_gpu_p2p_ne.Error.{ok}
use decentralized_gpu_p2p_ne.Float.Fixed.{fixed, fixed-IsIeee}
use decentralized_gpu_p2p_ne.Types.GpuBackend.{cuda, cpu_only}
use decentralized_gpu_p2p_ne.Db.{Balance, Tables, Db, transaction}
use decentralized_gpu_p2p_ne.Db.Rules.{Ensures}
use decentralized_gpu_p2p_ne.Ledger.{
  calculate_price, reserve, settle, refund_full, balance_of, actual_charge, worker_payout,
}
use decentralized_gpu_p2p_ne.Ledger.Accounts.{IsSolvent, Keyed}
use decentralized_gpu_p2p_ne.Ledger.Solvency.{IsSound}
use decentralized_gpu_p2p_ne.Ledger.Reserve.{ReserveOutcome, reserve_outcome}
use decentralized_gpu_p2p_ne.Ledger.Charges.{settle_amounts}
use decentralized_gpu_p2p_ne.Ledger.Settle.{SettleOutcome, settle_outcome}
use decentralized_gpu_p2p_ne.Ledger.History.{
  start, then_call, reserved_for, settled, history_IsSound,
}
use decentralized_gpu_p2p_ne.Ledger.Cycle.{refund_after_reserve, settle_after_reserve}

abbrev hirer : Balance
hirer = record { user_id = 1; cu_balance = pos 100; cu_reserved = pos 0 }

abbrev worker : Balance
worker = record { user_id = 2; cu_balance = pos 5; cu_reserved = pos 0 }

abbrev tables : Tables
tables = record {
  users = example_user 1 ∷ example_user 2 ∷ [];
  balances = hirer ∷ worker ∷ [];
  transactions = [];
  jobs = [];
  job_logs = [];
  job_files = [];
  workers = [];
  worker_sessions = [];
}

abbrev db : Db
db = record { tables = tables; faults = [] }

price_1h : calculate_price fixed cpu_only (fixed.of_i64 (pos 1)) ≡ pos 10
unfolding calculate_price fixed
price_1h = refl

-- The reservation of 50 of 100 Compute Units leaves the balance and is marked as reserved.
reserved :
    balance_of 1 (reserve 7 1 9 (pos 50) db).1.tables ≡ some (record hirer { cu_reserved = pos 50 })
unfolding reserve transaction ◌+ℤ◌ ◌-ℤ◌ wrap_i64
reserved = refl

hirer-IsSolvent : IsSolvent hirer
hirer-IsSolvent = record {
  reserved_nonneg = omega arith;
  covered = omega arith;
  fits = (omega arith, omega arith);
}

worker-IsSolvent : IsSolvent worker
worker-IsSolvent = record {
  reserved_nonneg = omega arith;
  covered = omega arith;
  fits = (omega arith, omega arith);
}

workers-IsSolvent : All IsSolvent (worker ∷ [])
workers-IsSolvent = (worker-IsSolvent, tt)

workers-Keyed : Keyed (worker ∷ [])
workers-Keyed = (refl, tt)

tables-IsSound : IsSound tables
tables-IsSound = record {
  solvent = (hirer-IsSolvent, workers-IsSolvent);
  keyed = (refl, workers-Keyed);
}

reserve_outcome_example :
    Ensures
      (ReserveOutcome 7 1 9 (pos 50) tables 1 (balance_of 1 tables))
      (reserve 7 1 9 (pos 50))
      tables
reserve_outcome_example = reserve_outcome 7 1 9 (pos 50) tables 1 tables-IsSound.solvent

settle_outcome_example :
    Ensures
      (SettleOutcome 7 1 2 9
        (pos 50)
        (wrap_i64 (pos 50 -ℤ actual_charge fixed cuda 1800 (pos 50)))
        (worker_payout fixed (actual_charge fixed cuda 1800 (pos 50)))
        tables
        1)
      (settle fixed 7 1 2 9 (pos 50) 1800 cuda)
      tables
settle_outcome_example = settle_outcome fixed 7 1 2 9 (pos 50) 1800 cuda tables 1

settle_amounts_example :
    let charge = actual_charge fixed cuda 1800 (pos 50) in
    let refund = wrap_i64 (pos 50 -ℤ charge) in
    let payout = worker_payout fixed charge in
    (charge +ℤ refund ≡ pos 50)
    × (pos 0 ≤ℤ refund)
    × (refund ≤ℤ pos 50)
    × (pos 0 ≤ℤ payout)
    × (payout ≤ℤ charge)
settle_amounts_example =
    settle_amounts fixed fixed-IsIeee cuda 1800 (pos 50) (omega arith) (omega arith)

-- a reservation and its settlement, without a fault
abbrev after_reserve : Tables
after_reserve = (reserve 7 1 9 (pos 50) db).1.tables

abbrev after_settle : Tables
after_settle =
    (settle fixed 8 1 2 9 (pos 50) 1800 cuda
      (record { tables = after_reserve; faults = [] })).1.tables

history_IsSound_example : IsSound after_settle
history_IsSound_example =
    history_IsSound fixed fixed-IsIeee {t = tables} {u = after_settle}
      (then_call (then_call start (reserved_for [] 7 1 9 (pos 50) (omega arith)))
        (settled [] 8 1 2 9 (pos 50) 1800 cuda (omega arith) (omega arith)))
      tables-IsSound

reserve_ok : (reserve 7 1 9 (pos 50) db).0 ≡ ok tt
unfolding reserve transaction ◌+ℤ◌ ◌-ℤ◌ wrap_i64
reserve_ok = refl

refund_ok : (refund_full 8 1 9 (pos 50) (record { tables = after_reserve; faults = [] })).0 ≡ ok tt
unfolding reserve refund_full transaction ◌+ℤ◌ ◌-ℤ◌ wrap_i64
refund_ok = refl

settle_ok :
    (settle fixed 8 1 2 9 (pos 50) 1800 cuda (record { tables = after_reserve; faults = [] })).0
    ≡ ok tt
unfolding reserve settle transaction ◌+ℤ◌ ◌-ℤ◌ wrap_i64 fixed
settle_ok = refl

-- The refund of a reservation of 50 leaves 150 of the 100 Compute Units.
refund_after_reserve_example :
    balance_of 1
      (refund_full 8 1 9 (pos 50) (record { tables = after_reserve; faults = [] })).1.tables
    ≡ some (record hirer { cu_balance = hirer.cu_balance +ℤ pos 50 })
refund_after_reserve_example =
    refund_after_reserve 7 8 1 9 (pos 50) tables [] [] hirer tables-IsSound.solvent refl reserve_ok
      refund_ok

settle_after_reserve_example :
    balance_of 1 after_settle
    ≡ some (record hirer {
      cu_balance = hirer.cu_balance +ℤ wrap_i64 (pos 50 -ℤ actual_charge fixed cuda 1800 (pos 50));
    })
settle_after_reserve_example =
    settle_after_reserve fixed 7 8 1 2 9 (pos 50) 1800 cuda tables [] [] hirer
      (λ e. absurd (omega arith)) tables-IsSound.solvent refl reserve_ok settle_ok

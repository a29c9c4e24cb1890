-- ===== src/Ledger/Rows.antt =====
-- The SQL statements of crates/decentgpu-master/src/credits/engine.rs on
-- `compute_unit_balances` and `compute_unit_transactions`, with the constraints of the two tables.
use decentralized_gpu_p2p_ne.Base.{
  ℕ, Bool, true, ◌&&◌, ◌||◌, Option, none, some, List, [], ◌∷◌, ◌==◌, if◌then◌else◌, is_some,
}
use decentralized_gpu_p2p_ne.Base.Int.{ℤ, pos, leb_ℤ, fits_i64}
use decentralized_gpu_p2p_ne.Db.{Balance, CuTxType, Tables, Query, constrained, has_user}

abbrev pub balance_in : ℕ → List Balance → Option Balance
balance_in u [] = none
balance_in u (b ∷ bs) = let rest = balance_in u bs in if b.user_id == u then some b else rest

-- `SELECT cu_balance, cu_reserved FROM compute_unit_balances WHERE user_id = $1`
abbrev pub balance_of : ℕ → Tables → Option Balance
balance_of u t = balance_in u t.balances

-- The two `CHECK`s, and the range of a `bigint`.
abbrev pub balance_check : Balance → Bool
balance_check b =
    leb_ℤ (pos 0) b.cu_balance
    && (leb_ℤ (pos 0) b.cu_reserved && (fits_i64 b.cu_balance && fits_i64 b.cu_reserved))

-- `INSERT … ON CONFLICT DO NOTHING`; the user must exist.
abbrev pub insert_balance : ℕ → Query (Unit {0})
insert_balance u =
    constrained (λ t. is_some (balance_of u t) || has_user u t.users) tt
      (λ t. if is_some (balance_of u t) then t else record t {
        balances = record { user_id = u; cu_balance = pos 0; cu_reserved = pos 0 } ∷ t.balances;
      })

abbrev pub set_rows : ℕ → (Balance → Balance) → List Balance → List Balance
set_rows u f [] = []
set_rows u f (b ∷ bs) = (if b.user_id == u then f b else b) ∷ set_rows u f bs

abbrev pub rows_check : ℕ → (Balance → Balance) → List Balance → Bool
rows_check u f [] = true
rows_check u f (b ∷ bs) =
    (if b.user_id == u then balance_check (f b) else true) && rows_check u f bs

-- `UPDATE compute_unit_balances SET … WHERE user_id = $1`; no row of that user is no error.
abbrev pub update_balance : ℕ → (Balance → Balance) → Query (Unit {0})
update_balance u f =
    constrained (λ t. rows_check u f t.balances) tt
      (λ t. record t { balances = set_rows u f t.balances })

-- `INSERT INTO compute_unit_transactions`; the user must exist. The newest row stands first.
abbrev pub insert_transaction : ℕ → ℕ → ℤ → CuTxType → Option ℕ → Query (Unit {0})
insert_transaction now u amount tx_type job_id =
    constrained (λ t. has_user u t.users) tt
      (λ t. record t {
        transactions =
            record {
              user_id = u;
              cu_amount = amount;
              tx_type = tx_type;
              job_id = job_id;
              created_at = now;
            }
            ∷ t.transactions;
      })

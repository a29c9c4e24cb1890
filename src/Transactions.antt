-- ===== src/Transactions.antt =====
-- crates/decentgpu-master/src/db/compute_units.rs: each method of `ComputeUnitRepository` as a call of
-- the database. An `anyhow::Error` is one of the database here. The key of a transaction is left out.
-- `sql` stands for what PostgreSQL makes of the text of a clause.
pub mod Sql
pub mod Pages
mod Tests
use decentralized_gpu_p2p_ne.Base.{
  ℕ, String, Bool, true, false, ◌&&◌, Option, none, some, List, [], ◌∷◌, ◌==◌, ltb, filter, take,
  length, sort_by, if◌then◌else◌, suc,
}
use decentralized_gpu_p2p_ne.Base.Int.{ℤ, pos, negsuc, ◌+ℤ◌, ltb_ℤ, fits_i64}
use decentralized_gpu_p2p_ne.Error.{Result, ok, err, database}
use decentralized_gpu_p2p_ne.Db.{
  Balance, Transaction, CuTxType, allocation, job_debit, job_credit, job_refund, Query, Tables,
  statement, select, paged, ◌>>=◌, ◌>>◌, pure, fail,
}
use decentralized_gpu_p2p_ne.Ledger.{balance_of, initialize}
use Sql.{SqlText, owned_by}

unfoldable pub init_balance : ℕ → Query (Unit {0})
init_balance user_id = initialize user_id

abbrev or_row_not_found : Option Balance → Query Balance
or_row_not_found none = fail database
or_row_not_found (some b) = pure b

-- `fetch_one` on no row is an error
unfoldable pub get_balance : ℕ → Query Balance
get_balance user_id = do found ← select (balance_of user_id); or_row_not_found found

-- `ORDER BY created_at DESC`
abbrev pub tx_later : Transaction → Transaction → Bool
tx_later a b = ltb b.created_at a.created_at

unfoldable pub list_transactions : ℕ → Query (List Transaction)
list_transactions user_id =
    select (λ t. take 50 (sort_by tx_later (filter (owned_by user_id) t.transactions)))

-- `WHERE user_id = $1{type_filter}`, where the text of the filter goes into the text of the clause
abbrev pub where_clause : SqlText → ℕ → Option String → Option (Transaction → Bool)
where_clause sql user_id none = some (owned_by user_id)
where_clause sql user_id (some t) = sql.where_type user_id t

-- a statement with that clause: an error where it cannot be read
abbrev pub with_clause :
    {A : Type 0}
    → Option (Transaction → Bool)
    → ((Transaction → Bool) → Tables → Result A)
    → Query A
with_clause none run = statement (λ t. (err database, t))
with_clause (some p) run = statement (λ t. (run p t, t))

unfoldable pub list_transactions_paginated :
    SqlText → ℕ → ℤ → ℤ → Option String → Query (List Transaction × ℕ)
list_transactions_paginated sql user_id limit offset tx_type = do
  total ←
      with_clause (where_clause sql user_id tx_type) (λ p t. ok (length (filter p t.transactions)))
  rows ←
      with_clause (where_clause sql user_id tx_type)
        (λ p t. paged limit offset (sort_by tx_later (filter p t.transactions)))
  pure (rows, total)

-- `COALESCE(SUM(…), 0)`
abbrev pub sum_amounts : List ℤ → ℤ
sum_amounts [] = pos 0
sum_amounts (a ∷ as_) = a +ℤ sum_amounts as_

abbrev pub abs_ℤ : ℤ → ℤ
abs_ℤ (pos n) = pos n
abs_ℤ (negsuc n) = pos (suc n)

-- `::bigint` of the sum, a `numeric`
abbrev pub as_bigint : ℤ → Result ℤ
as_bigint a = if fits_i64 a then ok a else err database

abbrev pub is_allocation : Transaction → Bool
is_allocation x = elim x.tx_type [ allocation ↦ ltb_ℤ (pos 0) x.cu_amount | _ ↦ false ]

abbrev pub is_debit : Transaction → Bool
is_debit x = elim x.tx_type [ job_debit ↦ true | _ ↦ false ]

abbrev pub amounts : (ℤ → ℤ) → (Transaction → Bool) → List Transaction → List ℤ
amounts f p [] = []
amounts f p (x ∷ xs) = let rest = amounts f p xs in if p x then f x.cu_amount ∷ rest else rest

unfoldable pub sum_allocated : Query ℤ
unfolding ◌+ℤ◌
sum_allocated =
    statement (λ t. (as_bigint (sum_amounts (amounts (λ a. a) is_allocation t.transactions)), t))

unfoldable pub sum_consumed : Query ℤ
unfolding ◌+ℤ◌
sum_consumed = statement (λ t. (as_bigint (sum_amounts (amounts abs_ℤ is_debit t.transactions)), t))

-- ===== src/Transactions/Sql.antt =====
-- The text of a clause that `list_transactions_paginated` builds, and what PostgreSQL makes of it.
use text.Mathlib.Text.{◌==◌ as eq_text}
use Prim.Native.Char.{code}
use decentralized_gpu_p2p_ne.Base.{ℕ, String, Bool, false, ◌&&◌, ◌||◌, Option, some, ◌≡◌, ◌==◌}
use decentralized_gpu_p2p_ne.Db.{
  Transaction, CuTxType, allocation, job_debit, job_credit, job_refund,
}

abbrev pub owned_by : ℕ → Transaction → Bool
owned_by user_id x = x.user_id == user_id

-- the words of the `CHECK` on `tx_type`
abbrev pub tx_word : CuTxType → String
tx_word allocation = "allocation"
tx_word job_debit = "job_debit"
tx_word job_credit = "job_credit"
tx_word job_refund = "job_refund"

abbrev pub has_quote : String → Bool
has_quote String.[] = false
has_quote (String.◌∷◌ c s) = code c == b'\'' || has_quote s

-- `where_type u t` is what `WHERE user_id = u AND tx_type = 't'` says of a row, if it can be read.
pub record SqlText : Type 0 where
  pub where_type : ℕ → String → Option (Transaction → Bool)

-- A literal without a quote in it is that text.
pub record IsSql (sql : SqlText) : Type 0 where
  pub plain :
      (u : ℕ) (t : String)
      → has_quote t ≡ false
      → sql.where_type u t ≡ some (λ x. owned_by u x && eq_text (tx_word x.tx_type) t)

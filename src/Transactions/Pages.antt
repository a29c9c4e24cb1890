-- ===== src/Transactions/Pages.antt =====
-- What `list_transactions_paginated` answers, and whose transactions these are.
use decentralized_gpu_p2p_ne.Error.{Result, ok, err, database}
use decentralized_gpu_p2p_ne.Transactions.{tx_later}
use decentralized_gpu_p2p_ne.Base.Int.{ℤ, pos, ◌≤ℤ◌}
use decentralized_gpu_p2p_ne.Db.{Transaction, Tables}
use text.Mathlib.Text.{◌==◌ as eq_text}
use decentralized_gpu_p2p_ne.Base.{
  none, some, length, arith, ℕ, Option, String, Bool, some, ◌≡◌, All, false, true, ◌&&◌, In, List,
  arith, filter, Ordered,
}
use decentralized_gpu_p2p_ne.Transactions.Sql.{owned_by, tx_word, has_quote}

-- the rows that the caller asks for
abbrev pub wanted : ℕ → Option String → Transaction → Bool
wanted user_id none x = owned_by user_id x
wanted user_id (some w) x = owned_by user_id x && eq_text (tx_word x.tx_type) w

-- the filter holds no quote
abbrev pub IsPlain : Option String → Type 0
IsPlain none = Unit
IsPlain (some w) = has_quote w ≡ false

module _ (user_id : ℕ) (limit : ℤ) (tx_type : Option String) (t : Tables) where
  abbrev pub IsOwn : Transaction → Type 0
  IsOwn x = (x.user_id ≡ user_id) × (wanted user_id tx_type x ≡ true) × In x t.transactions

  abbrev pub PageOutcome : Result (List Transaction × ℕ) → Tables → Type 0
  PageOutcome (ok (rows, total)) t' =
      (t' ≡ t)
      × All IsOwn rows
      × Ordered tx_later rows
      × (pos (length rows) ≤ℤ limit)
      × (total ≡ length (filter (wanted user_id tx_type) t.transactions))
  PageOutcome (err e) t' = (t' ≡ t) × (e ≡ database)

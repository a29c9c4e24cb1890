-- ===== src/Types/TxType.antt =====
-- `TxType` of crates/decentgpu-common/src/types.rs and its words, and the words that the `CHECK` on
-- `compute_unit_transactions.tx_type` admits since migration 005.
use text.Mathlib.Text.{◌==◌}
use decentralized_gpu_p2p_ne.Base.{String, Bool, ◌||◌}

pub data TxType : Type 0 where
  deposit job_charge job_earn refund : TxType

unfoldable pub as_str : TxType → String
as_str deposit = "deposit"
as_str job_charge = "job_charge"
as_str job_earn = "job_earn"
as_str refund = "refund"

unfoldable pub tx_type_check : String → Bool
tx_type_check s =
    s == "allocation" || (s == "job_debit" || (s == "job_credit" || s == "job_refund"))

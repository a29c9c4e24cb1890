-- ===== src/Ledger/History.antt =====
-- Any history of calls of `ComputeUnitLedger`, with any failures of their statements.
use decentralized_gpu_p2p_ne.Base.{ℕ, List, Bool}
use decentralized_gpu_p2p_ne.Base.Int.{ℤ, pos, ◌≤ℤ◌, IsI64}
use decentralized_gpu_p2p_ne.Float.{F64Ops, IsIeee}
use decentralized_gpu_p2p_ne.Types.GpuBackend.{GpuBackend}
use decentralized_gpu_p2p_ne.Db.{Tables}
use decentralized_gpu_p2p_ne.Ledger.{initialize, allocate, reserve, settle, refund_full}
use decentralized_gpu_p2p_ne.Ledger.Solvency.{
  IsSound, initialize-IsSound, allocate-IsSound, reserve-IsSound, settle-IsSound, refund_IsSound,
}

-- The calls of the ledger, with the amounts in the range in which a double holds them exactly. The
-- statements of a call fail as `faults` says, and the call leaves the tables that its successor finds.
module _ (f : F64Ops) where
  pub data LedgerStep (t : Tables) : Tables → Type 0 where
    initialized :
        (faults : List Bool) (u : ℕ)
        → LedgerStep t (initialize u (record { tables = t; faults = faults })).1.tables
    allocated_to :
        (faults : List Bool) (now u : ℕ) (a : ℤ)
        → pos 0 ≤ℤ a
        → IsI64 a
        → LedgerStep t (allocate now u a (record { tables = t; faults = faults })).1.tables
    reserved_for :
        (faults : List Bool) (now h j : ℕ) (a : ℤ)
        → pos 0 ≤ℤ a
        → LedgerStep t (reserve now h j a (record { tables = t; faults = faults })).1.tables
    settled :
        (faults : List Bool) (now h w j : ℕ) (r : ℤ) (secs : ℕ) (g : GpuBackend)
        → pos 0 ≤ℤ r
        → r ≤ℤ pos 9007199254740992
        → LedgerStep t
            (settle f now h w j r secs g (record { tables = t; faults = faults })).1.tables
    refunded_to :
        (faults : List Bool) (now h j : ℕ) (a : ℤ)
        → pos 0 ≤ℤ a
        → LedgerStep t (refund_full now h j a (record { tables = t; faults = faults })).1.tables

  pub data LedgerHistory (t : Tables) : Tables → Type 0 where
    start : LedgerHistory t t
    then_call : {u v : Tables} → LedgerHistory t u → LedgerStep u v → LedgerHistory t v

  module _ (ieee : IsIeee f) where
    step_IsSound : {t u : Tables} → LedgerStep t u → IsSound t → IsSound u
    step_IsSound {t} (initialized fs u) s = (initialize-IsSound u t s).holds fs
    step_IsSound {t} (allocated_to fs now u a p i) s = (allocate-IsSound now u a t p i s).holds fs
    step_IsSound {t} (reserved_for fs now h j a p) s = (reserve-IsSound now h j a t p s).holds fs
    step_IsSound {t} (settled fs now h w j r secs g p k) s =
        (settle-IsSound f ieee now h w j r secs g t p k s).holds fs
    step_IsSound {t} (refunded_to fs now h j a p) s = (refund_IsSound now h j a t p s).holds fs

    -- Whatever calls of the ledger have been made, in whatever order and whichever of their
    -- statements failed, with amounts that are not negative, those of `settle` up to 2 ^ 53, and
    -- under the laws of `f64`: from sound balances (unique keys, and in each row 0 <= reserved <=
    -- balance < 2 ^ 63) they lead to sound balances.
    pub history_IsSound : {t u : Tables} → LedgerHistory t u → IsSound t → IsSound u
    history_IsSound start s = s
    history_IsSound (then_call past step) s = step_IsSound step (history_IsSound past s)

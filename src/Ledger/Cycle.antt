-- ===== src/Ledger/Cycle.antt =====
-- A reservation from `reserve` to its end by `settle` or `refund_full`: what the hirer has then.
use decentralized_gpu_p2p_ne.Base.{ℕ, ◌≡◌, ◌≢◌, some, All, List, Bool, sym, ◌∙◌, ==_ne, ==_refl, ap}
use decentralized_gpu_p2p_ne.Base.Int.{ℤ, ◌+ℤ◌, ◌-ℤ◌, int_laws, wrap_i64}
use decentralized_gpu_p2p_ne.Error.{ok}
use decentralized_gpu_p2p_ne.Float.{F64Ops}
use decentralized_gpu_p2p_ne.Types.GpuBackend.{GpuBackend}
use decentralized_gpu_p2p_ne.Db.{Balance, Tables}
use decentralized_gpu_p2p_ne.Ledger.{balance_of, reserve, settle, refund_full, actual_charge}
use decentralized_gpu_p2p_ne.Ledger.Accounts.{IsSolvent}
use decentralized_gpu_p2p_ne.Ledger.Reserve.{reserve_outcome}
use decentralized_gpu_p2p_ne.Ledger.Allocate.{refund_outcome}
use decentralized_gpu_p2p_ne.Ledger.Settle.{settle_outcome}

module _ (now h j : ℕ) (a : ℤ) (t : Tables) (fs : List Bool) (b : Balance) where
  -- the tables after the reservation
  abbrev after_reserve : Tables
  after_reserve = (reserve now h j a (record { tables = t; faults = fs })).1.tables

  reserved_account :
      All IsSolvent t.balances
      → balance_of h t ≡ some b
      → (reserve now h j a (record { tables = t; faults = fs })).0 ≡ ok tt
      → balance_of h after_reserve ≡ some (record b { cu_reserved = b.cu_reserved +ℤ a })
  reserved_account s e r =
      let done = rw (e, r) at ((reserve_outcome now h j a t h s).holds fs) in rw ==_refl at (done.1)

-- what is reserved and then released
round_trip : (x a : ℤ) → x +ℤ a -ℤ a ≡ x
round_trip x a = omega int_laws

-- After a `reserve` and a `refund_full` of the same amount that both succeed, on solvent
-- balances, the hirer's row is the old one with the amount added to `cu_balance`: the hirer has
-- more than before the reservation, by what was reserved.
pub refund_after_reserve :
    (now now' h j : ℕ) (a : ℤ) (t : Tables) (fs fs' : List Bool) (b : Balance)
    → All IsSolvent t.balances
    → balance_of h t ≡ some b
    → let (r, db) = reserve now h j a (record { tables = t; faults = fs }) in
      let (r', db') = refund_full now' h j a (record { tables = db.tables; faults = fs' }) in
      r ≡ ok tt
      → r' ≡ ok tt
      → balance_of h db'.tables ≡ some (record b { cu_balance = b.cu_balance +ℤ a })
refund_after_reserve now now' h j a t fs fs' b s e r r' =
    let t1 = after_reserve now h j a t fs b in
    let done = rw r' at ((refund_outcome now' h j a t1 h).holds fs') in
    let account = rw (==_refl, reserved_account now h j a t fs b s e r) at (done.0) in
    account
    ∙ ap (λ x. some (record b { cu_balance = b.cu_balance +ℤ a; cu_reserved = x }))
        (round_trip b.cu_reserved a)

-- After a `reserve` and a `settle` of the same amount that both succeed, on solvent balances,
-- with a worker other than the hirer: the hirer's row is the old one with the refund added to
-- `cu_balance`, and nothing taken from it: the charge is never debited.
pub settle_after_reserve :
    (f : F64Ops) (now now' h w j : ℕ) (a : ℤ) (secs : ℕ) (g : GpuBackend) (t : Tables)
    (fs fs' : List Bool) (b : Balance)
    → w ≢ h
    → All IsSolvent t.balances
    → balance_of h t ≡ some b
    → let (r, db) = reserve now h j a (record { tables = t; faults = fs }) in
      let (r', db') = settle f now' h w j a secs g (record { tables = db.tables; faults = fs' }) in
      r ≡ ok tt
      → r' ≡ ok tt
      → balance_of h db'.tables
        ≡ some (record b { cu_balance = b.cu_balance +ℤ wrap_i64 (a -ℤ actual_charge f g secs a) })
settle_after_reserve f now now' h w j a secs g t fs fs' b ne s e r r' =
    let t1 = after_reserve now h j a t fs b in
    let done = rw r' at ((settle_outcome f now' h w j a secs g t1 h).holds fs') in
    let account =
      rw (==_ne h w (λ q. ne (sym q)), ==_refl, reserved_account now h j a t fs b s e r) at
        (done.0) in
    account
    ∙ ap
        (λ x. some (record b {
          cu_balance = b.cu_balance +ℤ wrap_i64 (a -ℤ actual_charge f g secs a);
          cu_reserved = x;
        }))
        (round_trip b.cu_reserved a)

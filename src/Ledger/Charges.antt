-- ===== src/Ledger/Charges.antt =====
-- The amounts of `ComputeUnitLedger::settle`: what the hirer is charged, refunded, and the worker paid.
use decentralized_gpu_p2p_ne.Base.{ℕ, ◌≡◌, arith}
use decentralized_gpu_p2p_ne.Base.Int.{
  ℤ, pos, negsuc, ◌≤ℤ◌, ◌+ℤ◌, ◌-ℤ◌, min_ℤ, wrap_i64, wrap_i64_id, int_laws,
}
use decentralized_gpu_p2p_ne.Float.{F64, F64Ops, NotNegative, IsIeee}
use decentralized_gpu_p2p_ne.Types.GpuBackend
use decentralized_gpu_p2p_ne.Types.GpuBackend.{GpuBackend, cpu_only, cuda, metal, rocm}
use decentralized_gpu_p2p_ne.Ledger.{calculate_price, actual_charge, worker_payout}

multiplier_positive : (g : GpuBackend) → pos 0 ≤ℤ pos (GpuBackend.price_multiplier g)
multiplier_positive g = omega arith

min_bounds : (p r : ℤ) → pos 0 ≤ℤ p → pos 0 ≤ℤ r → (pos 0 ≤ℤ min_ℤ p r) × (min_ℤ p r ≤ℤ r)
min_bounds p r h k = ground arith

refund_exact :
    (r c : ℤ) → pos 0 ≤ℤ c → c ≤ℤ r → r ≤ℤ pos 9007199254740992 → wrap_i64 (r -ℤ c) ≡ r -ℤ c
unfolding ◌-ℤ◌
refund_exact r c h k l = wrap_i64_id _ (ground arith)

module _ (f : F64Ops) (ieee : IsIeee f) where
  price_not_negative :
      (g : GpuBackend) (hours : F64) → NotNegative f hours → pos 0 ≤ℤ calculate_price f g hours
  unfolding calculate_price
  price_not_negative g hours h = ieee.ceil_not_negative _ (
      ieee.mul_not_negative _ _
        (ieee.mul_not_negative _ _ (ieee.of_i64_not_negative (pos 10) (omega arith)) h)
        (ieee.of_i64_not_negative _ (multiplier_positive g)))

  -- A charge lies between nothing and the reservation.
  pub charge_bounds :
      (g : GpuBackend) (secs : ℕ) (r : ℤ)
      → pos 0 ≤ℤ r
      → (pos 0 ≤ℤ actual_charge f g secs r) × (actual_charge f g secs r ≤ℤ r)
  unfolding actual_charge
  charge_bounds g secs r h =
      let hours = f.div (f.of_i64 (pos secs)) (f.of_i64 (pos 3600)) in
      let price_nonneg : pos 0 ≤ℤ calculate_price f g hours = price_not_negative g hours (
        ieee.div_not_negative _ _ (ieee.of_i64_not_negative (pos secs) (omega arith))
          (ieee.of_i64_positive (pos 3600) (omega arith))) in
      min_bounds _ r price_nonneg h

  -- A payout lies between nothing and the charge, as far as a double holds the charge exactly.
  payout_bounds :
      (c : ℤ)
      → pos 0 ≤ℤ c
      → c ≤ℤ pos 9007199254740992
      → (pos 0 ≤ℤ worker_payout f c) × (worker_payout f c ≤ℤ c)
  unfolding worker_payout
  payout_bounds (pos n) h k =
      ieee.fraction_bounds n 85 100 (omega arith) (omega arith) (omega arith)
  payout_bounds (negsuc n) h k = absurd (omega arith)

  -- The amounts of `settle` for a reservation from 0 to 2 ^ 53, under the laws of `f64`: the
  -- charge and the refund add up to the reservation, the refund lies between 0 and the
  -- reservation, and the payout of the worker between 0 and the charge.
  pub settle_amounts :
      (g : GpuBackend) (secs : ℕ) (reserved : ℤ)
      → pos 0 ≤ℤ reserved
      → reserved ≤ℤ pos 9007199254740992
      → let charge = actual_charge f g secs reserved in
        let refund = wrap_i64 (reserved -ℤ charge) in
        let payout = worker_payout f charge in
        (charge +ℤ refund ≡ reserved)
        × (pos 0 ≤ℤ refund)
        × (refund ≤ℤ reserved)
        × (pos 0 ≤ℤ payout)
        × (payout ≤ℤ charge)
  settle_amounts g secs r h k =
      let (low, high) = charge_bounds g secs r h in
      let charge = actual_charge f g secs r in
      let (paid, most) = payout_bounds charge low (omega arith) in
      let exact = refund_exact r charge low high k in
      (rw exact (omega int_laws), rw exact (omega int_laws), rw exact (omega int_laws), paid, most)

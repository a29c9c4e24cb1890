-- ===== src/Float/Fixed.antt =====
-- A concrete arithmetic that meets `IsIeee`: millionths that are not negative, with a difference that
-- stops at 0. It serves the theorems at concrete inputs.
use Prim.Native.Nat.{Ordering}
use native.Mathlib.Nat.{div-lt_iff_lt-mul, mul-le-mul_left}
use decentralized_gpu_p2p_ne.Base.{
  ℕ, ◌+◌, ◌-◌, ◌*◌, ◌/◌, ◌≤◌, ◌<◌, ◌≡◌, some, ltb, leb, ◌==◌, if◌then◌else◌, arith, ap,
}
use decentralized_gpu_p2p_ne.Base.Int.{ℤ, pos, i64_bound, pos_part, IsI64, ◌≤ℤ◌}
use decentralized_gpu_p2p_ne.Float.Defs.{F64, F64Ops, IsIeee, NotNegative}

unfoldable unit : ℕ
unit = 1000000

abbrev order : ℕ → ℕ → Ordering
order x y = if ltb x y then Ordering.lt else if x == y then Ordering.eq else Ordering.gt

-- The cast saturates.
unfoldable saturate : ℕ → ℤ
saturate n = if ltb n i64_bound then pos n else pos (i64_bound - 1)

unfoldable pub fixed : F64Ops
unfolding unit saturate
fixed = record {
  of_i64 = λ a. pos_part a * unit;
  ratio = λ p q. p * unit / q;
  add = λ x y. x + y;
  sub = λ x y. x - y;
  mul = λ x y. x * y / unit;
  div = λ x y. x * unit / y;
  abs = λ x. x;
  min = λ x y. if leb x y then x else y;
  clamp = λ x lo hi. if leb x lo then lo else if leb hi x then hi else x;
  ceil_i64 = λ x. saturate ((x + (unit - 1)) / unit);
  trunc_i64 = λ x. saturate (x / unit);
  partial_cmp = λ x y. some (order x y);
}

not_negative : (x : F64) → NotNegative fixed x
unfolding fixed
not_negative x h = ground arith

saturate_fits : (n : ℕ) → IsI64 (saturate n)
unfolding saturate
saturate_fits n = ground arith

saturate_nonneg : (n : ℕ) → pos 0 ≤ℤ saturate n
unfolding saturate
saturate_nonneg n = ground arith

saturate_le : (n m : ℕ) → n ≤ m → saturate n ≤ℤ pos m
unfolding saturate
saturate_le n m h = ground arith

ratio_le : (p q : ℕ) → p ≤ q → 0 < q → p * 1000000 / q ≤ 1000000
ratio_le p q le q_pos =
    let small : p * 1000000 / q < 1000001 = (div-lt_iff_lt-mul q_pos).1 (omega arith) in omega arith

share_le : (n k : ℕ) → k ≤ 1000000 → n * 1000000 * k / 1000000 / 1000000 ≤ n
share_le n k le =
    let most : n * k ≤ n * 1000000 = mul-le-mul_left n le in
    let exact : n * 1000000 * k ≡ 1000000 * (n * k) = omega arith in rw exact (omega (arith, most))

positive : (a : ℤ) → pos 1 ≤ℤ a → order (pos_part a * 1000000) 0 ≡ Ordering.gt
positive a h = ground arith

pub fixed-IsIeee : IsIeee fixed
unfolding fixed unit
fixed-IsIeee = record {
  of_i64_not_negative = λ a _. not_negative (fixed.of_i64 a);
  of_i64_positive = λ a h. ap some (positive a h);
  mul_not_negative = λ x y _ _. not_negative (fixed.mul x y);
  div_not_negative = λ x y _ _. not_negative (fixed.div x y);
  ceil_not_negative = λ x _. saturate_nonneg ((x + 999999) / 1000000);
  ceil_fits = λ x. saturate_fits ((x + 999999) / 1000000);
  fraction_bounds = λ n p q _ le q_pos. (
    saturate_nonneg (n * 1000000 * (p * 1000000 / q) / 1000000 / 1000000),
    saturate_le _ n (share_le n (p * 1000000 / q) (ratio_le p q le q_pos)),
  );
}

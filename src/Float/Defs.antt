-- ===== src/Float/Defs.antt =====
-- The operations of Rust's `f64` that the program calls, and documented laws of them.
use Prim.Native.Nat.{Ordering}
use decentralized_gpu_p2p_ne.Base.{ℕ, ◌≤◌, ◌<◌, ◌≡◌, ◌≢◌, Option, some}
use decentralized_gpu_p2p_ne.Base.Int.{ℤ, pos, ◌≤ℤ◌, IsI64}

abbrev pub F64 : Type 0
F64 = ℕ

pub record F64Ops : Type 0 where
  pub of_i64 : ℤ → F64  -- `n as f64`, of an `i64` or a `u64`
  pub ratio : ℕ → ℕ → F64  -- the literal with this numerator and denominator
  pub add : F64 → F64 → F64
  pub sub : F64 → F64 → F64
  pub mul : F64 → F64 → F64
  pub div : F64 → F64 → F64
  pub abs : F64 → F64
  pub min : F64 → F64 → F64
  pub clamp : F64 → F64 → F64 → F64
  pub ceil_i64 : F64 → ℤ  -- `x.ceil() as i64`
  pub trunc_i64 : F64 → ℤ  -- `x as i64`
  pub partial_cmp : F64 → F64 → Option Ordering

-- `x < 0.0` is false; NaN included.
abbrev pub NotNegative : F64Ops → F64 → Type 0
NotNegative f x = f.partial_cmp x (f.of_i64 (pos 0)) ≢ some Ordering.lt

abbrev pub IsPositive : F64Ops → F64 → Type 0
IsPositive f x = f.partial_cmp x (f.of_i64 (pos 0)) ≡ some Ordering.gt

-- Rounding is monotone, integers up to 2 ^ 53 are exact, and a cast to `i64` saturates, with NaN to 0.
pub record IsIeee (f : F64Ops) : Type 0 where
  pub of_i64_not_negative : (a : ℤ) → pos 0 ≤ℤ a → NotNegative f (f.of_i64 a)
  pub of_i64_positive : (a : ℤ) → pos 1 ≤ℤ a → IsPositive f (f.of_i64 a)
  pub mul_not_negative : (x y : F64) → NotNegative f x → NotNegative f y → NotNegative f (f.mul x y)
  pub div_not_negative : (x y : F64) → NotNegative f x → IsPositive f y → NotNegative f (f.div x y)
  pub ceil_not_negative : (x : F64) → NotNegative f x → pos 0 ≤ℤ f.ceil_i64 x
  pub ceil_fits : (x : F64) → IsI64 (f.ceil_i64 x)
  pub fraction_bounds :
      (n p q : ℕ)
      → n ≤ 9007199254740992
      → p ≤ q
      → 0 < q
      → (pos 0 ≤ℤ f.trunc_i64 (f.mul (f.of_i64 (pos n)) (f.ratio p q)))
        × (f.trunc_i64 (f.mul (f.of_i64 (pos n)) (f.ratio p q)) ≤ℤ pos n)

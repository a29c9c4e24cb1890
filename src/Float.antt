-- ===== src/Float.antt =====
-- The `f64` arithmetic that the program uses, as an interface. A double is its 64-bit pattern; the
-- operations on patterns are a parameter of the definitions that compute with them, and what the
-- theorems need of IEEE 754 and of Rust's `as` casts is the record `IsIeee`.
mod Defs
pub mod Fixed
pub use Defs.*

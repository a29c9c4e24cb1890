-- ===== src/Credits.antt =====
-- crates/decentgpu-master/src/api/credits.rs: the handlers of balances, transactions and allocations.
-- The public table of prices has no state.
pub mod Limits
mod Tests
use decentralized_gpu_p2p_ne.Base.{
  ℕ, String, Bool, ◌||◌, Option, none, some, List, ◌==◌, if◌then◌else◌, unwrap_or,
}
use decentralized_gpu_p2p_ne.Base.Int.{ℤ, pos, ◌-ℤ◌, ltb_ℤ, wrap_i64}
use decentralized_gpu_p2p_ne.Error.{DecentGpuError}
use decentralized_gpu_p2p_ne.Float.{F64Ops}
use decentralized_gpu_p2p_ne.Types.GpuBackend.{cpu_only, metal, rocm, cuda}
use decentralized_gpu_p2p_ne.Types.Capabilities.{base_rate_per_hour}
use decentralized_gpu_p2p_ne.Db.{Balance, Transaction}
use decentralized_gpu_p2p_ne.Http.{
  ApiError, ApiResult, reply, refuse, Handler, answer, refused, await, await_or, bad_request,
  internal_error,
}
use decentralized_gpu_p2p_ne.Auth.{AuthUser, admin_user}
use decentralized_gpu_p2p_ne.Ledger
use decentralized_gpu_p2p_ne.Ledger.{calculate_price}
use decentralized_gpu_p2p_ne.Transactions.{list_transactions_paginated}
use decentralized_gpu_p2p_ne.Transactions.Sql.{SqlText}

-- `n.clamp(lo, hi)` and `n.max(lo)`
abbrev pub clamp : ℤ → ℤ → ℤ → ℤ
clamp n lo hi = if ltb_ℤ n lo then lo else if ltb_ℤ hi n then hi else n

abbrev pub at_least : ℤ → ℤ → ℤ
at_least n lo = if ltb_ℤ n lo then lo else n

-- the `example_prices_1h`
pub record Prices : Type 0 where
  pub base_rate : ℤ
  pub cpu_only_price : ℤ
  pub metal_price : ℤ
  pub rocm_price : ℤ
  pub cuda_price : ℤ

unfoldable pub get_pricing : F64Ops → Prices
unfolding calculate_price
get_pricing f = record {
  base_rate = base_rate_per_hour;
  cpu_only_price = calculate_price f cpu_only (f.of_i64 (pos 1));
  metal_price = calculate_price f metal (f.of_i64 (pos 1));
  rocm_price = calculate_price f rocm (f.of_i64 (pos 1));
  cuda_price = calculate_price f cuda (f.of_i64 (pos 1));
}

-- an `anyhow::Error`
abbrev pub as_internal : DecentGpuError → ApiError
as_internal e = internal_error

pub record BalanceReply : Type 0 where
  pub cu_balance : ℤ
  pub cu_reserved : ℤ
  pub cu_available : ℤ
  pub recent_transactions : List Transaction

unfoldable pub get_balance : SqlText → AuthUser → Handler BalanceReply
unfolding ◌-ℤ◌ wrap_i64
get_balance sql user = await (Ledger.get_balance user.user_id) λ row.
    await_or as_internal (list_transactions_paginated sql user.user_id (pos 10) (pos 0) none)
      λ recent. answer (record {
        cu_balance = row.cu_balance;
        cu_reserved = row.cu_reserved;
        cu_available = wrap_i64 (row.cu_balance -ℤ row.cu_reserved);
        recent_transactions = recent.0;
      })

pub record Page (A : Type 0) : Type 0 where
  pub rows : List A
  pub total : ℕ
  pub limit : ℤ
  pub offset : ℤ

unfoldable pub list_transactions :
    SqlText → AuthUser → Option ℤ → Option ℤ → Option String → Handler (Page Transaction)
list_transactions sql user limit offset tx_type =
    let l = clamp (unwrap_or limit (pos 25)) (pos 1) (pos 100) in
    let o = at_least (unwrap_or offset (pos 0)) (pos 0) in
    await_or as_internal (list_transactions_paginated sql user.user_id l o tx_type)
      λ page. answer (record { rows = page.0; total = page.1; limit = l; offset = o })

-- behind the extractor `AdminUser`
abbrev pub with_admin : {A : Type 0} → ApiResult ℕ → (ℕ → Handler A) → Handler A
with_admin (refuse e) f = refused e
with_admin (reply id) f = f id

-- the answer is the new balance
unfoldable pub allocate : ℕ → Option AuthUser → ℕ → ℤ → Handler ℤ
unfolding admin_user
allocate now auth user_id amount = with_admin (admin_user auth) λ _.
    if ltb_ℤ amount (pos 1) || ltb_ℤ (pos 1000000) amount
    then refused bad_request
    else await (Ledger.allocate now user_id amount) λ new_balance. answer new_balance

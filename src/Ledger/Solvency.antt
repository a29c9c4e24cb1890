-- ===== src/Ledger/Solvency.antt =====
-- The invariant of the balances, over every method of the ledger and every failure of a statement.
mod Sound
pub use Sound.{IsSound, Soundly}
use Sound.{
  update_found, allocated, logged, update_IsSound, reserved_more, balance_more, reserved_less,
}
use decentralized_gpu_p2p_ne.Base.{
  ℕ, ◌≤◌, ◌≡◌, refl, some, none, List, [], ◌∷◌, arith, if◌then◌else◌, inl, inr, Bool-cases,
  Option-cases, is_some, Bool,
}
use decentralized_gpu_p2p_ne.Base.Int.{ℤ, pos, ◌≤ℤ◌, ◌+ℤ◌, ◌-ℤ◌, wrap_i64, ltb_ℤ, IsI64}
use decentralized_gpu_p2p_ne.Float.{F64Ops, IsIeee}
use decentralized_gpu_p2p_ne.Types.GpuBackend.{GpuBackend}
use decentralized_gpu_p2p_ne.Db.{Balance, Tables, Db}
use decentralized_gpu_p2p_ne.Db.Rules.{
  Ensures, transaction_rule, step_rule, pure_rule, fail_rule, constrained_step_rule,
  constrained_rule, bind_rule, OrBack,
}
use decentralized_gpu_p2p_ne.Ledger.{
  balance_of, initialize, allocate, reserve, reserve_from, settle, settle_body, refund_full,
  actual_charge, worker_payout,
}
use decentralized_gpu_p2p_ne.Ledger.Rows.{set_rows}
use decentralized_gpu_p2p_ne.Ledger.Accounts.{IsSolvent, balance_in_All}
use decentralized_gpu_p2p_ne.Ledger.Reserve.{covered_of}
use decentralized_gpu_p2p_ne.Ledger.Settle.{released, paid}
use decentralized_gpu_p2p_ne.Ledger.Charges.{settle_amounts}

-- a new account holds nothing
opened :
    (u : ℕ) (t : Tables)
    → IsSound t
    → IsSound (
        if is_some (balance_of u t) then t else record t {
          balances = record { user_id = u; cu_balance = pos 0; cu_reserved = pos 0 } ∷ t.balances;
        })
opened u t s = elim (Option-cases (balance_of u t)) [
  | inl missing ↦ rw missing (record {
    solvent = (
      record { reserved_nonneg = omega arith; covered = omega arith; fits = omega arith },
      s.solvent,
    );
    keyed = (missing, s.keyed);
  })
  | inr (b, e) ↦ rw e s
]

pub initialize-IsSound : (u : ℕ) (t : Tables) → IsSound t → Ensures Soundly (initialize u) t
unfolding initialize
initialize-IsSound u t s = constrained_rule _ tt _ s (λ _. opened u t s)

pub allocate-IsSound :
    (now u : ℕ) (a : ℤ) (t : Tables)
    → pos 0 ≤ℤ a
    → IsI64 a
    → IsSound t
    → Ensures Soundly (allocate now u a) t
unfolding allocate
allocate-IsSound now u a t h fits s = elim (Option-cases (balance_of u t)) [
  | inl missing ↦
      transaction_rule _ s (step_rule _ _ s (rw missing (bind_rule _ _ (fail_rule _ s))))
  | inr (b, e) ↦
      let solvent = balance_in_All IsSolvent u t.balances b e s.solvent in
      let new = wrap_i64 (b.cu_balance +ℤ a) in
      let f : Balance → Balance = λ x. record x { cu_balance = new } in
      transaction_rule _ s (
        step_rule _ _ s (
          rw e (
            bind_rule _ _ (
              pure_rule b (
                constrained_step_rule _ tt _ _ s (λ rows. constrained_step_rule _ tt _ _ s (λ _.
                  pure_rule new (
                    logged _ _ (
                      update_found u f (λ x. refl) t b e s rows
                        (allocated b a solvent h fits))))))))))
]

reserve_from-IsSound :
    (now h j : ℕ) (a : ℤ) (t : Tables)
    → pos 0 ≤ℤ a
    → IsSound t
    → (b : Balance) → balance_of h t ≡ some b
    → Ensures (OrBack t Soundly) (reserve_from now h j a b) t
unfolding reserve_from
reserve_from-IsSound now h j a t p s b e =
    let solvent = balance_in_All IsSolvent h t.balances b e s.solvent in
    elim (Bool-cases (ltb_ℤ (wrap_i64 (b.cu_balance -ℤ b.cu_reserved)) a)) [
      | inl short ↦ rw short (fail_rule _ s)
      | inr enough ↦
          let f : Balance → Balance = λ x. record x { cu_reserved = x.cu_reserved +ℤ a } in
          rw enough (
            constrained_step_rule _ tt _ _ s (λ rows. constrained_rule _ tt _ s (λ _. logged _ _ (
              update_found h f (λ x. refl) t b e s rows
                (λ _. reserved_more b a solvent p (covered_of b a solvent enough))))))
    ]

pub reserve-IsSound :
    (now h j : ℕ) (a : ℤ) (t : Tables)
    → pos 0 ≤ℤ a
    → IsSound t
    → Ensures Soundly (reserve now h j a) t
unfolding reserve
reserve-IsSound now h j a t p s = elim (Option-cases (balance_of h t)) [
  | inl missing ↦
      transaction_rule _ s (step_rule _ _ s (rw missing (bind_rule _ _ (fail_rule _ s))))
  | inr (b, e) ↦ transaction_rule _ s (
      step_rule _ _ s
        (rw e (bind_rule _ _ (pure_rule b (reserve_from-IsSound now h j a t p s b e)))))
]

pub refund_IsSound :
    (now h j : ℕ) (a : ℤ) (t : Tables)
    → pos 0 ≤ℤ a
    → IsSound t
    → Ensures Soundly (refund_full now h j a) t
unfolding refund_full
refund_IsSound now h j a t p s = transaction_rule _ s (
    constrained_step_rule _ tt _ _ s (λ rows. constrained_rule _ tt _ s (λ _. logged _ _ (
      update_IsSound h (released a a) (λ x. refl) t s rows
        (λ x sx ex check. reserved_less x a a sx p p check)))))

module _ (now h w j : ℕ) (r refund payout : ℤ) (t : Tables) (pr : pos 0 ≤ℤ r) (px : pos 0 ≤ℤ refund)
    (pp : pos 0 ≤ℤ payout) (s : IsSound t) where
  settle_body_IsSound : Ensures (OrBack t Soundly) (settle_body now h w j r refund payout) t
  unfolding settle_body
  settle_body_IsSound = step_rule _ _ s (
      step_rule _ _ s (
        constrained_step_rule _ tt _ _ s (λ rows.
          let first =
            update_IsSound h (released refund r) (λ x. refl) t s rows
              (λ x sx _ check. reserved_less x refund r sx px pr check) in
          constrained_step_rule _ tt _ _ s (λ rows'.
            let both =
              update_IsSound w (paid payout) (λ x. refl) _ first rows'
                (λ x sx _ check. balance_more x payout sx pp check) in
            elim (Bool-cases (ltb_ℤ (pos 0) refund)) [
              | inl some_refund ↦ rw some_refund (
                  constrained_step_rule _ tt _ _ s
                    (λ _. constrained_rule _ tt _ s (λ _. logged _ _ both)))
              | inr no_refund ↦
                  rw no_refund (
                    bind_rule _ _ (pure_rule tt (constrained_rule _ tt _ s (λ _. logged _ _ both))))
            ]))))

pub settle-IsSound :
    (f : F64Ops)
    → IsIeee f
    → (now h w j : ℕ) (r : ℤ) (secs : ℕ) (g : GpuBackend) (t : Tables) → pos 0 ≤ℤ r
    → r ≤ℤ pos 9007199254740992
    → IsSound t
    → Ensures Soundly (settle f now h w j r secs g) t
unfolding settle
settle-IsSound f ieee now h w j r secs g t p k s =
    let (_, refund_nonneg, _, payout_nonneg, _) = settle_amounts f ieee g secs r p k in
    transaction_rule _ s (settle_body_IsSound now h w j r _ _ t p refund_nonneg payout_nonneg s)

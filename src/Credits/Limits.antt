-- ===== src/Credits/Limits.antt =====
-- Who may allocate Compute Units, how many at a time, and what the request does to the accounts.
use decentralized_gpu_p2p_ne.Ledger.Accounts.{IsSolvent, Keyed}
use text.Mathlib.Text.{◌==◌ as eq_text}
use text.Mathlib.TextEquality.{eq_iff}
use decentralized_gpu_p2p_ne.Base.{
  ℕ, ◌||◌, Option, none, some, ◌≡◌, refl, All, arith, Bool-cases, inl, inr, if_cases, if◌then◌else◌,
}
use decentralized_gpu_p2p_ne.Base.Int.{ℤ, pos, ◌≤ℤ◌, ltb_ℤ}
use decentralized_gpu_p2p_ne.Error.{Result, ok, err, not_found, database, DecentGpuError}
use decentralized_gpu_p2p_ne.Db.{Balance, Tables}
use decentralized_gpu_p2p_ne.Http.{
  bad_request, refused, ApiResult, reply, refuse, answer, of_repository, await,
}
use decentralized_gpu_p2p_ne.Http.Rules.{Answers, Onward, await_rule, answer_rule, refused_rule}
use decentralized_gpu_p2p_ne.Auth.{AuthUser, admin_user}
use decentralized_gpu_p2p_ne.Ledger
use decentralized_gpu_p2p_ne.Ledger.{balance_of}
use decentralized_gpu_p2p_ne.Ledger.Allocate.{AllocateOutcome, allocate_outcome}
use decentralized_gpu_p2p_ne.Credits.{allocate, with_admin}

-- the user that the request comes from has the role of an administrator
abbrev pub IsAdminUser : Option AuthUser → Type 0
IsAdminUser none = ⊥
IsAdminUser (some user) = user.role ≡ "admin"

module _ (now : ℕ) (auth : Option AuthUser) (user_id : ℕ) (amount : ℤ) (t : Tables) (v : ℕ) where
  abbrev pub AllocationOutcome : ApiResult ℤ → Tables → Type 0
  AllocationOutcome (reply n) t' =
      IsAdminUser auth
      × (pos 1 ≤ℤ amount)
      × (amount ≤ℤ pos 1000000)
      × AllocateOutcome now user_id amount t v (balance_of user_id t) (ok n) t'
  AllocationOutcome (refuse e) t' = t' ≡ t

  admin_lem : (id : ℕ) → admin_user auth ≡ reply id → IsAdminUser auth
  unfolding admin_user
  admin_lem id e = at auth e
    where
      at : (a : Option AuthUser) → admin_user a ≡ reply id → IsAdminUser a
      at none h = absurd (cc)
      at (some user) h = elim (Bool-cases (eq_text user.role "admin")) [
        | inl hit ↦ (eq_iff user.role "admin").0 hit
        | inr miss ↦ absurd (let k = (rw miss at h) in cc)
      ]

  unchanged :
      (o : Option Balance) (e : DecentGpuError) (t' : Tables)
      → AllocateOutcome now user_id amount t v o (err e) t'
      → t' ≡ t
  unchanged none not_found t' h = h
  unchanged none database t' h = h
  unchanged (some b) database t' h = h
  unchanged _ _ t' h = absurd h

  after_ledger :
      IsAdminUser auth
      → pos 1 ≤ℤ amount
      → amount ≤ℤ pos 1000000
      → (r : Result ℤ) (t' : Tables)
      → AllocateOutcome now user_id amount t v (balance_of user_id t) r t'
      → Onward of_repository AllocationOutcome (λ n. answer n) r t'
  after_ledger admitted low high (ok n) t' h = answer_rule n (admitted, low, high, h)
  after_ledger admitted low high (err e) t' h = unchanged (balance_of user_id t) e t' h

  allocated :
      IsAdminUser auth
      → All IsSolvent t.balances
      → Keyed t.balances
      → Answers AllocationOutcome
          (if ltb_ℤ amount (pos 1) || ltb_ℤ (pos 1000000) amount
            then refused bad_request
            else await (Ledger.allocate now user_id amount) λ new_balance. answer new_balance)
          t
  allocated admitted sound keyed =
      if_cases (λ h. Answers AllocationOutcome h t)
        (ltb_ℤ amount (pos 1) || ltb_ℤ (pos 1000000) amount) _ _ (λ _. refused_rule _ refl)
        (λ within.
          let low : pos 1 ≤ℤ amount = ground arith in
          let high : amount ≤ℤ pos 1000000 = ground arith in
          await_rule _ _ _ (record {
            holds = λ fs. after_ledger admitted low high _ _ (
                (allocate_outcome now user_id amount t v sound keyed (ground arith)
                    (ground arith)).holds
                  fs);
          }))

  -- The request to allocate Compute Units, whichever statements fail, on solvent balances with unique
  -- keys: it succeeds only for a user whose role is `admin` and for an amount from 1 to 1,000,000;
  -- then the target had a row, the answer and its new balance are the old one plus the amount, every
  -- other account is as it was, and the log has one new entry, the allocation. Where it is refused,
  -- nothing has changed.
  pub allocate_lem :
      All IsSolvent t.balances
      → Keyed t.balances
      → Answers AllocationOutcome (allocate now auth user_id amount) t
  unfolding allocate
  allocate_lem sound keyed = behind (admin_user auth) refl
    where
      behind :
          (r : ApiResult ℕ)
          → admin_user auth ≡ r
          → Answers AllocationOutcome
              (with_admin r λ _.
                if ltb_ℤ amount (pos 1) || ltb_ℤ (pos 1000000) amount
                then refused bad_request
                else await (Ledger.allocate now user_id amount) λ new_balance. answer new_balance)
              t
      behind (refuse e) q = refused_rule e refl
      behind (reply id) q = allocated (admin_lem id q) sound keyed

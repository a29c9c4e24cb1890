-- ===== src/Users/Roles.antt =====
-- The rows of `users` under `UPDATE users SET role`: their keys, and the number of administrators.
use text.Mathlib.Text.{◌==◌ as eq_text}
use decentralized_gpu_p2p_ne.Base.{
  ℕ, String, Bool, true, false, none, some, List, [], ◌∷◌, ◌≡◌, refl, ◌+◌, ◌==◌, length, filter,
  Bool-cases, inl, inr, arith, ==_iff, sym,
}
use decentralized_gpu_p2p_ne.Db.{User, has_user}
use decentralized_gpu_p2p_ne.Users.{user_in, set_role, is_admin}

abbrev pub KeyedUsers : List User → Type 0
KeyedUsers [] = Unit
KeyedUsers (u ∷ us) = (user_in u.id us ≡ none) × KeyedUsers us

abbrev pub admins : List User → ℕ
admins us = length (filter is_admin us)

abbrev pub bit : Bool → ℕ
bit true = 1
bit false = 0

pub admins-cons : (u : User) (us : List User) → admins (u ∷ us) ≡ bit (is_admin u) + admins us
admins-cons u us = elim (Bool-cases (is_admin u)) [
  | inl here ↦ rw here (omega arith)
  | inr other ↦ rw other (omega arith)
]

pub no_user : (id : ℕ) (us : List User) → has_user id us ≡ false → user_in id us ≡ none
no_user id [] h = refl
no_user id (u ∷ us) h = ground (arith, no_user id us)

module _ (id : ℕ) (role : String) where
  absent_role : (us : List User) → user_in id us ≡ none → set_role id role us ≡ us
  absent_role [] h = refl
  absent_role (u ∷ us) h = ground (arith, absent_role us)

  still_absent :
      (v : ℕ) (us : List User) → user_in v us ≡ none → user_in v (set_role id role us) ≡ none
  still_absent v [] h = refl
  still_absent v (u ∷ us) h = ground (arith, still_absent v us)

  pub set_role-Keyed : (us : List User) → KeyedUsers us → KeyedUsers (set_role id role us)
  set_role-Keyed [] k = tt
  set_role-Keyed (u ∷ us) k = ground (arith, still_absent u.id us, set_role-Keyed us)

  abbrev pub changed : User → User
  changed u = record u { role = role }

  -- the row that has the key counts as its new role says
  pub admins-set_role :
      (us : List User) (u : User)
      → KeyedUsers us
      → user_in id us ≡ some u
      → admins (set_role id role us) + bit (is_admin u) ≡ admins us + bit (eq_text role "admin")
  admins-set_role [] u k h = cc
  admins-set_role (x ∷ xs) u k h = elim (Bool-cases (x.id == id)) [
    | inl here ↦
        let e : x.id ≡ id = (==_iff x.id id).0 here in
        let same : x ≡ u = let found = h in ground arith in
        let rest : set_role id role xs ≡ xs = absent_role xs (rw (sym e) k.0) in
        let first = admins-cons x xs in
        let now = admins-cons (changed x) xs in
        rw here (rw (rest, sym same) (omega (arith, first, now)))
    | inr there ↦
        let found : user_in id xs ≡ some u = rw there at h in
        let first = admins-cons x xs in
        let now = admins-cons x (set_role id role xs) in
        rw there (omega (arith, first, now, admins-set_role xs u k.1 found))
  ]

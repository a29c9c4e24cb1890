-- ===== src/Admin/Last.antt =====
-- There is always an administrator: what the requests that change `users` keep.
use decentralized_gpu_p2p_ne.Auth.{Unicode, AppState, AuthUser, admin_user, register, AuthResponse}
use decentralized_gpu_p2p_ne.Credits.{with_admin}
use decentralized_gpu_p2p_ne.Auth.Crypto.{CryptoOps}
use decentralized_gpu_p2p_ne.Auth.Register.{
  IsAdmitted, RegisterOutcome, register_lem, with_user, account-users,
}
use text.Mathlib.Text.{◌==◌ as eq_text}
use decentralized_gpu_p2p_ne.Base.{
  ℕ, String, true, false, ◌⊎◌, Option, none, some, ◌≡◌, ◌≤◌, ◌==◌, leb, Bool-cases, Option-cases,
  inl, inr, arith,
}
use decentralized_gpu_p2p_ne.Error.{Result, ok, err}
use decentralized_gpu_p2p_ne.Db.{User, Tables}
use decentralized_gpu_p2p_ne.Db.Rules.{
  Ensures, statement_rule, bind_rule, pure_rule, fail_rule, Then,
}
use decentralized_gpu_p2p_ne.Http.{answer, of_repository, ApiResult, refuse, reply}
use decentralized_gpu_p2p_ne.Http.Rules.{
  ApiPost, Answers, Onward, await_rule, answer_rule, refused_rule,
}
use decentralized_gpu_p2p_ne.Users
use decentralized_gpu_p2p_ne.Users.{
  user_in, set_role, is_admin, changed_role, role_allowed, insert_user, new_user, email_taken,
}
use decentralized_gpu_p2p_ne.Users.Roles.{
  KeyedUsers, admins, set_role-Keyed, admins-set_role, admins-cons, no_user,
}
use decentralized_gpu_p2p_ne.Admin.{
  change_role, write_role, guard_last, valid_role, update_user_role, List, Bool,
}

-- each user has one row, and one of them is an administrator
pub record HasAdmin (t : Tables) : Type 0 where
  pub keyed : KeyedUsers t.users
  pub some_admin : 1 ≤ admins t.users

abbrev pub Keeps : {A : Type 0} → ApiPost A
Keeps r t = HasAdmin t

-- what makes it safe to give a user another role
abbrev Spares : ℕ → String → Tables → Type 0
Spares id role t =
    (u : User)
    → user_in id t.users ≡ some u
    → (eq_text role "admin" ≡ true) ⊎ (is_admin u ≡ false) ⊎ (2 ≤ admins t.users)

module _ (id : ℕ) (role : String) (t : Tables) (s : HasAdmin t) where
  role_changed :
      (u : User)
      → user_in id t.users ≡ some u
      → (eq_text role "admin" ≡ true) ⊎ (is_admin u ≡ false) ⊎ (2 ≤ admins t.users)
      → HasAdmin (record t { users = set_role id role t.users })
  role_changed u e safe =
      let count = admins-set_role id role t.users u s.keyed e in
      let before = s.some_admin in
      record {
        keyed = set_role-Keyed id role t.users s.keyed;
        some_admin = elim safe [
          | inl stays ↦
              let n = (rw stays at count) in
              elim (Bool-cases (is_admin u)) [
                | inl q ↦ let m = (rw q at n) in omega arith
                | inr q ↦ let m = (rw q at n) in omega arith
              ]
          | inr rest ↦ elim rest [
            | inl plain ↦ let n = (rw plain at count) in omega arith
            | inr two ↦ elim (Bool-cases (is_admin u)) [
              | inl q ↦ let m = (rw q at count) in omega arith
              | inr q ↦ let m = (rw q at count) in omega arith
            ]
          ]
        ];
      }

  row_changed : Spares id role t → HasAdmin (changed_role id role t).1
  row_changed spares = elim (Option-cases (user_in id t.users)) [
    | inl gone ↦ rw gone s
    | inr (u, e) ↦ elim (Bool-cases (role_allowed role)) [
      | inl good ↦ rw (e, good) (role_changed u e (spares u e))
      | inr bad ↦ rw (e, bad) s
    ]
  ]

or_not_found_keeps :
    (id : ℕ) (role : String) (t : Tables)
    → HasAdmin t
    → Spares id role t
    → Ensures (λ r t'. HasAdmin t') (Users.update_role id role) t
unfolding Users.update_role
or_not_found_keeps id role t s spares = bind_rule _ _ (
    statement_rule _ s (
      after (changed_role id role t).0 (changed_role id role t).1 (row_changed id role t s spares)))
  where
    after :
        (r : Result (Option User)) (t' : Tables)
        → HasAdmin t'
        → Then (λ r t'. HasAdmin t') Users.or_not_found r t'
    after (ok (some u)) t' h = pure_rule u h
    after (ok none) t' h = fail_rule _ h
    after (err e) t' h = h

write_role_keeps :
    (id : ℕ) (role : String) (t : Tables)
    → HasAdmin t
    → Spares id role t
    → Answers Keeps (write_role id role) t
write_role_keeps id role t s spares =
    await_rule _ _ _
      (record { holds = λ fs. after _ _ ((or_not_found_keeps id role t s spares).holds fs) })
  where
    after :
        (r : Result User) (t' : Tables)
        → HasAdmin t'
        → Onward of_repository Keeps (λ updated. answer updated) r t'
    after (ok u) t' h = answer_rule u h
    after (err e) t' h = h

module _ (admin id : ℕ) (role : String) (t : Tables) (s : HasAdmin t) where
  guard_keeps : (u : User) → user_in id t.users ≡ some u → Answers Keeps (guard_last id role u) t
  unfolding Users.count_admins
  guard_keeps u e = elim (Bool-cases (eq_text u.role "admin")) [
    | inr plain ↦ rw plain (write_role_keeps id role t s (λ v q. inr (inl (same v q plain))))
    | inl an_admin ↦ rw an_admin (
        await_rule _ _ _ (
          statement_rule _ s (elim (Bool-cases (leb (admins t.users) 1)) [
            | inl few ↦ rw few (refused_rule _ s)
            | inr more ↦ rw more (write_role_keeps id role t s (λ v q. inr (inr (ground arith))))
          ])))
  ]
    where
      same :
          (v : User)
          → user_in id t.users ≡ some v
          → eq_text u.role "admin" ≡ false
          → is_admin v ≡ false
      same v q plain = let at_u = e in ground arith

  pub change_role_keeps : Answers Keeps (change_role admin id role) t
  unfolding change_role Users.find_by_id
  change_role_keeps = elim (Bool-cases (valid_role role)) [
    | inr odd ↦ rw odd (refused_rule _ s)
    | inl good ↦ elim (Bool-cases (eq_text role "admin")) [
      | inl up ↦ elim (Bool-cases (id == admin)) [
        | inl self ↦ rw (good, up, self) (write_role_keeps id role t s (λ v q. inl up))
        | inr other ↦ rw (good, up, other) (write_role_keeps id role t s (λ v q. inl up))
      ]
      | inr down ↦ elim (Bool-cases (id == admin)) [
        | inl self ↦ rw (good, down, self) (refused_rule _ s)
        | inr other ↦
            rw (good, down, other)
              (await_rule _ _ _ (
                statement_rule _ s (elim (Option-cases (user_in id t.users)) [
                  | inl gone ↦ rw gone (refused_rule _ s)
                  | inr (u, e) ↦ rw e (guard_keeps u e)
                ])))
      ]
    ]
  ]

pub update_user_role_keeps :
    (auth : Option AuthUser) (id : ℕ) (role : String) (t : Tables)
    → HasAdmin t
    → Answers Keeps (update_user_role auth id role) t
unfolding update_user_role
update_user_role_keeps auth id role t s = behind (admin_user auth)
  where
    behind : (r : ApiResult ℕ) → Answers Keeps (with_admin r (λ admin. change_role admin id role)) t
    behind (refuse e) = refused_rule e s
    behind (reply admin) = change_role_keeps admin id role t s

of_users : (t t' : Tables) → t'.users ≡ t.users → HasAdmin t → HasAdmin t'
of_users t t' e s = record { keyed = rw e s.keyed; some_admin = rw e s.some_admin }

module _ (crypto : CryptoOps) (unicode : Unicode) (state : AppState) where
  module _ (now id salt : ℕ) (email password role : String) (t : Tables) (s : HasAdmin t) where
    joined :
        (hash : String)
        → IsAdmitted crypto unicode state now id salt email password role t hash
        → HasAdmin (with_user crypto unicode state now id salt email password role t hash)
    joined hash a =
        let more = admins-cons (new_user now id email hash role) t.users in
        let old = s.some_admin in
        record { keyed = (no_user id t.users a.fresh, s.keyed); some_admin = omega arith }

    outcome_keeps :
        (r : ApiResult AuthResponse) (t' : Tables)
        → RegisterOutcome crypto unicode state now id salt email password role t r t'
        → HasAdmin t'
    outcome_keeps (reply r) t' (hash, a, minted, same, e) =
        rw e (of_users _ _ (account-users id _) (joined hash a))
    outcome_keeps (refuse e) t' (inl same) = rw same s
    outcome_keeps (refuse e) t' (inr (hash, a, internal, inl same)) = rw same (joined hash a)
    outcome_keeps (refuse e) t' (inr (hash, a, internal, inr same)) =
        rw same (of_users _ _ (account-users id _) (joined hash a))

  -- The requests that change `users`, each with any failures and any authenticated user.
  pub data UserStep (t : Tables) : Tables → Type 0 where
    registered :
        (faults : List Bool) (now id salt : ℕ) (email password role : String)
        → UserStep t
            (register crypto unicode state now id salt email password role
              (record { tables = t; faults = faults })).1.tables
    role_updated :
        (faults : List Bool) (auth : Option AuthUser) (id : ℕ) (role : String)
        → UserStep t
            (update_user_role auth id role (record { tables = t; faults = faults })).1.tables

  pub data UserHistory (t : Tables) : Tables → Type 0 where
    at_start : UserHistory t t
    next : {u v : Tables} → UserHistory t u → UserStep u v → UserHistory t v

  step-HasAdmin : {t u : Tables} → UserStep t u → HasAdmin t → HasAdmin u
  step-HasAdmin {t} (registered fs now id salt email password role) s =
      outcome_keeps now id salt email password role t s _ _
        ((register_lem crypto unicode state now id salt email password role t).holds fs)
  step-HasAdmin {t} (role_updated fs auth id role) s =
      (update_user_role_keeps auth id role t s).holds fs

  -- Whatever requests to register and to change a role have been made, in whatever order, by whomever
  -- and whichever of their statements failed: from a table in which each user has one row and one of
  -- them is an administrator, they lead to such a table. The last administrator is never demoted.
  pub history-HasAdmin : {t u : Tables} → UserHistory t u → HasAdmin t → HasAdmin u
  history-HasAdmin at_start s = s
  history-HasAdmin (next past step) s = step-HasAdmin step (history-HasAdmin past s)

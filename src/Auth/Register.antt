-- ===== src/Auth/Register.antt =====
-- What `register` does to the tables, on every branch.
use decentralized_gpu_p2p_ne.Users
use decentralized_gpu_p2p_ne.Base.{
  ◌||◌, ℕ, String, true, false, ◌⊎◌, none, some, ◌∷◌, ◌≡◌, refl, is_some, if◌then◌else◌, Bool-cases,
  Option-cases, inl, inr, arith,
}
use decentralized_gpu_p2p_ne.Base.Int.{pos}
use decentralized_gpu_p2p_ne.Db.{Tables, has_user}
use decentralized_gpu_p2p_ne.Db.Rules.{constrained_rule, statement_rule}
use decentralized_gpu_p2p_ne.Http.{
  ApiResult, reply, refuse, answer, await, or_refuse, internal_error, of_repository,
}
use decentralized_gpu_p2p_ne.Http.Rules.{Answers, await_rule, answer_rule, refused_rule, Onward}
use decentralized_gpu_p2p_ne.Users.{new_user, email_taken, insert_user, role_allowed}
use decentralized_gpu_p2p_ne.Ledger
use decentralized_gpu_p2p_ne.Ledger.{balance_of}
use decentralized_gpu_p2p_ne.Auth.{
  AuthResponse, AppState, Unicode, validate_email, validate_password, open_role, mint_token, User,
  register, Handler, not,
}
use decentralized_gpu_p2p_ne.Auth.Crypto.{CryptoOps}

-- an account for the user, if there is none
abbrev pub with_account : ℕ → Tables → Tables
with_account u t = if is_some (balance_of u t) then t else record t {
  balances = record { user_id = u; cu_balance = pos 0; cu_reserved = pos 0 } ∷ t.balances;
}

pub has_account : (u : ℕ) (t : Tables) → is_some (balance_of u (with_account u t)) ≡ true
has_account u t = elim (Bool-cases (is_some (balance_of u t))) [
  | inl there ↦ rw there there
  | inr new ↦ rw new (ground arith)
]

pub account-users : (u : ℕ) (t : Tables) → (with_account u t).users ≡ t.users
account-users u t = elim (Bool-cases (is_some (balance_of u t))) [
  | inl there ↦ rw there refl
  | inr new ↦ rw new refl
]

module _ (crypto : CryptoOps) (unicode : Unicode) (state : AppState) (now id salt : ℕ)
    (email password role : String) (t : Tables) where
  -- the row of a user who may register
  pub record IsAdmitted (hash : String) : Type 0 where
    pub email_valid : validate_email email ≡ true
    pub password_valid : validate_password unicode password ≡ true
    pub role_open : open_role role ≡ true
    pub hashed : crypto.hash_password salt password ≡ some hash
    pub fresh : has_user id t.users ≡ false
    pub free : email_taken email t ≡ false

  abbrev pub with_user : String → Tables
  with_user hash = record t { users = new_user now id email hash role ∷ t.users }

  abbrev pub RegisterOutcome : ApiResult AuthResponse → Tables → Type 0
  RegisterOutcome (reply r) t' =
      (hash : String) × IsAdmitted hash
      × (mint_token crypto state now id email role ≡ some r.token)
      × (r
          ≡ record { token = r.token; user_id = id; email = email; role = role; cu_balance = none })
      × (t' ≡ with_account id (with_user hash))
  RegisterOutcome (refuse e) t' =
      (t' ≡ t)
      ⊎ ((hash : String) × IsAdmitted hash
          × (e ≡ internal_error)
          × ((t' ≡ with_user hash) ⊎ (t' ≡ with_account id (with_user hash))))

  module _ (hash : String) (admitted : IsAdmitted hash) where
    minted :
        Answers RegisterOutcome
          (or_refuse (mint_token crypto state now id email role) internal_error λ token.
            answer (record {
              token = token;
              user_id = id;
              email = email;
              role = role;
              cu_balance = none;
            }))
          (with_account id (with_user hash))
    minted = elim (Option-cases (mint_token crypto state now id email role)) [
      | inl failed ↦ rw failed (refused_rule _ (inr (hash, admitted, refl, inr refl)))
      | inr (token, e) ↦ rw e (answer_rule _ (hash, admitted, e, refl, refl))
    ]

    opened :
        Answers RegisterOutcome
          (await (Ledger.initialize id) λ _.
            or_refuse (mint_token crypto state now id email role) internal_error λ token.
              answer (record {
                token = token;
                user_id = id;
                email = email;
                role = role;
                cu_balance = none;
              }))
          (with_user hash)
    unfolding Ledger.initialize
    opened =
        await_rule _ _ _
          (constrained_rule _ _ _ (inr (hash, admitted, refl, inl refl)) (λ _. minted))

  module _ (hash : String) (email_valid : validate_email email ≡ true)
      (password_valid : validate_password unicode password ≡ true)
      (role_open : open_role role ≡ true)
      (hashed : crypto.hash_password salt password ≡ some hash) where
    abbrev after_user : User → Handler AuthResponse
    after_user user = await (Ledger.initialize user.id) λ _.
        or_refuse (mint_token crypto state now user.id user.email role) internal_error λ token.
          answer (record {
            token = token;
            user_id = user.id;
            email = user.email;
            role = role;
            cu_balance = none;
          })

    inserted :
        Onward of_repository RegisterOutcome after_user
          (insert_user (new_user now id email hash role) t).0
          (insert_user (new_user now id email hash role) t).1
    inserted = elim (Bool-cases (not (role_allowed role) || has_user id t.users)) [
      | inl bad ↦ rw bad (inl refl)
      | inr good ↦ elim (Bool-cases (email_taken email t)) [
        | inl taken ↦ rw (good, taken) (inl refl)
        | inr free ↦
            rw (good, free)
              (opened hash (record {
                email_valid = email_valid;
                password_valid = password_valid;
                role_open = role_open;
                hashed = hashed;
                fresh = ground arith;
                free = free;
              }))
      ]
    ]

  -- `register`, whichever statements fail. If it answers: the email and the password are valid, the
  -- role is `hirer`, `worker` or `both`, neither the key nor the email was in use, `users` has one
  -- new row, which holds the hash of the password, the user has an account, the token is minted for
  -- this user, and nothing else has changed. If it refuses, nothing has changed, or the user was
  -- admitted, the answer is an internal error and the new row stays, with or without an account.
  pub register_lem :
      Answers RegisterOutcome (register crypto unicode state now id salt email password role) t
  unfolding register Users.create
  register_lem = elim (Bool-cases (validate_email email)) [
    | inr odd ↦ rw odd (refused_rule _ (inl refl))
    | inl valid ↦ elim (Bool-cases (validate_password unicode password)) [
      | inr weak ↦ rw (valid, weak) (refused_rule _ (inl refl))
      | inl strong ↦ elim (Bool-cases (open_role role)) [
        | inr closed ↦ rw (valid, strong, closed) (refused_rule _ (inl refl))
        | inl open_ ↦ elim (Option-cases (crypto.hash_password salt password)) [
          | inl failed ↦ rw (valid, strong, open_, failed) (refused_rule _ (inl refl))
          | inr (hash, e) ↦
              rw (valid, strong, open_, e)
                (await_rule _ _ _
                  (statement_rule _ (inl refl) (inserted hash valid strong open_ e)))
        ]
      ]
    ]
  ]

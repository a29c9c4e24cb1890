-- ===== src/Auth/Login.antt =====
-- A token that is minted is good until it expires, and a user who has registered can log in.
use decentralized_gpu_p2p_ne.Users.{new_user}
use decentralized_gpu_p2p_ne.Auth.Register.{RegisterOutcome, register_lem, account-users, with_user}
use decentralized_gpu_p2p_ne.Error.{Result, ok, err}
use decentralized_gpu_p2p_ne.Base.Int.{ℤ}
use decentralized_gpu_p2p_ne.Auth.{
  AppState, bearer, mint_token, AuthResponse, AuthUser, jwt_middleware, login, mint_claims,
  user_of_claims, eq_text, balance_field, Unicode, register,
}
use decentralized_gpu_p2p_ne.Users
use decentralized_gpu_p2p_ne.Ledger
use decentralized_gpu_p2p_ne.Db.{statement, User, Tables, Balance, Db}
use decentralized_gpu_p2p_ne.Http.{
  await_or, ApiResult, attempt, refuse, reply, internal_error, refused, answer, attempted,
}
use Prim.Native.String.{◌++◌}
use text.Mathlib.TextPositions.{starts_with-append, slice-append_right, len-append, eq_refl}
use decentralized_gpu_p2p_ne.Base.{
  find, List, ◌∷◌, ℕ, String, some, ◌≡◌, ◌+◌, ◌≤◌, ◌<◌, arith, ap, Option, none, refl, true, [],
  Option-cases, inl, inr, List, Bool,
}
use decentralized_gpu_p2p_ne.Auth.Crypto.{CryptoOps, IsCrypto}

pub bearer_lem : (token : String) → bearer (some ("Bearer " ++ token)) ≡ some token
bearer_lem token =
    rw (starts_with-append "Bearer " token)
      (ap some (rw (len-append "Bearer " token) (slice-append_right "Bearer " token)))

module _ (crypto : CryptoOps) (laws : IsCrypto crypto) (state : AppState) where
  module _ (now id later : ℕ) (email role token : String)
      (small : now + state.jwt_expiry_secs < 18446744073709551616)
      (minted : mint_token crypto state now id email role ≡ some token)
      (in_time : later ≤ now + state.jwt_expiry_secs) where
    decoded :
        crypto.decode state.jwt_secret later token
        ≡ some (mint_claims crypto state now id email role)
    unfolding mint_token mint_claims
    decoded =
        laws.decode_encode state.jwt_secret later (mint_claims crypto state now id email role) token
          minted (omega arith)

    abbrev owner : AuthUser
    owner = record { user_id = id; email = email; role = role }

    accepted :
        user_of_claims crypto (crypto.decode state.jwt_secret later token) ≡ ApiResult.reply owner
    unfolding mint_claims
    accepted = rw (decoded, laws.parse_text id) refl

    -- Under the laws of the foreign crates: a token that `mint_token` makes for a user is accepted by
    -- the middleware until it expires, as a Bearer header or as `?token=` where there is no such
    -- header, and stands for that user, with this email and role; the expiry fits 64 bits.
    pub token_roundtrip :
        (query : Option String)
        → (jwt_middleware crypto state later (some ("Bearer " ++ token)) query ≡ reply owner)
          × (jwt_middleware crypto state later none (some token) ≡ reply owner)
    unfolding jwt_middleware
    token_roundtrip query = (rw (bearer_lem token) accepted, accepted)

-- the answer of `login` that names the user, with the token if one could be made
abbrev pub LoggedIn : Option String → ℕ → String → String → ApiResult AuthResponse → Type 0
LoggedIn none id email role r = r ≡ refuse internal_error
LoggedIn (some token) id email role r =
    (b : Option ℤ) × (r
      ≡ reply (record { token = token; user_id = id; email = email; role = role; cu_balance = b }))

module _ (crypto : CryptoOps) (state : AppState) (now : ℕ) (password : String) (u : User) where
  with_balance :
      (token : String) (x : Result Balance × Db)
      → LoggedIn
          (some token)
          u.id
          u.email
          u.role
          (attempted
            (λ balance. answer (record {
              token = token;
              user_id = u.id;
              email = u.email;
              role = u.role;
              cu_balance = balance_field balance;
            }))
            x).0
  unfolding answer
  with_balance token (ok b, db) = (some b.cu_balance, refl)
  with_balance token (err e, db) = (none, refl)

  known_user :
      (email : String) (t : Tables)
      → find (λ (x : User). eq_text x.email email) t.users ≡ some u
      → crypto.is_hash u.password_hash ≡ true
      → crypto.verify_password password u.password_hash ≡ true
      → LoggedIn
          (mint_token crypto state now u.id u.email u.role)
          u.id
          u.email
          u.role
          (login crypto state now email password (record { tables = t; faults = [] })).0
  unfolding login await_or attempt statement Users.find_by_email answer refused
  known_user email t found good verified =
      elim (Option-cases (mint_token crypto state now u.id u.email u.role)) [
        | inl failed ↦ rw (found, good, verified, failed) refl
        | inr (token, e) ↦
            rw (found, good, verified, e)
              (with_balance token (Ledger.get_balance u.id (record { tables = t; faults = [] })))
      ]

first_found :
    (email : String) (u : User) (us : List User)
    → u.email ≡ email
    → find (λ (x : User). eq_text x.email email) (u ∷ us) ≡ some u
first_found email u us e = rw (e, eq_refl email) refl

registered_tables :
    (crypto : CryptoOps) (unicode : Unicode) (state : AppState) (now id salt : ℕ)
    (email password role : String) (t : Tables) (a : AuthResponse) (r : ApiResult AuthResponse)
    (t' : Tables)
    → r ≡ reply a
    → RegisterOutcome crypto unicode state now id salt email password role t r t'
    → (hash : String) × (crypto.hash_password salt password ≡ some hash)
      × (t'.users ≡ new_user now id email hash role ∷ t.users)
registered_tables crypto unicode state now id salt email password role t a (reply b) t' e
      (hash, admitted, minted, same, tables) =
    (
      hash,
      admitted.hashed,
      rw tables (
          account-users id (with_user crypto unicode state now id salt email password role t hash)),
    )
registered_tables crypto unicode state now id salt email password role t a (refuse x) t' e h =
    absurd (cc)

-- Under the laws of the foreign crates: whoever has been answered by `register` can log in with this
-- email and this password, at any time after it, as far as no statement fails: the answer of `login`
-- names this user, with this email and role, and a token minted for this user, unless no token can be
-- made, which is an internal error.
pub login_after_register :
    (crypto : CryptoOps) (unicode : Unicode) (state : AppState) (now id salt later : ℕ)
    (email password role : String) (t : Tables) (faults : List Bool) (a : AuthResponse)
    → IsCrypto crypto
    → let (r, db) =
        register crypto unicode state now id salt email password role
          (record { tables = t; faults = faults }) in
      r ≡ reply a
      → LoggedIn
          (mint_token crypto state later id email role)
          id
          email
          role
          (login crypto state later email password (record { tables = db.tables; faults = [] })).0
login_after_register crypto unicode state now id salt later email password role t faults a laws e =
    let (r, db) =
      register crypto unicode state now id salt email password role
        (record { tables = t; faults = faults }) in
    let (hash, hashed, users) =
      registered_tables crypto unicode state now id salt email password role t a r db.tables e
        ((register_lem crypto unicode state now id salt email password role t).holds faults) in
    let good = laws.hashed salt password hash hashed in
    known_user crypto state later password (new_user now id email hash role) email db.tables
      (rw users (first_found email (new_user now id email hash role) t.users refl)) good.0 good.1

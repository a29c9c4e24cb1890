-- ===== src/Auth.antt =====
-- crates/decentgpu-master/src/api/auth.rs: registration, login and the tokens of the HTTP API. `crypto`
-- stands for Argon2, for the crate `jsonwebtoken` and for the text of a `Uuid`; `unicode` for the tables
-- of Unicode. Times are in seconds here. The text of `expires_at` is left out.
pub mod Crypto
pub mod Sample
pub mod Email
pub mod Register
pub mod Login
mod Tests
use Prim.Native.Char.{code}
use Prim.Native.String.{slice, len}
use text.Mathlib.Text.{◌==◌ as eq_text, starts_with}
use decentralized_gpu_p2p_ne.Base.{
  ℕ, String, Bool, true, false, not, ◌&&◌, ◌||◌, Option, none, some, List, [], ◌∷◌, ◌+◌, ◌%◌, ◌==◌,
  leb, if◌then◌else◌, any, head?, contains, coalesce, codes,
}
use decentralized_gpu_p2p_ne.Base.Int.{ℤ}
use decentralized_gpu_p2p_ne.Db.{User, Balance}
use decentralized_gpu_p2p_ne.Http.{
  ApiResult, reply, refuse, Handler, answer, refused, await, attempt, or_refuse, missing, forbidden,
  bad_request, unauthorized_user, internal_error,
}
use decentralized_gpu_p2p_ne.Users
use decentralized_gpu_p2p_ne.Ledger
use Crypto.{CryptoOps, Claims}

-- the fields of the state that the handlers of this file read
pub record AppState : Type 0 where
  pub jwt_secret : List ℕ
  pub jwt_expiry_secs : ℕ  -- u64

pub record AuthUser : Type 0 where
  pub user_id : ℕ
  pub email : String
  pub role : String

pub record AuthResponse : Type 0 where
  pub token : String
  pub user_id : ℕ
  pub email : String
  pub role : String
  pub cu_balance : Option ℤ

-- the extractor `AdminUser`, of the user that the middleware has put into the request
unfoldable pub admin_user : Option AuthUser → ApiResult ℕ
admin_user none = refuse unauthorized_user
admin_user (some user) =
    if not (eq_text user.role "admin") then refuse forbidden else reply user.user_id

-- `splitn(2, '@')`: what stands before the first `@`, and what stands behind it
abbrev pub local_part : List ℕ → List ℕ
local_part [] = []
local_part (c ∷ cs) = let rest = local_part cs in if c == b'@' then [] else c ∷ rest

abbrev pub domain_part : List ℕ → List ℕ
domain_part [] = []
domain_part (c ∷ cs) = let rest = domain_part cs in if c == b'@' then cs else rest

abbrev pub is_char : ℕ → Option ℕ → Bool
is_char c none = false
is_char c (some d) = d == c

abbrev pub last? : List ℕ → Option ℕ
last? [] = none
last? (c ∷ cs) = elim (last? cs) [ none ↦ some c | some d ↦ some d ]

abbrev pub is_empty : List ℕ → Bool
is_empty [] = true
is_empty (_ ∷ _) = false

abbrev pub parts_valid : List ℕ → List ℕ → Bool
parts_valid local domain =
    not (is_empty local)
    && (contains b'.' domain
        && (not (is_char b'.' (head? domain)) && not (is_char b'.' (last? domain))))

unfoldable pub validate_email : String → Bool
validate_email email = parts_valid (local_part (codes email)) (domain_part (codes email))

pub record Unicode : Type 0 where
  pub is_uppercase : ℕ → Bool
  pub is_lowercase : ℕ → Bool

abbrev pub is_ascii_digit : ℕ → Bool
is_ascii_digit c = leb b'0' c && leb c b'9'

-- `len` counts the bytes of the text
unfoldable pub validate_password : Unicode → String → Bool
validate_password unicode password =
    leb 8 (len password)
    && (any unicode.is_uppercase (codes password)
        && (any unicode.is_lowercase (codes password) && any is_ascii_digit (codes password)))

-- `matches!(role, "hirer" | "worker" | "both")`
abbrev pub open_role : String → Bool
open_role r = eq_text r "hirer" || (eq_text r "worker" || eq_text r "both")

unfoldable pub mint_claims : CryptoOps → AppState → ℕ → ℕ → String → String → Claims
mint_claims crypto state now user_id email role = record {
  sub = crypto.uuid_text user_id;
  email = email;
  role = role;
  exp = (now + state.jwt_expiry_secs) % 18446744073709551616;
}

unfoldable pub mint_token : CryptoOps → AppState → ℕ → ℕ → String → String → Option String
unfolding mint_claims
mint_token crypto state now user_id email role =
    crypto.encode state.jwt_secret (mint_claims crypto state now user_id email role)

-- `id` is the key of the new row, `salt` what `SaltString::generate` returns
unfoldable pub register :
    CryptoOps → Unicode → AppState → ℕ → ℕ → ℕ → String → String → String → Handler AuthResponse
unfolding validate_email validate_password mint_token
register crypto unicode state now id salt email password role =
    if not (validate_email email)
    then refused bad_request
    else if not (validate_password unicode password)
    then refused bad_request
    else if not (open_role role)
    then refused bad_request
    else or_refuse (crypto.hash_password salt password) internal_error λ hash.
      await (Users.create now id email hash role) λ user. await (Ledger.initialize user.id) λ _.
        or_refuse (mint_token crypto state now user.id user.email role) internal_error λ token.
          answer (record {
            token = token;
            user_id = user.id;
            email = user.email;
            role = role;
            cu_balance = none;
          })

abbrev pub balance_field : Option Balance → Option ℤ
balance_field none = none
balance_field (some b) = some b.cu_balance

unfoldable pub login : CryptoOps → AppState → ℕ → String → String → Handler AuthResponse
unfolding mint_token
login crypto state now email password = await (Users.find_by_email email) λ found.
    or_refuse found unauthorized_user λ user.
      if not (crypto.is_hash user.password_hash)
      then refused internal_error
      else if not (crypto.verify_password password user.password_hash)
      then refused unauthorized_user
      else or_refuse (mint_token crypto state now user.id user.email user.role) internal_error
          λ token. attempt (Ledger.get_balance user.id) λ balance. answer (record {
            token = token;
            user_id = user.id;
            email = user.email;
            role = user.role;
            cu_balance = balance_field balance;
          })

-- the row of the user and the balance
unfoldable pub me : AuthUser → Handler (User × Option ℤ)
me auth = await (Users.find_by_id auth.user_id) λ found.
    or_refuse found missing
      λ user. attempt (Ledger.get_balance user.id) λ balance. answer (user, balance_field balance)

-- `strip_prefix("Bearer ")` on a header that is there
abbrev pub bearer : Option String → Option String
bearer none = none
bearer (some v) = if starts_with v "Bearer " then some (slice v 7 (len v)) else none

abbrev pub user_named : Claims → Option ℕ → ApiResult AuthUser
user_named claims none = refuse unauthorized_user
user_named claims (some id) =
    reply (record { user_id = id; email = claims.email; role = claims.role })

abbrev pub user_of_claims : CryptoOps → Option Claims → ApiResult AuthUser
user_of_claims crypto none = refuse unauthorized_user
user_of_claims crypto (some claims) = user_named claims (crypto.parse_uuid claims.sub)

abbrev pub user_of_token : CryptoOps → AppState → ℕ → Option String → ApiResult AuthUser
user_of_token crypto state now none = refuse unauthorized_user
user_of_token crypto state now (some raw) =
    user_of_claims crypto (crypto.decode state.jwt_secret now raw)

-- the user that the middleware puts into the request, by its header or by `?token=`
unfoldable pub jwt_middleware :
    CryptoOps → AppState → ℕ → Option String → Option String → ApiResult AuthUser
jwt_middleware crypto state now header token =
    user_of_token crypto state now (coalesce (bearer header) token)

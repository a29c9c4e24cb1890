-- ===== src/Auth/Tests.antt =====
-- A user who registers, logs in and comes with the token.
use Prim.Native.String.{◌++◌}
use decentralized_gpu_p2p_ne.Base.{
  ◌≡◌, refl, [], ◌∷◌, none, some, leb, ◌&&◌, true, List, ℕ, ◌↔◌, arith, codes,
}
use decentralized_gpu_p2p_ne.Db.Example.{tables_of}
use decentralized_gpu_p2p_ne.Db.{Tables, statement}
use decentralized_gpu_p2p_ne.Http.{reply, await_or, answer}
use decentralized_gpu_p2p_ne.Http.Rules.{Answers}
use decentralized_gpu_p2p_ne.Ledger
use decentralized_gpu_p2p_ne.Users
use decentralized_gpu_p2p_ne.Auth.{
  AppState, Unicode, AuthResponse, register, login, validate_email, validate_password,
  jwt_middleware, mint_token,
}
use decentralized_gpu_p2p_ne.Auth.Sample.{sample, sample-IsCrypto}
use decentralized_gpu_p2p_ne.Auth.Email.{IsAddress, validate_email_iff}
use decentralized_gpu_p2p_ne.Auth.Register.{RegisterOutcome, register_lem}
use decentralized_gpu_p2p_ne.Auth.Login.{LoggedIn, token_roundtrip, login_after_register}

abbrev ascii : Unicode
ascii = record {
  is_uppercase = λ c. leb b'A' c && leb c b'Z';
  is_lowercase = λ c. leb b'a' c && leb c b'z';
}

abbrev state : AppState
state = record { jwt_secret = 7 ∷ []; jwt_expiry_secs = 3600 }

abbrev tables : Tables
tables = tables_of []

abbrev response : AuthResponse
response = record {
  token = "token";
  user_id = 1;
  email = "ada@example.com";
  role = "both";
  cu_balance = none;
}

validate_email_iff_example :
    (validate_email "ada@example.com" ≡ true)
    ↔ ((local : List ℕ) × (domain : List ℕ) × IsAddress (codes "ada@example.com") local domain)
validate_email_iff_example = validate_email_iff "ada@example.com"

register_lem_example :
    Answers
      (RegisterOutcome sample ascii state 1000 1 5 "ada@example.com" "Engine1843" "both" tables)
      (register sample ascii state 1000 1 5 "ada@example.com" "Engine1843" "both")
      tables
register_lem_example =
    register_lem sample ascii state 1000 1 5 "ada@example.com" "Engine1843" "both" tables

registered :
    (register sample ascii state 1000 1 5 "ada@example.com" "Engine1843" "both"
      (record { tables = tables; faults = [] })).0
    ≡ reply response
unfolding register validate_email validate_password mint_token await_or statement Users.create
    Ledger.initialize answer
registered = refl

login_after_register_example :
    LoggedIn
      (mint_token sample state 1000 1 "ada@example.com" "both")
      1
      "ada@example.com"
      "both"
      (login sample state 1000 "ada@example.com" "Engine1843" (record {
        tables =
            (register sample ascii state 1000 1 5 "ada@example.com" "Engine1843" "both"
              (record { tables = tables; faults = [] })).1.tables;
        faults = [];
      })).0
login_after_register_example =
    login_after_register sample ascii state 1000 1 5 1000 "ada@example.com" "Engine1843" "both"
      tables [] response sample-IsCrypto registered

minted : mint_token sample state 1000 1 "ada@example.com" "both" ≡ some "token"
unfolding mint_token
minted = refl

token_roundtrip_example :
    (jwt_middleware sample state 2000 (some ("Bearer " ++ "token")) none
      ≡ reply (record { user_id = 1; email = "ada@example.com"; role = "both" }))
    × (jwt_middleware sample state 2000 none (some "token")
        ≡ reply (record { user_id = 1; email = "ada@example.com"; role = "both" }))
token_roundtrip_example =
    token_roundtrip sample sample-IsCrypto state 1000 1 2000 "ada@example.com" "both" "token"
      (omega arith) minted (omega arith) none

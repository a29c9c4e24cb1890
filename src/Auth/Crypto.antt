-- ===== src/Auth/Crypto.antt =====
-- What the HTTP API takes from `argon2`, `jsonwebtoken` and `uuid`, and what it relies on of them.
use decentralized_gpu_p2p_ne.Base.{ℕ, String, Bool, true, Option, some, List, ◌≡◌, ◌≤◌}

-- the payload of a token
pub record Claims : Type 0 where
  pub sub : String
  pub email : String
  pub role : String
  pub exp : ℕ

pub record CryptoOps : Type 0 where
  pub encode : List ℕ → Claims → Option String  -- with the secret
  pub decode : List ℕ → ℕ → String → Option Claims  -- at a time, under `Validation::default()`
  pub decode_sub : List ℕ → ℕ → String → Option (Option String)  -- of any JSON: its `sub`, if a text
  pub uuid_text : ℕ → String
  pub parse_uuid : String → Option ℕ
  pub hash_password : ℕ → String → Option String  -- with the salt
  pub is_hash : String → Bool  -- `PasswordHash::new` reads it
  pub verify_password : String → String → Bool

-- A token is good until it expires, an identifier is read from its text, and a password fits its hash.
pub record IsCrypto (c : CryptoOps) : Type 0 where
  pub decode_encode :
      (secret : List ℕ) (now : ℕ) (claims : Claims) (token : String)
      → c.encode secret claims ≡ some token
      → now ≤ claims.exp
      → c.decode secret now token ≡ some claims
  pub sub_encode :
      (secret : List ℕ) (now : ℕ) (claims : Claims) (token : String)
      → c.encode secret claims ≡ some token
      → now ≤ claims.exp
      → c.decode_sub secret now token ≡ some (some claims.sub)
  pub parse_text : (id : ℕ) → c.parse_uuid (c.uuid_text id) ≡ some id
  pub hashed :
      (salt : ℕ) (password hash : String)
      → c.hash_password salt password ≡ some hash
      → (c.is_hash hash ≡ true) × (c.verify_password password hash ≡ true)

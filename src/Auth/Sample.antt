-- ===== src/Auth/Sample.antt =====
-- A value of `CryptoOps` with the laws, for the tests: it signs one set of claims, writes an identifier
-- in strokes, and keeps a password as its own hash.
use text.Mathlib.Text.{◌==◌ as eq_text}
use text.Mathlib.TextEquality.{eq_iff}
use text.Mathlib.TextPositions.{eq_refl}
use decentralized_gpu_p2p_ne.Base.{
  ℕ, zero, suc, String, Bool, true, ◌&&◌, Option, none, some, ◌≡◌, refl, ◌≤◌, ◌==◌, leb,
  if◌then◌else◌, ap, Bool-cases, inl, inr, arith,
}
use decentralized_gpu_p2p_ne.Auth.Crypto.{Claims, CryptoOps, IsCrypto}

abbrev pub strokes : ℕ → String
strokes zero = String.[]
strokes (suc n) = String.◌∷◌ "1" (strokes n)

abbrev pub count_strokes : String → ℕ
count_strokes String.[] = 0
count_strokes (String.◌∷◌ c s) = suc (count_strokes s)

count-strokes : (n : ℕ) → count_strokes (strokes n) ≡ n
count-strokes zero = refl
count-strokes (suc n) = ap suc (count-strokes n)

-- the claims that it signs
abbrev pub signed : Claims
signed = record { sub = strokes 1; email = "ada@example.com"; role = "both"; exp = 4600 }

abbrev pub same_claims : Claims → Claims → Bool
same_claims a b =
    eq_text a.sub b.sub && (eq_text a.email b.email && (eq_text a.role b.role && a.exp == b.exp))

abbrev pub sign : Claims → Option String
sign c = if same_claims c signed then some "token" else none

abbrev pub check : ℕ → String → Option Claims
check now token = if eq_text token "token" && leb now 4600 then some signed else none

abbrev pub check_sub : ℕ → String → Option (Option String)
check_sub now token =
    if eq_text token "token" && leb now 4600 then some (some (strokes 1)) else none

abbrev pub sample : CryptoOps
sample = record {
  encode = λ secret claims. sign claims;
  decode = λ secret now token. check now token;
  decode_sub = λ secret now token. check_sub now token;
  uuid_text = strokes;
  parse_uuid = λ s. some (count_strokes s);
  hash_password = λ salt password. some password;
  is_hash = λ hash. true;
  verify_password = eq_text;
}

signed_lem : (c : Claims) (token : String) → sign c ≡ some token → (c ≡ signed) × (token ≡ "token")
signed_lem c token h = elim (Bool-cases (same_claims c signed)) [
  | inl same ↦ (equal same, (let k = (rw same at h) in cc))
  | inr other ↦ absurd (let k = (rw other at h) in cc)
]
  where
    equal : same_claims c signed ≡ true → c ≡ signed
    equal same =
        ground
          (arith, eq_iff c.sub (strokes 1), eq_iff c.email "ada@example.com", eq_iff c.role "both")

in_time : (now : ℕ) → now ≤ 4600 → leb now 4600 ≡ true
in_time now h = ground arith

sample_check :
    (now : ℕ) (token : String) → token ≡ "token" → now ≤ 4600 → check now token ≡ some signed
sample_check now token e h = rw (e, in_time now h) refl

sample_check_sub :
    (now : ℕ) (token : String)
    → token ≡ "token"
    → now ≤ 4600
    → check_sub now token ≡ some (some (strokes 1))
sample_check_sub now token e h = rw (e, in_time now h) refl

pub sample-IsCrypto : IsCrypto sample
sample-IsCrypto = record {
  decode_encode = λ secret now c token h le.
      let (same, text) = signed_lem c token h in
      rw same (sample_check now token text (rw same at le));
  sub_encode = λ secret now c token h le.
      let (same, text) = signed_lem c token h in
      rw same (sample_check_sub now token text (rw same at le));
  parse_text = λ id. ap some (count-strokes id);
  hashed = λ salt password hash h. (refl, (let e : password ≡ hash = cc in rw e (eq_refl hash)));
}

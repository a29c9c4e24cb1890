-- ===== src/Auth/Email.antt =====
-- Which texts `validate_email` takes for an email address.
use decentralized_gpu_p2p_ne.Base.{
  ℕ, String, true, false, Option, none, some, List, [], ◌∷◌, ◌++◌, ◌≡◌, ◌≢◌, ◌↔◌, refl, ap, ◌==◌,
  Bool-cases, inl, inr, arith, contains, head?, ==_iff, codes,
}
use decentralized_gpu_p2p_ne.Auth.{
  local_part, domain_part, is_char, last?, is_empty, parts_valid, validate_email,
}

-- a local part with no `@`, an `@`, and a domain with a dot that neither begins nor ends with one
pub record IsAddress (cs local domain : List ℕ) : Type 0 where
  pub split : cs ≡ local ++ (b'@' ∷ domain)
  pub no_at : contains b'@' local ≡ false
  pub local_full : local ≢ []
  pub dotted : contains b'.' domain ≡ true
  pub no_dot_first : head? domain ≢ some b'.'
  pub no_dot_last : last? domain ≢ some b'.'

local_part-no_at : (cs : List ℕ) → contains b'@' (local_part cs) ≡ false
local_part-no_at [] = refl
local_part-no_at (c ∷ cs) = elim (Bool-cases (c == b'@')) [
  | inl here ↦ rw here refl
  | inr later ↦ rw later (let rest = local_part-no_at cs in ground arith)
]

-- with a domain that is not empty the text is its parts
parts_join :
    (cs : List ℕ)
    → contains b'.' (domain_part cs) ≡ true
    → cs ≡ local_part cs ++ (b'@' ∷ domain_part cs)
parts_join [] h = absurd (cc)
parts_join (c ∷ cs) h = elim (Bool-cases (c == b'@')) [
  | inl here ↦ rw here (ap (λ x. x ∷ cs) ((==_iff c b'@').0 here))
  | inr later ↦ rw later (ap (λ xs. c ∷ xs) (parts_join cs (rw later at h)))
]

local_of : (l d : List ℕ) → contains b'@' l ≡ false → local_part (l ++ (b'@' ∷ d)) ≡ l
local_of [] d h = refl
local_of (c ∷ l) d h = ground (arith, local_of l d)

domain_of : (l d : List ℕ) → contains b'@' l ≡ false → domain_part (l ++ (b'@' ∷ d)) ≡ d
domain_of [] d h = refl
domain_of (c ∷ l) d h = ground (arith, domain_of l d)

not_char : (c : ℕ) (o : Option ℕ) → (is_char c o ≡ false) ↔ (o ≢ some c)
not_char c none = (λ h e. cc, λ h. refl)
not_char c (some d) = (λ h e. ground arith, λ h. ground arith)

not_empty : (l : List ℕ) → (is_empty l ≡ false) ↔ (l ≢ [])
not_empty [] = (λ h e. cc, λ h. absurd (h refl))
not_empty (c ∷ l) = (λ h e. cc, λ h. refl)

-- `validate_email` takes exactly the texts that are a local part which is not empty and has no `@`, an
-- `@`, and a domain that holds a dot and neither begins nor ends with one.
pub validate_email_iff :
    (email : String)
    → (validate_email email ≡ true)
      ↔ ((local : List ℕ) × (domain : List ℕ) × IsAddress (codes email) local domain)
unfolding validate_email
validate_email_iff email = (there, back)
  where
    there :
        parts_valid (local_part (codes email)) (domain_part (codes email)) ≡ true
        → (local : List ℕ) × (domain : List ℕ) × IsAddress (codes email) local domain
    there h =
        let dot : contains b'.' (domain_part (codes email)) ≡ true = ground arith in
        (
          local_part (codes email),
          domain_part (codes email),
          record {
            split = parts_join (codes email) dot;
            no_at = local_part-no_at (codes email);
            local_full = (not_empty _).0 (ground arith);
            dotted = dot;
            no_dot_first = (not_char _ _).0 (ground arith);
            no_dot_last = (not_char _ _).0 (ground arith);
          },
        )

    back :
        ((local : List ℕ) × (domain : List ℕ) × IsAddress (codes email) local domain)
        → parts_valid (local_part (codes email)) (domain_part (codes email)) ≡ true
    back (l, d, a) =
        let first = local_of l d a.no_at in
        let second = domain_of l d a.no_at in
        rw
          (
            a.split,
            first,
            second,
            (not_empty l).1 a.local_full,
            a.dotted,
            (not_char b'.' (head? d)).1 a.no_dot_first,
            (not_char b'.' (last? d)).1 a.no_dot_last,
          )
          refl

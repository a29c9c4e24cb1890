-- ===== src/Db/Rules.antt =====
-- A logic for the calls of the database: a postcondition on the result and the tables, whichever
-- statements fail.
use decentralized_gpu_p2p_ne.Base.{List, Bool, true, false, ◌≡◌, refl, [], ◌∷◌}
use decentralized_gpu_p2p_ne.Error.{Result, ok, err, DecentGpuError, database}
use decentralized_gpu_p2p_ne.Db.Schema.{Tables}
use decentralized_gpu_p2p_ne.Db.Statements.{
  Db, Query, continue, statement, ◌>>◌, ◌>>=◌, pure, fail, outcome, constrained, command,
  rolled_back, transaction,
}

abbrev pub Post : Type 0 → Type 1
Post A = Result A → Tables → Type 0

pub record Ensures {A : Type 0} (P : Post A) (m : Query A) (t : Tables) : Type 0 where
  pub holds :
      (faults : List Bool)
      → P
          (m (record { tables = t; faults = faults })).0
          (m (record { tables = t; faults = faults })).1.tables

-- After the first call of a chain: the rest of it, or its error.
abbrev pub Then : {A B : Type 0} → Post B → (A → Query B) → Post A
Then P f (ok a) t = Ensures P (f a) t
Then P f (err e) t = P (err e) t

-- Within a transaction that began at `t`: an error takes the tables back to `t`.
abbrev pub OrBack : {A : Type 0} → Tables → Post A → Post A
OrBack t P (ok a) t' = P (ok a) t'
OrBack t P (err e) t' = P (err e) t

module _ {A B : Type 0} (P : Post B) where
  continue_holds :
      (f : A → Query B) (x : Result A × Db)
      → Then P f x.0 x.1.tables
      → P (continue f x).0 (continue f x).1.tables
  continue_holds f (ok a, db) h = h.holds db.faults
  continue_holds f (err e, db) h = h

module _ {A B : Type 0} {P : Post B} where
  pub bind_rule :
      (m : Query A) (f : A → Query B) {t : Tables} → Ensures (Then P f) m t → Ensures P (m >>= f) t
  unfolding ◌>>=◌
  bind_rule m f {t} h = record {
    holds =
        λ faults. continue_holds P f (m (record { tables = t; faults = faults })) (h.holds faults);
  }

module _ {A : Type 0} (P : Post A) where
  rolled_back_holds :
      (t : Tables) (x : Result A × Db)
      → OrBack t P x.0 x.1.tables
      → P (rolled_back t x).0 (rolled_back t x).1.tables
  rolled_back_holds t (ok a, db) h = h
  rolled_back_holds t (err e, db) h = h

  statement_holds :
      (s : Tables → Result A × Tables) (t : Tables) (faults : List Bool)
      → P (err database) t
      → P (s t).0 (s t).1
      → let (r, db) = statement s (record { tables = t; faults = faults }) in P r db.tables
  unfolding statement
  statement_holds s t [] bad good = good
  statement_holds s t (true ∷ bs) bad good = bad
  statement_holds s t (false ∷ bs) bad good = good

module _ {A : Type 0} {P : Post A} where
  pub statement_rule :
      (s : Tables → Result A × Tables) {t : Tables}
      → P (err database) t
      → P (s t).0 (s t).1
      → Ensures P (statement s) t
  statement_rule s {t} bad good = record { holds = λ faults. statement_holds P s t faults bad good }

  pub pure_rule : (a : A) {t : Tables} → P (ok a) t → Ensures P (pure a) t
  unfolding pure
  pure_rule a h = record { holds = λ _. h }

  pub fail_rule : (e : DecentGpuError) {t : Tables} → P (err e) t → Ensures P (fail e) t
  unfolding fail
  fail_rule e h = record { holds = λ _. h }

-- a statement and what follows it
pub step_rule :
    {A B : Type 0} {P : Post B} (s : Tables → Result A × Tables) (f : A → Query B) {t : Tables}
    → P (err database) t
    → Then P f (s t).0 (s t).1
    → Ensures P (statement s >>= f) t
step_rule {P = P} s f bad good = bind_rule _ f (statement_rule {P = Then P f} s bad good)

-- a statement whose constraint is tested
module _ {A : Type 0} (P : Post A) (a : A) (t t' : Tables) where
  outcome_holds :
      (c : Bool)
      → P (err database) t
      → (c ≡ true → P (ok a) t')
      → P (outcome c a t t').0 (outcome c a t t').1
  outcome_holds true bad good = good refl
  outcome_holds false bad good = bad

module _ {A : Type 0} (c : Tables → Bool) (a : A) (change : Tables → Tables) where
  pub constrained_rule :
      {P : Post A} {t : Tables}
      → P (err database) t
      → (c t ≡ true → P (ok a) (change t))
      → Ensures P (constrained c a change) t
  constrained_rule {P} {t} bad good =
      statement_rule _ bad (outcome_holds P a t (change t) (c t) bad good)

  pub constrained_step_rule :
      {B : Type 0} {P : Post B} (f : A → Query B) {t : Tables}
      → P (err database) t
      → (c t ≡ true → Ensures P (f a) (change t))
      → Ensures P (constrained c a change >>= f) t
  constrained_step_rule {P = P} f {t} bad good =
      step_rule _ f bad (outcome_holds (Then P f) a t (change t) (c t) bad good)

-- `BEGIN`, a body and `COMMIT`
module _ {A : Type 0} (P : Post A) where
  committed :
      (t t' : Tables) (r : Result A)
      → P (err database) t
      → OrBack t P r t'
      → Then (OrBack t P) (λ a. command >> pure a) r t'
  committed t t' (ok a) bad h = step_rule _ _ bad (pure_rule {P = OrBack t P} a h)
  committed t t' (err e) bad h = h

module _ {A : Type 0} {P : Post A} where
  pub transaction_rule :
      (m : Query A) {t : Tables}
      → P (err database) t
      → Ensures (OrBack t P) m t
      → Ensures P (transaction m) t
  transaction_rule m {t} bad body =
      let inner : Ensures (Then (OrBack t P) (λ a. command >> pure a)) m t = record {
        holds = λ faults. committed P t _ _ bad (body.holds faults);
      } in
      let all : Ensures (OrBack t P) (do command; a ← m; command; pure a) t =
        step_rule _ _ bad (bind_rule {P = OrBack t P} m (λ a. command >> pure a) inner) in
      record { holds = λ faults. unfold transaction in rolled_back_holds P t _ (all.holds faults) }

-- A transaction that ends in an error leaves every table as it was.
abbrev pub RestoresOnError : {A : Type 0} → Tables → Post A
RestoresOnError t (ok a) t' = Unit
RestoresOnError t (err e) t' = t' ≡ t

or_back_restores : {A : Type 0} (t t' : Tables) (r : Result A) → OrBack t (RestoresOnError t) r t'
or_back_restores t t' (ok a) = tt
or_back_restores t t' (err e) = refl

pub transaction_restores :
    {A : Type 0} (m : Query A) (t : Tables) → Ensures (RestoresOnError t) (transaction m) t
transaction_restores m t =
    transaction_rule m refl (record { holds = λ faults. or_back_restores t _ _ })

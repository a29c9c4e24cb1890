-- ===== src/Http/Rules.antt =====
-- A logic for the handlers: a postcondition on the answer and the tables, whichever statements fail.
use decentralized_gpu_p2p_ne.Base.{List, Bool, Option, none, some}
use decentralized_gpu_p2p_ne.Error.{Result, ok, err, DecentGpuError}
use decentralized_gpu_p2p_ne.Db.{Db, Tables, Query}
use decentralized_gpu_p2p_ne.Db.Rules.{Post, Ensures}
use decentralized_gpu_p2p_ne.Http.{
  ApiError, ApiResult, reply, refuse, Handler, answer, refused, proceed, await_or, attempted,
  attempt,
}

abbrev pub ApiPost : Type 0 → Type 1
ApiPost A = ApiResult A → Tables → Type 0

pub record Answers {A : Type 0} (P : ApiPost A) (h : Handler A) (t : Tables) : Type 0 where
  pub holds :
      (faults : List Bool)
      → P
          (h (record { tables = t; faults = faults })).0
          (h (record { tables = t; faults = faults })).1.tables

-- after a call: the rest of the handler, or the answer made of the error
abbrev pub Onward :
    {A B : Type 0} → (DecentGpuError → ApiError) → ApiPost B → (A → Handler B) → Post A
Onward convert P f (ok a) t = Answers P (f a) t
Onward convert P f (err e) t = P (refuse (convert e)) t

-- after a call whose error is dropped
abbrev pub Either : {A B : Type 0} → ApiPost B → (Option A → Handler B) → Post A
Either P f (ok a) t = Answers P (f (some a)) t
Either P f (err e) t = Answers P (f none) t

module _ {A B : Type 0} (P : ApiPost B) where
  proceed_holds :
      (convert : DecentGpuError → ApiError) (f : A → Handler B) (x : Result A × Db)
      → Onward convert P f x.0 x.1.tables
      → P (proceed convert f x).0 (proceed convert f x).1.tables
  proceed_holds convert f (ok a, db) h = h.holds db.faults
  proceed_holds convert f (err e, db) h = h

  attempted_holds :
      (f : Option A → Handler B) (x : Result A × Db)
      → Either P f x.0 x.1.tables
      → P (attempted f x).0 (attempted f x).1.tables
  attempted_holds f (ok a, db) h = h.holds db.faults
  attempted_holds f (err e, db) h = h.holds db.faults

module _ {A B : Type 0} {P : ApiPost B} where
  pub await_rule :
      (convert : DecentGpuError → ApiError) (m : Query A) (f : A → Handler B) {t : Tables}
      → Ensures (Onward convert P f) m t
      → Answers P (await_or convert m f) t
  unfolding await_or
  await_rule convert m f {t} h = record {
    holds = λ faults.
        proceed_holds P convert f (m (record { tables = t; faults = faults })) (h.holds faults);
  }

  pub attempt_rule :
      (m : Query A) (f : Option A → Handler B) {t : Tables}
      → Ensures (Either P f) m t
      → Answers P (attempt m f) t
  unfolding attempt
  attempt_rule m f {t} h = record {
    holds =
        λ faults. attempted_holds P f (m (record { tables = t; faults = faults })) (h.holds faults);
  }

module _ {A : Type 0} {P : ApiPost A} where
  pub answer_rule : (a : A) {t : Tables} → P (reply a) t → Answers P (answer a) t
  unfolding answer
  answer_rule a h = record { holds = λ _. h }

  pub refused_rule : (e : ApiError) {t : Tables} → P (refuse e) t → Answers P (refused e) t
  unfolding refused
  refused_rule e h = record { holds = λ _. h }

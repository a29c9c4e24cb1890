-- ===== src/Api/Create.antt =====
-- What `create_job` puts into the table of jobs, and what it enqueues.
use decentralized_gpu_p2p_ne.Base.{
  ℕ, String, Bool, true, false, Option, none, some, List, [], ◌∷◌, ◌≡◌, refl, In, inl, inr,
  Bool-cases, unwrap_or,
}
use decentralized_gpu_p2p_ne.Base.Int.{ℤ, pos}
use decentralized_gpu_p2p_ne.Error.{Result, ok, err}
use decentralized_gpu_p2p_ne.Types.JobStatus.{pending}
use decentralized_gpu_p2p_ne.Db.{Db, JobRow, Tables}
use decentralized_gpu_p2p_ne.Db.Rules.{Ensures, Post, constrained_rule}
use decentralized_gpu_p2p_ne.Jobs.{create, new_job}
use decentralized_gpu_p2p_ne.Scheduler.{Message, enqueue, request_of}
use decentralized_gpu_p2p_ne.Scheduler.Wire.{Bytes}
use decentralized_gpu_p2p_ne.Http.{ApiResult, reply, refuse}
use decentralized_gpu_p2p_ne.Api.{
  with_code, Field, Form, Build, built, unreadable, unavailable, enqueued, collect, empty_form,
  known_backend, form_request, after_create, create_from, create_job,
}

-- `JobRepository::create` inserts the row that it answers, or changes nothing.
abbrev Created : JobRow → Tables → Post JobRow
Created row t (ok r) t' = (r ≡ row) × (t' ≡ record t { jobs = row ∷ t.jobs })
Created row t (err e) t' = t' ≡ t

created :
    (now id user : ℕ) (g : String) (m d c : Option ℤ) (t : Tables)
    → Ensures (Created (new_job now id user g m d c) t) (create now id user g m d c) t
unfolding create
created now id user g m d c t = constrained_rule _ _ _ refl (λ _. (refl, refl))

module _ (user : ℕ) (t : Tables) where
  -- a new row of the user's, and what is enqueued is what the scheduler makes of that row
  pub record Submitted (id : ℕ) (ms : List Message) (row : JobRow) (t' : Tables) : Type 0 where
    pub inserted : t' ≡ record t { jobs = row ∷ t.jobs }
    pub key : row.id ≡ id
    pub owner : row.hirer_id ≡ user
    pub fresh : row.status ≡ pending
    pub backend : known_backend row.gpu_backend ≡ true
    pub request : (m : Message) → In m ms → m ≡ enqueue id (request_of row)

  abbrev pub CreateOutcome : ApiResult ℕ × List Message → Tables → Type 0
  CreateOutcome (reply id, ms) t' = (row : JobRow) × Submitted id ms row t'
  CreateOutcome (refuse e, ms) t' = ms ≡ []

  module _ (now id : ℕ) (disk : Bool) (image : Build) (f : Form) where
    abbrev form_row : JobRow
    form_row =
        new_job now id user (unwrap_or f.gpu_backend "cpu_only")
          (some (unwrap_or f.memory_limit_mb (pos 512)))
          (some (unwrap_or f.max_duration_secs (pos 3600))) none

    one_request :
        (i : Build) (m : Message)
        → In m (enqueued i id (form_request f))
        → m ≡ enqueue id (request_of form_row)
    one_request built m (inl e) = e
    one_request built m (inr k) = absurd k
    one_request unreadable m k = absurd k
    one_request unavailable m (inl e) = e
    one_request unavailable m (inr k) = absurd k

    submitted_of :
        known_backend (unwrap_or f.gpu_backend "cpu_only") ≡ true
        → (d : Bool) (x : Result JobRow × Db) → Created form_row t x.0 x.1.tables
        → CreateOutcome (after_create d image f x).0 (after_create d image f x).1.tables
    submitted_of known true (err e, db) c = refl
    submitted_of known false (err e, db) c = refl
    submitted_of known false (ok r, db) c = refl
    submitted_of known true (ok r, db) (same, rows) = rw same (
      form_row,
      record {
        inserted = rows;
        key = refl;
        owner = refl;
        fresh = refl;
        backend = known;
        request = one_request image;
      },
    )

with_code_case :
    {A : Type 0} (P : A → Type 0) (o : Option Bytes) (given absent : A)
    → P given
    → P absent
    → P (with_code o given absent)
with_code_case P none given absent g a = a
with_code_case P (some code) given absent g a = g

module _ (now id user : ℕ) (disk : Bool) (image : Build) (db : Db) where
  from_form :
      (f : Form)
      → let (answer, db') = create_from now id user disk image (reply f) db in
        CreateOutcome user db.tables answer db'.tables
  from_form f = elim (Bool-cases (known_backend (unwrap_or f.gpu_backend "cpu_only"))) [
    | inr unknown ↦ rw unknown refl
    | inl known ↦
        let inserted : Created (form_row user db.tables now id disk image f) db.tables
            (create now id user (unwrap_or f.gpu_backend "cpu_only")
              (some (unwrap_or f.memory_limit_mb (pos 512)))
              (some (unwrap_or f.max_duration_secs (pos 3600))) none db).0
            (create now id user (unwrap_or f.gpu_backend "cpu_only")
              (some (unwrap_or f.memory_limit_mb (pos 512)))
              (some (unwrap_or f.max_duration_secs (pos 3600))) none db).1.tables =
          (created now id user (unwrap_or f.gpu_backend "cpu_only")
              (some (unwrap_or f.memory_limit_mb (pos 512)))
              (some (unwrap_or f.max_duration_secs (pos 3600))) none db.tables).holds
            db.faults in
        rw known (
          with_code_case {A = (ApiResult ℕ × List Message) × Db}
            (λ x. CreateOutcome user db.tables x.0 x.1.tables) f.code_bytes _ _
            (submitted_of user db.tables now id disk image f known disk _ inserted) refl)
  ]

  from_fields :
      (r : ApiResult Form)
      → let (answer, db') = create_from now id user disk image r db in
        CreateOutcome user db.tables answer db'.tables
  from_fields (refuse e) = refl
  from_fields (reply f) = from_form f

-- `create_job`, whatever the form holds and whichever statements fail: where it answers an identifier,
-- one row has been added to the jobs and nothing else has changed; the row is the user's, `pending`,
-- with one of the four backends, under that identifier, and all that is enqueued is this job with
-- the request that the scheduler makes of the row. Where it is refused, nothing is enqueued.
pub create_lem :
    (now id user : ℕ) (disk : Bool) (image : Build) (fields : List Field) (db : Db)
    → let (answer, db') = create_job now id user disk image fields db in
      CreateOutcome user db.tables answer db'.tables
unfolding create_job
create_lem now id user disk image fields db =
    from_fields now id user disk image db (collect fields empty_form)

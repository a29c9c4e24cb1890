-- ===== src/Api.antt =====
-- crates/decentgpu-master/src/api/jobs.rs: the handlers of the jobs that read, cancel and create them.
-- `user` is the authenticated user. The fields of a form are read already: a number that does not parse
-- is none. The files of a new job are left out; that one of them cannot be written is the argument `disk`.
pub mod Files
pub mod Owned
pub mod Stored
pub mod Nodes
pub mod Cancel
pub mod Create
mod Tests
use text.Mathlib.Text.{◌==◌ as eq_text}
use decentralized_gpu_p2p_ne.Base.{
  ℕ, String, Bool, true, false, ◌||◌, Option, none, some, List, [], ◌∷◌, ◌==◌, if◌then◌else◌,
  unwrap_or,
}
use decentralized_gpu_p2p_ne.Base.Int.{ℤ, pos}
use decentralized_gpu_p2p_ne.Error.{
  Result, ok, err, DecentGpuError, not_found, unauthorized, validation, conflict,
  insufficient_compute_units,
}
use decentralized_gpu_p2p_ne.Types.GpuBackend
use decentralized_gpu_p2p_ne.Types.GpuBackend.{ok_or_cpu_only}
use decentralized_gpu_p2p_ne.Types.JobStatus.{pending, assigned, cancelled, status_eq}
use decentralized_gpu_p2p_ne.Db.{Db, JobRow}
use decentralized_gpu_p2p_ne.Jobs.{find_by_id, transition_status, list_by_hirer, create}
use decentralized_gpu_p2p_ne.Http.{
  ApiResult, reply, refuse, missing, forbidden, bad_request, internal_error, of_repository,
  of_result,
}
use decentralized_gpu_p2p_ne.Matcher.{MatchRequest}
use decentralized_gpu_p2p_ne.Scheduler.{Message, enqueue}
use decentralized_gpu_p2p_ne.Scheduler.Wire.{Bytes, cast_u64}

-- the row that was found, if it is the user's
abbrev pub owned : ℕ → Result (Option JobRow) → ApiResult JobRow
owned user (err e) = refuse (of_repository e)
owned user (ok none) = refuse missing
owned user (ok (some row)) = if row.hirer_id == user then reply row else refuse forbidden

unfoldable pub get_job : ℕ → ℕ → Db → ApiResult JobRow × Db
get_job user id db = let (found, db') = find_by_id id db in (owned user found, db')

unfoldable pub list_jobs : ℕ → Db → ApiResult (List JobRow) × Db
list_jobs user db =
    let (rows, db') = list_by_hirer user (pos 100) (pos 0) db in (of_result rows, db')

-- `matches!(row.status, "pending" | "assigned")`
abbrev pub can_cancel : JobRow → Bool
can_cancel row = status_eq row.status pending || status_eq row.status assigned

-- the end of `cancel_job`, after the checks of the owner
abbrev pub cancel_owned : ℕ → ℕ → ApiResult JobRow → Db → ApiResult JobRow × Db
cancel_owned now id (refuse e) db = (refuse e, db)
cancel_owned now id (reply row) db =
    let (moved, db') = transition_status now id row.status cancelled none none none db in
    if can_cancel row then (of_result moved, db') else (refuse bad_request, db)

unfoldable pub cancel_job : ℕ → ℕ → ℕ → Db → ApiResult JobRow × Db
cancel_job now user id db =
    let (found, db') = find_by_id id db in cancel_owned now id (owned user found) db'

-- the fields of the form of `create_job`
pub data Field : Type 0 where
  gpu_backend_field : String → Field
  memory_limit_field : Option ℤ → Field
  max_duration_field : Option ℤ → Field
  code_field : Bytes → Field
  requirements_field : Bytes → Field
  another_field : Field
  broken_field : Field

pub record Form : Type 0 where
  pub gpu_backend : Option String
  pub memory_limit_mb : Option ℤ
  pub max_duration_secs : Option ℤ
  pub code_bytes : Option Bytes
  pub req_bytes : Option Bytes

abbrev pub empty_form : Form
empty_form = record {
  gpu_backend = none;
  memory_limit_mb = none;
  max_duration_secs = none;
  code_bytes = none;
  req_bytes = none;
}

-- the loop over the fields: a later field takes the place of an earlier one
abbrev pub collect : List Field → Form → ApiResult Form
collect [] f = reply f
collect (gpu_backend_field s ∷ fields) f = collect fields (record f { gpu_backend = some s })
collect (memory_limit_field n ∷ fields) f = collect fields (record f { memory_limit_mb = n })
collect (max_duration_field n ∷ fields) f = collect fields (record f { max_duration_secs = n })
collect (code_field b ∷ fields) f = collect fields (record f { code_bytes = some b })
collect (requirements_field b ∷ fields) f = collect fields (record f { req_bytes = some b })
collect (another_field ∷ fields) f = collect fields f
collect (broken_field ∷ fields) f = refuse bad_request

abbrev pub known_backend : String → Bool
known_backend s =
    eq_text s "cpu_only" || (eq_text s "cuda" || (eq_text s "metal" || eq_text s "rocm"))

-- how the build of the image ends, which runs after the answer
pub data Build : Type 0 where
  built unreadable unavailable : Build

-- the request that is enqueued; an image that was built and cannot be read ends the task before
abbrev pub enqueued : Build → ℕ → MatchRequest → List Message
enqueued built id request = enqueue id request ∷ []
enqueued unreadable id request = []
enqueued unavailable id request = enqueue id request ∷ []

abbrev pub form_request : Form → MatchRequest
form_request f = record {
  required_backend = ok_or_cpu_only (GpuBackend.from_str (unwrap_or f.gpu_backend "cpu_only"));
  memory_limit_mb = cast_u64 (unwrap_or f.memory_limit_mb (pos 512));
  max_duration_secs = cast_u64 (unwrap_or f.max_duration_secs (pos 3600));
}

-- after the row is created: the files are written, the task is spawned
abbrev pub after_create :
    Bool → Build → Form → Result JobRow × Db → (ApiResult ℕ × List Message) × Db
after_create disk image f (err e, db) = ((refuse (of_repository e), []), db)
after_create disk image f (ok row, db) = (
  if disk
      then (reply row.id, enqueued image row.id (form_request f))
      else (refuse internal_error, []),
  db,
)

-- `ok_or_else` on the code
abbrev pub with_code : {A : Type 0} → Option Bytes → A → A → A
with_code none given absent = absent
with_code (some _) given absent = given

-- the checks of the form, and the row
abbrev pub create_from :
    ℕ → ℕ → ℕ → Bool → Build → ApiResult Form → Db → (ApiResult ℕ × List Message) × Db
create_from now id user disk image (refuse e) db = ((refuse e, []), db)
create_from now id user disk image (reply f) db =
    let created =
      create now id user (unwrap_or f.gpu_backend "cpu_only")
        (some (unwrap_or f.memory_limit_mb (pos 512)))
        (some (unwrap_or f.max_duration_secs (pos 3600))) none db in
    if known_backend (unwrap_or f.gpu_backend "cpu_only")
    then with_code f.code_bytes (after_create disk image f created) ((refuse bad_request, []), db)
    else ((refuse bad_request, []), db)

-- the answer, the messages to the scheduler, and the database
unfoldable pub create_job :
    ℕ → ℕ → ℕ → Bool → Build → List Field → Db → (ApiResult ℕ × List Message) × Db
create_job now id user disk image fields db =
    create_from now id user disk image (collect fields empty_form) db

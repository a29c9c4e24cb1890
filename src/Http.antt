-- ===== src/Http.antt =====
-- crates/decentgpu-master/src/api/auth.rs: `ApiError`, and the handlers of the HTTP API as functions of
-- the database. The texts of the errors are left out.
pub mod Rules
use decentralized_gpu_p2p_ne.Base.{Option, none, some}
use decentralized_gpu_p2p_ne.Error.{
  Result, ok, err, DecentGpuError, not_found, unauthorized, validation, conflict,
  insufficient_compute_units,
}
use decentralized_gpu_p2p_ne.Db.{Db, Query}

-- `ApiError`, by its status
pub data ApiError : Type 0 where
  missing forbidden bad_request unauthorized_user internal_error : ApiError

-- `ApiError::from`
abbrev pub of_repository : DecentGpuError → ApiError
of_repository not_found = missing
of_repository unauthorized = unauthorized_user
of_repository validation = bad_request
of_repository conflict = bad_request
of_repository (insufficient_compute_units _ _) = bad_request
of_repository _ = internal_error

pub data ApiResult (A : Type 0) : Type 0 where
  reply : A → ApiResult A
  refuse : ApiError → ApiResult A

abbrev pub of_result : {A : Type 0} → Result A → ApiResult A
of_result (ok a) = reply a
of_result (err e) = refuse (of_repository e)

abbrev pub Handler : Type 0 → Type 0
Handler A = Db → ApiResult A × Db

unfoldable pub answer : {A : Type 0} → A → Handler A
answer a db = (reply a, db)

unfoldable pub refused : {A : Type 0} → ApiError → Handler A
refused e db = (refuse e, db)

-- `call.await?` and what follows it, where `convert` makes an answer of the error
abbrev pub proceed :
    {A B : Type 0}
    → (DecentGpuError → ApiError)
    → (A → Handler B)
    → Result A × Db
    → ApiResult B × Db
proceed convert f (ok a, db) = f a db
proceed convert f (err e, db) = (refuse (convert e), db)

unfoldable pub await_or :
    {A B : Type 0} → (DecentGpuError → ApiError) → Query A → (A → Handler B) → Handler B
await_or convert m f db = proceed convert f (m db)

abbrev pub await : {A B : Type 0} → Query A → (A → Handler B) → Handler B
await m f = await_or of_repository m f

-- `ok_or_else`
abbrev pub or_refuse : {A B : Type 0} → Option A → ApiError → (A → Handler B) → Handler B
or_refuse none e f = refused e
or_refuse (some a) e f = f a

-- `call.await.ok()`
abbrev pub attempted : {A B : Type 0} → (Option A → Handler B) → Result A × Db → ApiResult B × Db
attempted f (ok a, db) = f (some a) db
attempted f (err e, db) = f none db

unfoldable pub attempt : {A B : Type 0} → Query A → (Option A → Handler B) → Handler B
attempt m f db = attempted f (m db)

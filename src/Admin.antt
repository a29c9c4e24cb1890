-- ===== src/Admin.antt =====
-- crates/decentgpu-master/src/api/admin.rs: the handlers for administrators, behind the extractor
-- `AdminUser`. Of the statistics the counts are modelled; the binaries on disk are left out, but for the
-- test of the platform.
pub mod Last
mod Tests
use text.Mathlib.Text.{◌==◌ as eq_text, starts_with}
use decentralized_gpu_p2p_ne.Base.{
  ℕ, String, Bool, true, false, not, ◌&&◌, ◌||◌, Option, none, some, List, [], ◌∷◌, ◌==◌, leb,
  if◌then◌else◌, unwrap_or, filter, length,
}
use decentralized_gpu_p2p_ne.Base.Int.{ℤ, pos}
use decentralized_gpu_p2p_ne.Types.JobStatus.{running, completed, status_eq}
use decentralized_gpu_p2p_ne.Db.{User, Db, Query, select, JobRow, WorkerRow}
use decentralized_gpu_p2p_ne.Http.{
  ApiResult, reply, refuse, Handler, answer, refused, await, or_refuse, attempt, missing,
  bad_request, internal_error,
}
use decentralized_gpu_p2p_ne.Auth.{AuthUser, admin_user}
use decentralized_gpu_p2p_ne.Credits.{clamp, at_least, with_admin, Page}
use decentralized_gpu_p2p_ne.Users
use decentralized_gpu_p2p_ne.Users.{role_allowed}
use decentralized_gpu_p2p_ne.Workers
use decentralized_gpu_p2p_ne.Scheduler.{JobCommand, cancel}

unfoldable pub list_users :
    (String → String → Bool)
    → Option AuthUser
    → Option String
    → Option String
    → Option ℤ
    → Option ℤ
    → Handler (Page User)
unfolding admin_user
list_users ilike auth search role limit offset =
    let l = clamp (unwrap_or limit (pos 50)) (pos 1) (pos 200) in
    let o = at_least (unwrap_or offset (pos 0)) (pos 0) in
    with_admin (admin_user auth) λ _. await (Users.count_all ilike search role) λ total.
      await (Users.list_all ilike search role l o)
        λ users. answer (record { rows = users; total = total; limit = l; offset = o })

unfoldable pub get_user : Option AuthUser → ℕ → Handler User
unfolding admin_user
get_user auth id =
    with_admin (admin_user auth)
      λ _. await (Users.find_by_id id) λ found. or_refuse found missing (λ user. answer user)

-- `VALID.contains`
abbrev pub valid_role : String → Bool
valid_role r = role_allowed r

-- the end of `update_user_role`
abbrev pub write_role : ℕ → String → Handler User
write_role id role = await (Users.update_role id role) λ updated. answer updated

-- the last administrator keeps the role
abbrev pub guard_last : ℕ → String → User → Handler User
guard_last id role target =
    if eq_text target.role "admin"
    then (await Users.count_admins
        λ admin_count. if leb admin_count 1 then refused bad_request else write_role id role)
    else write_role id role

-- `update_user_role` for the administrator `admin`
unfoldable pub change_role : ℕ → ℕ → String → Handler User
change_role admin id role =
    if not (valid_role role)
    then refused bad_request
    else if id == admin && not (eq_text role "admin")
    then refused bad_request
    else if not (eq_text role "admin")
    then (await (Users.find_by_id id) λ found. or_refuse found missing (guard_last id role))
    else write_role id role

unfoldable pub update_user_role : Option AuthUser → ℕ → String → Handler User
unfolding admin_user change_role
update_user_role auth id role = with_admin (admin_user auth) λ admin. change_role admin id role

pub record Counts : Type 0 where
  pub users_total : ℕ
  pub workers_online : ℕ
  pub jobs_running : ℕ
  pub jobs_today : ℕ
  pub jobs_total : ℕ

-- `finished_at >= CURRENT_DATE`, where `today` is the first instant of the day
abbrev pub finished_since : ℕ → JobRow → Bool
finished_since today j =
    status_eq j.status completed && elim j.finished_at [ none ↦ false | some n ↦ leb today n ]

-- `unwrap_or(0)` of a query
abbrev pub count_or_zero : {A : Type 0} → Query ℕ → (ℕ → Handler A) → Handler A
count_or_zero q f = attempt q λ n. f (unwrap_or n 0)

-- the five counts of `get_stats`; one that fails is 0
unfoldable pub get_counts : ℕ → Option AuthUser → Handler Counts
unfolding admin_user
get_counts today auth = with_admin (admin_user auth) λ _.
    count_or_zero (select (λ t. length t.users)) λ users.
      count_or_zero (select (λ t. length (filter (λ (w : WorkerRow). w.is_online) t.workers)))
        λ online.
          count_or_zero
            (select (λ t. length (filter (λ (j : JobRow). status_eq j.status running) t.jobs)))
            λ jobs_running.
              count_or_zero (select (λ t. length (filter (finished_since today) t.jobs)))
                λ jobs_today. count_or_zero (select (λ t. length t.jobs)) λ jobs_total.
                  answer (record {
                    users_total = users;
                    workers_online = online;
                    jobs_running = jobs_running;
                    jobs_today = jobs_today;
                    jobs_total = jobs_total;
                  })

-- what is sent to the P2P layer, if its channel is open; the nil identifier stands for the empty text
abbrev pub send_cancel : Bool → ℕ → Handler (List JobCommand)
send_cancel channel_open peer_id =
    if channel_open then answer (cancel peer_id 0 ∷ []) else refused internal_error

-- `peer` is the identifier that the text of the path holds, if it holds one
unfoldable pub disconnect_worker : ℕ → Bool → Option AuthUser → Option ℕ → Handler (List JobCommand)
unfolding admin_user
disconnect_worker now channel_open auth peer = with_admin (admin_user auth) λ _.
    or_refuse peer bad_request
      λ peer_id. await (Workers.set_online now peer_id false) λ _. send_cancel channel_open peer_id

-- the platforms of `upload_worker_binary` and of crates/decentgpu-master/src/api/downloads.rs
abbrev pub known_platform : String → Bool
known_platform p =
    eq_text p "linux-x86_64"
    || (eq_text p "macos-aarch64" || (eq_text p "macos-x86_64" || eq_text p "windows-x86_64"))

unfoldable pub binary_filename : String → String
binary_filename platform =
    if starts_with platform "windows" then "decentgpu-worker.exe" else "decentgpu-worker"

-- the directory below `binaries_dir` and the name of the file that is written, if `disk` lets it
unfoldable pub upload_worker_binary : Bool → Option AuthUser → String → Handler (String × String)
unfolding admin_user binary_filename
upload_worker_binary disk auth platform = with_admin (admin_user auth) λ _.
    if not (known_platform platform)
    then refused bad_request
    else if disk
    then answer (platform, binary_filename platform)
    else refused internal_error

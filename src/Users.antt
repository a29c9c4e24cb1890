-- ===== src/Users.antt =====
-- crates/decentgpu-master/src/db/users.rs: each method of `UserRepository` as a call of the database. A
-- generated key is an argument, as `now` is. `ilike` stands for PostgreSQL's test `email ILIKE '%s%'`.
pub mod Roles
use text.Mathlib.Text.{◌==◌ as eq_text}
use decentralized_gpu_p2p_ne.Base.{
  ℕ, String, Bool, true, false, not, ◌&&◌, ◌||◌, Option, none, some, List, [], ◌∷◌, ◌==◌, ltb,
  if◌then◌else◌, filter, find, length, any, sort_by,
}
use decentralized_gpu_p2p_ne.Base.Int.{ℤ}
use decentralized_gpu_p2p_ne.Error.{Result, ok, err, database, conflict, not_found}
use decentralized_gpu_p2p_ne.Db.{
  User, Tables, Query, statement, select, has_user, paged, ◌>>=◌, pure, fail,
}

-- the `CHECK` on `role` since migration 006
abbrev pub role_allowed : String → Bool
role_allowed r =
    eq_text r "hirer" || (eq_text r "worker" || (eq_text r "both" || eq_text r "admin"))

abbrev pub email_taken : String → Tables → Bool
email_taken email t = any (λ (u : User). eq_text u.email email) t.users

abbrev pub new_user : ℕ → ℕ → String → String → String → User
new_user now id email password_hash role = record {
  id = id;
  email = email;
  password_hash = password_hash;
  role = role;
  created_at = now;
}

-- A taken email breaks `users_email_key`, which is told apart from every other error.
abbrev pub insert_user : User → Tables → Result User × Tables
insert_user u t =
    if not (role_allowed u.role) || has_user u.id t.users
    then (err database, t)
    else if email_taken u.email t
    then (err conflict, t)
    else (ok u, record t { users = u ∷ t.users })

unfoldable pub create : ℕ → ℕ → String → String → String → Query User
create now id email password_hash role =
    statement (insert_user (new_user now id email password_hash role))

unfoldable pub find_by_email : String → Query (Option User)
find_by_email email = select (λ t. find (λ (u : User). eq_text u.email email) t.users)

abbrev pub user_in : ℕ → List User → Option User
user_in id [] = none
user_in id (u ∷ us) = let rest = user_in id us in if u.id == id then some u else rest

unfoldable pub find_by_id : ℕ → Query (Option User)
find_by_id id = select (λ t. user_in id t.users)

-- a filter that is not given lets every row pass
abbrev pub given : (String → Bool) → Option String → Bool
given p none = true
given p (some s) = p s

-- the `WHERE` of `list_all` and `count_all`
abbrev pub user_filter : (String → String → Bool) → Option String → Option String → User → Bool
user_filter ilike search role u = given (ilike u.email) search && given (eq_text u.role) role

-- `ORDER BY created_at DESC`
abbrev pub user_later : User → User → Bool
user_later a b = ltb b.created_at a.created_at

unfoldable pub list_all :
    (String → String → Bool) → Option String → Option String → ℤ → ℤ → Query (List User)
list_all ilike search role limit offset = statement (λ t.
    (paged limit offset (sort_by user_later (filter (user_filter ilike search role) t.users)), t))

unfoldable pub count_all : (String → String → Bool) → Option String → Option String → Query ℕ
count_all ilike search role = select (λ t. length (filter (user_filter ilike search role) t.users))

abbrev pub set_role : ℕ → String → List User → List User
set_role id role [] = []
set_role id role (u ∷ us) =
    (if u.id == id then record u { role = role } else u) ∷ set_role id role us

-- `UPDATE users SET role … RETURNING`; the `CHECK` is tested on a row that is there
abbrev pub changed_row : ℕ → String → Tables → Option User → Result (Option User) × Tables
changed_row id role t none = (ok none, t)
changed_row id role t (some u) =
    if role_allowed role
    then (ok (some (record u { role = role })), record t { users = set_role id role t.users })
    else (err database, t)

abbrev pub changed_role : ℕ → String → Tables → Result (Option User) × Tables
changed_role id role t = changed_row id role t (user_in id t.users)

abbrev pub or_not_found : Option User → Query User
or_not_found none = fail not_found
or_not_found (some u) = pure u

unfoldable pub update_role : ℕ → String → Query User
update_role id role = do found ← statement (changed_role id role); or_not_found found

abbrev pub is_admin : User → Bool
is_admin u = eq_text u.role "admin"

unfoldable pub count_admins : Query ℕ
count_admins = select (λ t. length (filter is_admin t.users))

-- ===== src/Admin/Tests.antt =====
-- A user who registers, and an administrator who would leave the role.
use decentralized_gpu_p2p_ne.Base.{[], ◌∷◌, some, refl, arith, leb, ◌&&◌}
use decentralized_gpu_p2p_ne.Db.{User, Tables}
use decentralized_gpu_p2p_ne.Db.Example.{tables_of, example_user}
use decentralized_gpu_p2p_ne.Auth.{AppState, Unicode, AuthUser, register}
use decentralized_gpu_p2p_ne.Auth.Sample.{sample}
use decentralized_gpu_p2p_ne.Admin.{update_user_role}
use decentralized_gpu_p2p_ne.Admin.Last.{
  HasAdmin, history-HasAdmin, at_start, next, registered, role_updated,
}

abbrev root : User
root = record (example_user 9) { email = "root@example.com"; role = "admin" }

abbrev tables : Tables
tables = tables_of (root ∷ [])

abbrev state : AppState
state = record { jwt_secret = 7 ∷ []; jwt_expiry_secs = 3600 }

abbrev no_case : Unicode
no_case = record {
  is_uppercase = λ c. leb b'A' c && leb c b'Z';
  is_lowercase = λ c. leb b'a' c && leb c b'z';
}

abbrev root_user : AuthUser
root_user = record { user_id = 9; email = "root@example.com"; role = "admin" }

abbrev after_register : Tables
after_register =
    (register sample no_case state 1000 1 5 "ada@example.com" "Engine1843" "both"
      (record { tables = tables; faults = [] })).1.tables

abbrev after_update : Tables
after_update =
    (update_user_role (some root_user) 9 "hirer"
      (record { tables = after_register; faults = [] })).1.tables

history-HasAdmin_example : HasAdmin after_update
history-HasAdmin_example =
    history-HasAdmin sample no_case state {t = tables} {u = after_update}
      (next (next at_start (registered [] 1000 1 5 "ada@example.com" "Engine1843" "both"))
        (role_updated [] (some root_user) 9 "hirer"))
      (record { keyed = (refl, tt); some_admin = omega arith })

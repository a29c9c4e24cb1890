-- ===== src/Credits/Tests.antt =====
-- An administrator who allocates Compute Units.
use decentralized_gpu_p2p_ne.Base.{[], ◌∷◌, some, refl, arith}
use decentralized_gpu_p2p_ne.Base.Int.{pos}
use decentralized_gpu_p2p_ne.Db.{Tables}
use decentralized_gpu_p2p_ne.Db.Example.{tables_of, example_user}
use decentralized_gpu_p2p_ne.Http.Rules.{Answers}
use decentralized_gpu_p2p_ne.Auth.{AuthUser}
use decentralized_gpu_p2p_ne.Credits.{allocate}
use decentralized_gpu_p2p_ne.Credits.Limits.{AllocationOutcome, allocate_lem}

abbrev tables : Tables
tables = record (tables_of (example_user 1 ∷ [])) {
  balances = record { user_id = 1; cu_balance = pos 40; cu_reserved = pos 10 } ∷ [];
}

abbrev root_user : AuthUser
root_user = record { user_id = 9; email = "root@example.com"; role = "admin" }

allocate_lem_example :
    Answers
      (AllocationOutcome 5 (some root_user) 1 (pos 100) tables 1)
      (allocate 5 (some root_user) 1 (pos 100))
      tables
allocate_lem_example =
    allocate_lem 5 (some root_user) 1 (pos 100) tables 1 (omega arith, tt) (refl, tt)

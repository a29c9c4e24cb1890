-- ===== src/Db/Example.antt =====
-- A row of `users` for the tests of the other modules.
use decentralized_gpu_p2p_ne.Base.{ℕ, List, []}
use decentralized_gpu_p2p_ne.Db.Schema.{User, Tables}

abbrev pub example_user : ℕ → User
example_user u = record {
  id = u;
  email = "ada@example.com";
  password_hash = "";
  role = "both";
  created_at = 1;
}

-- tables with some users, and nothing else
abbrev pub tables_of : List User → Tables
tables_of users = record {
  users = users;
  balances = [];
  transactions = [];
  jobs = [];
  job_logs = [];
  job_files = [];
  workers = [];
  worker_sessions = [];
}

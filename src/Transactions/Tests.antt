-- ===== src/Transactions/Tests.antt =====
-- A page of the transactions of a user.
use text.Mathlib.Text.{◌==◌ as eq_text}
use decentralized_gpu_p2p_ne.Base.{[], ◌∷◌, some, none, ◌&&◌}
use decentralized_gpu_p2p_ne.Base.Int.{pos}
use decentralized_gpu_p2p_ne.Db.{Tables, allocation}
use decentralized_gpu_p2p_ne.Db.Example.{tables_of, example_user}
use decentralized_gpu_p2p_ne.Transactions.Sql.{SqlText, owned_by, tx_word}

-- every filter is read as a text
abbrev plain_sql : SqlText
plain_sql = record { where_type = λ u w. some (λ x. owned_by u x && eq_text (tx_word x.tx_type) w) }

abbrev tables : Tables
tables = record (tables_of (example_user 1 ∷ [])) {
  transactions =
      record {
        user_id = 1;
        cu_amount = pos 40;
        tx_type = allocation;
        job_id = none;
        created_at = 3;
      }
      ∷ record {
        user_id = 2;
        cu_amount = pos 7;
        tx_type = allocation;
        job_id = none;
        created_at = 2;
      }
      ∷ [];
}

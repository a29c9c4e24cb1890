-- ===== src/Ledger/Solvency/Sound.antt =====
-- Sound balances: every row solvent, under a unique key; and the row updates that keep them so.
use decentralized_gpu_p2p_ne.Base.{ℕ, sym, ◌∙◌, ◌≡◌, some, All, inl, inr, Option-cases, true, List}
use decentralized_gpu_p2p_ne.Base.Int.{ℤ, pos, ◌≤ℤ◌, ◌+ℤ◌, ◌-ℤ◌, int_laws, IsI64, wrap_i64}
use decentralized_gpu_p2p_ne.Db.{Balance, Tables, Transaction}
use decentralized_gpu_p2p_ne.Db.Rules.{Post}
use decentralized_gpu_p2p_ne.Ledger.Rows.{set_rows, rows_check, balance_in, balance_check}
use decentralized_gpu_p2p_ne.Ledger.Accounts.{
  IsSolvent, Keyed, KeepsKey, set_rows-Keyed, set_rows_absent, set_rows_found, rows_check_found,
  balance_check_parts, balance_in_All,
}
use decentralized_gpu_p2p_ne.Ledger.Allocate.{not_wrapped}
use decentralized_gpu_p2p_ne.Ledger.Settle.{released, paid}

pub record IsSound (t : Tables) : Type 0 where
  pub solvent : All IsSolvent t.balances
  pub keyed : Keyed t.balances

-- An update that the constraints admit and that keeps the row of `u` solvent.
pub update_IsSound :
    (u : ℕ) (f : Balance → Balance) (keep : KeepsKey f) (t : Tables)
    → IsSound t
    → rows_check u f t.balances ≡ true
    → ((b : Balance)
        → IsSolvent b
        → balance_in u t.balances ≡ some b
        → balance_check (f b) ≡ true
        → IsSolvent (f b))
    → IsSound (record t { balances = set_rows u f t.balances })
update_IsSound u f keep t s ok_rows step = record {
  solvent = elim (Option-cases (balance_in u t.balances)) [
    | inl missing ↦ rw (set_rows_absent u f t.balances missing) s.solvent
    | inr (b, e) ↦
        set_rows_found u f IsSolvent t.balances b s.keyed e
          (step b (balance_in_All IsSolvent u t.balances b e s.solvent) e
            (sym (rows_check_found u f t.balances b s.keyed e) ∙ ok_rows))
          s.solvent
  ];
  keyed = set_rows-Keyed u f keep t.balances s.keyed;
}

-- The postcondition of every method: the tables are sound, whatever the result.
abbrev pub Soundly : {A : Type 0} → Post A
Soundly r t = IsSound t

-- more is reserved, within what is available
pub reserved_more :
    (b : Balance) (a : ℤ)
    → IsSolvent b
    → pos 0 ≤ℤ a
    → a ≤ℤ b.cu_balance -ℤ b.cu_reserved
    → IsSolvent (record b { cu_reserved = b.cu_reserved +ℤ a })
reserved_more b a s h c = record {
  reserved_nonneg = omega int_laws;
  covered = omega int_laws;
  fits = s.fits;
}

-- the balance grows
pub balance_more :
    (b : Balance) (a : ℤ)
    → IsSolvent b
    → pos 0 ≤ℤ a
    → balance_check (paid a b) ≡ true
    → IsSolvent (paid a b)
balance_more b a s h c = record {
  reserved_nonneg = s.reserved_nonneg;
  covered = omega int_laws;
  fits = (balance_check_parts (paid a b) c).2;
}

-- a reservation is released, and some of it added to the balance
pub reserved_less :
    (b : Balance) (x r : ℤ)
    → IsSolvent b
    → pos 0 ≤ℤ x
    → pos 0 ≤ℤ r
    → balance_check (released x r b) ≡ true
    → IsSolvent (released x r b)
reserved_less b x r s h k c = record {
  reserved_nonneg = (balance_check_parts (released x r b) c).1;
  covered = omega int_laws;
  fits = (balance_check_parts (released x r b) c).2;
}

-- The same where the row of `u` is known.
pub update_found :
    (u : ℕ) (f : Balance → Balance) (keep : KeepsKey f) (t : Tables) (b : Balance)
    → balance_in u t.balances ≡ some b
    → IsSound t
    → rows_check u f t.balances ≡ true
    → (balance_check (f b) ≡ true → IsSolvent (f b))
    → IsSound (record t { balances = set_rows u f t.balances })
update_found u f keep t b e s ok_rows step = record {
  solvent =
      set_rows_found u f IsSolvent t.balances b s.keyed e
        (step (sym (rows_check_found u f t.balances b s.keyed e) ∙ ok_rows)) s.solvent;
  keyed = set_rows-Keyed u f keep t.balances s.keyed;
}

-- an allocation that did not wrap
pub allocated :
    (b : Balance) (a : ℤ)
    → IsSolvent b
    → pos 0 ≤ℤ a
    → IsI64 a
    → balance_check (record b { cu_balance = wrap_i64 (b.cu_balance +ℤ a) }) ≡ true
    → IsSolvent (record b { cu_balance = wrap_i64 (b.cu_balance +ℤ a) })
allocated b a s h fits check =
    let new = record b { cu_balance = wrap_i64 (b.cu_balance +ℤ a) } in
    let valid = balance_check_parts new check in
    let exact = not_wrapped b a s h fits valid.0 in
    record {
      reserved_nonneg = s.reserved_nonneg;
      covered = rw exact (omega int_laws);
      fits = valid.2;
    }

-- The log is no part of the invariant.
pub logged :
    (t : Tables) (log : List Transaction) → IsSound t → IsSound (record t { transactions = log })
logged t log s = record { solvent = s.solvent; keyed = s.keyed }

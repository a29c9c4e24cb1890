-- ===== src/Db/Statements.antt =====
-- A call of a repository: it reads and changes the tables by statements, each of which the server or
-- the connection may fail. `faults` says of the statements to come which fail; past its end none does. What `now()` returns is an argument of the calls.
use decentralized_gpu_p2p_ne.Base.Int.{ℤ, pos, negsuc}
use decentralized_gpu_p2p_ne.Base.{take, drop, List, [], ◌∷◌, Bool, true, false, if◌then◌else◌}
use decentralized_gpu_p2p_ne.Error.{Result, ok, err, DecentGpuError, database}
use decentralized_gpu_p2p_ne.Db.Schema.{Tables}

pub record Db : Type 0 where
  pub tables : Tables
  pub faults : List Bool

abbrev pub Query : Type 0 → Type 0
Query A = Db → Result A × Db

abbrev pub next_fails : List Bool → Bool
next_fails [] = false
next_fails (b ∷ _) = b

abbrev pub later : List Bool → List Bool
later [] = []
later (_ ∷ bs) = bs

-- One statement: it fails as a whole, by the server or by a constraint, or takes effect.
unfoldable pub statement : {A : Type 0} → (Tables → Result A × Tables) → Query A
statement s db =
    let (r, t) = s db.tables in
    if next_fails db.faults
    then (err database, record db { faults = later db.faults })
    else (r, record db { tables = t; faults = later db.faults })

-- A statement that changes rows, where the constraints `c` of the table hold of the new ones.
abbrev pub outcome : {A : Type 0} → Bool → A → Tables → Tables → Result A × Tables
outcome true a t t' = (ok a, t')
outcome false a t t' = (err database, t)

abbrev pub constrained : {A : Type 0} → (Tables → Bool) → A → (Tables → Tables) → Query A
constrained c a change = statement (λ t. outcome (c t) a t (change t))

-- A statement that only reads.
abbrev pub select : {A : Type 0} → (Tables → A) → Query A
select f = statement (λ t. (ok (f t), t))

-- `?`: an error ends the call.
abbrev pub continue : {A B : Type 0} → (A → Query B) → Result A × Db → Result B × Db
continue f (ok a, db) = f a db
continue f (err e, db) = (err e, db)

infixl 5 ◌>>=◌ ◌>>◌
unfoldable pub ◌>>=◌ : {A B : Type 0} → Query A → (A → Query B) → Query B
◌>>=◌ m f db = continue f (m db)

abbrev pub ◌>>◌ : {A B : Type 0} → Query A → Query B → Query B
m >> k = m >>= λ _. k

unfoldable pub pure : {A : Type 0} → A → Query A
pure a db = (ok a, db)

unfoldable pub fail : {A : Type 0} → DecentGpuError → Query A
fail e db = (err e, db)

-- `BEGIN` and `COMMIT` change no table.
abbrev pub command : Query (Unit {0})
command = select (λ _. tt)

-- `pool.begin()`, the body, `tx.commit()`. A transaction that is dropped before its commit, or whose
-- commit fails, is rolled back.
abbrev pub rolled_back : {A : Type 0} → Tables → Result A × Db → Result A × Db
rolled_back t (ok a, db) = (ok a, db)
rolled_back t (err e, db) = (err e, record db { tables = t })

unfoldable pub transaction : {A : Type 0} → Query A → Query A
unfolding ◌>>=◌ statement pure
transaction m db = rolled_back db.tables ((do command; a ← m; command; pure a) db)

-- `LIMIT … OFFSET …`; a negative number is refused
abbrev pub paged : {A : Type 0} → ℤ → ℤ → List A → Result (List A)
paged (pos limit) (pos offset) xs = ok (take limit (drop offset xs))
paged (negsuc _) offset xs = err database
paged (pos _) (negsuc _) xs = err database

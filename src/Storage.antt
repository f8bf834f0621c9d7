-- ===== src/Storage.antt =====
-- Access to Postgres as the stores use it: `storage.WithTx` of
-- internal/platform/storage/storage.go over a database whose statements may fail.
--
-- A database is its tables and the faults that are still to come, one entry for each statement,
-- begin or commit: `none` lets it run, `lost` fails it without effect, and `applied` reports an
-- error although the effect is there (a connection that drops before the answer). A run over
-- every list of faults is a run against every behaviour of the connection.
pub mod Laws
pub mod Tests
pub mod Keeps
pub mod Yields
pub mod Tx
use golang_template.Prelude.{String, List, [], ◌∷◌, Option, none, some, arith, ◌≡◌, refl}
use golang_template.Errors.{Err, message, Result, ok, err}

pub data Fault : Type 0 where
  lost : String → Fault
  applied : String → Fault

pub record Db {ℓ} (S : Type ℓ) : Type ℓ where
  pub tables : S
  pub faults : List (Option Fault)

-- An action on a database: what it returns, and the database that it leaves.
abbrev pub Action {ℓ} : Type ℓ → Type ℓ → Type ℓ
Action S A = Db S → Result A × Db S

abbrev pub next_fault : List (Option Fault) → Option Fault
next_fault [] = none
next_fault (f ∷ fs) = f

abbrev pub later_faults : List (Option Fault) → List (Option Fault)
later_faults [] = []
later_faults (f ∷ fs) = fs

module _ {ℓ} {S A : Type ℓ} where
  abbrev pub settle : Option Fault → List (Option Fault) → S → Result A × S → Result A × Db S
  settle none rest t (r, t') = (r, record { tables = t'; faults = rest })
  settle (some (lost e)) rest t (r, t') = (err (message e), record { tables = t; faults = rest })
  settle (some (applied e)) rest t (r, t') =
      (err (message e), record { tables = t'; faults = rest })

  -- One SQL statement with its effect on the tables.
  unfoldable pub statement : (S → Result A × S) → Action S A
  statement f db = settle (next_fault db.faults) (later_faults db.faults) db.tables (f db.tables)

  unfoldable pub pure : A → Action S A
  pure a db = (ok a, db)

  unfoldable pub raise : Err → Action S A
  raise e db = (err e, db)

module _ {ℓ} {S A B : Type ℓ} where
  abbrev pub continue : (Result A → Action S B) → Result A × Db S → Result B × Db S
  continue k (r, db) = k r db

  -- Go on with whatever the action returned, its error included.
  unfoldable pub attempt : Action S A → (Result A → Action S B) → Action S B
  attempt m k db = continue k (m db)

  abbrev pub on_ok : (A → Action S B) → Result A → Action S B
  on_ok k (ok a) db = k a db
  on_ok k (err e) db = (err e, db)

  infixl 10 ◌>>=◌ ◌>>◌
  unfoldable pub ◌>>=◌ : Action S A → (A → Action S B) → Action S B
  unfolding attempt
  m >>= k = attempt m (on_ok k)

  abbrev pub ◌>>◌ : Action S A → Action S B → Action S B
  m >> k = m >>= λ _. k

module _ {ℓ} {S A : Type ℓ} where
  abbrev pub commit : S → A → Option Fault → List (Option Fault) → S → Result A × Db S
  commit old a none rest new = (ok a, record { tables = new; faults = rest })
  commit old a (some (lost e)) rest new = (err (message e), record { tables = old; faults = rest })
  commit old a (some (applied e)) rest new =
      (err (message e), record { tables = new; faults = rest })

  -- The deferred `Rollback` restores the tables; after a commit it does nothing.
  abbrev pub finish : S → Result A × Db S → Result A × Db S
  finish old (ok a, db) = commit old a (next_fault db.faults) (later_faults db.faults) db.tables
  finish old (err e, db) = (err e, record { tables = old; faults = db.faults })

  abbrev pub begin : Option Fault → List (Option Fault) → Action S A → S → Result A × Db S
  begin none rest fn t = finish t (fn (record { tables = t; faults = rest }))
  begin (some (lost e)) rest fn t = (err (message e), record { tables = t; faults = rest })
  begin (some (applied e)) rest fn t = (err (message e), record { tables = t; faults = rest })

  unfoldable pub with_tx : Action S A → Action S A
  with_tx fn db = begin (next_fault db.faults) (later_faults db.faults) fn db.tables

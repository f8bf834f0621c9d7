-- ===== src/Storage/Tx.antt =====
-- Transactions of Postgres as code sees them that goes on after a statement failed: the server
-- then refuses every further statement until the rollback (SQLSTATE 25P02), and `Commit` of such
-- a transaction rolls it back and returns an error.
pub mod Laws
use golang_template.Prelude.{String, Bool, true, false, ◌||◌}
use golang_template.Errors.{Err, pg_error, message, Result, ok, err, pg_matches}
use golang_template.Storage.{Db, Action, statement, raise, with_tx}

-- The tables inside a transaction, and whether a statement of it has failed.
pub record Tx {ℓ} (S : Type ℓ) : Type ℓ where
  pub rows : S
  pub aborted : Bool

-- An error that the server reported, as opposed to one that the client found in the answer.
unfoldable pub from_server : Err → Bool
unfolding pg_matches
from_server e = pg_matches (λ code constraint. true) e

abbrev pub in_failed_transaction : String
in_failed_transaction = "25P02"

abbrev pub opened {ℓ} : {S : Type ℓ} → Db S → Db (Tx S)
opened db = record { tables = record { rows = db.tables; aborted = false }; faults = db.faults }

module _ {ℓ} {A : Type ℓ} where
  abbrev pub breaks : Result A → Bool
  breaks (ok a) = false
  breaks (err e) = from_server e

  abbrev pub close : Bool → Result A → Result A
  close true (ok a) = err (message "commit unexpectedly resulted in rollback")
  close false (ok a) = ok a
  close aborted (err e) = err e

module _ {ℓ} {S A : Type ℓ} where
  abbrev pub left_open : Result A × Db S → Result A × Db (Tx S)
  left_open (r, d) =
      (r, record { tables = record { rows = d.tables; aborted = breaks r }; faults = d.faults })

  abbrev pub run_unless : Bool → Action S A → Action (Tx S) A
  run_unless true m db = (err (pg_error in_failed_transaction ""), db)
  run_unless false m db = left_open (m (record { tables = db.tables.rows; faults = db.faults }))

  -- One statement, or an action with one statement at most, inside a transaction.
  unfoldable pub in_tx : Action S A → Action (Tx S) A
  in_tx m db = run_unless db.tables.aborted m db

  abbrev pub closed : Result A × Db (Tx S) → Result A × Db S
  closed (r, d) = (close d.tables.aborted r, record { tables = d.tables.rows; faults = d.faults })

  unfoldable pub body : Action (Tx S) A → Action S A
  body fn db = closed (fn (opened db))

  -- `WithTx` over a body that may go on after an error.
  unfoldable pub run_tx : Action (Tx S) A → Action S A
  run_tx fn = with_tx (body fn)

-- An action on one table, as an action on all of them.
module _ {ℓ} {S T A : Type ℓ} where
  abbrev pub put_back : (T → S → S) → S → Result A × Db T → Result A × Db S
  put_back put s (r, d) = (r, record { tables = put d.tables s; faults = d.faults })

  unfoldable pub focus : (S → T) → (T → S → S) → Action T A → Action S A
  focus get put m db =
      put_back put db.tables (m (record { tables = get db.tables; faults = db.faults }))

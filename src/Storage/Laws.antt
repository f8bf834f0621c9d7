-- ===== src/Storage/Laws.antt =====
-- Theorems on transactions and statements that may fail.
use golang_template.Prelude.{◌≡◌, refl, ◌⊎◌, inl, inr, List, Option, none, some, arith}
use golang_template.Errors.{Result, ok, err}
use golang_template.Storage.{
  on_ok, settle, statement, ◌>>=◌, Fault, lost, applied, Db, Action, next_fault, later_faults,
  with_tx, begin, finish, commit,
}

module _ {ℓ} {S A : Type ℓ} where
  commit_atomic :
      (old : S) (a : A) (f : Option Fault) (rest : List (Option Fault)) (new : S)
      → ((commit old a f rest new).1.tables ≡ old) ⊎ ((commit old a f rest new).1.tables ≡ new)
  commit_atomic old a none rest new = inr refl
  commit_atomic old a (some (lost e)) rest new = inl refl
  commit_atomic old a (some (applied e)) rest new = inr refl

  finish_atomic :
      (old : S) (r : Result A) (d : Db S)
      → ((finish old (r, d)).1.tables ≡ old)
        ⊎ ((a : A) × (r ≡ ok a) × ((finish old (r, d)).1.tables ≡ d.tables))
  finish_atomic old (err e) d = inl refl
  finish_atomic old (ok a) d =
      elim (commit_atomic old a (next_fault d.faults) (later_faults d.faults) d.tables) [
        | inl same ↦ inl same
        | inr new ↦ inr (a, refl, new)
      ]

  begin_atomic :
      (f : Option Fault) (rest : List (Option Fault)) (fn : Action S A) (t : S)
      → ((begin f rest fn t).1.tables ≡ t)
        ⊎ ((a : A) × ((fn (record { tables = t; faults = rest })).0 ≡ ok a)
            × ((begin f rest fn t).1.tables ≡ (fn (record { tables = t; faults = rest })).1.tables))
  begin_atomic none rest fn t =
      let (r, d) = fn (record { tables = t; faults = rest }) in finish_atomic t r d
  begin_atomic (some (lost e)) rest fn t = inl refl
  begin_atomic (some (applied e)) rest fn t = inl refl

-- What the body of a transaction left, when it was started without a fault.
abbrev pub body_of {ℓ} : {S A : Type ℓ} → Action S A → Db S → Result A × Db S
body_of fn db = fn (record { tables = db.tables; faults = later_faults db.faults })

module _ {ℓ} {S A : Type ℓ} (fn : Action S A) (db : Db S) where
  -- A transaction leaves the tables as they were, or as its body left them after it returned
  -- without an error; when it returns a value, it is the body's, and so are the tables.
  pub with_tx_atomic :
      ((with_tx fn db).1.tables ≡ db.tables)
      ⊎ ((a : A) × ((body_of fn db).0 ≡ ok a)
          × ((with_tx fn db).1.tables ≡ (body_of fn db).1.tables))
  unfolding with_tx
  with_tx_atomic = begin_atomic (next_fault db.faults) (later_faults db.faults) fn db.tables

  pub with_tx-eq-ok :
      {a : A}
      → (with_tx fn db).0 ≡ ok a
      → ((body_of fn db).0 ≡ ok a) × ((with_tx fn db).1.tables ≡ (body_of fn db).1.tables)
  unfolding with_tx
  with_tx-eq-ok h = ground arith

module _ {ℓ} {S A : Type ℓ} where
  settle-eq-ok :
      (f : Option Fault) (rest : List (Option Fault)) (t : S) (r : Result A) (t' : S) {a : A}
      → (settle f rest t (r, t')).0 ≡ ok a
      → (r ≡ ok a) × ((settle f rest t (r, t')).1 ≡ record { tables = t'; faults = rest })
  settle-eq-ok none rest t r t' h = (h, refl)
  settle-eq-ok (some (lost e)) rest t r t' h = cc
  settle-eq-ok (some (applied e)) rest t r t' h = cc

  -- A statement that returns a value took effect.
  pub statement-eq-ok :
      (f : S → Result A × S) (db : Db S) {a : A}
      → (statement f db).0 ≡ ok a
      → ((f db.tables).0 ≡ ok a)
        × ((statement f db).1
            ≡ record { tables = (f db.tables).1; faults = later_faults db.faults })
  unfolding statement
  statement-eq-ok f db h =
      let (r, t') = f db.tables in
      settle-eq-ok (next_fault db.faults) (later_faults db.faults) db.tables r t' h

module _ {ℓ} {S A B : Type ℓ} where
  continue-eq-ok :
      (k : A → Action S B) (r : Result A) (db : Db S) {b : B}
      → (on_ok k r db).0 ≡ ok b
      → (a : A) × (r ≡ ok a) × ((k a db).0 ≡ ok b) × (on_ok k r db ≡ k a db)
  continue-eq-ok k (ok a) db h = (a, refl, h, refl)
  continue-eq-ok k (err e) db h = cc

  -- A chain that returns a value did so at each of its steps.
  pub >>=-eq-ok :
      (m : Action S A) (k : A → Action S B) (db : Db S) {b : B}
      → ((m >>= k) db).0 ≡ ok b
      → (a : A) × ((m db).0 ≡ ok a) × ((k a (m db).1).0 ≡ ok b) × ((m >>= k) db ≡ k a (m db).1)
  unfolding ◌>>=◌
  >>=-eq-ok m k db h = let (r, d) = m db in continue-eq-ok k r d h

module _ {ℓ} {S A : Type ℓ} where
  settle_outcome :
      (f : Option Fault) (rest : List (Option Fault)) (t : S) (r : Result A) (t' : S)
      → ((settle f rest t (r, t')).1.tables ≡ t) ⊎ ((settle f rest t (r, t')).1.tables ≡ t')
  settle_outcome none rest t r t' = inr refl
  settle_outcome (some (lost e)) rest t r t' = inl refl
  settle_outcome (some (applied e)) rest t r t' = inr refl

  -- A statement leaves the tables as they were, or as its effect makes them.
  pub statement_outcome :
      (f : S → Result A × S) (db : Db S)
      → ((statement f db).1.tables ≡ db.tables) ⊎ ((statement f db).1.tables ≡ (f db.tables).1)
  unfolding statement
  statement_outcome f db =
      let (r, t') = f db.tables in
      settle_outcome (next_fault db.faults) (later_faults db.faults) db.tables r t'

-- ===== src/Storage/Keeps.antt =====
-- Invariants of the tables under actions, with one rule for each way to build an action.
use golang_template.Prelude.{Bool, true, false, inl, inr, List, Option, none, some, if◌then◌else◌}
use golang_template.Errors.{Err, Result, ok, err}
use golang_template.Storage.{
  Fault, lost, applied, Db, Action, next_fault, later_faults, settle, statement, pure, raise, on_ok,
  with_tx, ◌>>=◌,
}
use golang_template.Storage.Laws.{with_tx_atomic}

-- The action leaves tables that meet `P` if it finds such tables.
pub record Keeps {ℓ} {S A : Type ℓ} (P : S → Type ℓ) (m : Action S A) : Type ℓ where
  pub at : (db : Db S) → P db.tables → P (m db).1.tables

settle-keeps {ℓ} :
    {S A : Type ℓ} (P : S → Type ℓ) (f : Option Fault) (rest : List (Option Fault)) (t : S)
    (r : Result A) (t' : S)
    → P t
    → P t'
    → P (settle f rest t (r, t')).1.tables
settle-keeps P none rest t r t' p p' = p'
settle-keeps P (some (lost e)) rest t r t' p p' = p
settle-keeps P (some (applied e)) rest t r t' p p' = p'

module _ {ℓ} {S A : Type ℓ} {P : S → Type ℓ} where
  pub Keeps-statement : (f : S → Result A × S) → ((t : S) → P t → P (f t).1) → Keeps P (statement f)
  unfolding statement
  Keeps-statement f k = record {
    at = λ db p.
        let (r, t') = f db.tables in
        settle-keeps P (next_fault db.faults) (later_faults db.faults) db.tables r t' p
          (k db.tables p);
  }

  pub Keeps-pure : (a : A) → Keeps P (pure a)
  unfolding pure
  Keeps-pure a = record { at = λ db p. p }

  pub Keeps-raise : (e : Err) → Keeps P (raise {A = A} e)
  unfolding raise
  Keeps-raise e = record { at = λ db p. p }

  pub Keeps-if :
      (b : Bool) (m n : Action S A)
      → Keeps P m
      → Keeps P n
      → Keeps P (λ db. (if b then m else n) db)
  Keeps-if true m n km kn = km
  Keeps-if false m n km kn = kn

  pub Keeps-with_tx : (m : Action S A) → Keeps P m → Keeps P (with_tx m)
  Keeps-with_tx m k = record {
    at = λ db p. elim (with_tx_atomic m db) [
      | inl same ↦ rw same p
      | inr (a, _, left) ↦ rw left (k.at _ p)
    ];
  }

module _ {ℓ} {S A B : Type ℓ} {P : S → Type ℓ} where
  on_ok-keeps :
      (k : A → Action S B) (r : Result A) (db : Db S)
      → ((a : A) → Keeps P (k a))
      → P db.tables
      → P (on_ok k r db).1.tables
  on_ok-keeps k (ok a) db keeps p = (keeps a).at db p
  on_ok-keeps k (err e) db keeps p = p

  pub Keeps-bind :
      (m : Action S A) (k : A → Action S B)
      → Keeps P m
      → ((a : A) → Keeps P (k a))
      → Keeps P (m >>= k)
  unfolding ◌>>=◌
  Keeps-bind m k km kk = record {
    at = λ db p. let (r, d) = m db in on_ok-keeps k r d kk (km.at db p);
  }

pub ruleset keeps_rules = (Keeps-pure, Keeps-raise, Keeps-if, Keeps-with_tx, Keeps-bind)

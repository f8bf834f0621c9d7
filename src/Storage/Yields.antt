-- ===== src/Storage/Yields.antt =====
-- What an action promises of the value it returns and of the tables it then leaves, with one rule
-- for each way to build an action. An action that returns an error promises nothing.
use golang_template.Prelude.{◌≡◌}
use golang_template.Errors.{Result, ok}
use golang_template.Storage.{Db, Action, statement, with_tx, ◌>>=◌}
use golang_template.Storage.Laws.{with_tx-eq-ok, statement-eq-ok, >>=-eq-ok}

-- From tables that meet `P`, a returned value and the tables left meet `Q`.
pub record Yields {ℓ} {S A : Type ℓ} (P : S → Type ℓ) (m : Action S A) (Q : A → S → Type ℓ)
    : Type ℓ where
  pub at : (db : Db S) (a : A) → P db.tables → (m db).0 ≡ ok a → Q a (m db).1.tables

module _ {ℓ} {S A : Type ℓ} {P : S → Type ℓ} {Q : A → S → Type ℓ} where
  pub Yields-statement :
      (f : S → Result A × S)
      → ((t : S) (a : A) → P t → (f t).0 ≡ ok a → Q a (f t).1)
      → Yields P (statement f) Q
  Yields-statement f k = record {
    at = λ db a p h. let (done, left) = statement-eq-ok f db h in rw left (k db.tables a p done);
  }

  pub Yields-with_tx : (m : Action S A) → Yields P m Q → Yields P (with_tx m) Q
  Yields-with_tx m k = record {
    at = λ db a p h. let (done, left) = with_tx-eq-ok m db h in rw left (k.at _ a p done);
  }

module _ {ℓ} {S A B : Type ℓ} {P : S → Type ℓ} {Q : B → S → Type ℓ} where
  pub Yields-bind :
      (R : A → S → Type ℓ) (m : Action S A) (k : A → Action S B)
      → Yields P m R
      → ((a : A) → Yields (R a) (k a) Q)
      → Yields P (m >>= k) Q
  Yields-bind R m k km kk = record {
    at = λ db b p h.
        let (a, done, then_done, left) = >>=-eq-ok m k db h in
        rw left ((kk a).at (m db).1 b (km.at db a p done) then_done);
  }

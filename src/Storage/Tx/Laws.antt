-- ===== src/Storage/Tx/Laws.antt =====
-- The rules of `Keeps` and `Yields` for transactions that a failed statement aborts.
use golang_template.Prelude.{ap, ◌≡◌, ◌⊎◌, inl, inr, Bool, true, false, Bool-cases}
use golang_template.Errors.{Result, ok, err}
use golang_template.Storage.{Db, Action}
use golang_template.Storage.Laws.{with_tx_atomic}
use golang_template.Storage.Keeps.{Keeps, Keeps-with_tx}
use golang_template.Storage.Yields.{Yields, Yields-with_tx}
use golang_template.Storage.Tx.{Tx, in_tx, body, close, opened, run_tx, focus}

-- A predicate on tables, of those inside a transaction.
abbrev pub Inside {ℓ} : {S : Type ℓ} → (S → Type ℓ) → Tx S → Type ℓ
Inside P t = P t.rows

abbrev pub InsideResult {ℓ} : {S A : Type ℓ} → (A → S → Type ℓ) → A → Tx S → Type ℓ
InsideResult Q a t = Q a t.rows

module _ {ℓ} {S A : Type ℓ} {P : S → Type ℓ} where
  pub Keeps-in_tx : (m : Action S A) → Keeps P m → Keeps (Inside P) (in_tx m)
  unfolding in_tx
  Keeps-in_tx m k = record {
    at = λ db p. elim (Bool-cases db.tables.aborted) [
      | inl broken ↦ rw broken p
      | inr running ↦ rw running (k.at (record { tables = db.tables.rows; faults = db.faults }) p)
    ];
  }

  pub Keeps-body : (fn : Action (Tx S) A) → Keeps (Inside P) fn → Keeps P (body fn)
  unfolding body
  Keeps-body fn k = record { at = λ db p. k.at (opened db) p }

  pub Keeps-run_tx : (fn : Action (Tx S) A) → Keeps (Inside P) fn → Keeps P (run_tx fn)
  unfolding run_tx
  Keeps-run_tx fn k = Keeps-with_tx (body fn) (Keeps-body fn k)

close-eq-ok {ℓ} : {A : Type ℓ} (b : Bool) (r : Result A) {a : A} → close b r ≡ ok a → r ≡ ok a
close-eq-ok true (ok x) h = cc
close-eq-ok false (ok x) h = h
close-eq-ok b (err e) h = h

module _ {ℓ} {S A : Type ℓ} {P : S → Type ℓ} {Q : A → S → Type ℓ} where
  pub Yields-in_tx : (m : Action S A) → Yields P m Q → Yields (Inside P) (in_tx m) (InsideResult Q)
  unfolding in_tx
  Yields-in_tx m k = record {
    at = λ db a p. elim (Bool-cases db.tables.aborted) [
      | inl broken ↦ rw broken (λ h. cc)
      | inr running ↦
          rw running (λ h. k.at (record { tables = db.tables.rows; faults = db.faults }) a p h)
    ];
  }

  pub Yields-body :
      (fn : Action (Tx S) A) → Yields (Inside P) fn (InsideResult Q) → Yields P (body fn) Q
  unfolding body
  Yields-body fn k = record { at = λ db a p h. k.at (opened db) a p (close-eq-ok _ _ h) }

  pub Yields-run_tx :
      (fn : Action (Tx S) A) → Yields (Inside P) fn (InsideResult Q) → Yields P (run_tx fn) Q
  unfolding run_tx
  Yields-run_tx fn k = Yields-with_tx (body fn) (Yields-body fn k)

module _ {ℓ} {S A : Type ℓ} (P : S → Type ℓ) (Q : A → S → Type ℓ) where
  -- Either nothing happened, or what the body promises of the value that it returned.
  pub run_tx_all_or_nothing :
      (fn : Action (Tx S) A) (db : Db S)
      → Yields (Inside P) fn (InsideResult Q)
      → P db.tables
      → ((run_tx fn db).1.tables ≡ db.tables) ⊎ ((a : A) × Q a (run_tx fn db).1.tables)
  unfolding run_tx
  run_tx_all_or_nothing fn db k p = elim (with_tx_atomic (body fn) db) [
    | inl same ↦ inl same
    | inr (a, done, left) ↦ inr (a, rw left ((Yields-body fn k).at _ a p done))
  ]

module _ {ℓ} {S T A : Type ℓ} {P : S → Type ℓ} where
  pub Keeps-focus :
      (get : S → T) (put : T → S → S) (m : Action T A)
      → ((s : S) (t : T) → P s → P (put t s))
      → Keeps P (focus get put m)
  unfolding focus
  Keeps-focus get put m k = record {
    at = λ db p. k db.tables (m (record { tables = get db.tables; faults = db.faults })).1.tables p;
  }

module _ {ℓ} {S T A : Type ℓ} {Q : A → T → Type ℓ} where
  pub Yields-focus :
      (get : S → T) (put : T → S → S) (m : Action T A) (s : S)
      → Yields (λ t. t ≡ get s) m Q
      → Yields (λ s'. s' ≡ s) (focus get put m) (λ a s'. (t : T) × Q a t × (s' ≡ put t s))
  unfolding focus
  Yields-focus get put m s k = record {
    at = λ db a same h.
        let run = m (record { tables = get db.tables; faults = db.faults }) in
        (run.1.tables, k.at _ a (ap get same) h, ap (put run.1.tables) same);
  }

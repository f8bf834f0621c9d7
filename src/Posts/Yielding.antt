-- ===== src/Posts/Yielding.antt =====
-- Rules of `Yields` for the calls of internal/modules/post/store.go.
use golang_template.Prelude.{
  ◌≡◌, refl, sym, ap, ◌∙◌, inl, inr, Bool, true, false, ◌&&◌, Bool-cases, if◌then◌else◌,
}
use golang_template.Errors.{Err, Result, ok, err, is, no_rows}
use golang_template.Storage.{Db, Action, attempt, pure, raise}
use golang_template.Storage.Keeps.{Keeps}
use golang_template.Storage.Yields.{Yields}
use golang_template.Posts.{Post, no_row_is}

pub err-is_no_ok : {A B : Type 0} {a : A} (e : Err) (h : err e ≡ ok a) → B
err-is_no_ok e h = cc

pub answered-eq-ok :
    {T : Type 0} (e : Err) (r : Result Post) (db : Db T) {a : Post}
    → (no_row_is e r db).0 ≡ ok a
    → (r ≡ ok a) × ((no_row_is e r db).1 ≡ db)
unfolding pure raise
answered-eq-ok e (ok p) db h = (h, refl)
answered-eq-ok e (err x) db h = elim (Bool-cases (is x no_rows)) [
  | inl missing ↦
      err-is_no_ok e (sym (ap (λ (b : Bool). ((if b then raise e else raise x) db).0) missing) ∙ h)
  | inr other ↦
      err-is_no_ok x (sym (ap (λ (b : Bool). ((if b then raise e else raise x) db).0) other) ∙ h)
]

module _ {T : Type 0} {P : T → Type 0} {Q : Post → T → Type 0} where
  pub Yields-no_row_is :
      (e : Err) (m : Action T Post) → Yields P m Q → Yields P (attempt m (no_row_is e)) Q
  unfolding attempt
  Yields-no_row_is e m k = record {
    at = λ db a p h.
        let (done, left) = answered-eq-ok e (m db).0 (m db).1 h in rw left (k.at db a p done);
  }

pub Yields-kept :
    {S A : Type 0} {P : S → Type 0} (m : Action S A) → Keeps P m → Yields P m (λ a t. P t)
Yields-kept m k = record { at = λ db a p h. k.at db p }

pub and3 : (a b c : Bool) → a && b && c ≡ true → (a ≡ true) × (b ≡ true) × (c ≡ true)
and3 true true true h = (refl, refl, refl)
and3 true true false h = cc
and3 true false c h = cc
and3 false b c h = cc

pub Yields-if :
    {S A : Type 0} {P : S → Type 0} {Q : A → S → Type 0} (b : Bool) (m n : Action S A)
    → Yields P m Q
    → Yields P n Q
    → Yields P (λ db. (if b then m else n) db) Q
Yields-if true m n km kn = km
Yields-if false m n km kn = kn

pub Yields-absurd : {S A : Type 0} {Q : A → S → Type 0} (m : Action S A) → Yields (λ t. ⊥) m Q
Yields-absurd m = record { at = λ db a p h. absurd p }

-- An action that returns no value from some tables.
abbrev pub Never : {S A : Type 0} → (S → Type 0) → Action S A → Type 0
Never P m = Yields P m (λ a t. ⊥)

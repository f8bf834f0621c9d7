-- ===== src/Posts/Rows.antt =====
-- The statements of internal/modules/post/store.go on the rows of `posts`.
use golang_template.Prelude.{
  ℕ, ◌≡◌, refl, sym, ap, ◌∙◌, inl, inr, Bool, true, false, ◌||◌, eqb, if◌then◌else◌, List, [], ◌∷◌,
  any, All, Bool-cases, eqb_iff, eqb_refl,
}
use golang_template.Errors.{sentinel, no_rows, Result, ok, err}
use golang_template.Posts.{Post, change_row, replace_row, keep_row}

abbrev pub has_id : ℕ → List Post → Bool
has_id i rows = any (λ r. eqb r.id i) rows

-- The primary key: no two rows have the same id.
abbrev pub UniqueIds : List Post → Type 0
UniqueIds [] = Unit
UniqueIds (r ∷ rows) = (has_id r.id rows ≡ false) × UniqueIds rows

-- There is a row with the id, and every such row passes the test.
abbrev pub Settled : (Post → Bool) → ℕ → List Post → Type 0
Settled c i rows = (has_id i rows ≡ true) × All (λ r. (eqb r.id i ≡ true) → (c r ≡ true)) rows

-- A change of a row that keeps its id, and every test of a list of tests that a row may pass.
abbrev pub Stays : (Post → Bool) → (Post → Result Post) → Type 0
Stays c change = (r r' : Post) → change r ≡ ok r' → (r'.id ≡ r.id) × ((c r ≡ true) → (c r' ≡ true))

replaced :
    (M : List Post → Type 0) (res : Result Post) (r : Post) (rows : List Post)
    → M (r ∷ rows)
    → ((r' : Post) → res ≡ ok r' → M (r' ∷ rows))
    → M (replace_row res r rows).1
replaced M (ok r') r rows old new = new r' refl
replaced M (err e) r rows old new = old

result_of : (res : Result Post) (r : Post) (rows : List Post) → (replace_row res r rows).0 ≡ res
result_of (ok r') r rows = refl
result_of (err e) r rows = refl

pub or_true : (b : Bool) → b || true ≡ true
or_true true = refl
or_true false = refl

or_left : (a b : Bool) → a || b ≡ false → a ≡ false
or_left true b h = h
or_left false b h = refl

or_right : (a b : Bool) → a || b ≡ false → b ≡ false
or_right true b h = cc
or_right false b h = h

pub clash : {A : Type 0} {a b : Bool} → a ≡ b → a ≡ false → b ≡ true → A
clash e f t = cc

absent-All :
    (c : Post → Bool) (i : ℕ) (rows : List Post)
    → has_id i rows ≡ false
    → All (λ r. (eqb r.id i ≡ true) → (c r ≡ true)) rows
absent-All c i [] h = tt
absent-All c i (r ∷ rows) h = elim (Bool-cases (eqb r.id i)) [
  | inl same ↦ clash refl (or_left (eqb r.id i) (has_id i rows) h) same
  | inr other ↦ (
    (λ same. clash refl other same),
    absent-All c i rows (or_right (eqb r.id i) (has_id i rows) h),
  )
]

module _ (wanted : Post → Bool) (change : Post → Result Post) where
  pub has_id-change_row :
      (c : Post → Bool) (i : ℕ) (rows : List Post)
      → Stays c change
      → has_id i (change_row wanted change rows).1 ≡ has_id i rows
  has_id-change_row c i [] stays = refl
  has_id-change_row c i (r ∷ rows) stays = elim (Bool-cases (wanted r)) [
    | inl chosen ↦ rw chosen (
        replaced (λ left. has_id i left ≡ has_id i (r ∷ rows)) (change r) r rows refl
          (λ r' e. ap (λ k. eqb k i || has_id i rows) (stays r r' e).0))
    | inr other ↦ rw other (ap (λ b. eqb r.id i || b) (has_id-change_row c i rows stays))
  ]

  pub change_row-UniqueIds :
      (c : Post → Bool) (rows : List Post)
      → Stays c change
      → UniqueIds rows
      → UniqueIds (change_row wanted change rows).1
  change_row-UniqueIds c [] stays h = tt
  change_row-UniqueIds c (r ∷ rows) stays (h, hs) = elim (Bool-cases (wanted r)) [
    | inl chosen ↦ rw chosen (
        replaced UniqueIds (change r) r rows (h, hs)
          (λ r' e. (ap (λ k. has_id k rows) (stays r r' e).0 ∙ h, hs)))
    | inr other ↦
        rw other (has_id-change_row c r.id rows stays ∙ h, change_row-UniqueIds c rows stays hs)
  ]

  change_row-All :
      (c : Post → Bool) (i : ℕ) (rows : List Post)
      → Stays c change
      → All (λ r. (eqb r.id i ≡ true) → (c r ≡ true)) rows
      → All (λ r. (eqb r.id i ≡ true) → (c r ≡ true)) (change_row wanted change rows).1
  change_row-All c i [] stays h = tt
  change_row-All c i (r ∷ rows) stays (h, hs) = elim (Bool-cases (wanted r)) [
    | inl chosen ↦ rw chosen (
        replaced (All (λ r. (eqb r.id i ≡ true) → (c r ≡ true))) (change r) r rows (h, hs)
          (λ r' e. (
            λ same.
                let (kept, passes) = stays r r' e in
                passes (h (sym (ap (λ k. eqb k i) kept) ∙ same)),
            hs,
          )))
    | inr other ↦ rw other (h, change_row-All c i rows stays hs)
  ]

  pub change_row-Settled :
      (c : Post → Bool) (i : ℕ) (rows : List Post)
      → Stays c change
      → Settled c i rows
      → Settled c i (change_row wanted change rows).1
  change_row-Settled c i rows stays (there, all) =
      (has_id-change_row c i rows stays ∙ there, change_row-All c i rows stays all)

  result-chosen :
      (r : Post) (rows : List Post) (res : Result Post)
      → wanted r ≡ true
      → (change_row wanted change (r ∷ rows)).0 ≡ res
      → change r ≡ res
  result-chosen r rows res chosen h =
      sym (result_of (change r) r rows)
      ∙ sym (
          ap
            (λ (b : Bool).
              (if b
                then replace_row (change r) r rows
                else keep_row r (change_row wanted change rows)).0)
            chosen)
      ∙ h

  result-other :
      (r : Post) (rows : List Post) (res : Result Post)
      → wanted r ≡ false
      → (change_row wanted change (r ∷ rows)).0 ≡ res
      → (change_row wanted change rows).0 ≡ res
  result-other r rows res other h =
      sym (
        ap
          (λ (b : Bool).
            (if b
              then replace_row (change r) r rows
              else keep_row r (change_row wanted change rows)).0)
          other)
      ∙ h

  changed-has_id :
      (i : ℕ) (rows : List Post) (r' : Post)
      → ((r : Post) → wanted r ≡ true → r.id ≡ i)
      → (change_row wanted change rows).0 ≡ ok r'
      → has_id i rows ≡ true
  changed-has_id i [] r' only h = cc
  changed-has_id i (r ∷ rows) r' only h = elim (Bool-cases (wanted r)) [
    | inl chosen ↦ rw (only r chosen, eqb_refl i) refl
    | inr other ↦
        rw (changed-has_id i rows r' only (result-other r rows (ok r') other h))
          (or_true (eqb r.id i))
  ]

  -- What the changed row is, when there is one.
  pub change_row-ok :
      (rows : List Post) (r' : Post)
      → (change_row wanted change rows).0 ≡ ok r'
      → (r : Post) × (wanted r ≡ true) × (change r ≡ ok r')
  change_row-ok [] r' h = cc
  change_row-ok (r ∷ rows) r' h = elim (Bool-cases (wanted r)) [
    | inl chosen ↦ (r, chosen, result-chosen r rows (ok r') chosen h)
    | inr other ↦ change_row-ok rows r' (result-other r rows (ok r') other h)
  ]

  -- A row with the wanted id was changed: with unique ids, all rows with this id are the new row.
  pub change_row-settles :
      (c : Post → Bool) (i : ℕ) (rows : List Post) (r' : Post)
      → UniqueIds rows
      → ((r : Post) → wanted r ≡ true → r.id ≡ i)
      → ((r : Post) (r' : Post) → wanted r ≡ true → change r ≡ ok r' → (r'.id ≡ i) × (c r' ≡ true))
      → (change_row wanted change rows).0 ≡ ok r'
      → Settled c i (change_row wanted change rows).1
  change_row-settles c i [] r' h only new done = cc
  change_row-settles c i (r ∷ rows) r' (h, hs) only new done = elim (Bool-cases (wanted r)) [
    | inl chosen ↦
        let e = result-chosen r rows (ok r') chosen done in
        let (same, passes) = new r r' chosen e in
        let absent = ap (λ k. has_id k rows) (sym (only r chosen)) ∙ h in
        rw (chosen, e) (rw (same, eqb_refl i) refl, (λ _. passes, absent-All c i rows absent))
    | inr other ↦
        let then_done = result-other r rows (ok r') other done in
        let (there, all) = change_row-settles c i rows r' hs only new then_done in
        let present = changed-has_id i rows r' only then_done in
        rw other (
          rw there (or_true (eqb r.id i)),
          ((λ same. clash (ap (λ k. has_id k rows) ((eqb_iff r.id i).0 same)) h present), all),
        )
  ]

  -- Where no row is wanted, nothing is changed.
  pub change_row-none :
      (rows : List Post)
      → All (λ r. wanted r ≡ false) rows
      → change_row wanted change rows ≡ (err (sentinel no_rows), rows)
  change_row-none [] h = refl
  change_row-none (r ∷ rows) (h, hs) = rw (h, change_row-none rows hs) refl

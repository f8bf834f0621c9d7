-- ===== src/Notifications/Rows.antt =====
-- The statements of internal/modules/notification/store.go on the rows of deliveries.
use golang_template.Outbox.Claim.{is_null}
use golang_template.Prelude.{
  ℕ, zero, suc, ◌≡◌, refl, sym, ap, ◌∙◌, ◌⊎◌, inl, inr, Bool, true, false, not, ◌&&◌, ◌||◌, eqb,
  leb, List, [], ◌∷◌, take, All, Bool-cases, eqb_iff, eqb_refl,
}
use golang_template.Notifications.{pending, sending, same_status, Delivery}
use golang_template.Notifications.Store.{
  Moment, due, insert_due, all_due, has_id, claim_rows, claimed, update_rows,
}

-- A delivery that is not to be sent any more.
abbrev pub is_final : Delivery → Bool
is_final d = not (same_status d.status pending) && not (same_status d.status sending)

abbrev pub Member : Delivery → List Delivery → Type 0
Member d [] = ⊥
Member d (r ∷ rows) = (r ≡ d) ⊎ Member d rows

-- The primary key: no two rows have the same id.
abbrev pub UniqueIds : List Delivery → Type 0
UniqueIds [] = Unit
UniqueIds (r ∷ rows) = (has_id r.id rows ≡ false) × UniqueIds rows

-- No row of the list has the id.
abbrev pub Others : ℕ → List Delivery → Type 0
Others i rows = All (λ r. eqb r.id i ≡ false) rows

pub or_true : (b : Bool) → b || true ≡ true
or_true true = refl
or_true false = refl

pub or_left : (a b : Bool) → a || b ≡ false → a ≡ false
or_left true b h = h
or_left false b h = refl

pub or_right : (a b : Bool) → a || b ≡ false → b ≡ false
or_right true b h = cc
or_right false b h = h

pub clash : {A : Type 0} {a b : Bool} → a ≡ b → a ≡ false → b ≡ true → A
clash e f t = cc

-- A number with an id that a list has is not one that it lacks.
pub apart :
    (i j : ℕ) (rows : List Delivery)
    → has_id i rows ≡ true
    → has_id j rows ≡ false
    → eqb i j ≡ false
apart i j rows h k = elim (Bool-cases (eqb i j)) [
  | inl same ↦ clash (ap (λ n. has_id n rows) (sym ((eqb_iff i j).0 same))) k h
  | inr other ↦ other
]

pub apart_sym :
    (i j : ℕ) (rows : List Delivery)
    → has_id i rows ≡ true
    → has_id j rows ≡ false
    → eqb j i ≡ false
apart_sym i j rows h k = elim (Bool-cases (eqb j i)) [
  | inl same ↦ clash (ap (λ n. has_id n rows) ((eqb_iff j i).0 same)) k h
  | inr other ↦ other
]

pub eqb-sym : (i j : ℕ) → eqb i j ≡ false → eqb j i ≡ false
eqb-sym i j h = elim (Bool-cases (eqb j i)) [
  | inl same ↦ clash (rw ((eqb_iff j i).0 same) refl) h (eqb_refl i)
  | inr other ↦ other
]

pub not_either : (a b : Bool) → not a && not b ≡ true → (a ≡ false) × (b ≡ false)
not_either true b h = cc
not_either false true h = cc
not_either false false h = (refl, refl)

pub dead : (a b z : Bool) → a && b && false && z ≡ false
dead true true z = refl
dead true false z = refl
dead false b z = refl

pub final-due : (at : Moment) (d : Delivery) → is_final d ≡ true → due at d ≡ false
unfolding due
final-due at d h =
    let (waiting, running) =
      not_either (same_status d.status pending) (same_status d.status sending) h in
    rw (waiting, running)
      (dead (is_null d.deleted_at) (leb d.next_attempt_at at.db_now) (not (at.held d.id)))

pub insert_due-Others :
    (i : ℕ) (d : Delivery) (rows : List Delivery)
    → eqb d.id i ≡ false
    → Others i rows
    → Others i (insert_due d rows)
unfolding insert_due
insert_due-Others i d [] h hs = (h, tt)
insert_due-Others i d (r ∷ rows) h (k, ks) =
    elim (Bool-cases (leb d.next_attempt_at r.next_attempt_at)) [
      | inl before ↦ rw before (h, (k, ks))
      | inr after ↦ rw after (k, insert_due-Others i d rows h ks)
    ]

pub take-Others : (i n : ℕ) (rows : List Delivery) → Others i rows → Others i (take n rows)
take-Others i zero rows h = tt
take-Others i (suc n) [] h = tt
take-Others i (suc n) (r ∷ rows) (h, hs) = (h, take-Others i n rows hs)

pub absent-Others : (i : ℕ) (rows : List Delivery) → has_id i rows ≡ false → Others i rows
absent-Others i [] h = tt
absent-Others i (r ∷ rows) h = elim (Bool-cases (eqb r.id i)) [
  | inl same ↦ clash refl (or_left (eqb r.id i) (has_id i rows) h) same
  | inr other ↦ (other, absent-Others i rows (or_right (eqb r.id i) (has_id i rows) h))
]

pub Others-has_id : (i : ℕ) (rows : List Delivery) → Others i rows → has_id i rows ≡ false
Others-has_id i [] h = refl
Others-has_id i (r ∷ rows) (h, hs) = rw (h, Others-has_id i rows hs) refl

pub all_due-of-Others :
    (at : Moment) (i : ℕ) (rows : List Delivery) → Others i rows → Others i (all_due at rows)
unfolding all_due
all_due-of-Others at i [] h = tt
all_due-of-Others at i (r ∷ rows) (h, hs) = elim (Bool-cases (due at r)) [
  | inl chosen ↦
      rw chosen (insert_due-Others i r (all_due at rows) h (all_due-of-Others at i rows hs))
  | inr other ↦ rw other (all_due-of-Others at i rows hs)
]

pub Member-has_id : (d : Delivery) (rows : List Delivery) → Member d rows → has_id d.id rows ≡ true
Member-has_id d [] x = elim x [ ]
Member-has_id d (r ∷ rows) (inl same) = rw (same, eqb_refl d.id) refl
Member-has_id d (r ∷ rows) (inr later) = rw (Member-has_id d rows later) (or_true (eqb r.id d.id))

-- Where a finished delivery is a row, no due row has its id.
pub all_due-Others :
    (at : Moment) (d : Delivery) (rows : List Delivery)
    → is_final d ≡ true
    → UniqueIds rows
    → Member d rows
    → Others d.id (all_due at rows)
unfolding all_due
all_due-Others at d [] f h x = elim x [ ]
all_due-Others at d (r ∷ rows) f (h, hs) (inl same) =
    let not_due = ap (due at) same ∙ final-due at d f in
    rw not_due (
      all_due-of-Others at d.id rows
        (absent-Others d.id rows (sym (ap (λ (k : Delivery). has_id k.id rows) same) ∙ h)))
all_due-Others at d (r ∷ rows) f (h, hs) (inr later) = elim (Bool-cases (due at r)) [
  | inl chosen ↦ rw chosen (
      insert_due-Others d.id r (all_due at rows)
        (apart_sym d.id r.id rows (Member-has_id d rows later) h)
        (all_due-Others at d rows f hs later))
  | inr other ↦ rw other (all_due-Others at d rows f hs later)
]

pub claim_rows-Member :
    (at : Moment) (chosen : List Delivery) (d : Delivery) (rows : List Delivery)
    → has_id d.id chosen ≡ false
    → Member d rows
    → Member d (claim_rows at chosen rows)
unfolding claim_rows
claim_rows-Member at chosen d [] h x = elim x [ ]
claim_rows-Member at chosen d (r ∷ rows) h (inl same) =
    rw (ap (λ (k : Delivery). has_id k.id chosen) same ∙ h) (inl same)
claim_rows-Member at chosen d (r ∷ rows) h (inr later) = elim (Bool-cases (has_id r.id chosen)) [
  | inl picked ↦ rw picked (inr (claim_rows-Member at chosen d rows h later))
  | inr other ↦ rw other (inr (claim_rows-Member at chosen d rows h later))
]

pub claimed-Others :
    (at : Moment) (chosen : List Delivery) (i : ℕ) (rows : List Delivery)
    → has_id i chosen ≡ false
    → Others i (claimed at chosen rows)
unfolding claimed
claimed-Others at chosen i [] h = tt
claimed-Others at chosen i (r ∷ rows) h = elim (Bool-cases (has_id r.id chosen)) [
  | inl picked ↦ rw picked (apart r.id i chosen picked h, claimed-Others at chosen i rows h)
  | inr other ↦ rw other (claimed-Others at chosen i rows h)
]

pub update_rows-Member :
    (wanted : Delivery → Bool) (f : Delivery → Delivery) (d : Delivery) (rows : List Delivery)
    → wanted d ≡ false
    → Member d rows
    → Member d (update_rows wanted f rows)
unfolding update_rows
update_rows-Member wanted f d [] h x = elim x [ ]
update_rows-Member wanted f d (r ∷ rows) h (inl same) = rw (ap wanted same ∙ h) (inl same)
update_rows-Member wanted f d (r ∷ rows) h (inr later) = elim (Bool-cases (wanted r)) [
  | inl picked ↦ rw picked (inr (update_rows-Member wanted f d rows h later))
  | inr other ↦ rw other (inr (update_rows-Member wanted f d rows h later))
]

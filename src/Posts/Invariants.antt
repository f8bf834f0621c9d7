-- ===== src/Posts/Invariants.antt =====
-- The primary key, and facts about one id that last, under the statements of
-- internal/modules/post/store.go.
use golang_template.Prelude.{
  Option, none, some, String, ℕ, ◌≡◌, refl, sym, ap, inl, inr, Bool, true, false, eqb, ltb, ◌==◌,
  if◌then◌else◌, List, ◌∷◌, any, Bool-cases, eqb_iff,
}
use golang_template.Errors.{Err, ok, err, ok-injective}
use golang_template.Posts.{
  Post, Tables, broken_reference, store_unless, bump, updated_row, deleted_row, insert_post,
  stored_row, update_post, update_where, delete_post, delete_where, max_int32,
}
use golang_template.Posts.Rows.{
  or_true, clash, has_id, UniqueIds, Settled, Stays, change_row-UniqueIds, change_row-Settled,
}
use golang_template.Posts.Keeping.{Kept}

stored_unless :
    (M : List Post → Type 0) (o : Option String) (row : Post) (t : Tables)
    → M t.posts
    → M (row ∷ t.posts)
    → M (store_unless o row t).1.posts
stored_unless M none row t old new = new
stored_unless M (some x) row t old new = old

inserted :
    (M : List Post → Type 0) (id now : ℕ) (p : Post) (t : Tables)
    → M t.posts
    → (has_id id t.posts ≡ false → M (stored_row id now p ∷ t.posts))
    → M (insert_post id now p t).1.posts
unfolding insert_post
inserted M id now p t old new = elim (Bool-cases (has_id id t.posts)) [
  | inl used ↦ rw used old
  | inr free ↦ elim (Bool-cases (any (λ (r : Post). r.reference_id == p.reference_id) t.posts)) [
    | inl taken ↦ rw (free, taken) old
    | inr open_ref ↦
        rw (free, open_ref)
          (stored_unless M (broken_reference t.users p) (stored_row id now p) t old (new free))
  ]
]

-- A test of rows that an update and a deletion do not undo.
pub record Lasts (c : Post → Bool) : Type 0 where
  pub updates : (now : ℕ) (p r : Post) → c r ≡ true → c (updated_row now p r) ≡ true
  pub deletes : (now : ℕ) (p r : Post) → c r ≡ true → c (deleted_row now p r) ≡ true

if-eq-ok :
    {A : Type 0} (b : Bool) (a : A) (e : Err) {a' : A}
    → (if b then ok a else err e) ≡ ok a'
    → (b ≡ true) × (a ≡ a')
if-eq-ok true a e h = (refl, ok-injective a _ h)
if-eq-ok false a e h = cc

pub bump-ok : (now : ℕ) (p r r' : Post) → bump now p r ≡ ok r' → updated_row now p r ≡ r'
bump-ok now p r r' h = (if-eq-ok (ltb r.version max_int32) _ _ h).1

module _ (c : Post → Bool) (lasts : Lasts c) where
  pub bump-Stays : (now : ℕ) (p : Post) → Stays c (bump now p)
  bump-Stays now p r r' h = let e = bump-ok now p r r' h in rw (sym e) (refl, lasts.updates now p r)

  pub delete-Stays : (now : ℕ) (p : Post) → Stays c (λ r. ok (deleted_row now p r))
  delete-Stays now p r r' h =
      let e = ok-injective (deleted_row now p r) r' h in rw (sym e) (refl, lasts.deletes now p r)

  pub Kept-Settled : (i : ℕ) → Kept (Settled c i)
  unfolding update_post delete_post
  Kept-Settled i = record {
    insert = λ id now p t (there, all).
        inserted (Settled c i) id now p t (there, all)
          (λ free. (
            rw there (or_true (eqb id i)),
            (λ same. clash (ap (λ k. has_id k t.posts) ((eqb_iff id i).0 same)) free there, all),
          ));
    update = λ now p t h.
        change_row-Settled (update_where p) (bump now p) c i t.posts (bump-Stays now p) h;
    delete = λ now p t h. change_row-Settled (delete_where p) _ c i t.posts (delete-Stays now p) h;
  }

abbrev any_row : Post → Bool
any_row r = true

any_row-Lasts : Lasts any_row
any_row-Lasts = record { updates = λ now p r h. refl; deletes = λ now p r h. refl }

pub Kept-UniqueIds : Kept UniqueIds
unfolding update_post delete_post
Kept-UniqueIds = record {
  insert = λ id now p t h. inserted UniqueIds id now p t h (λ free. (free, h));
  update = λ now p t h.
      change_row-UniqueIds (update_where p) (bump now p) any_row t.posts
        (bump-Stays any_row any_row-Lasts now p) h;
  delete = λ now p t h.
      change_row-UniqueIds (delete_where p) _ any_row t.posts
        (delete-Stays any_row any_row-Lasts now p) h;
}

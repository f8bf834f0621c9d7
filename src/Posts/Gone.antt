-- ===== src/Posts/Gone.antt =====
-- On soft deletion in internal/modules/post.
use golang_template.Prelude.{
  ℕ, ◌≡◌, ◌≢◌, refl, sym, ◌∙◌, inl, inr, Bool, true, false, not, eqb, String, List, [], ◌∷◌, All,
  Bool-cases,
}
use golang_template.Errors.{Result, ok, err, ok-injective, sentinel, no_rows}
use golang_template.Storage.{Db, statement}
use golang_template.Storage.Yields.{Yields, Yields-statement, Yields-bind}
use golang_template.Storage.Tx.Laws.{Inside, Yields-in_tx, Yields-run_tx}
use golang_template.Posts.{
  Post, Tables, change_row, bump, deleted_row, update_post, update_where, scan_deleted, delete_post,
  delete_where, active, update, soft_delete, get_post, get_by_id, first_post,
}
use golang_template.Posts.Yielding.{
  err-is_no_ok, Yields-no_row_is, Yields-kept, and3, Yields-if, Yields-absurd, Never,
}
use golang_template.Posts.Events as Events
use golang_template.Posts.Events.{Module, Call, announce_updated, announce_deleted}
use golang_template.Posts.Rows.{clash, UniqueIds, Settled, change_row-settles, change_row-none}
use golang_template.Posts.Keeping.{OfPosts, announce_deleted-Keeps}
use golang_template.Posts.Invariants.{Lasts, Kept-Settled}
use golang_template.Posts.Changed.{and_split, delete_where-true}
use golang_template.Posts.Lasting.{later-Keeps}
use golang_template.Posts.Requests.{Later}

abbrev gone : Post → Bool
gone r = not (active r)

gone-Lasts : Lasts gone
gone-Lasts = record { updates = λ now p r h. h; deletes = λ now p r h. refl }

h_false : (b : Bool) → not b ≡ true → b ≡ false
h_false true h = sym h
h_false false h = refl

scan_deleted-eq-ok :
    (p : Post) (res : Result Post) (a : Post)
    → scan_deleted p res ≡ ok a
    → (r : Post) × (res ≡ ok r)
scan_deleted-eq-ok p (ok r) a h = (r, refl)
scan_deleted-eq-ok p (err e) a h = cc

delete_post-settles :
    (now : ℕ) (p : Post) (t : Tables) (a : Post)
    → UniqueIds t.posts
    → (delete_post now p t).0 ≡ ok a
    → Settled gone p.id (delete_post now p t).1.posts
unfolding delete_post
delete_post-settles now p t a unique h =
    let change = λ (r : Post). ok (deleted_row now p r) in
    let (r, found) = scan_deleted-eq-ok p (change_row (delete_where p) change t.posts).0 a h in
    change_row-settles (delete_where p) change gone p.id t.posts r unique
      (λ r h. (delete_where-true p r h).0)
      (λ r r' h e.
        let (same, live) = delete_where-true p r h in
        rw (sym (ok-injective (deleted_row now p r) r' e)) (same, refl))
      found

-- Where all rows with an id are deleted, no active row has it.
inactive :
    (i : ℕ) (wanted : Post → Bool) (rows : List Post)
    → ((r : Post) → wanted r ≡ true → (eqb r.id i ≡ true) × (active r ≡ true))
    → All (λ r. (eqb r.id i ≡ true) → (gone r ≡ true)) rows
    → All (λ r. wanted r ≡ false) rows
inactive i wanted [] only h = tt
inactive i wanted (r ∷ rows) only (h, hs) = (
  elim (Bool-cases (wanted r)) [
    | inl chosen ↦ let (same, live) = only r chosen in clash refl (h_false (active r) (h same)) live
    | inr other ↦ other
  ],
  inactive i wanted rows only hs,
)

update_post-misses :
    (now : ℕ) (p : Post) (t : Tables)
    → Settled gone p.id t.posts
    → (update_post now p t).0 ≡ err (sentinel no_rows)
unfolding update_post update_where
update_post-misses now p t (there, all) =
    rw
      (change_row-none (update_where p) (bump now p) t.posts (
        inactive p.id (update_where p) t.posts
          (λ r w.
            let (same, current, live) =
              and3 (eqb r.id p.id) (eqb r.version p.version) (active r) w in
            (same, live))
          all))
      refl

delete_post-misses :
    (now : ℕ) (p : Post) (t : Tables)
    → Settled gone p.id t.posts
    → (delete_post now p t).0 ≡ err (sentinel no_rows)
unfolding delete_post delete_where
delete_post-misses now p t (there, all) =
    rw
      (change_row-none (delete_where p) (λ r. ok (deleted_row now p r)) t.posts
        (inactive p.id (delete_where p) t.posts (λ r w. and_split (eqb r.id p.id) (active r) w)
          all))
      refl

first_post-none :
    (wanted : Post → Bool) (rows : List Post)
    → All (λ r. wanted r ≡ false) rows
    → first_post wanted rows ≡ err (sentinel no_rows)
first_post-none wanted [] h = refl
first_post-none wanted (r ∷ rows) (h, hs) = rw (h, first_post-none wanted rows hs) refl

get-Never : (i : ℕ) → Never (OfPosts (Settled gone i)) (get_by_id i)
unfolding get_by_id get_post
get-Never i = Yields-no_row_is _ _ (
    Yields-statement _ (λ t a h done. err-is_no_ok (sentinel no_rows) (
      sym (
        first_post-none _ t.posts
          (inactive i _ t.posts (λ r w. and_split (eqb r.id i) (active r) w) h.1))
      ∙ done)))

module _ (m : Module) (c : Call) where
  delete_settles :
      (p : Post)
      → Yields (OfPosts UniqueIds) (Events.delete_post m c p) (λ a. OfPosts (Settled gone p.id))
  unfolding Events.delete_post soft_delete
  delete_settles p =
      Yields-if m.has_events _ _
        (Yields-run_tx _ (
          Yields-bind (λ a. Inside (OfPosts (Settled gone p.id))) _ _
            (Yields-no_row_is _ _ (Yields-in_tx _ settles))
            (λ a. Yields-kept _ (announce_deleted-Keeps (Settled gone p.id) m c a))))
        (Yields-no_row_is _ _ settles)
    where
      settles :
          Yields
            (OfPosts UniqueIds)
            (statement (delete_post c.draws.db_now p))
            (λ a. OfPosts (Settled gone p.id))
      settles =
          Yields-statement _ (λ t a unique h. delete_post-settles c.draws.db_now p t a unique h)

  update-Never :
      (previous : Bool) (fields : List String) (p : Post)
      → Never (OfPosts (Settled gone p.id)) (Events.update_post m c previous fields p)
  unfolding Events.update_post update
  update-Never previous fields p =
      Yields-if m.has_events _ _
        (Yields-run_tx _ (
          Yields-bind (λ a t. ⊥) _ _ (Yields-no_row_is _ _ (Yields-in_tx _ misses))
            (λ a. Yields-absurd _)))
        (Yields-no_row_is _ _ misses)
    where
      misses : Never (OfPosts (Settled gone p.id)) (statement (update_post c.draws.db_now p))
      misses = Yields-statement _ (λ t a h done.
          err-is_no_ok (sentinel no_rows) (sym (update_post-misses c.draws.db_now p t h) ∙ done))

  delete-Never : (p : Post) → Never (OfPosts (Settled gone p.id)) (Events.delete_post m c p)
  unfolding Events.delete_post soft_delete
  delete-Never p =
      Yields-if m.has_events _ _
        (Yields-run_tx _ (
          Yields-bind (λ a t. ⊥) _ _ (Yields-no_row_is _ _ (Yields-in_tx _ misses))
            (λ a. Yields-absurd _)))
        (Yields-no_row_is _ _ misses)
    where
      misses : Never (OfPosts (Settled gone p.id)) (statement (delete_post c.draws.db_now p))
      misses = Yields-statement _ (λ t a h done.
          err-is_no_ok (sentinel no_rows) (sym (delete_post-misses c.draws.db_now p t h) ∙ done))

module _ (m : Module) (c c' : Call) (p p' : Post) (previous : Bool) (fields : List String) where
  -- From tables whose posts have different ids, after a post was deleted without an error, at every later state of the tables looking it up,
  -- updating it and deleting it again return an error, whatever requests were served since and
  -- whatever the connection does.
  pub deleted_stays_gone :
      (db db' : Db Tables) (a : Post)
      → UniqueIds db.tables.posts
      → (Events.delete_post m c p db).0 ≡ ok a
      → Later m (Events.delete_post m c p db).1.tables db'.tables
      → p'.id ≡ p.id
      → ((a' : Post) → (get_by_id p.id db').0 ≢ ok a')
        × ((a' : Post) → (Events.update_post m c' previous fields p' db').0 ≢ ok a')
        × ((a' : Post) → (Events.delete_post m c' p' db').0 ≢ ok a')
  deleted_stays_gone db db' a unique done later same =
      let settled = (delete_settles m c p).at db a unique done in
      let lasting =
        later-Keeps (Settled gone p.id) (Kept-Settled gone gone-Lasts p.id) m _ db'.tables later
          settled in
      (
        (λ a' done'. (get-Never p.id).at db' a' lasting done'),
        (λ a' done'. (update-Never m c' previous fields p').at db' a' (rw same lasting) done'),
        (λ a' done'. (delete-Never m c' p').at db' a' (rw same lasting) done'),
      )

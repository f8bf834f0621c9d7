-- ===== src/Posts/Locking.antt =====
-- On optimistic locking and soft deletion in internal/modules/post.
use golang_template.Prelude.{
  ℕ, ◌≡◌, ◌≢◌, refl, sym, ◌∙◌, inl, inr, Bool, true, false, ◌&&◌, eqb, ltb, String, List, [], ◌∷◌,
  All, Bool-cases, arith, eqb_iff, eqb_refl, ltb→lt,
}
use golang_template.Errors.{Result, ok, err, sentinel, no_rows}
use golang_template.Storage.{Db, statement}
use golang_template.Storage.Yields.{Yields, Yields-statement, Yields-bind}
use golang_template.Storage.Tx.Laws.{Inside, Yields-in_tx, Yields-run_tx}
use golang_template.Posts.{
  Post, Tables, change_row, bump, update_post, update_where, scan_updated, active, update,
}
use golang_template.Posts.Yielding.{
  err-is_no_ok, Yields-no_row_is, Yields-kept, Yields-if, Yields-absurd, Never,
}
use golang_template.Posts.Events as Events
use golang_template.Posts.Events.{Module, Call, announce_updated, announce_deleted}
use golang_template.Posts.Rows.{UniqueIds, Settled, change_row-settles, change_row-none}
use golang_template.Posts.Keeping.{OfPosts, announce_updated-Keeps}
use golang_template.Posts.Invariants.{Lasts, bump-ok, Kept-Settled}
use golang_template.Posts.Changed.{update_where-true}
use golang_template.Posts.Lasting.{later-Keeps}
use golang_template.Posts.Requests.{Later}

-- A test of rows: their version is past `v`.
abbrev past : ℕ → Post → Bool
past v r = ltb v r.version

past-Lasts : (v : ℕ) → Lasts (past v)
past-Lasts v = record { updates = λ now p r h. ground (arith); deletes = λ now p r h. h }

scan_updated-eq-ok :
    (p : Post) (res : Result Post) (a : Post)
    → scan_updated p res ≡ ok a
    → (r : Post) × (res ≡ ok r)
scan_updated-eq-ok p (ok r) a h = (r, refl)
scan_updated-eq-ok p (err e) a h = cc

-- What the statement of an update leaves when it returns a row.
update_post-settles :
    (now : ℕ) (p : Post) (t : Tables) (a : Post)
    → UniqueIds t.posts
    → (update_post now p t).0 ≡ ok a
    → Settled (past p.version) p.id (update_post now p t).1.posts
unfolding update_post
update_post-settles now p t a unique h =
    let (r, found) =
      scan_updated-eq-ok p (change_row (update_where p) (bump now p) t.posts).0 a h in
    change_row-settles (update_where p) (bump now p) (past p.version) p.id t.posts r unique
      (λ r h. (update_where-true p r h).0)
      (λ r r' h e.
        let (same, current, live) = update_where-true p r h in
        let new = bump-ok now p r r' e in rw (sym new) (same, ground (arith)))
      found

behind : (v w u : ℕ) (b : Bool) → ltb v w ≡ true → u ≡ v → eqb w u && b ≡ false
behind v w u b newer current = elim (Bool-cases (eqb w u)) [
  | inl same ↦ absurd (omega (arith, ltb→lt v w newer, (eqb_iff w u).0 same))
  | inr other ↦ rw other refl
]

-- A row whose version is past that of the caller is not the one it wants.
not_wanted :
    (p r : Post) (v : ℕ) (i : ℕ)
    → p.id ≡ i
    → p.version ≡ v
    → ((eqb r.id i ≡ true) → (past v r ≡ true))
    → update_where p r ≡ false
unfolding update_where
not_wanted p r v i same current h = elim (Bool-cases (eqb r.id p.id)) [
  | inl mine ↦
      let e = (eqb_iff r.id p.id).0 mine in
      let newer = h (rw (e, same) (eqb_refl i)) in
      rw mine (behind v r.version p.version (active r) newer current)
  | inr other ↦ rw other refl
]

none_wanted :
    (p : Post) (v i : ℕ) (rows : List Post)
    → p.id ≡ i
    → p.version ≡ v
    → All (λ r. (eqb r.id i ≡ true) → (past v r ≡ true)) rows
    → All (λ r. update_where p r ≡ false) rows
none_wanted p v i [] same current h = tt
none_wanted p v i (r ∷ rows) same current (h, hs) =
    (not_wanted p r v i same current h, none_wanted p v i rows same current hs)

update_post-misses :
    (now : ℕ) (p : Post) (v i : ℕ) (t : Tables)
    → p.id ≡ i
    → p.version ≡ v
    → Settled (past v) i t.posts
    → (update_post now p t).0 ≡ err (sentinel no_rows)
unfolding update_post
update_post-misses now p v i t same current (there, all) =
    rw
      (change_row-none (update_where p) (bump now p) t.posts
        (none_wanted p v i t.posts same current all))
      refl

module _ (m : Module) (c : Call) (previous : Bool) (fields : List String) (p : Post) where
  update_settles :
      Yields
        (OfPosts UniqueIds)
        (Events.update_post m c previous fields p)
        (λ a. OfPosts (Settled (past p.version) p.id))
  unfolding Events.update_post update
  update_settles =
      Yields-if m.has_events _ _
        (Yields-run_tx _ (
          Yields-bind (λ a. Inside (OfPosts (Settled (past p.version) p.id))) _ _
            (Yields-no_row_is _ _ (Yields-in_tx _ settles))
            (λ a.
              Yields-kept _
                (announce_updated-Keeps (Settled (past p.version) p.id) m c previous fields a))))
        (Yields-no_row_is _ _ settles)
    where
      settles :
          Yields
            (OfPosts UniqueIds)
            (statement (update_post c.draws.db_now p))
            (λ a. OfPosts (Settled (past p.version) p.id))
      settles =
          Yields-statement _ (λ t a unique h. update_post-settles c.draws.db_now p t a unique h)

  update-Never :
      (v : ℕ)
      → p.version ≡ v
      → Never (OfPosts (Settled (past v) p.id)) (Events.update_post m c previous fields p)
  unfolding Events.update_post update
  update-Never v current =
      Yields-if m.has_events _ _
        (Yields-run_tx _ (
          Yields-bind (λ a t. ⊥) _ _ (Yields-no_row_is _ _ (Yields-in_tx _ misses))
            (λ a. Yields-absurd _)))
        (Yields-no_row_is _ _ misses)
    where
      misses : Never (OfPosts (Settled (past v) p.id)) (statement (update_post c.draws.db_now p))
      misses = Yields-statement _ (λ t a h done.
          err-is_no_ok (sentinel no_rows)
            (sym (update_post-misses c.draws.db_now p v p.id t refl current h) ∙ done))

module _ (m : Module) (c c' : Call) (previous previous' : Bool) (fields fields' : List String)
    (p p' : Post) where
  -- From tables whose posts have different ids, two updates that start from the same version of a
  -- post do not both succeed, whatever requests
  -- are served between them and whatever the connection does: when the first returns without an
  -- error, the second returns an error at every later state of the tables.
  pub stale_update_fails :
      (db db' : Db Tables) (a : Post)
      → UniqueIds db.tables.posts
      → (Events.update_post m c previous fields p db).0 ≡ ok a
      → Later m (Events.update_post m c previous fields p db).1.tables db'.tables
      → p'.id ≡ p.id
      → p'.version ≡ p.version
      → (a' : Post) → (Events.update_post m c' previous' fields' p' db').0 ≢ ok a'
  stale_update_fails db db' a unique done later same current a' done' =
      let settled = (update_settles m c previous fields p).at db a unique done in
      let lasting =
        later-Keeps (Settled (past p.version) p.id)
          (Kept-Settled (past p.version) (past-Lasts p.version) p.id) m _ db'.tables later
          settled in
      (update-Never m c' previous' fields' p' p.version current).at db' a' (rw same lasting) done'

-- ===== src/Posts/Deletion.antt =====
-- On the deletion of internal/modules/post/events.go with an outbox, and the version that its
-- event carries.
use golang_template.Prelude.{ℕ, ◌<◌, ◌≡◌, refl, sym, ap, ◌∙◌, ◌⊎◌, true, arith}
use golang_template.Prelude.Int.{pos}
use golang_template.Errors.{ok}
use golang_template.Storage.{Db, ◌>>=◌}
use golang_template.Storage.Yields.{Yields, Yields-statement, Yields-bind}
use golang_template.Storage.Tx.Laws.{
  Inside, InsideResult, Yields-in_tx, Yields-run_tx, run_tx_all_or_nothing,
}
use golang_template.Event.{is_stale}
use golang_template.Posts.{Post, Tables, tx, soft_delete, delete_post}
use golang_template.Posts.Events as Events
use golang_template.Posts.Events.{
  Module, Call, Data, at_least_1, post_event, same_visibility, announce_created, announce_updated,
  announce_deleted, enqueue_new, enqueue_if_changed, type_created, type_updated,
  type_visibility_changed, type_deleted, schema_created, schema_updated, schema_visibility_changed,
  schema_deleted, created_data, updated, visibility_changed, deleted,
}
use golang_template.Posts.Yielding.{Yields-no_row_is}
use golang_template.Posts.Changed.{Deleted, delete_post-Deleted}
use golang_template.Posts.Announced.{Published, enqueue_new-Published}
use golang_template.Posts.Published.{with_events, Yields-when}

-- The tables after the statement of a deletion.
abbrev pub deleted_tables : Call → Post → Tables → Tables
deleted_tables c p t = (delete_post c.draws.db_now p t).1

-- An event of the type for deleted posts about `p`, with the version that the caller read.
abbrev pub DeleteFollowed : Module → Call → Post → Tables → Post → Tables → Type 0
DeleteFollowed m c p t a t' =
    (a.version ≡ p.version)
    × Published m c type_deleted schema_deleted (deleted a.id a.version) a (deleted_tables c p t) t'

-- The outcome of a deletion of `p` with an outbox: the marked row and the event.
abbrev pub DeletedAs : Module → Call → Post → Tables → Post → Tables → Type 0
DeletedAs m c p t a t' =
    Deleted c.draws.db_now p a t (deleted_tables c p t) × DeleteFollowed m c p t a t'

module _ (m : Module) (c : Call) (p : Post) (t : Tables) where
  abbrev Marked : Post → Tables → Type 0
  Marked a t' = Deleted c.draws.db_now p a t (deleted_tables c p t) × (t' ≡ deleted_tables c p t)

  announce_deleted-Published :
      (a : Post)
      → Yields (InsideResult Marked a) (announce_deleted m c a) (InsideResult (DeletedAs m c p t))
  unfolding announce_deleted
  announce_deleted-Published a = record {
    at = λ db b (done, same) h.
        let (mine, published) =
          (enqueue_new-Published m c a (deleted_tables c p t) type_deleted schema_deleted _).at db b
            same h in
        rw mine (done, (done.same_version, published));
  }

  delete-at :
      (t' : Tables) (a : Post)
      → t' ≡ t
      → (delete_post c.draws.db_now p t').0 ≡ ok a
      → Deleted c.draws.db_now p a t (deleted_tables c p t)
  delete-at t' a same done =
      delete_post-Deleted c.draws.db_now p a t
        (ap (λ u. (delete_post c.draws.db_now p u).0) (sym same) ∙ done)

  delete_body-Yields :
      Yields
        (Inside (λ t'. t' ≡ t))
        (soft_delete tx c.draws.db_now p >>= announce_deleted m c)
        (InsideResult (DeletedAs m c p t))
  unfolding soft_delete
  delete_body-Yields =
      Yields-bind (InsideResult Marked) _ _
        (Yields-no_row_is _ _ (
          Yields-in_tx _ (
            Yields-statement _ (λ t' a same done.
              (delete-at t' a same done, ap (λ u. (delete_post c.draws.db_now p u).1) same)))))
        announce_deleted-Published

module _ (m : Module) (c : Call) (p : Post) (db : Db Tables) where
  -- With an outbox, a deletion either leaves the tables as they were, or marks in its place one
  -- live row with the post's id, together with one event of the type for deleted posts about that
  -- id. The version of that event is the one that the caller had read, which need not be the
  -- row's. This holds for every behaviour of the connection.
  pub deleted_with_event :
      m.has_events ≡ true
      → ((Events.delete_post m c p db).1.tables ≡ db.tables)
        ⊎ ((a : Post) × DeletedAs m c p db.tables a (Events.delete_post m c p db).1.tables)
  unfolding Events.delete_post
  deleted_with_event h = with_events db (DeletedAs m c p db.tables) m.has_events _ _ h (
      run_tx_all_or_nothing (λ t. t ≡ db.tables) (DeletedAs m c p db.tables) _ db
        (delete_body-Yields m c p db.tables) refl)

  delete-Yields :
      m.has_events ≡ true
      → Yields (λ t. t ≡ db.tables) (Events.delete_post m c p) (DeletedAs m c p db.tables)
  unfolding Events.delete_post
  delete-Yields h =
      Yields-when m.has_events _ _ h (Yields-run_tx _ (delete_body-Yields m c p db.tables))

stale_below : (n v : ℕ) → n < v → is_stale (pos n) (pos v) ≡ true
unfolding is_stale
stale_below n v h = ground arith

module _ (m : Module) (c : Call) (p a : Post) (db : Db Tables) (v : ℕ) where
  -- A deletion with an outbox, of a post that was read at a version below `v`, returns without an
  -- error only with an event that a consumer which has seen version `v` of the post takes for
  -- stale.
  pub late_deletion_is_stale :
      m.has_events ≡ true
      → at_least_1 p.version < v
      → (Events.delete_post m c p db).0 ≡ ok a
      → (followed : DeleteFollowed m c p db.tables a (Events.delete_post m c p db).1.tables)
        × (is_stale followed.1.announced.event.aggregate_version (pos v) ≡ true)
  late_deletion_is_stale h late done =
      let (marked, followed) = (delete-Yields m c p db h).at db a refl done in
      (
        followed,
        rw (followed.1.announced.versioned, followed.0) (stale_below (at_least_1 p.version) v late),
      )

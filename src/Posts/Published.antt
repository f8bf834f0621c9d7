-- ===== src/Posts/Published.antt =====
-- On the operations of internal/modules/post/events.go with an outbox: a change of a post and
-- the event about it.
use golang_template.Prelude.{
  ◌≡◌, refl, sym, ap, ◌∙◌, ◌⊎◌, Bool, true, false, not, String, List, [], ◌∷◌, if◌then◌else◌,
}
use golang_template.Errors.{ok, ok-injective}
use golang_template.Storage.{Db, Action, pure}
use golang_template.Storage.Yields.{Yields, Yields-statement, Yields-bind}
use golang_template.Storage.Tx.Laws.{Inside, InsideResult, Yields-in_tx, run_tx_all_or_nothing}
use golang_template.Posts.{Post, Tables, update, update_post}
use golang_template.Posts.Events as Events
use golang_template.Posts.Events.{
  Module, Call, Data, at_least_1, post_event, same_visibility, announce_created, announce_updated,
  announce_deleted, enqueue_new, enqueue_if_changed, type_created, type_updated,
  type_visibility_changed, type_deleted, schema_created, schema_updated, schema_visibility_changed,
  schema_deleted, created_data, updated, visibility_changed, deleted, created,
}
use golang_template.Posts.Yielding.{Yields-no_row_is}
use golang_template.Posts.Stored.{with_post, create-Inserts}
use golang_template.Posts.Changed.{Updated, update_post-Updated}
use golang_template.Posts.Announced.{Published, enqueue_new-Published}

-- The tables `t` with the created post `a` in front, and one event about it.
abbrev pub CreatedAs : Module → Call → Tables → Post → Tables → Type 0
CreatedAs m c t a t' =
    Published m c type_created schema_created
      (created a.id a.reference_id a.user_id a.is_visible a.version) a (with_post a t) t'

module _ (m : Module) (c : Call) (t : Tables) where
  announce_created-Published :
      (a : Post)
      → Yields
          (Inside (λ t'. t' ≡ with_post a t))
          (announce_created m c a)
          (InsideResult (CreatedAs m c t))
  unfolding announce_created
  announce_created-Published a = record {
    at = λ db b same h.
        let (mine, published) =
          (enqueue_new-Published m c a (with_post a t) type_created schema_created
              (created_data a)).at
            db b same h in
        rw mine published;
  }

-- The outcome of an operation: the tables as they were, or the changed tables of a returned post.
abbrev pub Outcome : Db Tables → (Post → Tables → Type 0) → Action Tables Post → Type 0
Outcome db Q run = ((run db).1.tables ≡ db.tables) ⊎ ((a : Post) × Q a (run db).1.tables)

pub Yields-when :
    {P : Tables → Type 0} {Q : Post → Tables → Type 0} (b : Bool) (x y : Action Tables Post)
    → b ≡ true
    → Yields P x Q
    → Yields P (λ db. (if b then x else y) db) Q
Yields-when true x y h k = k
Yields-when false x y h k = cc

pub with_events :
    (db : Db Tables) (Q : Post → Tables → Type 0) (b : Bool) (x y : Action Tables Post)
    → b ≡ true
    → Outcome db Q x
    → Outcome db Q (λ db. (if b then x else y) db)
with_events db Q true x y h k = k
with_events db Q false x y h k = cc

module _ (m : Module) (c : Call) (p : Post) (db : Db Tables) where
  -- With an outbox, creating a post either leaves the tables as they were, or stores the post
  -- that the transaction's body made together with one event about it, of the type for created
  -- posts and with the post's id, reference id, owner, visibility and version. This holds for every
  -- behaviour of the connection and whatever reference ids were tried before.
  pub created_with_event :
      m.has_events ≡ true
      → ((Events.create_post m c p db).1.tables ≡ db.tables)
        ⊎ ((a : Post) × CreatedAs m c db.tables a (Events.create_post m c p db).1.tables)
  unfolding Events.create_post
  created_with_event h = with_events db (CreatedAs m c db.tables) m.has_events _ _ h (
      run_tx_all_or_nothing (λ t. t ≡ db.tables) (CreatedAs m c db.tables) _ db
        (Yields-bind (InsideResult (λ a t'. t' ≡ with_post a db.tables)) _ _
          (create-Inserts m.refs c.draws p db.tables) (announce_created-Published m c db.tables))
        refl)

-- The rows of the posts that the statement changed, in tables that are otherwise the same.
abbrev pub updated_tables : Call → Post → Tables → Tables
updated_tables c p t = (update_post c.draws.db_now p t).1

-- What follows an update: an event about the visibility, before and now, if that changed, else one
-- about the changed fields, if there are any.
abbrev pub UpdateFollowed :
    Module → Call → Bool → Bool → List String → Post → Tables → Tables → Type 0
UpdateFollowed m c previous true fields a t t' =
    Published m c type_visibility_changed schema_visibility_changed
      (visibility_changed a.id previous a.is_visible a.version) a t t'
UpdateFollowed m c previous false [] a t t' = t' ≡ t
UpdateFollowed m c previous false (f ∷ fs) a t t' =
    Published m c type_updated schema_updated (updated a.id (f ∷ fs) a.version) a t t'

module _ (m : Module) (c : Call) (previous : Bool) (fields : List String) (t : Tables) where
  follow :
      (b : Bool) (fields : List String) (a : Post)
      → Yields
          (Inside (λ t'. t' ≡ t))
          (λ db.
            (if b
                then enqueue_new m c a (
                    post_event m c a type_visibility_changed schema_visibility_changed
                      (visibility_changed a.id previous a.is_visible a.version))
                else enqueue_if_changed m c fields a)
              db)
          (InsideResult (λ a' t'. (a' ≡ a) × UpdateFollowed m c previous b fields a t t'))
  unfolding pure
  follow true fields a =
      enqueue_new-Published m c a t type_visibility_changed schema_visibility_changed _
  follow false [] a = record { at = λ db a' same h. (sym (ok-injective a a' h), same) }
  follow false (f ∷ fs) a = enqueue_new-Published m c a t type_updated schema_updated _

  announce_updated-follows :
      (a : Post)
      → Yields (Inside (λ t'. t' ≡ t)) (announce_updated m c previous fields a) (
          InsideResult (λ a' t'.
            (a' ≡ a)
            × UpdateFollowed m c previous
                (not (same_visibility previous a.is_visible))
                fields
                a
                t
                t'))
  unfolding announce_updated
  announce_updated-follows a = follow (not (same_visibility previous a.is_visible)) fields a

decided :
    (m : Module) (c : Call) (previous : Bool) (fields : List String) (a : Post) (t t' : Tables)
    {v w : Bool}
    → v ≡ w
    → UpdateFollowed m c previous (not (same_visibility previous v)) fields a t t'
    → UpdateFollowed m c previous (not (same_visibility previous w)) fields a t t'
decided m c previous fields a t t' e h = rw (sym e) h

-- The outcome of an update of `p` with an outbox: the changed row and what follows, which the
-- caller's visibility decides.
abbrev pub UpdatedAs : Module → Call → Post → Bool → List String → Tables → Post → Tables → Type 0
UpdatedAs m c p previous fields t a t' =
    Updated c.draws.db_now p a t (updated_tables c p t)
    × UpdateFollowed m c previous (not (same_visibility previous p.is_visible)) fields a
        (updated_tables c p t) t'

module _ (m : Module) (c : Call) (p : Post) (previous : Bool) (fields : List String)
    (t : Tables) where
  update-at :
      (t' : Tables) (a : Post)
      → t' ≡ t
      → (update_post c.draws.db_now p t').0 ≡ ok a
      → Updated c.draws.db_now p a t (updated_tables c p t)
  update-at t' a same done =
      update_post-Updated c.draws.db_now p a t
        (ap (λ u. (update_post c.draws.db_now p u).0) (sym same) ∙ done)

  announced-UpdatedAs :
      (a : Post)
      → Yields
          (InsideResult
            (λ a t'.
              Updated c.draws.db_now p a t (updated_tables c p t) × (t' ≡ updated_tables c p t))
            a)
          (announce_updated m c previous fields a)
          (InsideResult (UpdatedAs m c p previous fields t))
  announced-UpdatedAs a = record {
    at = λ db a' (done, same) h.
        let (mine, followed) =
          (announce_updated-follows m c previous fields (updated_tables c p t) a).at db a' same h in
        rw mine (done, decided m c previous fields a _ _ done.same_visible followed);
  }

module _ (m : Module) (c : Call) (p : Post) (db : Db Tables) where
  -- With an outbox, an update either leaves the tables as they were, or changes in its place one
  -- live row with the post's id and the version that the caller read, together with what must
  -- follow: one event of the type for a changed visibility if the caller's visibility differs from
  -- the one before, one of the type for updates if it does not and some field was set, and none
  -- otherwise. The event is about the post's id, at the row's next version, and says the
  -- visibility before and now, or the fields. This holds for every behaviour of the connection.
  pub updated_with_event :
      (previous : Bool) (fields : List String)
      → m.has_events ≡ true
      → ((Events.update_post m c previous fields p db).1.tables ≡ db.tables)
        ⊎ ((a : Post) × UpdatedAs m c p previous fields db.tables a
              (Events.update_post m c previous fields p db).1.tables)
  unfolding Events.update_post update
  updated_with_event previous fields h =
      with_events db (UpdatedAs m c p previous fields db.tables) m.has_events _ _ h (
        run_tx_all_or_nothing (λ t. t ≡ db.tables) (UpdatedAs m c p previous fields db.tables) _ db
          (Yields-bind
            (InsideResult (λ a t'.
              Updated c.draws.db_now p a db.tables (updated_tables c p db.tables)
              × (t' ≡ updated_tables c p db.tables)))
            _ _
            (Yields-no_row_is _ _ (
              Yields-in_tx _ (
                Yields-statement _ (λ t a same done. (
                  update-at m c p previous fields db.tables t a same done,
                  ap (λ u. (update_post c.draws.db_now p u).1) same,
                )))))
            (announced-UpdatedAs m c p previous fields db.tables))
          refl)

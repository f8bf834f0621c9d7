-- ===== src/Posts/Keeping.antt =====
-- Predicates on the rows of `posts` under the statements of internal/modules/post/store.go and
-- the operations of internal/modules/post/events.go.
use golang_template.Prelude.{ℕ, zero, suc, Bool, String, List, [], ◌∷◌, Option, none, some}
use golang_template.Errors.{Err, Result, ok, err, map_error}
use golang_template.Storage.{Action, attempt, statement, raise}
use golang_template.Storage.Keeps.{
  Keeps, Keeps-statement, Keeps-pure, Keeps-raise, Keeps-if, Keeps-bind,
}
use golang_template.Storage.Tx.Laws.{Inside, Keeps-in_tx, Keeps-run_tx, Keeps-focus}
use golang_template.Event.{Event}
use golang_template.Refid.{Generator, next, max_tries}
use golang_template.Posts.{
  Post, Tables, Querier, Draws, pool, tx, insert_post, update_post, delete_post, create,
  create_loop, update, soft_delete, insert_with, after_insert, give_up, no_row_is, ref_code,
  with_reference,
}
use golang_template.Posts.Events as Events
use golang_template.Posts.Events.{
  Module, Call, enqueue_post, enqueue_new, enqueue_if_changed, announce_created, announce_updated,
  announce_deleted,
}

-- A predicate on the rows that the three writing statements keep.
pub record Kept (P : List Post → Type 0) : Type 0 where
  pub insert : (id now : ℕ) (p : Post) (t : Tables) → P t.posts → P (insert_post id now p t).1.posts
  pub update : (now : ℕ) (p : Post) (t : Tables) → P t.posts → P (update_post now p t).1.posts
  pub delete : (now : ℕ) (p : Post) (t : Tables) → P t.posts → P (delete_post now p t).1.posts

abbrev pub OfPosts : (List Post → Type 0) → Tables → Type 0
OfPosts P t = P t.posts

pub Keeps-attempt :
    {S A B : Type 0} {P : S → Type 0} (m : Action S A) (k : Result A → Action S B)
    → Keeps P m
    → ((r : Result A) → Keeps P (k r))
    → Keeps P (attempt m k)
unfolding attempt
Keeps-attempt m k km kk = record { at = λ db p. let (r, d) = m db in (kk r).at d (km.at db p) }

-- A way to run a query keeps what the query keeps.
abbrev pub Runs : {T : Type 0} → (Tables → Type 0) → (T → Type 0) → Querier T → Type 0
Runs P P' db =
    (f : Tables → Result Post × Tables) → ((t : Tables) → P t → P (f t).1) → Keeps P' (db f)

pub Runs-pool : (P : Tables → Type 0) → Runs P P pool
Runs-pool P f k = Keeps-statement f k

pub Runs-tx : (P : Tables → Type 0) → Runs P (Inside P) tx
Runs-tx P f k = Keeps-in_tx (statement f) (Keeps-statement f k)

module _ {T : Type 0} {P : T → Type 0} where
  pub no_row_is-Keeps : (e : Err) (r : Result Post) → Keeps P (no_row_is e r)
  no_row_is-Keeps e (ok p) = Keeps-pure p
  no_row_is-Keeps e (err x) = Keeps-if _ (raise e) (raise x) (Keeps-raise e) (Keeps-raise x)

  give_up-Keeps : (last : Option Err) (p : Post) → Keeps P (give_up last p)
  give_up-Keeps none p = Keeps-pure p
  give_up-Keeps (some e) p = Keeps-if _ _ _ (Keeps-raise _) (Keeps-raise _)

  after_insert-Keeps :
      (again : Err → Action T Post) (r : Result Post)
      → ((e : Err) → Keeps P (again e))
      → Keeps P (after_insert again r)
  after_insert-Keeps again (ok p) k = Keeps-pure p
  after_insert-Keeps again (err e) k =
      Keeps-if _ (again e) (raise (map_error e)) (k e) (Keeps-raise _)

module _ {T : Type 0} (P : List Post → Type 0) (P' : T → Type 0) (db : Querier T) (kept : Kept P)
    (runs : Runs (OfPosts P) P' db) where
  insert_with-Keeps :
      (refs : Option Generator) (draws : Draws) (p : Post) (i : ℕ) (again : Err → Action T Post)
      (ref : Result String)
      → ((e : Err) → Keeps P' (again e))
      → Keeps P' (insert_with db refs draws p i again ref)
  insert_with-Keeps refs draws p i again (err e) k = Keeps-raise e
  insert_with-Keeps refs draws p i again (ok ref) k =
      Keeps-attempt _ _
        (runs (insert_post (draws.new_id i) draws.db_now (with_reference ref p))
          (kept.insert (draws.new_id i) draws.db_now (with_reference ref p)))
        (λ r. after_insert-Keeps again r k)

  create_loop-Keeps :
      (refs : Option Generator) (draws : Draws) (p : Post) (left i : ℕ) (last : Option Err)
      → Keeps P' (create_loop db refs draws p left i last)
  unfolding create_loop
  create_loop-Keeps refs draws p zero i last = give_up-Keeps last p
  create_loop-Keeps refs draws p (suc left) i last =
      insert_with-Keeps refs draws p i _ (next refs ref_code (draws.bytes i))
        (λ e. create_loop-Keeps refs draws p left (suc i) (some e))

  pub create-Keeps :
      (refs : Option Generator) (draws : Draws) (p : Post) → Keeps P' (create db refs draws p)
  unfolding create
  create-Keeps refs draws p = create_loop-Keeps refs draws p max_tries 0 none

  pub update-Keeps : (now : ℕ) (p : Post) → Keeps P' (update db now p)
  unfolding update
  update-Keeps now p =
      Keeps-attempt _ _ (runs (update_post now p) (kept.update now p)) (λ r. no_row_is-Keeps _ r)

  pub soft_delete-Keeps : (now : ℕ) (p : Post) → Keeps P' (soft_delete db now p)
  unfolding soft_delete
  soft_delete-Keeps now p =
      Keeps-attempt _ _ (runs (delete_post now p) (kept.delete now p)) (λ r. no_row_is-Keeps _ r)

-- The outbox is another table.
module _ (P : List Post → Type 0) (m : Module) (c : Call) where
  enqueue_post-Keeps : (p : Post) (e : Event) → Keeps (Inside (OfPosts P)) (enqueue_post m c p e)
  unfolding enqueue_post
  enqueue_post-Keeps p e = Keeps-in_tx _ (Keeps-focus _ _ _ (λ s t h. h))

  enqueue_new-Keeps :
      (p : Post) (e : Result Event) → Keeps (Inside (OfPosts P)) (enqueue_new m c p e)
  enqueue_new-Keeps p (err e) = Keeps-raise e
  enqueue_new-Keeps p (ok e) = Keeps-bind _ _ (enqueue_post-Keeps p e) (λ _. Keeps-pure p)

  pub announce_created-Keeps : (p : Post) → Keeps (Inside (OfPosts P)) (announce_created m c p)
  unfolding announce_created
  announce_created-Keeps p = enqueue_new-Keeps p _

  enqueue_if_changed-Keeps :
      (fields : List String) (p : Post)
      → Keeps (Inside (OfPosts P)) (enqueue_if_changed m c fields p)
  enqueue_if_changed-Keeps [] p = Keeps-pure p
  enqueue_if_changed-Keeps (f ∷ fs) p = enqueue_new-Keeps p _

  pub announce_updated-Keeps :
      (previous : Bool) (fields : List String) (p : Post)
      → Keeps (Inside (OfPosts P)) (announce_updated m c previous fields p)
  unfolding announce_updated
  announce_updated-Keeps previous fields p =
      Keeps-if _ _ _ (enqueue_new-Keeps p _) (enqueue_if_changed-Keeps fields p)

  pub announce_deleted-Keeps : (p : Post) → Keeps (Inside (OfPosts P)) (announce_deleted m c p)
  unfolding announce_deleted
  announce_deleted-Keeps p = enqueue_new-Keeps p _

-- The operations of the module keep it, with and without events.
module _ (P : List Post → Type 0) (kept : Kept P) (m : Module) (c : Call) where
  pub create_post-Keeps : (p : Post) → Keeps (OfPosts P) (Events.create_post m c p)
  unfolding Events.create_post
  create_post-Keeps p =
      Keeps-if m.has_events _ _
        (Keeps-run_tx _ (
          Keeps-bind _ _ (create-Keeps P _ tx kept (Runs-tx (OfPosts P)) m.refs c.draws p)
            (announce_created-Keeps P m c)))
        (create-Keeps P _ pool kept (Runs-pool (OfPosts P)) m.refs c.draws p)

  pub update_post-Keeps :
      (previous : Bool) (fields : List String) (p : Post)
      → Keeps (OfPosts P) (Events.update_post m c previous fields p)
  unfolding Events.update_post
  update_post-Keeps previous fields p =
      Keeps-if m.has_events _ _
        (Keeps-run_tx _ (
          Keeps-bind _ _ (update-Keeps P _ tx kept (Runs-tx (OfPosts P)) c.draws.db_now p)
            (announce_updated-Keeps P m c previous fields)))
        (update-Keeps P _ pool kept (Runs-pool (OfPosts P)) c.draws.db_now p)

  pub delete_post-Keeps : (p : Post) → Keeps (OfPosts P) (Events.delete_post m c p)
  unfolding Events.delete_post
  delete_post-Keeps p =
      Keeps-if m.has_events _ _
        (Keeps-run_tx _ (
          Keeps-bind _ _ (soft_delete-Keeps P _ tx kept (Runs-tx (OfPosts P)) c.draws.db_now p)
            (announce_deleted-Keeps P m c)))
        (soft_delete-Keeps P _ pool kept (Runs-pool (OfPosts P)) c.draws.db_now p)

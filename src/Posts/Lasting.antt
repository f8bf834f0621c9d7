-- ===== src/Posts/Lasting.antt =====
-- Predicates on the rows of `posts` along the requests of internal/modules/post.
use golang_template.Prelude.{ℕ, Bool, String, List, Option, none, some}
use golang_template.Errors.{Err, Result, ok, err}
use golang_template.Storage.{Db, Action}
use golang_template.Storage.Keeps.{Keeps, Keeps-statement}
use golang_template.Authz.{Principal}
use golang_template.Posts.{Post, Tables, get_post, get_by_id, get_by_reference_id}
use golang_template.Posts.Events.{Module}
use golang_template.Posts.Handlers.{
  audit, Request, CreatePostPayload, UpdatePostPayload, Handler, Reply, create_post_handler,
  create_as, get_post_handler, update_post_handler, update_as, delete_post_handler, delete_as,
  posts_context_middleware, finish, lookup, with_post,
}
use golang_template.Posts.Keeping.{
  Kept, OfPosts, Keeps-attempt, no_row_is-Keeps, create_post-Keeps, update_post-Keeps,
  delete_post-Keeps,
}
use golang_template.Posts.Requests.{ApiCall, create, get, update, delete, serve, Later, here, after}

-- A handler leaves rows that meet `P` if it finds such rows.
abbrev KeptBy : (List Post → Type 0) → Handler → Type 0
KeptBy P h = (db : Db Tables) → P db.tables.posts → P (h db).1.tables.posts

module _ (P : List Post → Type 0) where
  finish-Keeps :
      (m : Module) (rq : Request) (action : String) (status : Err → ℕ) (reply : Post → Reply)
      (run : Action Tables Post)
      → Keeps (OfPosts P) run
      → KeptBy P (λ db. finish m rq action status reply (run db))
  unfolding audit
  finish-Keeps m rq action status reply run k db p = left_by (run db).0 (run db).1 (k.at db p)
    where
      left_by :
          (r : Result Post) (d : Db Tables)
          → P d.tables.posts
          → P (finish m rq action status reply (r, d)).1.tables.posts
      left_by (ok a) d h = h
      left_by (err e) d h = h

  get_post-Keeps : (wanted : Post → Bool) → Keeps (OfPosts P) (get_post wanted)
  unfolding get_post
  get_post-Keeps wanted =
      Keeps-attempt _ _ (Keeps-statement _ (λ t h. h)) (λ r. no_row_is-Keeps _ r)

  lookup-Keeps :
      (m : Module) (id_param : String) (id : Option ℕ) → Keeps (OfPosts P) (lookup m id_param id)
  unfolding get_by_id get_by_reference_id
  lookup-Keeps m id_param (some id) = get_post-Keeps _
  lookup-Keeps m id_param none = get_post-Keeps _

  with_post-Keeps :
      (next : Post → Handler) (r : Result Post) (db : Db Tables)
      → ((p : Post) → KeptBy P (next p))
      → P db.tables.posts
      → P (with_post next (r, db)).1.tables.posts
  with_post-Keeps next (ok p) db k h = k p db h
  with_post-Keeps next (err e) db k h = h

  middleware-Keeps :
      (m : Module) (id_param : String) (next : Post → Handler)
      → ((p : Post) → KeptBy P (next p))
      → KeptBy P (posts_context_middleware m id_param next)
  unfolding posts_context_middleware
  middleware-Keeps m id_param next k db h =
      let run = lookup m id_param (m.codec.parse_uuid id_param) in
      with_post-Keeps next (run db).0 (run db).1 k ((lookup-Keeps m id_param _).at db h)

module _ (P : List Post → Type 0) (kept : Kept P) (m : Module) where
  create_as-Keeps :
      (rq : Request) (payload : CreatePostPayload) (who : Option Principal)
      → KeptBy P (create_as m rq payload who)
  create_as-Keeps rq payload none db h = h
  create_as-Keeps rq payload (some who) db h =
      finish-Keeps P m rq _ _ _ _ (create_post-Keeps P kept m rq.call _) db h

  create_handler-Keeps :
      (rq : Request) (payload : Result CreatePostPayload)
      → KeptBy P (create_post_handler m rq payload)
  unfolding create_post_handler
  create_handler-Keeps rq (err e) db h = h
  create_handler-Keeps rq (ok payload) db h = create_as-Keeps rq payload rq.principal db h

  update_as-Keeps :
      (rq : Request) (p : Post) (u : UpdatePostPayload) (who : Option Principal)
      → KeptBy P (update_as m rq p u who)
  update_as-Keeps rq p u none db h = h
  update_as-Keeps rq p u (some who) db h =
      finish-Keeps P m rq _ _ _ _ (update_post-Keeps P kept m rq.call _ _ _) db h

  update_handler-Keeps :
      (rq : Request) (p : Post) (u : Result UpdatePostPayload)
      → KeptBy P (update_post_handler m rq p u)
  unfolding update_post_handler
  update_handler-Keeps rq p (err e) db h = h
  update_handler-Keeps rq p (ok u) db h = update_as-Keeps rq p u rq.principal db h

  delete_as-Keeps :
      (rq : Request) (p : Post) (who : Option Principal) → KeptBy P (delete_as m rq p who)
  delete_as-Keeps rq p none db h = h
  delete_as-Keeps rq p (some who) db h =
      finish-Keeps P m rq _ _ _ _ (delete_post-Keeps P kept m rq.call _) db h

  delete_handler-Keeps : (rq : Request) (p : Post) → KeptBy P (delete_post_handler m rq p)
  unfolding delete_post_handler
  delete_handler-Keeps rq p db h = delete_as-Keeps rq p rq.principal db h

  serve-Keeps : (q : ApiCall) → KeptBy P (serve m q)
  unfolding serve get_post_handler
  serve-Keeps (create rq payload) db h = create_handler-Keeps rq payload db h
  serve-Keeps (get id_param) db h = middleware-Keeps P m id_param _ (λ p d k. k) db h
  serve-Keeps (update rq id_param u) db h =
      middleware-Keeps P m id_param _ (λ p. update_handler-Keeps rq p u) db h
  serve-Keeps (delete rq id_param) db h =
      middleware-Keeps P m id_param _ (λ p. delete_handler-Keeps rq p) db h

  -- What the statements keep, every sequence of requests keeps.
  pub later-Keeps : (t u : Tables) → Later m t u → P t.posts → P u.posts
  later-Keeps t u (here _) h = h
  later-Keeps t u (after _ _ q faults rest) h = later-Keeps _ u rest (serve-Keeps q _ h)

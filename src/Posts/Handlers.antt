-- ===== src/Posts/Handlers.antt =====
-- internal/modules/post/handler.go and internal/platform/stamp: the handlers of a post.
--
-- `httpx.ReadJSON` with the check of the payload gives the payload or an error. The post of the
-- request's context is what the middleware found. A pointer field of a payload is an option, a
-- nil slice of tags too. The body of an answer is `Reply`; writing it out is not modelled.
use golang_template.Prelude.{
  ℕ, eqb, String, Bool, true, ◌==◌, ◌||◌, ◌++◌, if◌then◌else◌, List, [], ◌∷◌, Option, none, some,
}
use golang_template.Errors.{
  Err, not_found, version_mismatch, conflict, message, Result, ok, err, is,
}
use golang_template.Storage.{Action, Db}
use golang_template.Authz.{Principal}
use golang_template.Audit as Audit
use golang_template.Posts.{Post, Tables, get_by_id, get_by_reference_id}
use golang_template.Posts.Events.{Module, Call, create_post, update_post, delete_post}

pub record CreatePostPayload : Type 0 where
  pub title : String
  pub content : String
  pub tags : List String
  pub metadata : String

pub record UpdatePostPayload : Type 0 where
  pub title : Option String
  pub content : Option String
  pub tags : Option (List String)
  pub is_visible : Option Bool
  pub metadata : String

pub record Request : Type 0 where
  pub principal : Option Principal
  pub remote_addr : String
  pub call : Call
  pub audit_meta : Post → Result String

pub data Reply : Type 0 where
  created : Post → Reply
  found : Post → Reply
  no_content : Reply
  refused : (status : ℕ) → Err → Reply

-- stamp.Ptr
unfoldable pub ptr : ℕ → Option ℕ
ptr id = if eqb id 0 then none else some id

abbrev pub err_unauthorized : Err
err_unauthorized = message "unauthorized"

abbrev put_audit : List Audit.Row → Tables → Tables
put_audit rows t = record t { audit = rows }

abbrev audit_request : Request → Audit.Request
audit_request rq = record {
  principal = rq.principal;
  request_id = rq.call.request_id;
  remote_addr = rq.remote_addr;
}

abbrev left_audit : Db Tables → Db (List Audit.Row) → Db Tables
left_audit db d = record { tables = put_audit d.tables db.tables; faults = d.faults }

-- `audit.Record` about a post.
unfoldable pub audit : Module → Request → String → Post → Db Tables → Db Tables
audit m rq action p db = left_audit db (
    Audit.write m.has_audit db.tables.users (audit_request rq) action "post" (m.uuid_text p.id)
      (rq.audit_meta p) (record { tables = db.tables.audit; faults = db.faults }))

abbrev pub Handler : Type 0
Handler = Db Tables → Reply × Db Tables

abbrev pub refuse : ℕ → Err → Handler
refuse status e db = (refused status e, db)

-- Answer a finished change: with an error's status, or audited and with its post.
abbrev pub finish :
    Module
    → Request
    → String
    → (Err → ℕ)
    → (Post → Reply)
    → Result Post × Db Tables
    → Reply × Db Tables
finish m rq action status reply (err e, db) = (refused (status e) e, db)
finish m rq action status reply (ok p, db) = (reply p, audit m rq action p db)

abbrev pub new_post : Principal → CreatePostPayload → Post
new_post principal payload = record {
  id = 0;
  reference_id = "";
  user_id = principal.id;
  title = payload.title;
  content = payload.content;
  tags = payload.tags;
  version = 0;
  is_visible = true;
  metadata = payload.metadata;
  created_at = 0;
  updated_at = 0;
  created_by = ptr principal.id;
  updated_by = ptr principal.id;
  deleted_at = none;
  deleted_by = none;
}

abbrev pub create_status : Err → ℕ
create_status e = 500

abbrev pub create_as : Module → Request → CreatePostPayload → Option Principal → Handler
create_as m rq payload none = refuse 401 err_unauthorized
create_as m rq payload (some principal) = λ db.
    finish m rq "create" create_status created
      (create_post m rq.call (new_post principal payload) db)

unfoldable pub create_post_handler : Module → Request → Result CreatePostPayload → Handler
create_post_handler m rq (err e) = refuse 400 e
create_post_handler m rq (ok payload) = create_as m rq payload rq.principal

unfoldable pub get_post_handler : Post → Handler
get_post_handler p db = (found p, db)

-- The fields that the payload sets, and the names of those that count as changed.
abbrev pub set_title : Option String → Post → Post
set_title none p = p
set_title (some title) p = record p { title = title }

abbrev pub set_content : Option String → Post → Post
set_content none p = p
set_content (some content) p = record p { content = content }

abbrev pub set_tags : Option (List String) → Post → Post
set_tags none p = p
set_tags (some tags) p = record p { tags = tags }

abbrev pub set_visible : Option Bool → Post → Post
set_visible none p = p
set_visible (some v) p = record p { is_visible = v }

abbrev pub set_metadata : String → Post → Post
set_metadata m p = if m == "" || m == "null" then p else record p { metadata = m }

unfoldable pub apply_update : UpdatePostPayload → Post → Post
apply_update u p =
    set_metadata u.metadata
      (set_visible u.is_visible (set_tags u.tags (set_content u.content (set_title u.title p))))

abbrev pub name_if_set {ℓ} : {A : Type ℓ} → String → Option A → List String
name_if_set name none = []
name_if_set name (some a) = name ∷ []

unfoldable pub changed_fields : UpdatePostPayload → List String
changed_fields u =
    name_if_set "title" u.title
    ++ name_if_set "content" u.content
    ++ name_if_set "tags" u.tags
    ++ (if u.metadata == "" || u.metadata == "null" then [] else "metadata" ∷ [])

unfoldable pub update_status : Err → ℕ
update_status e =
    if is e not_found then 404 else if is e version_mismatch || is e conflict then 409 else 500

abbrev pub update_as : Module → Request → Post → UpdatePostPayload → Option Principal → Handler
update_as m rq p u none = refuse 401 err_unauthorized
update_as m rq p u (some principal) = λ db. finish m rq "update" update_status found (
    update_post m rq.call p.is_visible (changed_fields u)
      (record (apply_update u p) { updated_by = ptr principal.id }) db)

unfoldable pub update_post_handler : Module → Request → Post → Result UpdatePostPayload → Handler
update_post_handler m rq p (err e) = refuse 400 e
update_post_handler m rq p (ok u) = update_as m rq p u rq.principal

unfoldable pub delete_status : Err → ℕ
delete_status e = if is e not_found then 404 else 500

abbrev no_body : Post → Reply
no_body p = no_content

abbrev pub delete_as : Module → Request → Post → Option Principal → Handler
delete_as m rq p none = refuse 401 err_unauthorized
delete_as m rq p (some principal) = λ db.
    finish m rq "delete" delete_status no_body
      (delete_post m rq.call (record p { deleted_by = ptr principal.id }) db)

unfoldable pub delete_post_handler : Module → Request → Post → Handler
delete_post_handler m rq p = delete_as m rq p rq.principal

abbrev pub lookup : Module → String → Option ℕ → Action Tables Post
lookup m id_param (some id) = get_by_id id
lookup m id_param none = get_by_reference_id m.to_upper id_param

abbrev pub with_post : (Post → Handler) → Result Post × Db Tables → Reply × Db Tables
with_post next (ok p, db) = next p db
with_post next (err e, db) = (refused (delete_status e) e, db)

-- The middleware: the post by its id, or by its reference id where the parameter is no UUID.
unfoldable pub posts_context_middleware : Module → String → (Post → Handler) → Handler
posts_context_middleware m id_param next db =
    with_post next (lookup m id_param (m.codec.parse_uuid id_param) db)

unfoldable pub post_owner_id : Option Post → ℕ
post_owner_id none = 0
post_owner_id (some p) = p.user_id

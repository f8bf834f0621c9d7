-- ===== src/Posts/Events.antt =====
-- internal/modules/post/events.go: a change of a post and the event about it, in one transaction
-- (or the change alone, where the module has no outbox).
use golang_template.Prelude.{
  ℕ, String, Bool, true, false, not, ◌==◌, ◌<>◌, if◌then◌else◌, List, [], ◌∷◌, ltb, Option,
}
use golang_template.Prelude.Int.{pos}
use golang_template.Errors.{Result, ok, err}
use golang_template.Storage.{Action, raise, pure, ◌>>=◌}
use golang_template.Storage.Tx.{Tx, in_tx, run_tx, focus}
use golang_template.Refid.{Generator}
use golang_template.Event.{Event, Codec, NewParams, new}
use golang_template.Outbox as Outbox
use golang_template.Posts.{Post, Tables, Draws, pool, tx, create, update, soft_delete}

-- The `data` of an event. `visibility_changed` has the visibility before and after.
pub data Data : Type 0 where
  created :
      (post_id : ℕ) (reference_id : String) (owner_user_id : ℕ) (is_visible : Bool) (version : ℕ)
      → Data
  updated : (post_id : ℕ) (changed_fields : List String) (version : ℕ) → Data
  visibility_changed : (post_id : ℕ) (previous_visibility is_visible : Bool) (version : ℕ) → Data
  deleted : (post_id version : ℕ) → Data

-- The module's settings, with `json.Marshal` of the data and of the headers, and
-- `uuid.UUID.String`. `has_events` says that `events` is not nil.
pub record Module : Type 0 where
  pub codec : Codec
  pub marshal_data : Data → Result String
  pub marshal_headers : List (String × String) → String
  pub uuid_text : ℕ → String
  pub to_upper : String → String
  pub refs : Option Generator
  pub has_events : Bool
  pub event_topic : String
  pub event_source : String
  pub has_audit : Bool

-- What a request carries, and what is drawn while it is served: `uuid.NewV7`, `uuid.NewString`
-- and `time.Now` of the event, and the draws of the store.
pub record Call : Type 0 where
  pub request_id : String
  pub trace_parent : String
  pub draws : Draws
  pub event_id : Result ℕ
  pub fresh_correlation : String
  pub now : ℕ

abbrev pub at_least_1 : ℕ → ℕ
at_least_1 n = if ltb n 1 then 1 else n

abbrev pub params : Module → Call → Post → String → String → NewParams
params m c p event_type schema_uri = record {
  source = m.event_source;
  event_type = event_type;
  subject = "urn:post:" <> m.uuid_text p.id;
  data_schema = schema_uri;
  correlation_id = c.request_id;
  causation_id = "";
  trace_parent = c.trace_parent;
  aggregate_version = pos (at_least_1 p.version);
}

unfoldable pub post_event : Module → Call → Post → String → String → Data → Result Event
post_event m c p event_type schema_uri data_ =
    new m.codec (params m c p event_type schema_uri) (m.marshal_data data_) c.event_id
      c.fresh_correlation c.now

abbrev header_if_set : String → String → List (String × String) → List (String × String)
header_if_set key value rest = if not (value == "") then (key, value) ∷ rest else rest

unfoldable pub event_headers : Call → List (String × String)
event_headers c =
    header_if_set "correlation-id" c.request_id (header_if_set "traceparent" c.trace_parent [])

abbrev pub put_outbox : List Outbox.Row → Tables → Tables
put_outbox rows t = record t { outbox = rows }

abbrev pub outbox_of : Tables → List Outbox.Row
outbox_of t = t.outbox

-- `Enqueue` in the caller's transaction.
unfoldable pub enqueue_post : Module → Call → Post → Event → Action (Tx Tables) (Unit {0})
enqueue_post m c p e = in_tx (
    focus outbox_of put_outbox (
      Outbox.enqueue m.codec m.event_topic (m.uuid_text p.id) "post" e
        (m.marshal_headers (event_headers c)) c.draws.db_now))

abbrev pub enqueue_new : Module → Call → Post → Result Event → Action (Tx Tables) Post
enqueue_new m c p (err e) = raise e
enqueue_new m c p (ok e) = enqueue_post m c p e >>= λ _. pure p

abbrev pub type_created : String
type_created = "dev.yab1.golangtemplate.post.created.v1"

abbrev pub type_updated : String
type_updated = "dev.yab1.golangtemplate.post.updated.v1"

abbrev pub type_visibility_changed : String
type_visibility_changed = "dev.yab1.golangtemplate.post.visibility-changed.v1"

abbrev pub type_deleted : String
type_deleted = "dev.yab1.golangtemplate.post.deleted.v1"

abbrev pub schema_created : String
schema_created = "/docs/eventing/schemas/post-created.v1.schema.json"

abbrev pub schema_updated : String
schema_updated = "/docs/eventing/schemas/post-updated.v1.schema.json"

abbrev pub schema_visibility_changed : String
schema_visibility_changed = "/docs/eventing/schemas/post-visibility-changed.v1.schema.json"

abbrev pub schema_deleted : String
schema_deleted = "/docs/eventing/schemas/post-deleted.v1.schema.json"

abbrev pub created_data : Post → Data
created_data p = created p.id p.reference_id p.user_id p.is_visible p.version

unfoldable pub announce_created : Module → Call → Post → Action (Tx Tables) Post
announce_created m c p =
    enqueue_new m c p (post_event m c p type_created schema_created (created_data p))

-- `create` of the module.
unfoldable pub create_post : Module → Call → Post → Action Tables Post
create_post m c p =
    if m.has_events
    then run_tx (create tx m.refs c.draws p >>= announce_created m c)
    else create pool m.refs c.draws p

abbrev pub same_visibility : Bool → Bool → Bool
same_visibility true b = b
same_visibility false b = not b

abbrev pub enqueue_if_changed : Module → Call → List String → Post → Action (Tx Tables) Post
enqueue_if_changed m c [] p = pure p
enqueue_if_changed m c (f ∷ fs) p =
    enqueue_new m c p
      (post_event m c p type_updated schema_updated (updated p.id (f ∷ fs) p.version))

-- An update that changes the visibility is announced as that; any other by its changed fields,
-- and not at all without any.
unfoldable pub announce_updated :
    Module → Call → Bool → List String → Post → Action (Tx Tables) Post
announce_updated m c previous_visible changed p =
    if not (same_visibility previous_visible p.is_visible)
    then enqueue_new m c p (
        post_event m c p type_visibility_changed schema_visibility_changed
          (visibility_changed p.id previous_visible p.is_visible p.version))
    else enqueue_if_changed m c changed p

unfoldable pub update_post : Module → Call → Bool → List String → Post → Action Tables Post
update_post m c previous_visible changed p =
    if m.has_events
    then run_tx (update tx c.draws.db_now p >>= announce_updated m c previous_visible changed)
    else update pool c.draws.db_now p

unfoldable pub announce_deleted : Module → Call → Post → Action (Tx Tables) Post
announce_deleted m c p =
    enqueue_new m c p (post_event m c p type_deleted schema_deleted (deleted p.id p.version))

unfoldable pub delete_post : Module → Call → Post → Action Tables Post
delete_post m c p =
    if m.has_events
    then run_tx (soft_delete tx c.draws.db_now p >>= announce_deleted m c)
    else soft_delete pool c.draws.db_now p

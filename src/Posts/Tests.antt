-- ===== src/Posts/Tests.antt =====
-- Runs of internal/modules/post on concrete tables, and the theorems about it at them.
use golang_template.Prelude.{
  ℕ, zero, suc, ◌<◌, ◌≡◌, ◌≢◌, refl, ◌⊎◌, Bool, true, false, [], ◌∷◌, none, some, arith,
}
use golang_template.Errors.{Result, ok, err, pg_error, is, pg_matches}
use golang_template.Storage.{Db, with_tx, ◌>>=◌, statement, pure, attempt, raise}
use golang_template.Storage.Tx.{run_tx, body, in_tx, focus, from_server}
use golang_template.Outbox as Outbox
use golang_template.Outbox.{has_row, new_row, to_seconds}
use golang_template.Posts as Posts
use golang_template.Event.{Codec, is_stale, new, validate, envelope}
use golang_template.Prelude.Int.{pos}
use golang_template.Posts.{
  Post, Tables, Draws, update, soft_delete, update_where, delete_where, meta_or_empty, insert_post,
  get_by_id, err_exhausted, with_reference,
}
use golang_template.Posts.Events as Events
use golang_template.Posts.Events.{
  same_visibility, enqueue_post, event_headers, post_event, Module, Call, type_created,
  type_deleted,
}
use golang_template.Posts.Requests.{get, serve, here, after}
use golang_template.Posts.Stored.{with_post}
use golang_template.Posts.Published.{CreatedAs, UpdatedAs, created_with_event, updated_with_event}
use golang_template.Posts.Deletion.{
  DeleteFollowed, DeletedAs, deleted_with_event, late_deletion_is_stale,
}
use golang_template.Posts.Creating.{
  TakenAt, FreeAt, steady, refused_statement, create_finds_free, create_exhausted, create_gives_up,
}
use golang_template.Posts.Locking.{stale_update_fails}
use golang_template.Posts.Gone.{deleted_stays_gone}
use golang_template.Refid.{next, normalize, pad, keep_letters, suffix, suffix_char}

abbrev codec : Codec
codec = record {
  parse_uuid = λ s. some 1;
  json_valid = λ s. true;
  unmarshal = λ s. err (pg_error "" "");
  marshal = λ e. ok "event";
}

abbrev module_with : Bool → Module
module_with events = record {
  codec = codec;
  marshal_data = λ d. ok "{}";
  marshal_headers = λ h. "{}";
  uuid_text = λ n. "7";
  to_upper = λ s. s;
  refs = none;
  has_events = events;
  event_topic = "dev.post.events.v1";
  event_source = "/post";
  has_audit = false;
}

-- The bytes of the tries: the first try draws AAAAA, a later one BBBBB where `later` says so.
abbrev bytes_of : Bool → ℕ → ℕ → ℕ
bytes_of later zero b = 0
bytes_of false (suc i) b = 0
bytes_of true (suc i) b = 1

abbrev call_with : Bool → Call
call_with later = record {
  request_id = "1";
  trace_parent = "";
  draws = record { bytes = λ i. ok (bytes_of later i); new_id = λ i. 9; db_now = 5000000 };
  event_id = ok 40;
  fresh_correlation = "1";
  now = 5000000;
}

abbrev stored_post : Post
stored_post = record {
  id = 7;
  reference_id = "APP-PST-AAAAA";
  user_id = 3;
  title = "title";
  content = "text";
  tags = [];
  version = 1;
  is_visible = true;
  metadata = "{}";
  created_at = 0;
  updated_at = 0;
  created_by = some 3;
  updated_by = some 3;
  deleted_at = none;
  deleted_by = none;
}

abbrev new_post : Post
new_post = record stored_post { id = 0; reference_id = ""; version = 0 }

abbrev hidden_post : Post
hidden_post = record stored_post { is_visible = false }

abbrev tables : Tables
tables = record { users = 3 ∷ []; posts = stored_post ∷ []; outbox = []; audit = [] }

abbrev start : Db Tables
start = steady tables

abbrev m : Module
m = module_with true

abbrev plain : Module
plain = module_with false

abbrev c : Call
c = call_with true

-- After an update and a request for another post, a second update of the old version.
abbrev updated : Result Post × Db Tables
updated = Events.update_post m c true ("title" ∷ []) stored_post start

abbrev updated_post : Post
updated_post = record stored_post { version = 2; updated_at = 5000000 }

-- The tables once a request for another post was served.
abbrev seen : Tables
seen = (serve m (get "8") (steady updated.1.tables)).1.tables

updated_ok : updated.0 ≡ ok updated_post
unfolding Events.update_post run_tx with_tx body ◌>>=◌ update in_tx statement Posts.update_post
    update_where pure Events.announce_updated post_event new validate envelope enqueue_post is
    pg_matches Outbox.enqueue has_row new_row to_seconds event_headers meta_or_empty focus
    from_server attempt raise
updated_ok = refl

stale_update_fails_example :
    (Events.update_post m c true [] hidden_post (steady seen)).0 ≢ ok hidden_post
stale_update_fails_example =
    stale_update_fails m c c true true ("title" ∷ []) [] stored_post hidden_post start (steady seen)
      updated_post (refl, tt) updated_ok (after updated.1.tables seen (get "8") [] (here seen)) refl
      refl hidden_post

abbrev deleted : Result Post × Db Tables
deleted = Events.delete_post m c stored_post start

abbrev deleted_post : Post
deleted_post = record stored_post {
  updated_at = 5000000;
  updated_by = none;
  deleted_at = some 5000000;
}

abbrev caller_post : Post
caller_post = record stored_post { deleted_by = none }

deleted_ok : deleted.0 ≡ ok deleted_post
unfolding Events.delete_post run_tx with_tx body ◌>>=◌ soft_delete in_tx statement Posts.delete_post
    delete_where pure Events.announce_deleted post_event new validate envelope enqueue_post is
    pg_matches Outbox.enqueue has_row new_row to_seconds event_headers focus from_server attempt
    raise
deleted_ok = refl

deleted_stays_gone_example :
    ((a : Post) → (get_by_id 7 (steady deleted.1.tables)).0 ≢ ok a)
    × ((a : Post) → (Events.update_post m c true [] hidden_post (steady deleted.1.tables)).0 ≢ ok a)
    × ((a : Post) → (Events.delete_post m c hidden_post (steady deleted.1.tables)).0 ≢ ok a)
deleted_stays_gone_example =
    deleted_stays_gone m c c stored_post hidden_post true [] start (steady deleted.1.tables)
      deleted_post (refl, tt) deleted_ok (here deleted.1.tables) refl

created_with_event_example :
    ((Events.create_post m c new_post (steady (record tables { posts = [] }))).1.tables
      ≡ record tables { posts = [] })
    ⊎ ((a : Post) × CreatedAs m c
          (record tables { posts = [] })
          a
          (Events.create_post m c new_post (steady (record tables { posts = [] }))).1.tables)
created_with_event_example =
    created_with_event m c new_post (steady (record tables { posts = [] })) refl

deleted_with_event_example :
    (deleted.1.tables ≡ tables) ⊎ ((a : Post) × DeletedAs m c stored_post tables a deleted.1.tables)
deleted_with_event_example = deleted_with_event m c stored_post start refl

late_deletion_is_stale_example :
    (followed : DeleteFollowed m c stored_post tables deleted_post deleted.1.tables) × (is_stale
        followed.1.announced.event.aggregate_version
        (pos 2)
      ≡ true)
late_deletion_is_stale_example =
    late_deletion_is_stale m c stored_post deleted_post start 2 refl (omega arith) deleted_ok

abbrev created_post : Post
created_post = record new_post {
  id = 9;
  reference_id = "APP-PST-BBBBB";
  version = 1;
  created_at = 5000000;
  updated_at = 5000000;
}

taken_once : (j : ℕ) → j < 1 → TakenAt none c.draws new_post tables j
unfolding next normalize pad keep_letters suffix suffix_char insert_post meta_or_empty to_seconds
taken_once zero lt = ("APP-PST-AAAAA", refl, refl)
taken_once (suc j) lt = absurd (omega arith)

taken_always : (j : ℕ) → j < 8 → TakenAt none (call_with false).draws new_post tables j
unfolding next normalize pad keep_letters suffix suffix_char insert_post meta_or_empty to_seconds
taken_always zero lt = ("APP-PST-AAAAA", refl, refl)
taken_always (suc j) lt = ("APP-PST-AAAAA", refl, refl)

free_second : FreeAt none c.draws new_post tables 1 created_post (with_post created_post tables)
unfolding next normalize pad keep_letters suffix suffix_char insert_post meta_or_empty to_seconds
free_second = ("APP-PST-BBBBB", refl, refl)

create_finds_free_example :
    Events.create_post plain c new_post start
    ≡ (ok created_post, steady (with_post created_post tables))
create_finds_free_example =
    create_finds_free plain c new_post tables 1 created_post (with_post created_post tables) refl
      (omega arith) taken_once free_second

create_exhausted_run :
    Events.create_post plain (call_with false) new_post start ≡ (err err_exhausted, start)
create_exhausted_run = create_exhausted plain (call_with false) new_post tables refl taken_always

second_drawn : next none "PST" (c.draws.bytes 1) ≡ ok "APP-PST-BBBBB"
unfolding next normalize pad keep_letters suffix suffix_char
second_drawn = refl

create_gives_up_example : Events.create_post m c new_post start ≡ (err refused_statement, start)
create_gives_up_example =
    create_gives_up m c new_post tables "APP-PST-BBBBB" refl (taken_once 0 (omega arith))
      second_drawn

updated_with_event_example :
    (updated.1.tables ≡ tables)
    ⊎ ((a : Post) × UpdatedAs m c stored_post true ("title" ∷ []) tables a updated.1.tables)
updated_with_event_example = updated_with_event m c stored_post start true ("title" ∷ []) refl

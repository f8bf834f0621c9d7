-- ===== src/Outbox.antt =====
-- internal/platform/outbox/store.go: the table of events that wait to be published.
--
-- A row has the columns of `event_outbox` in
-- cmd/migrate/migrations/000005_eventing.up.sql. Times are microseconds; a column
-- `timestamp(0)` rounds to the nearest second. `NOW()` is the database's clock, and `time.Now` the
-- application's. `held` says which rows other open transactions have locked, which
-- `SKIP LOCKED` passes over. Header maps are kept as the JSON text that is stored.
pub mod Claim
pub mod Enqueued
pub mod Marks
pub mod Laws
use golang_template.Prelude.{
  ℕ, suc, ◌+◌, ◌*◌, ◌/◌, String, ◌≡◌, Bool, true, false, not, ◌&&◌, ◌||◌, eqb, ltb, leb,
  if◌then◌else◌, List, [], ◌∷◌, Option, none, some, map, take, any, length,
}
use golang_template.Prelude.Int.{ℤ}
use golang_template.Errors.{Err, sentinel, not_found, pg_error, message, wrapped, Result, ok, err}
use golang_template.Storage.{Action, attempt, statement, raise, pure, with_tx, ◌>>=◌}
use golang_template.Event.{Event, Codec, validate}

pub record Row : Type 0 where
  pub id : ℕ
  pub topic : String
  pub event_key : String
  pub event_type : String
  pub aggregate_type : String
  pub aggregate_id : String
  pub aggregate_version : ℤ
  pub schema_uri : String
  pub payload : String
  pub headers : String
  pub occurred_at : ℕ
  pub available_at : ℕ
  pub attempts : ℕ
  pub max_attempts : ℕ
  pub published_at : Option ℕ
  pub locked_at : Option ℕ
  pub locked_by : Option String
  pub last_error : Option String

-- The stored row as `Claim` returns it.
pub record Record : Type 0 where
  pub id : ℕ
  pub topic : String
  pub key : String
  pub event_type : String
  pub aggregate_type : String
  pub aggregate_id : String
  pub aggregate_version : ℤ
  pub schema_uri : String
  pub payload : String
  pub headers : String
  pub occurred_at : ℕ
  pub attempts : ℕ
  pub max_attempts : ℕ

abbrev pub to_record : Row → Record
to_record r = record {
  id = r.id;
  topic = r.topic;
  key = r.event_key;
  event_type = r.event_type;
  aggregate_type = r.aggregate_type;
  aggregate_id = r.aggregate_id;
  aggregate_version = r.aggregate_version;
  schema_uri = r.schema_uri;
  payload = r.payload;
  headers = r.headers;
  occurred_at = r.occurred_at;
  attempts = r.attempts;
  max_attempts = r.max_attempts;
}

-- Rounding to whole seconds, of `timestamp(0)`.
unfoldable pub to_seconds : ℕ → ℕ
to_seconds t = (t + 500000) / 1000000 * 1000000

unfoldable pub has_row : ℕ → List Row → Bool
has_row id [] = false
has_row id (r ∷ rows) = eqb r.id id || has_row id rows

-- The default of `max_attempts`.
abbrev pub default_max_attempts : ℕ
default_max_attempts = 20

unfoldable pub new_row : Event → String → String → String → String → String → ℕ → Row
new_row e topic key aggregate_type payload headers db_now = record {
  id = e.id;
  topic = topic;
  event_key = key;
  event_type = e.event_type;
  aggregate_type = aggregate_type;
  aggregate_id = key;
  aggregate_version = e.aggregate_version;
  schema_uri = e.data_schema;
  payload = payload;
  headers = headers;
  occurred_at = to_seconds e.time;
  available_at = to_seconds db_now;
  attempts = 0;
  max_attempts = default_max_attempts;
  published_at = none;
  locked_at = none;
  locked_by = none;
  last_error = none;
}

-- The INSERT, with the primary key's check.
abbrev pub insert_row : Row → List Row → Result (Unit {0}) × List Row
insert_row r rows =
    if has_row r.id rows
    then (err (pg_error "23505" "event_outbox_pkey"), rows)
    else (ok tt, r ∷ rows)

abbrev pub enqueued : Result (Unit {0}) → Action (List Row) (Unit {0})
enqueued (ok a) = pure tt
enqueued (err e) = raise (wrapped "enqueue event" e)

abbrev pub enqueue_marshalled :
    Event → String → String → String → String → ℕ → Result String → Action (List Row) (Unit {0})
enqueue_marshalled e topic key aggregate_type headers db_now (err x) =
    raise (wrapped "marshal outbox event" x)
enqueue_marshalled e topic key aggregate_type headers db_now (ok payload) =
    attempt (statement (insert_row (new_row e topic key aggregate_type payload headers db_now)))
      enqueued

abbrev pub enqueue_checked :
    Codec
    → Event
    → String
    → String
    → String
    → String
    → ℕ
    → Option Err
    → Action (List Row) (Unit {0})
enqueue_checked codec e topic key aggregate_type headers db_now (some x) = raise x
enqueue_checked codec e topic key aggregate_type headers db_now none =
    enqueue_marshalled e topic key aggregate_type headers db_now (codec.marshal e)

-- `Enqueue`: nothing that is not valid is stored.
unfoldable pub enqueue :
    Codec → String → String → String → Event → String → ℕ → Action (List Row) (Unit {0})
enqueue codec topic key aggregate_type e headers db_now =
    enqueue_checked codec e topic key aggregate_type headers db_now (validate codec e)

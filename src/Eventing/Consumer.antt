-- ===== src/Eventing/Consumer.antt =====
-- `handle` of internal/platform/eventing/consumer.go: decode, validate, find the handler, process
-- under the inbox, and publish what failed.
--
-- A publish may fail without effect or after it, like a statement of the database. Metrics are a
-- list of what was counted. The process's panics, which nothing recovers, are an exit of their own.
pub mod Laws
use golang_template.Prelude.{
  ℕ, zero, suc, ◌+◌, String, ◌≡◌, refl, Bool, true, false, ◌&&◌, ◌||◌, ◌==◌, ltb, leb,
  if◌then◌else◌, List, [], ◌∷◌, ◌++◌, Option, none, some, get_elem?, length,
}
use golang_template.Prelude.Int.{ℤ, pos, negsuc, ltb_ℤ, leb_ℤ, succ_int64, pred_int64}
use golang_template.Errors.{
  Err, message, wrapped, permanent_error, duplicate, stale, Result, ok, err, is, is_permanent,
}
use golang_template.Storage.{Fault, lost, applied, Db, next_fault, later_faults}
use golang_template.Event.{Event, Codec, decode, retry_topic, dlq_topic}
use golang_template.Inbox.{Message, Tables, Handler, process}
use golang_template.Strconv.{Parsed, atoi, itoa}
use golang_template.Eventing.Headers.{
  Header, header_attempt, header_source_topic, header_not_before, header_consumer,
  header_error_class, header_first_failed_at, header_last_failed_at, header_value, set_header,
}
use golang_template.Eventing.Failure.{
  Record, Config, Env, Route, dead_letter, retry, crash, source_topic, retry_attempt, route,
}

-- What the metrics count, with the source topic.
pub data Counter : Type 0 where
  processed duplicated staled dead_lettered retried : String → Counter

pub record World (S : Type 0) : Type 0 where
  pub db : Db (Tables S)
  pub published : List Record
  pub publish_faults : List (Option Fault)
  pub counters : List Counter
  pub now : ℕ

-- How a call ends: with an `error` that may be nil, or in a panic.
pub data Exit : Type 0 where
  returned : Option Err → Exit
  panicked : Exit

abbrev validated : Option Err → Event → Result Event
validated none e = ok e
validated (some x) e = err x

abbrev publish_failed : String → String → Err
publish_failed topic e = wrapped "publish failed event" (message e)

module _ {S : Type 0} where
  abbrev pub count : Counter → World S → World S
  count c w = record w { counters = c ∷ w.counters }

  -- `Publish`, and the counter that follows if it returned nil.
  abbrev publish_then : Option Fault → Record → Counter → World S → Exit × World S
  publish_then none r c w = (returned none, count c (record w { published = r ∷ w.published }))
  publish_then (some (lost e)) r c w = (returned (some (publish_failed r.topic e)), w)
  publish_then (some (applied e)) r c w =
      (returned (some (publish_failed r.topic e)), record w { published = r ∷ w.published })

  unfoldable pub publish : Record → Counter → World S → Exit × World S
  publish r c w =
      publish_then (next_fault w.publish_faults) r c
        (record w { publish_faults = later_faults w.publish_faults })

  abbrev pub take_route : Record → Route → World S → Exit × World S
  take_route r (dead_letter f) w = publish f (dead_lettered (source_topic r)) w
  take_route r (retry f) w = publish f (retried (source_topic r)) w
  take_route r crash w = (panicked, w)

  unfoldable pub fail : Env S → Record → Err → World S → Exit × World S
  fail env r cause w = take_route r (route env r cause w.now) w

  abbrev pub admitted : Env S → Result Event → Result Event
  admitted env (err x) = err (permanent_error x)
  admitted env (ok e) = elim env.validator [ none ↦ ok e | some v ↦ validated (v e) e ]

  -- Decode and validate: what does not decode is a permanent failure.
  unfoldable pub admit : Env S → Record → Result Event
  admit env r = admitted env (decode env.codec r.value)

  unfoldable pub lookup : String → List (String × Option (Handler S)) → Option (Option (Handler S))
  lookup key [] = none
  lookup key ((k, h) ∷ rest) = if k == key then some h else lookup key rest

  abbrev pub inbox_message : Env S → Record → Event → Message
  inbox_message env r e = record {
    consumer_name = env.cfg.name;
    event_id = e.id;
    topic = r.topic;
    partition = r.partition;
    offset = r.offset;
  }

  abbrev pub after_process :
      Env S → Record → Result (Unit {0}) × Db (Tables S) → World S → Exit × World S
  after_process env r (ok _, db) w =
      (returned none, count (processed (source_topic r)) (record w { db = db }))
  after_process env r (err x, db) w =
      if is x duplicate
      then (returned none, count (duplicated (source_topic r)) (record w { db = db }))
      else if is x stale
      then (returned none, count (staled (source_topic r)) (record w { db = db }))
      else fail env r x (record w { db = db })

  abbrev pub dispatch :
      Env S → Record → Event → Option (Option (Handler S)) → World S → Exit × World S
  dispatch env r e none w = fail env r (permanent_error (message "unsupported event type")) w
  dispatch env r e (some h) w = after_process env r (process (inbox_message env r e) e h w.db) w

  abbrev pub handle_admitted : Env S → Record → Result Event → World S → Exit × World S
  handle_admitted env r (err x) w = fail env r x w
  handle_admitted env r (ok e) w = dispatch env r e (lookup e.event_type env.handlers) w

  unfoldable pub handle : Env S → Record → World S → Exit × World S
  handle env r w = handle_admitted env r (admit env r) w

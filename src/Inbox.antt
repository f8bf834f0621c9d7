-- ===== src/Inbox.antt =====
-- internal/platform/inbox/store.go: a consumer's record of what it has processed.
--
-- `event_inbox` is a set of (consumer, event id), `event_inbox_watermarks` maps (consumer, subject)
-- to the highest version applied; a row's other columns are never read. `app` stands for the
-- tables that a handler writes to in the same transaction. The check `last_version > 0` of
-- cmd/migrate/migrations/000005_eventing.up.sql is part of the insert.
pub mod Laws
use golang_template.Prelude.{
  ℕ, ◌≡◌, String, Bool, true, false, ◌&&◌, ◌||◌, ◌==◌, eqb, if◌then◌else◌, Option, none, some, List,
  [], ◌∷◌,
}
use golang_template.Prelude.Int.{ℤ, pos, ltb_ℤ}
use golang_template.Errors.{Err, sentinel, pg_error, no_rows, duplicate, stale, Result, ok, err, is}
use golang_template.Storage.{Action, statement, attempt, pure, raise, with_tx, ◌>>=◌, ◌>>◌}
use golang_template.Event.{Event, is_stale}

pub record Message : Type 0 where
  pub consumer_name : String
  pub event_id : ℕ
  pub topic : String
  pub partition : ℕ
  pub offset : ℕ

pub record Watermark : Type 0 where
  pub consumer : String
  pub subject : String
  pub last_version : ℤ

pub record Tables (S : Type 0) : Type 0 where
  pub inbox : List (String × ℕ)
  pub watermarks : List Watermark
  pub app : S

-- WHERE consumer_name = $1 AND subject = $2
abbrev pub names : String → String → Watermark → Bool
names consumer subject w = w.consumer == consumer && w.subject == subject

unfoldable pub watermark : String → String → List Watermark → Option ℤ
watermark consumer subject [] = none
watermark consumer subject (w ∷ ws) =
    if names consumer subject w then some w.last_version else watermark consumer subject ws

unfoldable pub recorded : String → ℕ → List (String × ℕ) → Bool
recorded consumer id [] = false
recorded consumer id ((c, i) ∷ rows) = (c == consumer && eqb i id) || recorded consumer id rows

-- INSERT … ON CONFLICT (consumer_name, subject) DO UPDATE … WHERE last_version < EXCLUDED
unfoldable pub upsert_watermark : String → String → ℤ → List Watermark → List Watermark
upsert_watermark consumer subject v [] =
    record { consumer = consumer; subject = subject; last_version = v } ∷ []
upsert_watermark consumer subject v (w ∷ ws) =
    if names consumer subject w
    then (if ltb_ℤ w.last_version v then record w { last_version = v } else w) ∷ ws
    else w ∷ upsert_watermark consumer subject v ws

-- A handler works on the application's tables, in the transaction of `process`.
abbrev pub Handler : Type 0 → Type 0
Handler S = Event → Action (Tables S) Unit

abbrev pub as_row : Option ℤ → Result ℤ
as_row none = err (sentinel no_rows)
as_row (some v) = ok v

module _ {S : Type 0} where
  select_watermark : String → String → Action (Tables S) ℤ
  select_watermark consumer subject =
      statement (λ t. (as_row (watermark consumer subject t.watermarks), t))

  abbrev pub judge : Event → Result ℤ → Action (Tables S) Unit
  judge e (ok last) = if is_stale e.aggregate_version last then raise (sentinel stale) else pure tt
  judge e (err x) = if is x no_rows then pure tt else raise x

  unfoldable pub reject_stale : String → Event → Action (Tables S) Unit
  unfolding select_watermark
  reject_stale consumer e = attempt (select_watermark consumer e.subject) (judge e)

  abbrev pub insert_row : Message → Tables S → Result Bool × Tables S
  insert_row m t =
      if recorded m.consumer_name m.event_id t.inbox
      then (ok false, t)
      else (ok true, record t { inbox = (m.consumer_name, m.event_id) ∷ t.inbox })

  -- INSERT INTO event_inbox … ON CONFLICT DO NOTHING: whether a row was inserted.
  unfoldable pub insert_inbox : Message → Action (Tables S) Bool
  insert_inbox m = statement (insert_row m)

  abbrev pub advance_row : String → Event → Tables S → Result (Unit {0}) × Tables S
  advance_row consumer e t =
      if ltb_ℤ (pos 0) e.aggregate_version
      then (
        ok tt,
        record t {
          watermarks = upsert_watermark consumer e.subject e.aggregate_version t.watermarks;
        },
      )
      else (err (pg_error "23514" "event_inbox_watermarks_last_version_check"), t)

  unfoldable pub advance_watermark : String → Event → Action (Tables S) Unit
  advance_watermark consumer e = statement (advance_row consumer e)

  abbrev pub run_handler : Option (Handler S) → Event → Action (Tables S) Unit
  run_handler none e = pure tt
  run_handler (some h) e = h e

  abbrev pub once_inserted : Message → Event → Option (Handler S) → Bool → Action (Tables S) Unit
  once_inserted m e handler true = advance_watermark m.consumer_name e >> run_handler handler e
  once_inserted m e handler false = raise (sentinel duplicate)

  -- The body of the transaction.
  unfoldable pub apply_once : Message → Event → Option (Handler S) → Action (Tables S) Unit
  apply_once m e handler = do
    reject_stale m.consumer_name e
    inserted ← insert_inbox m
    once_inserted m e handler inserted

  unfoldable pub process : Message → Event → Option (Handler S) → Action (Tables S) Unit
  process m e handler = with_tx (apply_once m e handler)

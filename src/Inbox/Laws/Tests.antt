-- ===== src/Inbox/Laws/Tests.antt =====
-- Runs of `Process` on one event of each of two versions, with a fault among the statements.
use golang_template.Prelude.{◌≡◌, ◌≤◌, ◌⊎◌, ◌≢◌, refl, List, [], ◌∷◌, Option, none, some}
use golang_template.Prelude.Int.{pos}
use golang_template.Errors.{ok}
use golang_template.Storage.{Db, Fault, lost, applied}
use golang_template.Event.{Event}
use golang_template.Inbox.{Message, Tables, process, recorded, watermark, upsert_watermark}
use golang_template.Inbox.Laws.Watermarks.{watermark-upsert}
use golang_template.Inbox.Laws.Once.{
  Applied, Call, empty_tables, deliver_all, log_call, calls, process_atomic, process-recorded,
  at_most_once,
}
use golang_template.Inbox.Laws.InOrder.{InOrder, versions-InOrder}

abbrev message_of : Message
message_of = record {
  consumer_name = "mailer";
  event_id = 1;
  topic = "users";
  partition = 0;
  offset = 5;
}

abbrev event_of : Event
event_of = record {
  spec_version = "1.0";
  id = 1;
  source = "user";
  event_type = "user.registered";
  subject = "u1";
  time = 9;
  data_content_type = "application/json";
  data_schema = "users/1";
  correlation_id = "c";
  causation_id = "";
  trace_parent = "";
  aggregate_version = pos 2;
  payload = "{}";
}

-- The event, the event again, and an older one of the same subject.
abbrev schedule : List (Message × Event)
schedule =
    (message_of, event_of)
    ∷ (message_of, event_of)
    ∷ (record message_of { event_id = 2 }, record event_of { id = 2; aggregate_version = pos 1 })
    ∷ []

-- The first commit takes effect and is reported as failed.
abbrev faults : List (Option Fault)
faults = none ∷ none ∷ none ∷ none ∷ none ∷ some (applied "reset") ∷ []

abbrev start : Db (Tables (List Call))
start = record { tables = empty_tables; faults = faults }

abbrev after_first : Db (Tables (List Call))
after_first = (process message_of event_of (some (log_call message_of)) start).1

at_most_once_example : calls "mailer" 1 (deliver_all schedule start).tables.app ≤ 1
at_most_once_example = at_most_once schedule faults "mailer" 1

versions-InOrder_example : InOrder (deliver_all schedule start).tables.app
versions-InOrder_example = versions-InOrder schedule faults

process_atomic_example :
    ((process message_of event_of (some (log_call message_of)) start).1.tables ≡ start.tables)
    ⊎ Applied message_of event_of
        (some (log_call message_of))
        start.tables
        (process message_of event_of (some (log_call message_of)) start).1.tables
process_atomic_example = process_atomic message_of event_of (some (log_call message_of)) start

process-recorded_run :
    ((process message_of event_of (some (log_call message_of)) after_first).1.tables
      ≡ after_first.tables)
    × ((process message_of event_of (some (log_call message_of)) after_first).0 ≢ ok tt)
unfolding process recorded golang_template.Storage.with_tx golang_template.Inbox.apply_once
    golang_template.Storage.◌>>=◌ golang_template.Inbox.reject_stale
    golang_template.Storage.statement watermark golang_template.Errors.is
    golang_template.Storage.pure golang_template.Inbox.insert_inbox
    golang_template.Inbox.advance_watermark log_call
process-recorded_run =
    process-recorded message_of event_of (some (log_call message_of)) after_first refl

watermark-upsert_run :
    watermark "mailer" "u1" (upsert_watermark "mailer" "u1" (pos 2) []) ≡ some (pos 2)
unfolding watermark
watermark-upsert_run = watermark-upsert "mailer" "u1" "mailer" "u1" (pos 2) []

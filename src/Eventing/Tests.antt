-- ===== src/Eventing/Tests.antt =====
-- Runs of the consumer and the relay on records and rows of one event.
use golang_template.Prelude.{
  arith, ℕ, ◌*◌, ◌≡◌, ◌≤◌, refl, String, ◌==◌, eq_iff, true, false, List, [], ◌∷◌, none, some,
  if◌then◌else◌, leb,
}
use golang_template.Prelude.Int.{pos, negsuc}
use golang_template.Errors.{Err, message, Result, ok, err}
use golang_template.Storage.{applied}
use golang_template.Event.{Event, Codec, retry_topic, dlq_topic}
use golang_template.Inbox.Laws.Once.{empty_tables, Call}
use golang_template.Eventing.Headers.{
  Header, header_attempt, header_value, set_header, replay_headers, last_value, is_failure_key,
}
use golang_template.Eventing.Headers.Laws.{count_key, header_value-set_header, replay_headers_lem}
use golang_template.Eventing.Failure.{
  Record, Env, dead_letter, retry, crash, new_config, source_topic, retry_attempt, route,
  failure_record,
}
use golang_template.Eventing.Failure.Reads.{IsClean}
use golang_template.Eventing.Failure.Chain.{IsConfigured, IsFailure}
use golang_template.Eventing.Failure.Retries.{
  follow, retried_while_attempts_remain, dead_letter_after_max_attempts,
}
use golang_template.Eventing.Failure.Faulty.{repeated_attempt_stuck, negative_attempt_crashes}
use golang_template.Eventing.Consumer.{World, returned, handle}
use golang_template.Eventing.Consumer.Laws.{Accounted, handle-Accounted}
use golang_template.Eventing.Run.{Fetched, run_records}
use golang_template.Eventing.Run.Laws.{Committed, run_records-Committed}
use golang_template.Eventing.Relay
use golang_template.Eventing.Relay.Sent.{Settled, published_rows_were_sent}
use golang_template.Eventing.Relay.Delay.{capped, retry_delay_bounds}
use golang_template.Outbox.Laws.Tests.{row, at_one}

abbrev codec : Codec
codec = record {
  parse_uuid = λ s. none;
  json_valid = λ s. false;
  unmarshal = λ s. err (message "unexpected end of JSON input");
  marshal = λ e. ok "{}";
}

abbrev env : Env (List Call)
env = record {
  cfg = new_config (record { name = "mailer"; max_attempts = pos 3; retry_delays = [] });
  codec = codec;
  validator = none;
  handlers = [];
  format_time = λ t. "t";
  parse_time = λ s. none;
}

abbrev with_headers : List Header → Record
with_headers hs = record {
  topic = "users";
  partition = 0;
  offset = 5;
  key = "u1";
  value = "";
  headers = hs;
}

abbrev fresh : Record
fresh = with_headers []

fresh-IsClean : IsClean fresh
unfolding source_topic header_value last_value
fresh-IsClean = record {
  one_attempt = omega arith;
  one_source = omega arith;
  has_topic = ground (arith, eq_iff "users" "");
}

abbrev timeout : Err × ℕ
timeout = (message "timeout", 10)

abbrev is_configured : IsConfigured env 2
unfolding new_config
is_configured = record { attempts = refl; fits = omega arith; delays = omega arith }

abbrev world : World (List Call)
world = record {
  db = record { tables = empty_tables; faults = [] };
  published = [];
  publish_faults = [];
  counters = [];
  now = 10;
}

retried_while_attempts_remain_example :
    (g : Record) × (follow env (timeout ∷ timeout ∷ []) (retry fresh) ≡ retry g)
    × (g.topic ≡ retry_topic "users" "mailer")
    × IsFailure env fresh g 2
unfolding retry_attempt golang_template.Strconv.atoi header_value last_value
    golang_template.Errors.is_permanent source_topic new_config
retried_while_attempts_remain_example =
    retried_while_attempts_remain env 2 fresh timeout (timeout ∷ []) is_configured fresh-IsClean
      refl refl (refl, tt) (omega arith)

dead_letter_after_max_attempts_example :
    (g : Record) × (follow env (timeout ∷ timeout ∷ timeout ∷ []) (retry fresh) ≡ dead_letter g)
    × (g.topic ≡ dlq_topic "users" "mailer")
    × IsFailure env fresh g 3
unfolding retry_attempt golang_template.Strconv.atoi header_value last_value
    golang_template.Errors.is_permanent source_topic new_config
dead_letter_after_max_attempts_example =
    dead_letter_after_max_attempts env 2 fresh timeout (timeout ∷ timeout ∷ []) is_configured
      fresh-IsClean refl refl (refl, (refl, tt)) (omega arith)

abbrev attempt_header : String → Header
attempt_header v = record { key = header_attempt; value = v }

abbrev repeated : Record
repeated = with_headers (attempt_header "1" ∷ attempt_header "1" ∷ [])

repeated_attempt_stuck_example :
    retry_attempt
      (failure_record (λ t. "t") "mailer" 10 repeated "r" (pos 2) (message "timeout") (pos 60))
    ≡ retry_attempt repeated
repeated_attempt_stuck_example =
    repeated_attempt_stuck (λ t. "t") "mailer" 10 repeated "r" (pos 2) (message "timeout") (pos 60)
      (omega arith)

negative_attempt_crashes_example :
    route env (with_headers (attempt_header "-1" ∷ [])) (message "timeout") 10 ≡ crash
unfolding new_config retry_attempt golang_template.Strconv.atoi header_value last_value
    golang_template.Strconv.scan golang_template.Errors.is_permanent
negative_attempt_crashes_example =
    negative_attempt_crashes env 2 (with_headers (attempt_header "-1" ∷ [])) 0 (message "timeout")
      10 refl refl (omega arith) refl

handle-Accounted_example : Accounted env fresh world.db world (handle env fresh world).1
unfolding handle golang_template.Eventing.Consumer.admit golang_template.Event.decode
    golang_template.Eventing.Consumer.fail route golang_template.Errors.is_permanent
    golang_template.Eventing.Consumer.publish
handle-Accounted_example = handle-Accounted env fresh world refl

abbrev fetched : List Fetched
fetched =
    record { fetched = fresh; cancelled = false; commit_fault = none }
    ∷ record { fetched = repeated; cancelled = true; commit_fault = some "rebalance" }
    ∷ []

run_records-Committed_example : Committed env fetched [] world (run_records env fetched [] world)
run_records-Committed_example = run_records-Committed env fetched [] world

header_value-set_header_run :
    header_value (set_header "a" "3" (record { key = "a"; value = "1" } ∷ [])) "a" ≡ (
      if "a" == "a"
      then (if leb (count_key "a" (record { key = "a"; value = "1" } ∷ [])) 1
          then "3"
          else header_value (record { key = "a"; value = "1" } ∷ []) "a")
      else header_value (record { key = "a"; value = "1" } ∷ []) "a")
header_value-set_header_run =
    header_value-set_header (record { key = "a"; value = "1" } ∷ []) "a" "3" "a"

replay_headers_run :
    last_value (replay_headers repeated.headers) header_attempt
    ≡ (if is_failure_key header_attempt then none else last_value repeated.headers header_attempt)
replay_headers_run = replay_headers_lem repeated.headers header_attempt

retry_delay_bounds_example :
    (d : ℕ) × (Relay.retry_delay (λ n. negsuc 0) 3 7 ≡ pos d)
    × (capped 4 * Relay.second ≤ d)
    × (4 * d ≤ 5 * (capped 4 * Relay.second))
retry_delay_bounds_example = retry_delay_bounds (λ n. negsuc 0) 2 7 (omega arith)

-- The broker has the first record although its publish is reported as failed, and the connection
-- drops when the second is marked.
abbrev relay_world : Relay.World
relay_world = record {
  outbox = record {
    tables = row 1 ∷ row 2 ∷ [];
    faults = none ∷ none ∷ none ∷ none ∷ some (applied "reset") ∷ [];
  };
  sent = [];
  publish_faults = some (applied "timeout") ∷ [];
  turn = 0;
}

abbrev relay_config : Relay.Config
relay_config =
    Relay.new_config (record { worker_id = "a"; batch_size = 0; poll_interval = 0; lease = 0 })

abbrev tick : ℕ → Relay.Tick
tick n = record { app_now = 1_000_000; db_now = 1_000_000; draw = n }

published_rows_were_sent_example :
    Settled (Relay.run_batch (λ n. negsuc 0) tick (λ h. true) at_one relay_config relay_world).1
published_rows_were_sent_example =
    published_rows_were_sent (λ n. negsuc 0) tick (λ h. true) at_one relay_config relay_world
      (refl, (refl, tt))

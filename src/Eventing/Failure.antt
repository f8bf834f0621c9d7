-- ===== src/Eventing/Failure.antt =====
-- The failure path of internal/platform/eventing/consumer.go: what a record becomes when its
-- handling fails, and the configuration with its defaults.
--
-- The packages that the consumer calls are parameters, in `Env`. The panic of a slice access is a
-- route of its own.
pub mod Reads
pub mod Chain
pub mod Retries
pub mod Faulty
use golang_template.Prelude.{
  ℕ, suc, ◌+◌, String, ◌||◌, ◌==◌, leb, if◌then◌else◌, List, [], ◌∷◌, Option, none, some, get_elem?,
  length,
}
use golang_template.Prelude.Int.{ℤ, pos, negsuc, ltb_ℤ, leb_ℤ, succ_int64, pred_int64}
use golang_template.Errors.{Err, is_permanent}
use golang_template.Event.{Event, Codec, retry_topic, dlq_topic}
use golang_template.Inbox.{Handler}
use golang_template.Strconv.{atoi, itoa}
use golang_template.Eventing.Headers.{
  Header, header_attempt, header_source_topic, header_not_before, header_consumer,
  header_error_class, header_first_failed_at, header_last_failed_at, header_value, set_header,
}

-- A `kgo.Record`.
pub record Record : Type 0 where
  pub topic : String
  pub partition : ℕ
  pub offset : ℕ
  pub key : String
  pub value : String
  pub headers : List Header

pub record Config : Type 0 where
  pub name : String
  pub max_attempts : ℤ
  pub retry_delays : List ℤ

abbrev pub minute : ℕ
minute = 60_000_000

-- The defaults of `NewConsumer`; a delay is in microseconds.
unfoldable pub new_config : Config → Config
new_config cfg = record {
  name = cfg.name;
  max_attempts = if ltb_ℤ cfg.max_attempts (pos 1) then pos 4 else cfg.max_attempts;
  retry_delays =
      if leb (length cfg.retry_delays) 0
      then pos minute ∷ pos 600_000_000 ∷ pos 3_600_000_000 ∷ []
      else cfg.retry_delays;
}

-- What a consumer is built from, and the packages that it calls.
pub record Env (S : Type 0) : Type 0 where
  pub cfg : Config
  pub codec : Codec
  pub validator : Option (Event → Option Err)
  pub handlers : List (String × Option (Handler S))
  pub format_time : ℕ → String
  pub parse_time : String → Option ℕ

abbrev pub if_empty : String → String → String
if_empty s t = if s == "" then t else s

unfoldable pub source_topic : Record → String
source_topic r = if_empty (header_value r.headers header_source_topic) r.topic

unfoldable pub retry_attempt : Record → ℤ
retry_attempt r = (atoi (header_value r.headers header_attempt)).value

-- The slice access panics on a negative index.
abbrev pub element : List ℤ → ℤ → Option ℤ
element ds (pos i) = get_elem? ds i
element ds (negsuc i) = none

unfoldable pub retry_delay : List ℤ → ℤ → Option ℤ
retry_delay ds attempt =
    let index = pred_int64 attempt in
    let last = pred_int64 (pos (length ds)) in
    element ds (if leb_ℤ (pos (length ds)) index then last else index)

unfoldable pub error_class : Err → String
error_class cause = if is_permanent cause then "permanent" else "transient"

abbrev pub add_not_before : (ℕ → String) → ℕ → ℤ → List Header → List Header
add_not_before format now (pos (suc d)) hs = set_header header_not_before (format (now + suc d)) hs
add_not_before format now _ hs = hs

abbrev pub add_first_failed : String → String → List Header → List Header
add_first_failed old now hs = if old == "" then set_header header_first_failed_at now hs else hs

-- The record that `publishFailure` sends.
unfoldable pub failure_record : (ℕ → String) → String → ℕ → Record → String → ℤ → Err → ℤ → Record
failure_record format name now r topic attempt cause delay =
    let hs1 = set_header header_attempt (itoa attempt) r.headers in
    let hs2 = set_header header_source_topic (source_topic r) hs1 in
    let hs3 = set_header header_consumer name hs2 in
    let hs4 = set_header header_last_failed_at (format now) hs3 in
    let hs5 = add_first_failed (header_value r.headers header_first_failed_at) (format now) hs4 in
    let hs6 = set_header header_error_class (error_class cause) hs5 in
    record {
      topic = topic;
      partition = 0;
      offset = 0;
      key = r.key;
      value = r.value;
      headers = add_not_before format now delay hs6;
    }

-- The failed record's next stop.
pub data Route : Type 0 where
  dead_letter retry : Record → Route
  crash : Route

abbrev pub retry_route : {S : Type 0} → Env S → Record → Err → ℤ → ℕ → Option ℤ → Route
retry_route env r cause attempt now none = crash
retry_route env r cause attempt now (some delay) = retry (
    failure_record env.format_time env.cfg.name now r (retry_topic (source_topic r) env.cfg.name)
      attempt cause delay)

-- The end of `handle`: a permanent error or the last attempt goes to the dead letters, any other
-- error to the retry topic.
unfoldable pub route : {S : Type 0} → Env S → Record → Err → ℕ → Route
route env r cause now =
    let attempt = succ_int64 (retry_attempt r) in
    if is_permanent cause || leb_ℤ env.cfg.max_attempts attempt
    then dead_letter (
        failure_record env.format_time env.cfg.name now r (dlq_topic (source_topic r) env.cfg.name)
          attempt cause (pos 0))
    else retry_route env r cause attempt now (retry_delay env.cfg.retry_delays attempt)

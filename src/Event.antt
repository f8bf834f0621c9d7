-- ===== src/Event.antt =====
-- internal/platform/event/event.go and internal/platform/event/topic.go: the event envelope, its
-- validation, and the names of the retry and dead-letter topics.
--
-- A `uuid.UUID` is a number with `uuid.Nil` as 0, a `time.Time` is a number of microseconds with
-- the zero time as 0, and an `int64` is an integer. What the packages `uuid` and `encoding/json`
-- do is a parameter, the record `Codec`.
pub mod Laws
pub mod Tests
use Prim.Native.Char.{Char, code}
use Prim.Native.String
use golang_template.Prelude.{
  ℕ, zero, ◌≡◌, String, Bool, true, false, ◌&&◌, ◌||◌, not, ◌==◌, eqb, if◌then◌else◌, Option, none,
  some, refl, ◌<>◌,
}
use golang_template.Prelude.Int.{ℤ, pos, negsuc, ltb_ℤ}
use golang_template.Errors.{Err, message, wrapped, Result, ok, err}

pub record Event : Type 0 where
  pub spec_version : String
  pub id : ℕ
  pub source : String
  pub event_type : String
  pub subject : String
  pub time : ℕ
  pub data_content_type : String
  pub data_schema : String
  pub correlation_id : String
  pub causation_id : String
  pub trace_parent : String
  pub aggregate_version : ℤ
  pub payload : String

-- `uuid.Parse`, `json.Valid`, and `json.Unmarshal` and `json.Marshal` at an event.
pub record Codec : Type 0 where
  pub parse_uuid : String → Option ℕ
  pub json_valid : String → Bool
  pub unmarshal : String → Result Event
  pub marshal : Event → Result String

abbrev pub spec_version_1 : String
spec_version_1 = "1.0"

abbrev pub is_none {ℓ} : {A : Type ℓ} → Option A → Bool
is_none none = true
is_none (some a) = false

-- `Validate`: nil, or the error of the first check that fails.
unfoldable pub validate : Codec → Event → Option Err
validate codec e =
    if not (e.spec_version == spec_version_1)
    then some (message "unsupported specversion")
    else if eqb e.id 0
    then some (message "event id is required")
    else if e.source == ""
    then some (message "event source is required")
    else if e.event_type == ""
    then some (message "event type is required")
    else if e.subject == ""
    then some (message "event subject is required")
    else if eqb e.time 0
    then some (message "event time is required")
    else if not (e.data_content_type == "application/json")
    then some (message "unsupported content type")
    else if e.data_schema == ""
    then some (message "event data schema is required")
    else if e.correlation_id == ""
    then some (message "event correlation id is required")
    else if is_none (codec.parse_uuid e.correlation_id)
    then some (message "event correlation id must be a UUID")
    else if ltb_ℤ e.aggregate_version (pos 1)
    then some (message "aggregate version must be positive")
    else if e.payload == "" || not (codec.json_valid e.payload)
    then some (message "event data must be valid JSON")
    else none

unfoldable pub is_stale : ℤ → ℤ → Bool
is_stale incoming last_seen = ltb_ℤ (pos 0) last_seen && ltb_ℤ incoming last_seen

abbrev pub checked : Option Err → Event → Result Event
checked none e = ok e
checked (some x) e = err x

abbrev pub decoded : Codec → Result Event → Result Event
decoded codec (err x) = err (wrapped "decode event" x)
decoded codec (ok e) = checked (validate codec e) e

-- `Decode`: unmarshal, then validate.
unfoldable pub decode : Codec → String → Result Event
decode codec raw = decoded codec (codec.unmarshal raw)

pub record NewParams : Type 0 where
  pub source : String
  pub event_type : String
  pub subject : String
  pub data_schema : String
  pub correlation_id : String
  pub causation_id : String
  pub trace_parent : String
  pub aggregate_version : ℤ

abbrev pub correlation : Option ℕ → String → String → String
correlation none given fresh = fresh
correlation (some u) given fresh = given

-- The event that `New` builds before it validates it.
unfoldable pub envelope : Codec → NewParams → String → ℕ → String → ℕ → Event
envelope codec p raw id fresh now = record {
  spec_version = spec_version_1;
  id = id;
  source = p.source;
  event_type = p.event_type;
  subject = p.subject;
  time = now;
  data_content_type = "application/json";
  data_schema = p.data_schema;
  correlation_id = correlation (codec.parse_uuid p.correlation_id) p.correlation_id fresh;
  causation_id = p.causation_id;
  trace_parent = p.trace_parent;
  aggregate_version = p.aggregate_version;
  payload = raw;
}

abbrev identified : Codec → NewParams → String → Result ℕ → String → ℕ → Result Event
identified codec p raw (err x) fresh now = err (wrapped "create event id" x)
identified codec p raw (ok id) fresh now =
    checked (validate codec (envelope codec p raw id fresh now)) (envelope codec p raw id fresh now)

-- `New`, over what `json.Marshal` of the data, `uuid.NewV7`, `uuid.NewString` and `time.Now`
-- return.
unfoldable pub new : Codec → NewParams → Result String → Result ℕ → String → ℕ → Result Event
new codec p (err x) id fresh now = err (wrapped "marshal event data" x)
new codec p (ok raw) id fresh now = identified codec p raw id fresh now

-- `strings.Trim(s, ".")`
trim_left : String → String
trim_left String.[] = ""
trim_left (String.◌∷◌ c s) =
    let rest = trim_left s in if eqb (code c) b'.' then rest else String.◌∷◌ c s

abbrev keep_or_drop : Char → String → String
keep_or_drop c String.[] = if eqb (code c) b'.' then "" else String.◌∷◌ c ""
keep_or_drop c (String.◌∷◌ d s) = String.◌∷◌ c (String.◌∷◌ d s)

trim_right : String → String
trim_right String.[] = ""
trim_right (String.◌∷◌ c s) = keep_or_drop c (trim_right s)

unfoldable pub topic : String → String → String → String
unfolding trim_left trim_right
topic prefix bounded_context aggregate =
    trim_right (trim_left prefix)
    <> "."
    <> trim_right (trim_left bounded_context)
    <> "."
    <> trim_right (trim_left aggregate)
    <> ".events.v1"

unfoldable pub retry_topic : String → String → String
retry_topic source consumer = source <> "." <> consumer <> ".retry.v1"

unfoldable pub dlq_topic : String → String → String
dlq_topic source consumer = source <> "." <> consumer <> ".dlq.v1"

topic_test : topic "dev." ".user" "account" ≡ "dev.user.account.events.v1"
unfolding topic
topic_test = refl

-- ===== src/Eventing/Headers.antt =====
-- The header functions of internal/platform/eventing/consumer.go, and `ReplayHeaders` of
-- internal/platform/eventing/replay.go. A header's value is bytes in the program and a text here.
pub mod Laws
use golang_template.Prelude.{
  String, ◌≡◌, refl, Bool, true, false, ◌||◌, ◌==◌, if◌then◌else◌, List, [], ◌∷◌, ◌++◌, Option,
  none, some,
}

pub record Header : Type 0 where
  pub key : String
  pub value : String

abbrev pub header_attempt : String
header_attempt = "x-retry-attempt"

abbrev pub header_source_topic : String
header_source_topic = "x-source-topic"

abbrev pub header_not_before : String
header_not_before = "x-not-before"

abbrev pub header_consumer : String
header_consumer = "x-failed-consumer"

abbrev pub header_error_class : String
header_error_class = "x-error-class"

abbrev pub header_first_failed_at : String
header_first_failed_at = "x-first-failed-at"

abbrev pub header_last_failed_at : String
header_last_failed_at = "x-last-failed-at"

abbrev pub first_some : Option String → Header → String → Option String
first_some (some v) h key = some v
first_some none h key = if h.key == key then some h.value else none

-- The value of the last header with a key: the loop of `headerValue` runs from the end.
unfoldable pub last_value : List Header → String → Option String
last_value [] key = none
last_value (h ∷ hs) key = first_some (last_value hs key) h key

abbrev pub or_empty : Option String → String
or_empty none = ""
or_empty (some v) = v

unfoldable pub header_value : List Header → String → String
header_value hs key = or_empty (last_value hs key)

-- `setHeader` writes to the first header with the key, or appends one.
unfoldable pub set_header : String → String → List Header → List Header
set_header key value [] = record { key = key; value = value } ∷ []
set_header key value (h ∷ hs) =
    if h.key == key then record h { value = value } ∷ hs else h ∷ set_header key value hs

unfoldable pub is_failure_key : String → Bool
is_failure_key k =
    k == header_attempt
    || k == header_not_before
    || k == header_error_class
    || k == header_last_failed_at

-- `ReplayHeaders` drops what a failure wrote, but for where and when it first failed.
unfoldable pub replay_headers : List Header → List Header
replay_headers [] = []
replay_headers (h ∷ hs) = if is_failure_key h.key then replay_headers hs else h ∷ replay_headers hs

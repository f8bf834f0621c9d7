-- ===== src/Eventing/Headers/Laws.antt =====
-- Theorems on reading and writing headers in internal/platform/eventing/consumer.go, and on
-- internal/platform/eventing/replay.go.
use golang_template.Prelude.{
  ℕ, ◌+◌, ◌≤◌, ◌<◌, String, ◌≡◌, ◌≢◌, refl, ◌==◌, eq_iff, if◌then◌else◌, List, [], ◌∷◌, none, some,
  arith, leb,
}
use golang_template.Eventing.Headers.{
  Header, is_failure_key, last_value, header_value, set_header, replay_headers,
}

-- How often a key stands among the headers.
abbrev pub count_key : String → List Header → ℕ
count_key key [] = 0
count_key key (h ∷ hs) = (if h.key == key then 1 else 0) + count_key key hs

last_value-absent :
    (hs : List Header) (key : String) → count_key key hs ≡ 0 → last_value hs key ≡ none
unfolding last_value
last_value-absent [] key e = refl
last_value-absent (h ∷ hs) key e = ground (arith, last_value-absent hs key)

last_value-present :
    (hs : List Header) (key : String) → 0 < count_key key hs → last_value hs key ≢ none
unfolding last_value
last_value-present [] key p e = absurd (omega arith)
last_value-present (h ∷ hs) key p e = ground (arith, last_value-present hs key)

last_value-set_header_unique :
    (hs : List Header) (key value : String)
    → count_key key hs ≤ 1
    → last_value (set_header key value hs) key ≡ some value
unfolding last_value set_header
last_value-set_header_unique [] key value u = ground (arith, eq_iff key key)
last_value-set_header_unique (h ∷ hs) key value u =
    ground (arith, last_value-absent hs key, last_value-set_header_unique hs key value)

last_value-set_header_repeated :
    (hs : List Header) (key value : String)
    → 1 < count_key key hs
    → last_value (set_header key value hs) key ≡ last_value hs key
unfolding last_value set_header
last_value-set_header_repeated [] key value r = absurd (omega arith)
last_value-set_header_repeated (h ∷ hs) key value r =
    ground (arith, last_value-present hs key, last_value-set_header_repeated hs key value)

last_value-set_header_ne :
    (hs : List Header) (key value other : String)
    → key ≢ other
    → last_value (set_header key value hs) other ≡ last_value hs other
unfolding last_value set_header
last_value-set_header_ne [] key value other n = ground (arith, eq_iff key other)
last_value-set_header_ne (h ∷ hs) key value other n = ground (
  arith,
  eq_iff h.key other,
  eq_iff h.key key,
  eq_iff key other,
  last_value-set_header_ne hs key value other,
)

pub count_key-set_header :
    (hs : List Header) (key value other : String)
    → count_key other (set_header key value hs) ≡ (
        if key == other
        then (if leb 1 (count_key key hs) then count_key key hs else 1)
        else count_key other hs)
unfolding set_header
count_key-set_header [] key value other = ground arith
count_key-set_header (h ∷ hs) key value other = ground (
  arith,
  eq_iff h.key other,
  eq_iff h.key key,
  eq_iff key other,
  count_key-set_header hs key value other,
)

-- What `headerValue` reads after `setHeader`: the value written, unless the key was there more
-- than once, in which case the write has no effect on what is read; other keys read as before.
pub header_value-set_header :
    (hs : List Header) (key value other : String)
    → header_value (set_header key value hs) other ≡ (
        if key == other
        then (if leb (count_key key hs) 1 then value else header_value hs key)
        else header_value hs other)
unfolding header_value
header_value-set_header hs key value other = ground (
  arith,
  eq_iff key other,
  last_value-set_header_unique hs key value,
  last_value-set_header_repeated hs key value,
  last_value-set_header_ne hs key value other,
)

-- `ReplayHeaders` removes every attempt, delay, error class and last failure, and keeps all other
-- headers as they read.
pub replay_headers_lem :
    (hs : List Header) (key : String)
    → last_value (replay_headers hs) key ≡ (if is_failure_key key then none else last_value hs key)
unfolding last_value replay_headers
replay_headers_lem [] key = ground arith
replay_headers_lem (h ∷ hs) key = ground (arith, replay_headers_lem hs key, eq_iff h.key key)

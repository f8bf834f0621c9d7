-- ===== src/Refid.antt =====
-- internal/platform/refid/refid.go: reference ids such as GTL-PST-A7K2M.
--
-- A `String` is its characters, and a length in bytes is `len`. What `crypto/rand.Read` fills the
-- buffer with is an argument, one number for each byte, as is the test `unicode.IsUpper` beyond
-- ASCII. Go's `strings.ToUpper` maps each rune; what matters here are the runes whose upper case
-- is one of A to Z: these, the small letters, the dotless i (U+0131) and the long s (U+017F).
pub mod Letters
pub mod Laws
pub mod Tests
use Prim.Native.Char.{Char, code}
use Prim.Native.String
use text.Mathlib.Text.{starts_with}
use golang_template.Prelude.{
  ℕ, zero, suc, ◌+◌, ◌-◌, ◌%◌, String, Bool, true, false, ◌&&◌, ◌||◌, not, ◌==◌, ltb, leb, eqb,
  if◌then◌else◌, List, [], ◌∷◌, Option, none, some, ◌<>◌, length, ◌≡◌, refl, map,
}
use golang_template.Errors.{Err, Result, ok, err, pg_matches}

abbrev pub prefix_len : ℕ
prefix_len = 3

abbrev pub code_len : ℕ
code_len = 3

abbrev pub rand_len : ℕ
rand_len = 5

abbrev pub max_tries : ℕ
max_tries = 8

abbrev pub charset : String
charset = "ABCDEFGHJKLMNPQRSTUVWXYZ23456789"

abbrev pub alphabet : String
alphabet = "ABCDEFGHIJKLMNOPQRSTUVWXYZ"

abbrev pub is_letter : ℕ → Bool
is_letter n = leb b'A' n && leb n b'Z'

-- `strings.ToUpper` on a rune, where its answer is a letter of A to Z.
abbrev pub upper : ℕ → ℕ
upper n =
    if leb b'a' n && leb n b'z'
    then n - 32
    else if eqb n 305
    then 73
    else if eqb n 383
    then 83
    else n

abbrev pub letter : ℕ → Char
letter n = String.char_at alphabet (n - b'A')

-- The runes of the upper-cased text from A to Z.
unfoldable pub keep_letters : String → String
keep_letters String.[] = ""
keep_letters (String.◌∷◌ c s) =
    let rest = keep_letters s in
    if is_letter (upper (code c)) then String.◌∷◌ (letter (upper (code c))) rest else rest

abbrev pub first_byte : String → String
first_byte String.[] = "X"
first_byte (String.◌∷◌ c s) = String.◌∷◌ c ""

abbrev pub later_bytes : String → String
later_bytes String.[] = "X"
later_bytes (String.◌∷◌ c String.[]) = String.◌∷◌ c ""
later_bytes (String.◌∷◌ c (String.◌∷◌ d s)) = String.◌∷◌ d s

-- The loop that fills up from the fallback, at most `fuel` times. The fallback is ASCII.
unfoldable pub pad : ℕ → String → String → String
pad zero out fb = out
pad (suc fuel) out fb =
    let rest = pad fuel (out <> first_byte fb) (later_bytes fb) in
    if ltb (String.len out) prefix_len then rest else out

-- The first characters of an ASCII text: `out[:n]`.
unfoldable pub cut : ℕ → String → String
cut zero s = ""
cut (suc n) String.[] = ""
cut (suc n) (String.◌∷◌ c s) = String.◌∷◌ c (cut n s)

abbrev cut_to_prefix : String → String
cut_to_prefix out = if ltb prefix_len (String.len out) then cut prefix_len out else out

abbrev fallback_or_default : String → String
fallback_or_default fallback = if fallback == "" then "XXX" else fallback

unfoldable pub normalize : String → String → String
normalize s fallback =
    cut_to_prefix (pad prefix_len (keep_letters s) (fallback_or_default fallback))

-- A generator that is not nil, by its prefix.
pub record Generator : Type 0 where
  pub prefix : String

abbrev pub new_generator : String → Generator
new_generator prefix = record { prefix = normalize prefix "APP" }

abbrev pub prefix_of : Option Generator → String
prefix_of none = "APP"
prefix_of (some g) = g.prefix

unfoldable pub suffix_char : ℕ → Char
suffix_char byte = String.char_at charset (byte % 32)

unfoldable pub suffix : (ℕ → ℕ) → ℕ → ℕ → String
suffix byte i zero = ""
suffix byte i (suc n) = String.◌∷◌ (suffix_char (byte i)) (suffix byte (suc i) n)

abbrev pub random : Result (ℕ → ℕ) → ℕ → Result String
random (err e) n = err e
random (ok byte) n = ok (suffix byte 0 n)

abbrev joined : String → String → Result String → Result String
joined prefix model_code (err e) = err e
joined prefix model_code (ok s) = ok (prefix <> "-" <> model_code <> "-" <> s)

unfoldable pub next : Option Generator → String → Result (ℕ → ℕ) → Result String
next g model_code drawn = joined (prefix_of g) (normalize model_code "XXX") (random drawn rand_len)

-- `strings.Contains(s, "reference_id")`
unfoldable pub contains : String → String → Bool
contains part String.[] = part == ""
contains part (String.◌∷◌ c s) =
    let rest = contains part s in starts_with (String.◌∷◌ c s) part || rest

unfoldable pub is_conflict : Err → Bool
is_conflict e =
    pg_matches (λ code constraint. code == "23505" && contains "reference_id" constraint) e

-- `strings.Split(s, "-")`
abbrev pub prepend : Char → List String → List String
prepend c [] = []
prepend c (p ∷ ps) = String.◌∷◌ c p ∷ ps

unfoldable pub split : String → List String
split String.[] = "" ∷ []
split (String.◌∷◌ c s) =
    let rest = split s in if eqb (code c) b'-' then "" ∷ rest else prepend c rest

-- `unicode.IsUpper`, over its answers beyond ASCII.
abbrev pub is_upper : (ℕ → Bool) → ℕ → Bool
is_upper beyond n = if ltb n 128 then is_letter n else beyond n

unfoldable pub all_upper : (ℕ → Bool) → String → Bool
all_upper beyond String.[] = true
all_upper beyond (String.◌∷◌ c s) = is_upper beyond (code c) && all_upper beyond s

abbrev pub valid_parts : (ℕ → Bool) → List String → Bool
valid_parts beyond (a ∷ b ∷ c ∷ []) =
    eqb (String.len a) prefix_len
    && eqb (String.len b) code_len
    && eqb (String.len c) rand_len
    && all_upper beyond a
    && all_upper beyond b
valid_parts beyond _ = false

unfoldable pub valid : (ℕ → Bool) → String → Bool
valid beyond s = valid_parts beyond (split s)

abbrev pub format : String → String → String → String
format prefix model_code s = prefix <> "-" <> model_code <> "-" <> s

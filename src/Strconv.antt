-- ===== src/Strconv.antt =====
-- `strconv.Itoa` and `strconv.Atoi` of Go's standard library, as the consumer and the query
-- parameters use them: decimal texts of an `int` of 64 bits.
pub mod RoundTrip
pub mod Tests
use Prim.Native.Char.{Char, code}
use Prim.Native.String
use golang_template.Prelude.{
  ℕ, zero, suc, ◌+◌, ◌-◌, ◌*◌, ◌/◌, ◌%◌, ◌≡◌, refl, String, Bool, true, false, ◌&&◌, ◌||◌, ◌==◌,
  ltb, leb, eqb, if◌then◌else◌, List, [], ◌∷◌, Option, none, some,
}
use golang_template.Prelude.Int.{ℤ, pos, negsuc, max_int64}

abbrev pub digit : ℕ → Char
digit zero = "0"
digit (suc zero) = "1"
digit (suc (suc zero)) = "2"
digit (suc (suc (suc zero))) = "3"
digit (suc (suc (suc (suc zero)))) = "4"
digit (suc (suc (suc (suc (suc zero))))) = "5"
digit (suc (suc (suc (suc (suc (suc zero)))))) = "6"
digit (suc (suc (suc (suc (suc (suc (suc zero))))))) = "7"
digit (suc (suc (suc (suc (suc (suc (suc (suc zero)))))))) = "8"
digit _ = "9"

-- The digits of a number before a text, at most `fuel` of them.
unfoldable pub digits : ℕ → ℕ → String → String
digits zero n out = out
digits (suc fuel) n out =
    let rest = digits fuel (n / 10) (String.◌∷◌ (digit (n % 10)) out) in
    if ltb n 10 then String.◌∷◌ (digit (n % 10)) out else rest

-- An int64 has at most 19 digits.
abbrev pub max_digits : ℕ
max_digits = 19

unfoldable pub itoa : ℤ → String
itoa (pos n) = digits max_digits n ""
itoa (negsuc n) = String.◌∷◌ "-" (digits max_digits (suc n) "")

-- The largest uint64, which `ParseUint` returns as soon as a digit takes it past that.
abbrev pub max_uint64 : ℕ
max_uint64 = 18446744073709551615

-- The number that a text of digits stands for, after the digits that `acc` stands for: nothing at
-- a character that is no digit, and the largest number at the digit that overflows, whatever
-- follows it.
unfoldable pub scan : ℕ → String → Option ℕ
scan acc String.[] = some acc
scan acc (String.◌∷◌ c s) =
    let n = acc * 10 + (code c - b'0') in
    let rest = scan n s in
    if leb b'0' (code c) && leb (code c) b'9'
    then (if leb n max_uint64 then rest else some max_uint64)
    else none

-- What `Atoi` returns: on a range error its value is the nearest one that fits.
pub record Parsed : Type 0 where
  pub value : ℤ
  pub failed : Bool

abbrev pub clamp : Bool → Option ℕ → Parsed
clamp negative none = record { value = pos 0; failed = true }
clamp false (some n) =
    if leb n max_int64
    then record { value = pos n; failed = false }
    else record { value = pos max_int64; failed = true }
clamp true (some zero) = record { value = pos 0; failed = false }
clamp true (some (suc n)) =
    if leb n max_int64
    then record { value = negsuc n; failed = false }
    else record { value = negsuc max_int64; failed = true }

abbrev pub unsigned : Bool → String → Parsed
unsigned negative String.[] = record { value = pos 0; failed = true }
unsigned negative (String.◌∷◌ c s) = clamp negative (scan 0 (String.◌∷◌ c s))

unfoldable pub atoi : String → Parsed
atoi String.[] = record { value = pos 0; failed = true }
atoi (String.◌∷◌ c s) =
    if eqb (code c) b'-'
    then unsigned true s
    else if eqb (code c) b'+'
    then unsigned false s
    else unsigned false (String.◌∷◌ c s)

atoi_tests :
    ((atoi "42").value ≡ pos 42)
    × ((atoi "-7").value ≡ negsuc 6)
    × ((atoi "").value ≡ pos 0)
    × ((atoi "4x").value ≡ pos 0)
    × ((atoi "9223372036854775808").value ≡ pos max_int64)
    × ((atoi "99999999999999999999x").value ≡ pos max_int64)
    × ((atoi "-99999999999999999999x").value ≡ negsuc max_int64)
    × (itoa (pos 120) ≡ "120")
    × (itoa (negsuc 6) ≡ "-7")
unfolding atoi itoa digits scan
atoi_tests = (refl, refl, refl, refl, refl, refl, refl, refl, refl)

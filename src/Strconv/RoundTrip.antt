-- ===== src/Strconv/RoundTrip.antt =====
-- `Itoa` and then `Atoi`.
use Prim.Native.Char.{Char, code}
use native.Mathlib.Nat.{pow-suc}
use golang_template.Prelude.{
  ℕ, zero, suc, ◌+◌, ◌-◌, ◌*◌, ◌/◌, ◌%◌, ◌^◌, ◌≤◌, ◌<◌, ◌≡◌, refl, ap, sym, leb, le→leb, none, some,
  Bool, ◌&&◌, ◌∙◌, String, arith, ltb, lt→ltb, ltb→lt, Bool-cases, inl, inr, if◌then◌else◌, true,
  false,
}
use golang_template.Prelude.Int.{pos, max_int64}
use golang_template.Strconv.{digit, digits, itoa, scan, clamp, atoi, max_uint64}

-- A text that begins with a digit.
abbrev led : ℕ → String → String
led d s = String.◌∷◌ (digit d) s

code-digit : (d : ℕ) → d < 10 → code (digit d) ≡ b'0' + d
code-digit zero h = refl
code-digit (suc zero) h = refl
code-digit (suc (suc zero)) h = refl
code-digit (suc (suc (suc zero))) h = refl
code-digit (suc (suc (suc (suc zero)))) h = refl
code-digit (suc (suc (suc (suc (suc zero))))) h = refl
code-digit (suc (suc (suc (suc (suc (suc zero)))))) h = refl
code-digit (suc (suc (suc (suc (suc (suc (suc zero))))))) h = refl
code-digit (suc (suc (suc (suc (suc (suc (suc (suc zero)))))))) h = refl
code-digit (suc (suc (suc (suc (suc (suc (suc (suc (suc zero))))))))) h = refl
code-digit (suc (suc (suc (suc (suc (suc (suc (suc (suc (suc n)))))))))) h = absurd (omega arith)

is_digit : ℕ → Bool
is_digit c = leb b'0' c && leb c b'9'

is_digit_of_lt : (d : ℕ) → d < 10 → is_digit (b'0' + d) ≡ true
unfolding is_digit
is_digit_of_lt d h = ground arith

scan_step :
    (acc : ℕ) (c : Char) (s : String)
    → scan acc (String.◌∷◌ c s) ≡ (
        if is_digit (code c)
        then (if leb (acc * 10 + (code c - b'0')) max_uint64
            then scan (acc * 10 + (code c - b'0')) s
            else some max_uint64)
        else none)
unfolding scan is_digit
scan_step acc c s = refl

read_digit :
    (n k : ℕ) (s : String)
    → n ≡ k
    → k ≤ max_int64
    → (if leb n max_uint64 then scan n s else some max_uint64) ≡ scan k s
read_digit n k s same fits = rw (same, le→leb k max_uint64 (omega arith)) refl

-- Reading one digit.
scan-led :
    (acc d : ℕ) (s : String)
    → d < 10
    → acc * 10 + d ≤ max_int64
    → scan acc (led d s) ≡ scan (acc * 10 + d) s
scan-led acc d s h fits =
    rw (scan_step, code-digit d h, is_digit_of_lt d h)
      (read_digit (acc * 10 + (b'0' + d - b'0')) (acc * 10 + d) s (omega arith) fits)

-- A leading digit is no sign.
atoi-led : (d : ℕ) (s : String) → d < 10 → atoi (led d s) ≡ clamp false (scan 0 (led d s))
unfolding atoi
atoi-led d s h = rw (code-digit d h) (ground arith)

-- Digits before a text that begins with a digit begin with a digit.
digits-led :
    (fuel n d : ℕ) (s : String)
    → d < 10
    → (d' : ℕ) × (s' : String) × (d' < 10) × (digits fuel n (led d s) ≡ led d' s')
unfolding digits
digits-led zero n d s h = (d, s, h, refl)
digits-led (suc fuel) n d s h = elim (Bool-cases (ltb n 10)) [
  | inl last ↦ (n % 10, led d s, omega arith, rw last)
  | inr more ↦ rw more (digits-led fuel (n / 10) (n % 10) (led d s) (omega arith))
]

first_digit :
    (fuel n : ℕ) (s : String)
    → (d' : ℕ) × (s' : String) × (d' < 10) × (digits (suc fuel) n s ≡ led d' s')
unfolding digits
first_digit fuel n s = elim (Bool-cases (ltb n 10)) [
  | inl last ↦ (n % 10, s, omega arith, rw last)
  | inr more ↦ rw more (digits-led fuel (n / 10) (n % 10) s (omega arith))
]

scan-digits :
    (fuel n : ℕ) (s : String)
    → n < 10 ^ suc fuel
    → n ≤ max_int64
    → scan 0 (digits (suc fuel) n s) ≡ scan n s
unfolding digits
scan-digits zero n s h fits =
    rw (lt→ltb n 10 h)
      (scan-led 0 (n % 10) s (omega arith) (omega arith) ∙ ap (λ (x : ℕ). scan x s) (omega arith))
scan-digits (suc fuel) n s h fits = elim (Bool-cases (ltb n 10)) [
  | inl last ↦ rw last (
      scan-led 0 (n % 10) s (omega arith) (omega arith)
      ∙ ap (λ (x : ℕ). scan x s) (omega (arith, ltb→lt n 10 last)))
  | inr more ↦ rw more (
      scan-digits fuel (n / 10) (led (n % 10) s) (omega (arith, pow-suc 10 (suc fuel)))
        (omega arith)
      ∙ scan-led (n / 10) (n % 10) s (omega arith) (omega arith)
      ∙ ap (λ (x : ℕ). scan x s) (omega arith))
]

clamp-scan :
    (n : ℕ) → n ≤ max_int64 → clamp false (scan n "") ≡ record { value = pos n; failed = false }
unfolding scan
clamp-scan n h = ground arith

-- `Atoi` of `Itoa` of an `int` that is not negative is that number, with no error.
pub atoi-itoa :
    (n : ℕ) → n ≤ max_int64 → atoi (itoa (pos n)) ≡ record { value = pos n; failed = false }
unfolding itoa
atoi-itoa n h =
    let (d, s, small, e) = first_digit 18 n "" in
    rw e (
      atoi-led d s small
      ∙ ap (clamp false) (ap (scan 0) (sym e) ∙ scan-digits 18 n "" (omega arith) h)
      ∙ clamp-scan n h)

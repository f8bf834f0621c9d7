-- ===== src/Refid/Letters.antt =====
-- Texts of the letters A to Z, and the steps of `Normalize` on them
-- (internal/platform/refid/refid.go).
use Prim.Native.Char.{Char, code, len_utf8, len_utf8_def}
use Prim.Native.String
use Prim.Native.String.append
use Prim.Native.String.len
use text.Mathlib.TextPositions.{len-append}
use golang_template.Prelude.{
  ℕ, zero, suc, ◌+◌, ◌-◌, ◌≤◌, ◌<◌, ◌≡◌, refl, ap, ◌∙◌, Bool, true, false, ◌&&◌, String, ltb, eqb,
  arith, Bool-cases, inl, inr, ◌<>◌, eqb_iff,
}
use golang_template.Refid.{
  is_letter, upper, letter, alphabet, keep_letters, first_byte, later_bytes, pad, cut, prefix_len,
}

abbrev pub Letters : String → Type 0
Letters String.[] = Unit
Letters (String.◌∷◌ c s) = (is_letter (code c) ≡ true) × Letters s

-- A test that holds at every number below a bound.
abbrev pub all_below : ℕ → (ℕ → Bool) → Bool
all_below zero p = true
all_below (suc n) p = p n && all_below n p

and_left : (a b : Bool) → a && b ≡ true → a ≡ true
and_left true b h = refl
and_left false b h = h

and_right : (a b : Bool) → a && b ≡ true → b ≡ true
and_right true b h = h
and_right false b h = cc

pub all_below-at : (n : ℕ) (p : ℕ → Bool) (k : ℕ) → all_below n p ≡ true → k < n → p k ≡ true
all_below-at zero p k h lt = absurd (omega arith)
all_below-at (suc n) p k h lt = elim (Bool-cases (eqb k n)) [
  | inl same ↦ let e = (eqb_iff k n).0 same in rw e (and_left (p n) (all_below n p) h)
  | inr other ↦ all_below-at n p k (and_right (p n) (all_below n p) h) (ground (arith, eqb_iff k n))
]

width_ascii : (c : Char) → code c < 128 → len_utf8 c ≡ 1
width_ascii c h = len_utf8_def c ∙ ground arith

pub len-ascii :
    (c : Char) (s : String) → code c < 128 → String.len (String.◌∷◌ c s) ≡ suc (String.len s)
len-ascii c s h = len.cons c s ∙ ap (λ w. w + String.len s) (width_ascii c h) ∙ omega arith

pub len_letter :
    (c : Char) (s : String)
    → is_letter (code c) ≡ true
    → String.len (String.◌∷◌ c s) ≡ suc (String.len s)
len_letter c s h = len-ascii c s (ground arith)

code-letter : (n : ℕ) → is_letter n ≡ true → code (letter n) ≡ n
code-letter n h =
    let inside =
      all_below-at 26 (λ k. eqb (code (String.char_at alphabet k)) (b'A' + k)) (n - b'A') refl
        (ground arith) in
    let e = (eqb_iff (code (letter n)) (b'A' + (n - b'A'))).0 inside in e ∙ ground arith

pub keep_letters-Letters : (s : String) → Letters (keep_letters s)
unfolding keep_letters
keep_letters-Letters String.[] = tt
keep_letters-Letters (String.◌∷◌ c s) = elim (Bool-cases (is_letter (upper (code c)))) [
  | inl yes_letter ↦
      rw yes_letter
        (rw (code-letter (upper (code c)) yes_letter) yes_letter, keep_letters-Letters s)
  | inr other ↦ rw other (keep_letters-Letters s)
]

append-Letters : (s t : String) → Letters s → Letters t → Letters (s <> t)
append-Letters String.[] t h k = rw (append.nil t) k
append-Letters (String.◌∷◌ c s) t (h, hs) k = rw (append.cons c s t) (h, append-Letters s t hs k)

first_byte-Letters : (s : String) → Letters s → Letters (first_byte s)
first_byte-Letters String.[] h = (refl, tt)
first_byte-Letters (String.◌∷◌ c s) (h, hs) = (h, tt)

later_bytes-Letters : (s : String) → Letters s → Letters (later_bytes s)
later_bytes-Letters String.[] h = (refl, tt)
later_bytes-Letters (String.◌∷◌ c String.[]) (h, hs) = (h, tt)
later_bytes-Letters (String.◌∷◌ c (String.◌∷◌ d s)) (h, hs) = hs

len-first_byte : (s : String) → Letters s → String.len (first_byte s) ≡ 1
len-first_byte String.[] h = refl
len-first_byte (String.◌∷◌ c s) (h, hs) = len_letter c "" h

pub pad-Letters :
    (fuel : ℕ) (out fb : String) → Letters out → Letters fb → Letters (pad fuel out fb)
unfolding pad
pad-Letters zero out fb h k = h
pad-Letters (suc fuel) out fb h k = elim (Bool-cases (ltb (String.len out) prefix_len)) [
  | inl short ↦ rw short (
      pad-Letters fuel (out <> first_byte fb) (later_bytes fb)
        (append-Letters out (first_byte fb) h (first_byte-Letters fb k)) (later_bytes-Letters fb k))
  | inr long ↦ rw long h
]

-- As many steps as characters are missing are enough.
pub pad_fills :
    (fuel : ℕ) (out fb : String)
    → Letters fb
    → prefix_len ≤ String.len out + fuel
    → prefix_len ≤ String.len (pad fuel out fb)
unfolding pad
pad_fills zero out fb k enough = omega arith
pad_fills (suc fuel) out fb k enough = elim (Bool-cases (ltb (String.len out) prefix_len)) [
  | inl short ↦ rw short (
      pad_fills fuel (out <> first_byte fb) (later_bytes fb) (later_bytes-Letters fb k)
        (omega (arith, len-append out (first_byte fb), len-first_byte fb k)))
  | inr long ↦ rw long (ground (arith))
]

pub cut-Letters : (n : ℕ) (s : String) → Letters s → Letters (cut n s)
unfolding cut
cut-Letters zero s h = tt
cut-Letters (suc n) String.[] h = tt
cut-Letters (suc n) (String.◌∷◌ c s) (h, hs) = (h, cut-Letters n s hs)

pub len-cut : (n : ℕ) (s : String) → Letters s → n ≤ String.len s → String.len (cut n s) ≡ n
unfolding cut
len-cut zero s h k = refl
len-cut (suc n) String.[] h k = absurd (omega arith)
len-cut (suc n) (String.◌∷◌ c s) (h, hs) k =
    rw (len_letter c (cut n s) h)
      (ap (λ k. suc k) (len-cut n s hs (omega (arith, len_letter c s h))))

-- ===== src/Refid/Laws.antt =====
-- On `Normalize`, `Next` and `Valid` of internal/platform/refid/refid.go.
use Prim.Native.Char.{code}
use Prim.Native.String
use Prim.Native.String.append
use golang_template.Prelude.{
  ℕ, zero, suc, ◌<◌, ◌%◌, ◌≡◌, refl, ap, sym, ◌∙◌, Bool, true, false, ◌&&◌, not, String, [], ◌∷◌,
  ltb, eqb, arith, Bool-cases, inl, inr, if◌then◌else◌, ◌<>◌, ◌==◌, some,
}
use golang_template.Errors.{Result, ok, err, ok-injective}
use golang_template.Refid.{
  keep_letters, pad, cut, prefix_len, rand_len, normalize, next, new_generator, suffix, suffix_char,
  split, valid, all_upper, charset,
}
use golang_template.Refid.Letters.{
  Letters, keep_letters-Letters, pad-Letters, pad_fills, cut-Letters, len-cut, all_below-at,
  len-ascii,
}

-- What `Normalize` returns: three letters of A to Z.
pub record IsCode (s : String) : Type 0 where
  pub three : String.len s ≡ 3
  pub letters : Letters s

fallback_filled :
    (s fb : String)
    → Letters fb
    → IsCode (
        if ltb prefix_len (String.len (pad prefix_len (keep_letters s) fb))
        then cut prefix_len (pad prefix_len (keep_letters s) fb)
        else pad prefix_len (keep_letters s) fb)
fallback_filled s fb h =
    let out = pad prefix_len (keep_letters s) fb in
    let letters = pad-Letters prefix_len (keep_letters s) fb (keep_letters-Letters s) h in
    let filled = pad_fills prefix_len (keep_letters s) fb h (omega arith) in
    elim (Bool-cases (ltb prefix_len (String.len out))) [
      | inl longer ↦ rw longer (record {
        three = len-cut prefix_len out letters filled;
        letters = cut-Letters prefix_len out letters;
      })
      | inr fits ↦ rw fits (record { three = ground arith; letters = letters })
    ]

-- For every text and every fallback of letters, an empty one included, the loop of `Normalize`
-- ends after at most three rounds and what it returns is three letters of A to Z.
pub normalize-IsCode : (s fallback : String) → Letters fallback → IsCode (normalize s fallback)
unfolding normalize
normalize-IsCode s fallback h = elim (Bool-cases (fallback == "")) [
  | inl empty ↦ rw empty (fallback_filled s "XXX" (refl, (refl, (refl, tt))))
  | inr given ↦ rw given (fallback_filled s fallback h)
]

abbrev NoDash : String → Type 0
NoDash String.[] = Unit
NoDash (String.◌∷◌ c s) = (eqb (code c) b'-' ≡ false) × NoDash s

Letters-NoDash : (s : String) → Letters s → NoDash s
Letters-NoDash String.[] h = tt
Letters-NoDash (String.◌∷◌ c s) (h, hs) = (ground arith, Letters-NoDash s hs)

split_last : (s : String) → NoDash s → split s ≡ s ∷ []
unfolding split
split_last String.[] h = refl
split_last (String.◌∷◌ c s) (h, hs) = rw (h, split_last s hs) refl

split_first : (s t : String) → NoDash s → split (s <> "-" <> t) ≡ s ∷ split t
unfolding split
split_first String.[] t h = rw (append.nil ("-" <> t), append.cons "-" "" t, append.nil t) refl
split_first (String.◌∷◌ c s) t (h, hs) = rw (append.cons c s ("-" <> t), h, split_first s t hs) refl

suffix_char_plain :
    (n : ℕ) → (code (suffix_char n) < 128) × (eqb (code (suffix_char n)) b'-' ≡ false)
unfolding suffix_char
suffix_char_plain n =
    let below =
      all_below-at 32
        (λ k.
          ltb (code (String.char_at charset k)) 128
          && not (eqb (code (String.char_at charset k)) b'-'))
        (n % 32) refl (omega arith) in
    ground arith

suffix_plain :
    (byte : ℕ → ℕ) (i n : ℕ) → (String.len (suffix byte i n) ≡ n) × NoDash (suffix byte i n)
unfolding suffix
suffix_plain byte i zero = (refl, tt)
suffix_plain byte i (suc n) =
    let (ascii, plain) = suffix_char_plain (byte i) in
    let (length, rest) = suffix_plain byte (suc i) n in
    (
      len-ascii (suffix_char (byte i)) (suffix byte (suc i) n) ascii ∙ ap (λ k. suc k) length,
      (plain, rest),
    )

Letters-all_upper : (beyond : ℕ → Bool) (s : String) → Letters s → all_upper beyond s ≡ true
unfolding all_upper
Letters-all_upper beyond String.[] h = refl
Letters-all_upper beyond (String.◌∷◌ c s) (h, hs) =
    rw (Letters-all_upper beyond s hs) (ground arith)

module _ (beyond : ℕ → Bool) where
  valid_joined :
      (a b s : String)
      → IsCode a
      → IsCode b
      → String.len s ≡ rand_len
      → NoDash s
      → valid beyond (a <> "-" <> b <> "-" <> s) ≡ true
  unfolding valid
  valid_joined a b s ka kb length plain =
      rw
        (
          split_first a (b <> "-" <> s) (Letters-NoDash a ka.letters),
          split_first b s (Letters-NoDash b kb.letters),
          split_last s plain,
          ka.three,
          kb.three,
          length,
          Letters-all_upper beyond a ka.letters,
          Letters-all_upper beyond b kb.letters,
        )
        refl

  -- A reference id that `Next` returns, for a generator of `New` and any model code, passes
  -- `Valid`, whatever bytes were drawn.
  pub valid-next :
      (prefix model_code : String) (drawn : Result (ℕ → ℕ)) (s : String)
      → next (some (new_generator prefix)) model_code drawn ≡ ok s
      → valid beyond s ≡ true
  unfolding next
  valid-next prefix model_code (ok byte) s h =
      let (length, plain) = suffix_plain byte 0 rand_len in
      let e = ok-injective _ s h in
      rw (sym e) (
        valid_joined (normalize prefix "APP") (normalize model_code "XXX") (suffix byte 0 rand_len)
          (normalize-IsCode prefix "APP" (refl, (refl, (refl, tt))))
          (normalize-IsCode model_code "XXX" (refl, (refl, (refl, tt)))) length plain)
  valid-next prefix model_code (err e) s h = cc

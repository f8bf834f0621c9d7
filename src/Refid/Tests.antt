-- ===== src/Refid/Tests.antt =====
-- Runs of internal/platform/refid/refid.go on concrete texts.
use golang_template.Prelude.{◌≡◌, refl, some, false, true, ℕ, Bool}
use golang_template.Errors.{ok, pg_error}
use golang_template.Refid.Laws.{valid-next, IsCode, normalize-IsCode}
use golang_template.Refid.{
  keep_letters, pad, suffix_char, normalize, next, new_generator, valid, split, is_conflict, suffix,
}

no_more : ℕ → Bool
no_more n = false

normalize_tests :
    (normalize "golang" "APP" ≡ "GOL")
    × (normalize "a1" "APP" ≡ "AAP")
    × (normalize "" "" ≡ "XXX")
    × (normalize "9" "Q" ≡ "QQQ")
unfolding normalize golang_template.Refid.pad golang_template.Refid.keep_letters
    golang_template.Refid.cut
normalize_tests = (refl, refl, refl, refl)

next_tests :
    (next (some (new_generator "gtl")) "PST" (ok (λ i. i)) ≡ ok "GTL-PST-ABCDE")
    × (valid no_more "GTL-PST-ABCDE" ≡ true)
    × (valid no_more "gtl-PST-ABCDE" ≡ false)
    × (valid no_more "GTL-PST" ≡ false)
    × (is_conflict (pg_error "23505" "posts_reference_id_key") ≡ true)
    × (is_conflict (pg_error "23505" "posts_pkey") ≡ false)
unfolding next normalize golang_template.Refid.pad golang_template.Refid.keep_letters suffix
    golang_template.Refid.suffix_char valid split golang_template.Refid.all_upper is_conflict
    golang_template.Errors.pg_matches golang_template.Refid.contains
next_tests = (refl, refl, refl, refl, refl, refl)

valid-next_example : valid no_more "GTL-PST-ABCDE" ≡ true
unfolding next normalize pad keep_letters suffix suffix_char
valid-next_example = valid-next no_more "gtl" "PST" (ok (λ i. i)) "GTL-PST-ABCDE" refl

normalize-IsCode_example : IsCode (normalize "a1" "APP")
normalize-IsCode_example = normalize-IsCode "a1" "APP" (refl, (refl, (refl, tt)))

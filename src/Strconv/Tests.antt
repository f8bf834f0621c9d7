-- ===== src/Strconv/Tests.antt =====
-- The round trip of one attempt.
use golang_template.Prelude.{arith, ◌≡◌, false}
use golang_template.Prelude.Int.{pos}
use golang_template.Strconv.{atoi, itoa}
use golang_template.Strconv.RoundTrip.{atoi-itoa}

atoi-itoa_example : atoi (itoa (pos 10)) ≡ record { value = pos 10; failed = false }
atoi-itoa_example = atoi-itoa 10 (omega arith)

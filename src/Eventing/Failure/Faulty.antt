-- ===== src/Eventing/Failure/Faulty.antt =====
-- Repeated and negative attempt headers in internal/platform/eventing/consumer.go.
use golang_template.Prelude.{ℕ, suc, ◌<◌, String, ◌≡◌, false, arith, none, ap, ◌∙◌, List}
use golang_template.Prelude.Int.{ℤ, pos, negsuc, max_int64, succ_int64, leb_ℤ}
use golang_template.Errors.{Err, is_permanent}
use golang_template.Strconv.{atoi}
use golang_template.Eventing.Headers.{header_attempt}
use golang_template.Eventing.Headers.Laws.{count_key}
use golang_template.Eventing.Failure.{
  Record, Env, crash, retry_attempt, retry_delay, failure_record, route,
}
use golang_template.Eventing.Failure.Reads.{header_value-attempt}

-- A record that comes with the attempt header twice is published with the attempt that it came
-- with, whatever attempt was to be written: its attempts are never used up.
pub repeated_attempt_stuck :
    (format : ℕ → String) (name : String) (now : ℕ) (r : Record) (topic : String) (attempt : ℤ)
    (x : Err) (delay : ℤ)
    → 1 < count_key header_attempt r.headers
    → retry_attempt (failure_record format name now r topic attempt x delay) ≡ retry_attempt r
unfolding retry_attempt
repeated_attempt_stuck format name now r topic attempt x delay twice =
    ap (λ (t : String). (atoi t).value)
      (header_value-attempt format name now r topic attempt x delay ∙ ground arith)

retry_delay-nonpos :
    (ds : List ℤ) (n : ℕ) → n < max_int64 → retry_delay ds (succ_int64 (negsuc n)) ≡ none
unfolding retry_delay
retry_delay-nonpos ds n h = ground arith

-- A transient failure of a record whose attempt header is negative panics: the delay is looked up
-- at a negative index. `suc m` is `MaxAttempts`.
pub negative_attempt_crashes :
    {S : Type 0} (env : Env S) (m : ℕ) (r : Record) (n : ℕ) (x : Err) (now : ℕ)
    → env.cfg.max_attempts ≡ pos (suc m)
    → retry_attempt r ≡ negsuc n
    → n < max_int64
    → is_permanent x ≡ false
    → route env r x now ≡ crash
unfolding route
negative_attempt_crashes env m r n x now limit at small transient =
    let early : leb_ℤ env.cfg.max_attempts (succ_int64 (negsuc n)) ≡ false =
      rw limit (ground arith) in
    rw (at, transient, early, retry_delay-nonpos env.cfg.retry_delays n small)

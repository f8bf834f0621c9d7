-- ===== src/Eventing/Failure/Reads.antt =====
-- What the next consumer reads in a record that `publishFailure` sent.
use golang_template.Prelude.{
  ℕ, zero, suc, ◌≤◌, String, ◌≡◌, ◌≢◌, refl, false, ◌==◌, eq_iff, leb, if◌then◌else◌, List, arith,
  ap, ◌∙◌,
}
use golang_template.Prelude.Int.{ℤ, pos, negsuc, max_int64}
use golang_template.Errors.{Err}
use golang_template.Strconv.{Parsed, itoa, atoi}
use golang_template.Strconv.RoundTrip.{atoi-itoa}
use golang_template.Eventing.Headers.{
  Header, header_attempt, header_source_topic, header_not_before, header_first_failed_at,
  header_value,
}
use golang_template.Eventing.Headers.Laws.{count_key, count_key-set_header, header_value-set_header}
use golang_template.Eventing.Failure.{
  Record, source_topic, retry_attempt, failure_record, add_not_before, add_first_failed,
}

-- The headers by which a retry is steered stand at most once, and the record has a topic.
pub record IsClean (r : Record) : Type 0 where
  pub one_attempt : count_key header_attempt r.headers ≤ 1
  pub one_source : count_key header_source_topic r.headers ≤ 1
  pub has_topic : source_topic r ≢ ""

module _ (format : ℕ → String) (now : ℕ) (other : String) where
  header_value-add_not_before :
      (delay : ℤ) (hs : List Header)
      → header_not_before == other ≡ false
      → header_value (add_not_before format now delay hs) other ≡ header_value hs other
  header_value-add_not_before (pos (suc d)) hs n = rw (header_value-set_header, n)
  header_value-add_not_before (pos zero) hs n = refl
  header_value-add_not_before (negsuc d) hs n = refl

  count_key-add_not_before :
      (delay : ℤ) (hs : List Header)
      → header_not_before == other ≡ false
      → count_key other (add_not_before format now delay hs) ≡ count_key other hs
  count_key-add_not_before (pos (suc d)) hs n = rw (count_key-set_header, n)
  count_key-add_not_before (pos zero) hs n = refl
  count_key-add_not_before (negsuc d) hs n = refl

module _ (old now other : String) where
  header_value-add_first_failed :
      (hs : List Header)
      → header_first_failed_at == other ≡ false
      → header_value (add_first_failed old now hs) other ≡ header_value hs other
  header_value-add_first_failed hs n =
      ground (arith, header_value-set_header hs header_first_failed_at now other)

  count_key-add_first_failed :
      (hs : List Header)
      → header_first_failed_at == other ≡ false
      → count_key other (add_first_failed old now hs) ≡ count_key other hs
  count_key-add_first_failed hs n =
      ground (arith, count_key-set_header hs header_first_failed_at now other)

ruleset reads = (
  header_value-add_not_before, header_value-add_first_failed, header_value-set_header,
  count_key-add_not_before, count_key-add_first_failed, count_key-set_header,
)

source_topic_of :
    (f : Record) (s : String)
    → header_value f.headers header_source_topic ≡ s
    → s ≢ ""
    → source_topic f ≡ s
unfolding source_topic
source_topic_of f s e n = rw e (ground (arith, eq_iff s ""))

module _ (format : ℕ → String) (name : String) (now : ℕ) (r : Record) (topic : String) (attempt : ℤ)
    (cause : Err) (delay : ℤ) where
  abbrev pub failed : Record
  failed = failure_record format name now r topic attempt cause delay

  pub header_value-attempt : header_value failed.headers header_attempt ≡ (
      if leb (count_key header_attempt r.headers) 1
      then itoa attempt
      else header_value r.headers header_attempt)
  unfolding failure_record
  header_value-attempt = simp reads

  header_value-source : header_value failed.headers header_source_topic ≡ (
      if leb (count_key header_source_topic r.headers) 1
      then source_topic r
      else header_value r.headers header_source_topic)
  unfolding failure_record
  header_value-source = simp reads

  count_key-attempt :
      count_key header_attempt r.headers ≤ 1 → count_key header_attempt failed.headers ≤ 1
  unfolding failure_record
  count_key-attempt u = simp reads (ground arith)

  count_key-source :
      count_key header_source_topic r.headers ≤ 1 → count_key header_source_topic failed.headers ≤ 1
  unfolding failure_record
  count_key-source u = simp reads (ground arith)

  pub source_topic-failed : IsClean r → source_topic failed ≡ source_topic r
  source_topic-failed c =
      source_topic_of failed (source_topic r) (header_value-source ∙ ground (arith, c.one_source))
        c.has_topic

  -- The retry of a clean record is clean, with the same source topic and the attempt that was
  -- written.
  pub failure_record-IsClean : IsClean r → IsClean failed
  failure_record-IsClean c = record {
    one_attempt = count_key-attempt c.one_attempt;
    one_source = count_key-source c.one_source;
    has_topic = rw (source_topic-failed c) c.has_topic;
  }

  pub retry_attempt-failed :
      (n : ℕ) → IsClean r → attempt ≡ pos n → n ≤ max_int64 → retry_attempt failed ≡ pos n
  unfolding retry_attempt
  retry_attempt-failed n c e small =
      ap (λ (t : String). (atoi t).value) (header_value-attempt ∙ ground (arith, c.one_attempt, e))
      ∙ ap (λ (p : Parsed). p.value) (atoi-itoa n small)

-- ===== src/Event/Laws.antt =====
-- When an event is valid, and when `New` and `Decode` return one.
use mathlib.Core.Path.{subst}
use text.Mathlib.TextLemmas.{append_cancel_left}
use golang_template.Prelude.{
  ℕ, ◌≡◌, ◌≢◌, ◌↔◌, String, true, Option, none, some, arith, eq_iff, refl, ap, Option-cases, inl,
  inr,
}
use golang_template.Prelude.Int.{pos, ◌≤ℤ◌}
use golang_template.Errors.{Err, Result, ok, err}
use golang_template.Event.{
  Event, Codec, NewParams, spec_version_1, correlation, checked, decoded, validate, decode, new,
  envelope, retry_topic, dlq_topic,
}

-- The envelope rules of the catalogue, one field each.
pub record IsValid (codec : Codec) (e : Event) : Type 0 where
  pub version_1 : e.spec_version ≡ spec_version_1
  pub has_id : e.id ≢ 0
  pub has_source : e.source ≢ ""
  pub has_type : e.event_type ≢ ""
  pub has_subject : e.subject ≢ ""
  pub has_time : e.time ≢ 0
  pub is_json : e.data_content_type ≡ "application/json"
  pub has_schema : e.data_schema ≢ ""
  pub has_correlation : e.correlation_id ≢ ""
  pub correlated : codec.parse_uuid e.correlation_id ≢ none
  pub versioned : pos 1 ≤ℤ e.aggregate_version
  pub has_data : e.payload ≢ ""
  pub valid_data : codec.json_valid e.payload ≡ true

module _ (codec : Codec) (e : Event) where
  pub validate_sound : validate codec e ≡ none → IsValid codec e
  unfolding validate
  validate_sound h = ground (
    arith,
    eq_iff e.spec_version spec_version_1,
    eq_iff e.source "",
    eq_iff e.event_type "",
    eq_iff e.subject "",
    eq_iff e.data_content_type "application/json",
    eq_iff e.data_schema "",
    eq_iff e.correlation_id "",
    eq_iff e.payload "",
  )

  pub validate_complete : IsValid codec e → validate codec e ≡ none
  unfolding validate
  validate_complete v = ground (
    arith,
    eq_iff e.spec_version spec_version_1,
    eq_iff e.source "",
    eq_iff e.event_type "",
    eq_iff e.subject "",
    eq_iff e.data_content_type "application/json",
    eq_iff e.data_schema "",
    eq_iff e.correlation_id "",
    eq_iff e.payload "",
  )

  -- `Validate` returns nil exactly for the events that meet every rule of the envelope.
  pub validate_iff : (validate codec e ≡ none) ↔ IsValid codec e
  validate_iff = (validate_sound, validate_complete)

checked-eq-ok :
    (o : Option Err) (e : Event) {e' : Event} → checked o e ≡ ok e' → (o ≡ none) × (e ≡ e')
checked-eq-ok none e h = (refl, cc)
checked-eq-ok (some x) e h = cc

decoded-IsValid :
    (codec : Codec) (r : Result Event) {e : Event}
    → decoded codec r ≡ ok e
    → IsValid codec e × (r ≡ ok e)
decoded-IsValid codec (err x) h = cc
decoded-IsValid codec (ok e') h =
    let (valid, same) = checked-eq-ok (validate codec e') e' h in
    (subst (IsValid codec) same (validate_sound codec e' valid), ap ok same)

-- `Decode` returns an event without an error exactly where the JSON text unmarshals to that event
-- and the event meets every rule of the envelope.
pub decode_iff :
    (codec : Codec) (raw : String) (e : Event)
    → (decode codec raw ≡ ok e) ↔ (IsValid codec e × (codec.unmarshal raw ≡ ok e))
unfolding decode
decode_iff codec raw e =
    (decoded-IsValid codec (codec.unmarshal raw), λ (v, u). rw u (rw (validate_complete codec e v)))

retry-ne-dlq_suffix : ◌≢◌ {A = String} ".retry.v1" ".dlq.v1"
retry-ne-dlq_suffix = ground (arith, eq_iff ".retry.v1" ".dlq.v1")

pub retry-ne-dlq :
    (source consumer : String) → retry_topic source consumer ≢ dlq_topic source consumer
unfolding retry_topic dlq_topic
retry-ne-dlq source consumer h =
    retry-ne-dlq_suffix (
      append_cancel_left consumer _ _
        (append_cancel_left "." _ _ (append_cancel_left source _ _ h)))

correlation_lem :
    (codec : Codec) (given fresh : String)
    → fresh ≢ ""
    → codec.parse_uuid fresh ≢ none
    → codec.parse_uuid "" ≡ none
    → (correlation (codec.parse_uuid given) given fresh ≢ "")
      × (codec.parse_uuid (correlation (codec.parse_uuid given) given fresh) ≢ none)
correlation_lem codec given fresh f u z = elim (Option-cases (codec.parse_uuid given)) [
  | inl bad ↦ rw bad (f, u)
  | inr (i, good) ↦ rw good ((λ e. cc), (λ e. cc))
]

envelope-IsValid :
    (codec : Codec) (p : NewParams) (raw : String) (id : ℕ) (fresh : String) (now : ℕ)
    → p.source ≢ ""
    → p.event_type ≢ ""
    → p.subject ≢ ""
    → p.data_schema ≢ ""
    → pos 1 ≤ℤ p.aggregate_version
    → raw ≢ ""
    → codec.json_valid raw ≡ true
    → id ≢ 0
    → now ≢ 0
    → fresh ≢ ""
    → codec.parse_uuid fresh ≢ none
    → codec.parse_uuid "" ≡ none
    → IsValid codec (envelope codec p raw id fresh now)
unfolding envelope
envelope-IsValid codec p raw id fresh now s t j d v r q i n f u z =
    let (c, parsed) = correlation_lem codec p.correlation_id fresh f u z in
    record {
      version_1 = refl;
      has_id = i;
      has_source = s;
      has_type = t;
      has_subject = j;
      has_time = n;
      is_json = refl;
      has_schema = d;
      has_correlation = c;
      correlated = parsed;
      versioned = v;
      has_data = r;
      valid_data = q;
    }

-- `New` succeeds whenever the caller names what the envelope needs, a positive version and data
-- that encodes to JSON: a correlation id that is no UUID is replaced by a fresh one.
pub new_total :
    (codec : Codec) (p : NewParams) (raw : String) (id : ℕ) (fresh : String) (now : ℕ)
    → p.source ≢ ""
    → p.event_type ≢ ""
    → p.subject ≢ ""
    → p.data_schema ≢ ""
    → pos 1 ≤ℤ p.aggregate_version
    → raw ≢ ""
    → codec.json_valid raw ≡ true
    → id ≢ 0
    → now ≢ 0
    → fresh ≢ ""
    → codec.parse_uuid fresh ≢ none
    → codec.parse_uuid "" ≡ none
    → new codec p (ok raw) (ok id) fresh now ≡ ok (envelope codec p raw id fresh now)
unfolding new
new_total codec p raw id fresh now s t j d v r q i n f u z = rw (
    validate_complete codec (envelope codec p raw id fresh now)
      (envelope-IsValid codec p raw id fresh now s t j d v r q i n f u z))

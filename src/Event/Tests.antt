-- ===== src/Event/Tests.antt =====
-- The envelope of one registered user.
use golang_template.Prelude.{arith, ◌↔◌, ◌≡◌, refl, ◌==◌, eq_iff, true, none, some, if◌then◌else◌}
use golang_template.Prelude.Int.{pos}
use golang_template.Errors.{ok}
use golang_template.Event.{Event, Codec, NewParams, validate, new, envelope, decode}
use golang_template.Event.Laws.{IsValid, validate_iff, new_total, decode_iff}

abbrev params : NewParams
params = record {
  source = "user";
  event_type = "user.registered";
  subject = "u1";
  data_schema = "users/1";
  correlation_id = "request-9";
  causation_id = "";
  trace_parent = "";
  aggregate_version = pos 1;
}

abbrev sample : Event
sample = record {
  spec_version = "1.0";
  id = 4;
  source = "user";
  event_type = "user.registered";
  subject = "u1";
  time = 9;
  data_content_type = "application/json";
  data_schema = "users/1";
  correlation_id = "f";
  causation_id = "";
  trace_parent = "";
  aggregate_version = pos 1;
  payload = "{}";
}

abbrev codec : Codec
codec = record {
  parse_uuid = λ s. if s == "f" then some 3 else none;
  json_valid = λ s. true;
  unmarshal = λ s. ok sample;
  marshal = λ e. ok "sample";
}

new_total_example :
    new codec params (ok "{}") (ok 4) "f" 9 ≡ ok (envelope codec params "{}" 4 "f" 9)
new_total_example =
    new_total codec params "{}" 4 "f" 9 (ground (arith, eq_iff "user" ""))
      (ground (arith, eq_iff "user.registered" "")) (ground (arith, eq_iff "u1" ""))
      (ground (arith, eq_iff "users/1" "")) (omega arith) (ground (arith, eq_iff "{}" "")) refl
      (omega arith) (omega arith) (ground (arith, eq_iff "f" "")) (λ e. cc) refl

sample_validates : validate codec sample ≡ none
unfolding validate
sample_validates = refl

validate_iff_example : (validate codec sample ≡ none) ↔ IsValid codec sample
validate_iff_example = validate_iff codec sample

sample-IsValid : IsValid codec sample
sample-IsValid = (validate_iff codec sample).0 sample_validates

decode_iff_example :
    (decode codec "sample" ≡ ok sample)
    ↔ (IsValid codec sample × (codec.unmarshal "sample" ≡ ok sample))
decode_iff_example = decode_iff codec "sample" sample

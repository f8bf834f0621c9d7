-- ===== src/Outbox/Laws/Tests.antt =====
-- Two workers on an outbox of two rows.
use golang_template.Prelude.{arith, ℕ, String, ◌≢◌, refl, true, false, List, [], ◌∷◌, none, All}
use golang_template.Prelude.Int.{pos}
use golang_template.Storage.{Db}
use golang_template.Outbox.{Row, Record, to_record}
use golang_template.Outbox.Claim.{Moment, claim, claim_one}
use golang_template.Outbox.Laws.Lease.{claims_disjoint}

abbrev pub row : ℕ → Row
row id = record {
  id = id;
  topic = "users";
  event_key = "u1";
  event_type = "user.registered";
  aggregate_type = "user";
  aggregate_id = "u1";
  aggregate_version = pos 1;
  schema_uri = "users/1";
  payload = "{}";
  headers = "{}";
  occurred_at = 0;
  available_at = 0;
  attempts = 0;
  max_attempts = 20;
  published_at = none;
  locked_at = none;
  locked_by = none;
  last_error = none;
}

abbrev pub at_one : Moment
at_one = record { app_now = 1_000_000; db_now = 1_000_000; held = λ id. false }

abbrev at_two : Moment
at_two = record { app_now = 2_000_000; db_now = 2_000_000; held = λ id. false }

abbrev outbox : Db (List Row)
outbox = record { tables = row 1 ∷ row 2 ∷ []; faults = [] }

abbrev claimed : String → Moment → ℕ → Record
claimed worker at id = to_record (claim_one at worker (row id))

claims_disjoint_example :
    All (λ y. All (λ x. x.id ≢ y.id) (claimed "a" at_one 1 ∷ [])) (claimed "b" at_two 2 ∷ [])
unfolding claim golang_template.Storage.with_tx golang_template.Storage.◌>>=◌
    golang_template.Storage.statement golang_template.Outbox.Claim.returned_rows
    golang_template.Outbox.has_row golang_template.Outbox.Claim.limit_or_default
    golang_template.Outbox.Claim.candidates golang_template.Outbox.Claim.eligible
    golang_template.Outbox.Claim.insert_sorted golang_template.Storage.pure
    golang_template.Outbox.Claim.claim_rows golang_template.Outbox.to_seconds
claims_disjoint_example =
    claims_disjoint (λ h. true) at_one at_two "a" "b" 1 1 30_000_000 30_000_000 outbox
      {rs = claimed "a" at_one 1 ∷ []} {rs' = claimed "b" at_two 2 ∷ []} refl refl (omega arith)

-- ===== src/Notifications/Tests.antt =====
-- Runs of internal/modules/notification on concrete deliveries, and the theorems about it at
-- them.
use golang_template.Prelude.{
  ℕ, ◌+◌, ◌*◌, ◌≤◌, ◌≡◌, refl, inl, inr, true, false, [], ◌∷◌, none, some, arith,
}
use golang_template.Outbox.{to_seconds}
use golang_template.Errors.{Err, message, permanent_error, is_permanent}
use golang_template.Notifications.{
  pending, sent, failed, skipped, Delivery, gate, is_blank, backoff, classify_status,
}
use golang_template.Notifications.Store.{due}
use golang_template.Notifications.Dispatch.{Module, dispatch_once, deliver}
use golang_template.Notifications.Rows.{Member}
use golang_template.Notifications.Final.{final_is_untouched}
use golang_template.Notifications.Alone.{alone}
use golang_template.Notifications.Judged.{AttemptMade}
use golang_template.Notifications.Outcome.{
  Left, rounds, round_of_one, retries_end, late_failure_reopens,
}

abbrev timeout : Err
timeout = message "timeout"

abbrev module_at : ℕ → Module
module_at now = record {
  senders = λ channel. some (λ id msg. some timeout);
  error_text = λ e. "error";
  batch_size = 20;
  now = now;
  at = record { db_now = now; held = λ id. false };
}

abbrev queued : Delivery
queued = record {
  id = 4;
  user_id = 3;
  channel = "sms";
  destination = "1";
  subject = "";
  body = "text";
  format = "text";
  status = pending;
  attempts = 0;
  max_attempts = 2;
  next_attempt_at = 0;
  last_error = "";
  provider_ref = "";
  read_at = none;
  locked_until = none;
  version = 1;
  updated_at = 0;
  updated_by = none;
  deleted_at = none;
}

abbrev done : Delivery
done = record queued { id = 5; status = sent; attempts = 1 }

abbrev first_round : Module
first_round = module_at 1000000

abbrev second_round : Module
second_round = module_at 40000000

gate_tests :
    (gate (record {
      active = true;
      channel_on = true;
      channel_why = "";
      opted_out = false;
      needs_address = true;
      destination = " ";
    })
      ≡ (skipped, "destination missing"))
    × (gate (record {
      active = true;
      channel_on = false;
      channel_why = "";
      opted_out = true;
      needs_address = false;
      destination = "";
    })
        ≡ (skipped, "channel disabled"))
    × (classify_status "sms" "sms status 429" 429 ≡ some (message "sms status 429"))
    × (classify_status "sms" "sms status 404" 404
        ≡ some (permanent_error (message "sms status 404")))
    × (classify_status "sms" "" 204 ≡ none)
    × (backoff 3 ≡ 600)
unfolding gate is_blank classify_status backoff
gate_tests = (refl, refl, refl, refl, refl, refl)

final_is_untouched_example :
    Member done
      (dispatch_once first_round none (record {
        tables = record { deliveries = queued ∷ done ∷ []; attempts = [] };
        faults = [];
      })).1.tables.deliveries
final_is_untouched_example =
    final_is_untouched first_round done refl none
      (record { tables = record { deliveries = queued ∷ done ∷ []; attempts = [] }; faults = [] })
      (refl, (refl, tt)) (inr (inl refl))

round_of_one_example :
    AttemptMade first_round queued [] (dispatch_once first_round none (alone queued [])).1.tables
unfolding due
round_of_one_example = round_of_one first_round queued [] refl (omega arith)

retries_end_example : Left (rounds (first_round ∷ second_round ∷ []) (alone queued [])) failed 2 2
unfolding is_permanent due golang_template.Outbox.to_seconds backoff
retries_end_example =
    retries_end timeout (first_round ∷ second_round ∷ []) queued [] refl (omega arith) (omega arith)
      (refl, omega arith, refl, (refl, omega arith, refl, tt))

delay_over : to_seconds (first_round.now + backoff 1 * 1000000) ≤ 40000000
unfolding to_seconds backoff
delay_over = omega arith

late_failure_reopens_example :
    (r' : Delivery) × ((deliver first_round
        (record queued { attempts = 1 })
        (alone (record queued { status = sent }) [])).1.tables.deliveries
      ≡ r' ∷ [])
    × (r'.status ≡ pending)
    × (due second_round.at r' ≡ true)
unfolding is_permanent
late_failure_reopens_example =
    late_failure_reopens first_round (record queued { attempts = 1 })
      (record queued { status = sent }) [] timeout second_round.at refl refl refl refl (omega arith)
      delay_over refl

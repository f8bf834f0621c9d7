-- ===== src/Notifications/Judged.antt =====
-- What an attempt on a delivery must leave, apart from the code of
-- internal/modules/notification/dispatch.go, and that its outcome does.

use golang_template.Outbox.{to_seconds}
use golang_template.Prelude.{
  ℕ, zero, suc, ◌+◌, ◌*◌, ◌<◌, ◌≤◌, ◌≡◌, ◌⊎◌, inl, inr, ◌||◌, if◌then◌else◌, leb→le, Option, refl,
  ap, Bool, true, false, leb, List, [], ◌∷◌, none, some, arith,
}
use golang_template.Errors.{Err, message, permanent_error, is_permanent}
use golang_template.Notifications.{pending, sent, failed, Delivery, Attempt, Tables, backoff}
use golang_template.Notifications.Store.{claim_one}
use golang_template.Notifications.Senders.{Sender}
use golang_template.Notifications.Alone.{row_after}
use golang_template.Notifications.Dispatch.{Module, to_outbound, outcome, send_by}

-- What the sender of the delivery's channel answers for it, or that the channel has none.
pub data Asked (m : Module) (d : Delivery) : Option Err → Type 0 where
  answered :
      (send : ℕ → Sender) → m.senders d.channel ≡ some send → Asked m d (send d.id (to_outbound d))
  disabled :
      m.senders d.channel ≡ none → Asked m d (some (permanent_error (message "channel disabled")))

-- The seconds until the next attempt, by the attempts made before this one.
abbrev pub delay_after : ℕ → ℕ
delay_after zero = 30
delay_after (suc zero) = 120
delay_after (suc (suc zero)) = 600
delay_after (suc (suc (suc n))) = 3600

-- How a row must read after the attempt on the delivery `d` that was answered so.
pub data Judged (m : Module) (d row : Delivery) : Option Err → Type 0 where
  delivered : row.status ≡ sent → row.last_error ≡ "" → Judged m d row none
  given_up :
      (e : Err)
      → (is_permanent e ≡ true) ⊎ (d.max_attempts ≤ suc d.attempts)
      → row.status ≡ failed
      → row.last_error ≡ m.error_text e
      → Judged m d row (some e)
  put_off :
      (e : Err)
      → is_permanent e ≡ false
      → suc d.attempts < d.max_attempts
      → row.status ≡ pending
      → row.last_error ≡ m.error_text e
      → row.next_attempt_at ≡ to_seconds (m.now + delay_after d.attempts * 1000000)
      → Judged m d row (some e)

-- One attempt on the delivery `d` was made, counted, judged by its answer and logged.
pub record AttemptMade (m : Module) (d : Delivery) (log : List Attempt) (t : Tables) : Type 0 where
  pub row : Delivery
  pub left : t.deliveries ≡ row ∷ []
  pub same_id : row.id ≡ d.id
  pub counted : row.attempts ≡ suc d.attempts
  pub unlocked : row.locked_until ≡ none
  pub next_version : row.version ≡ suc d.version
  pub answer : Option Err
  pub asked : Asked m d answer
  pub judged : Judged m d row answer
  pub entry : Attempt
  pub logged : t.attempts ≡ entry ∷ log
  pub entry_of_id : entry.delivery_id ≡ d.id
  pub entry_numbered : entry.attempt ≡ suc d.attempts
  pub entry_status : entry.status ≡ row.status
  pub entry_error : entry.error ≡ row.last_error

backoff-delay_after : (n : ℕ) → backoff (suc n) ≡ delay_after n
unfolding backoff
backoff-delay_after zero = refl
backoff-delay_after (suc zero) = refl
backoff-delay_after (suc (suc zero)) = refl
backoff-delay_after (suc (suc (suc n))) = ground arith

pub send_by-Asked :
    (m : Module) (d : Delivery) (s : Option (ℕ → Sender))
    → m.senders d.channel ≡ s
    → Asked m d (send_by s (claim_one m.at d))
send_by-Asked m d none e = disabled e
send_by-Asked m d (some send) e = answered send e

not_yet : (a b : ℕ) → leb a b ≡ false → b < a
not_yet a b h = ground arith

either : (a b : Bool) → a || b ≡ true → (a ≡ true) ⊎ (b ≡ true)
either true b h = inl refl
either false b h = inr h

neither : (a b : Bool) → a || b ≡ false → (a ≡ false) × (b ≡ false)
neither true b h = cc
neither false b h = (refl, h)

module _ (m : Module) (d : Delivery) where
  error_outcome-Judged :
      (e : Err) (b : Bool)
      → is_permanent e || leb d.max_attempts (suc d.attempts) ≡ b
      → Judged m d
          (row_after m (claim_one m.at d) (
            if b
            then record { status = failed; reason = m.error_text e; next = m.now }
            else record {
              status = pending;
              reason = m.error_text e;
              next = m.now + backoff (suc d.attempts) * 1000000;
            }))
          (some e)
  error_outcome-Judged e true h =
      given_up e
        (elim (either (is_permanent e) (leb d.max_attempts (suc d.attempts)) h) [
          | inl permanent ↦ inl permanent
          | inr last ↦ inr (leb→le d.max_attempts (suc d.attempts) last)
        ])
        refl refl
  error_outcome-Judged e false h =
      let (temporary, more) = neither (is_permanent e) (leb d.max_attempts (suc d.attempts)) h in
      put_off e temporary (not_yet d.max_attempts (suc d.attempts) more) refl refl
        (ap (λ n. to_seconds (m.now + n * 1000000)) (backoff-delay_after d.attempts))

  pub outcome-Judged :
      (o : Option Err)
      → Judged m d (row_after m (claim_one m.at d) (outcome m (claim_one m.at d) o)) o
  outcome-Judged none = delivered refl refl
  outcome-Judged (some e) = error_outcome-Judged e _ refl

-- ===== src/Notifications/Dispatch.antt =====
-- internal/modules/notification/dispatch.go: a batch of due deliveries is claimed and sent.
--
-- A sender is a function of the delivery, so that two of them may get different answers. The
-- errors of `Finish` and `AddAttempt` are logged only.
use golang_template.Prelude.{
  ℕ, ◌+◌, ◌*◌, String, ◌||◌, leb, if◌then◌else◌, List, [], ◌∷◌, Option, none, some,
}
use golang_template.Errors.{Err, message, permanent_error, is_permanent}
use golang_template.Storage.{Action, attempt, pure, raise, ◌>>=◌}
use golang_template.Notifications.{Status, pending, sent, failed, Delivery, Tables, backoff}
use golang_template.Notifications.Store.{Moment, claim, finish, add_attempt}
use golang_template.Notifications.Senders.{Outbound, Sender}

-- The senders by channel, the text of an error, and the clocks.
pub record Module : Type 0 where
  pub senders : String → Option (ℕ → Sender)
  pub error_text : Err → String
  pub batch_size : ℕ
  pub now : ℕ
  pub at : Moment

abbrev pub to_outbound : Delivery → Outbound
to_outbound d = record {
  to_ = d.destination;
  subject = d.subject;
  body = d.body;
  format = d.format;
}

abbrev pub send_by : Option (ℕ → Sender) → Delivery → Option Err
send_by none d = some (permanent_error (message "channel disabled"))
send_by (some send) d = send d.id (to_outbound d)

-- What is written down of an attempt: the status, the reason and the time of the next one.
pub record Outcome : Type 0 where
  pub status : Status
  pub reason : String
  pub next : ℕ

abbrev pub outcome : Module → Delivery → Option Err → Outcome
outcome m d none = record { status = sent; reason = ""; next = m.now }
outcome m d (some e) =
    if is_permanent e || leb d.max_attempts d.attempts
    then record { status = failed; reason = m.error_text e; next = m.now }
    else record {
      status = pending;
      reason = m.error_text e;
      next = m.now + backoff d.attempts * 1000000;
    }

abbrev pub write_outcome : Module → Delivery → Outcome → Action Tables (Unit {0})
write_outcome m d o =
    attempt (finish m.at.db_now d.id o.status o.next o.reason "")
      (λ _. attempt (add_attempt d.id d.attempts o.status o.reason) (λ _. pure tt))

unfoldable pub deliver : Module → Delivery → Action Tables (Unit {0})
deliver m d = write_outcome m d (outcome m d (send_by (m.senders d.channel) d))

unfoldable pub deliver_all : Module → List Delivery → Action Tables (Unit {0})
deliver_all m [] = pure tt
deliver_all m (d ∷ ds) = deliver m d >>= λ _. deliver_all m ds

-- `dispatchOnce`, over whether the context is done.
unfoldable pub dispatch_once : Module → Option Err → Action Tables (Unit {0})
dispatch_once m (some e) = raise e
dispatch_once m none = claim m.at m.batch_size >>= deliver_all m

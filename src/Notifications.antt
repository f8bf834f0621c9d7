-- ===== src/Notifications.antt =====
-- internal/modules/notification: the data of model.go, the policy of policy.go, and the errors of
-- channel.go.
--
-- A delivery has the columns of `notification_deliveries` in
-- cmd/migrate/migrations/000007_notifications.up.sql that the dispatcher and the readers
-- use.
pub mod Store
pub mod Senders
pub mod Dispatch
pub mod Rows
pub mod Final
pub mod Alone
pub mod Judged
pub mod Outcome
pub mod Tests
use Prim.Native.Char.{code}
use Prim.Native.String
use golang_template.Prelude.{
  ℕ, suc, ◌+◌, ◌*◌, String, Bool, true, false, not, ◌&&◌, ◌||◌, ◌==◌, eqb, ltb, leb, if◌then◌else◌,
  List, [], ◌∷◌, Option, none, some, take, any,
}
use golang_template.Errors.{
  Err, sentinel, not_found, no_rows, message, is, permanent_error, Result, ok, err,
}
use golang_template.Storage.{Action, attempt, statement, pure, raise}
use golang_template.Outbox.{to_seconds}
use golang_template.Outbox.Claim.{is_null}

pub data Status : Type 0 where
  pending sending sent failed skipped : Status

abbrev pub same_status : Status → Status → Bool
same_status pending pending = true
same_status sending sending = true
same_status sent sent = true
same_status failed failed = true
same_status skipped skipped = true
same_status _ _ = false

pub record Delivery : Type 0 where
  pub id : ℕ
  pub user_id : ℕ
  pub channel : String
  pub destination : String
  pub subject : String
  pub body : String
  pub format : String
  pub status : Status
  pub attempts : ℕ
  pub max_attempts : ℕ
  pub next_attempt_at : ℕ
  pub last_error : String
  pub provider_ref : String
  pub read_at : Option ℕ
  pub locked_until : Option ℕ
  pub version : ℕ
  pub updated_at : ℕ
  pub updated_by : Option ℕ
  pub deleted_at : Option ℕ

-- A row of `notification_attempts`.
pub record Attempt : Type 0 where
  pub delivery_id : ℕ
  pub attempt : ℕ
  pub status : Status
  pub error : String

pub record Tables : Type 0 where
  pub deliveries : List Delivery
  pub attempts : List Attempt

pub record GateInput : Type 0 where
  pub active : Bool
  pub channel_on : Bool
  pub channel_why : String
  pub opted_out : Bool
  pub needs_address : Bool
  pub destination : String

-- The white space that `strings.TrimSpace` removes, in ASCII.
abbrev is_space : ℕ → Bool
is_space n = eqb n 32 || leb 9 n && leb n 13

-- `strings.TrimSpace(s) == ""`
unfoldable pub is_blank : String → Bool
is_blank String.[] = true
is_blank (String.◌∷◌ c s) = is_space (code c) && is_blank s

unfoldable pub gate : GateInput → Status × String
gate in_ =
    if not in_.active
    then (skipped, "account inactive")
    else if not in_.channel_on
    then (skipped, if in_.channel_why == "" then "channel disabled" else in_.channel_why)
    else if in_.opted_out
    then (skipped, "preference disabled")
    else if in_.needs_address && is_blank in_.destination
    then (skipped, "destination missing")
    else (pending, "")

abbrev pub channel_in_app : String
channel_in_app = "in_app"

unfoldable pub needs_address : String → Bool
needs_address channel = not (channel == channel_in_app)

-- The seconds before the next attempt.
unfoldable pub backoff : ℕ → ℕ
backoff attempt_ =
    if eqb attempt_ 1
    then 30
    else if eqb attempt_ 2
    then 120
    else if eqb attempt_ 3
    then 600
    else 3600

unfoldable pub classify_status : String → String → ℕ → Option Err
classify_status kind text n =
    if leb 200 n && ltb n 300
    then none
    else if eqb n 429 || eqb n 408 || leb 500 n
    then some (message text)
    else some (permanent_error (message text))

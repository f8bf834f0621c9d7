-- ===== src/Notifications/Store.antt =====
-- The queue of deliveries in internal/modules/notification/store.go.
--
-- Times are microseconds; a column `timestamp(0)` rounds to whole seconds. `held` says which rows
-- other open transactions have locked, which `SKIP LOCKED` passes over.

use golang_template.Prelude.{
  ℕ, suc, ◌+◌, String, Bool, true, false, not, ◌&&◌, ◌||◌, ◌==◌, eqb, ltb, leb, if◌then◌else◌, List,
  [], ◌∷◌, Option, none, some, take, any,
}
use golang_template.Errors.{sentinel, not_found, no_rows, is, Result, ok, err}
use golang_template.Storage.{Action, attempt, statement, pure, raise}
use golang_template.Outbox.{to_seconds}
use golang_template.Outbox.Claim.{is_null}
use golang_template.Notifications.{
  Status, same_status, Delivery, Tables, channel_in_app, pending, sending, sent,
}

-- The clock of the database, and the rows that other transactions hold.
pub record Moment : Type 0 where
  pub db_now : ℕ
  pub held : ℕ → Bool

-- locked_until IS NULL OR locked_until < NOW()
abbrev pub lock_over : Option ℕ → ℕ → Bool
lock_over none now = true
lock_over (some l) now = ltb l now

-- locked_until < NOW(), which is not true of NULL.
abbrev pub lock_expired : Option ℕ → ℕ → Bool
lock_expired none now = false
lock_expired (some l) now = ltb l now

-- The WHERE clause of `due`.
unfoldable pub due : Moment → Delivery → Bool
due at d =
    is_null d.deleted_at
    && leb d.next_attempt_at at.db_now
    && (same_status d.status pending && lock_over d.locked_until at.db_now
        || same_status d.status sending && lock_expired d.locked_until at.db_now)
    && not (at.held d.id)

-- ORDER BY next_attempt_at
unfoldable pub insert_due : Delivery → List Delivery → List Delivery
insert_due d [] = d ∷ []
insert_due d (x ∷ xs) =
    let rest = insert_due d xs in
    if leb d.next_attempt_at x.next_attempt_at then d ∷ x ∷ xs else x ∷ rest

unfoldable pub all_due : Moment → List Delivery → List Delivery
all_due at [] = []
all_due at (d ∷ rows) = let rest = all_due at rows in if due at d then insert_due d rest else rest

abbrev pub has_id : ℕ → List Delivery → Bool
has_id i rows = any (λ d. eqb d.id i) rows

abbrev pub claim_one : Moment → Delivery → Delivery
claim_one at d = record d {
  status = sending;
  attempts = suc d.attempts;
  locked_until = some (to_seconds (at.db_now + 60000000));
  updated_at = to_seconds at.db_now;
}

unfoldable pub claim_rows : Moment → List Delivery → List Delivery → List Delivery
claim_rows at chosen [] = []
claim_rows at chosen (d ∷ rows) =
    let rest = claim_rows at chosen rows in
    if has_id d.id chosen then claim_one at d ∷ rest else d ∷ rest

unfoldable pub claimed : Moment → List Delivery → List Delivery → List Delivery
claimed at chosen [] = []
claimed at chosen (d ∷ rows) =
    let rest = claimed at chosen rows in if has_id d.id chosen then claim_one at d ∷ rest else rest

abbrev pub claim_update : Moment → ℕ → Tables → Result (List Delivery) × Tables
claim_update at limit t = (
  ok (claimed at (take limit (all_due at t.deliveries)) t.deliveries),
  record t { deliveries = claim_rows at (take limit (all_due at t.deliveries)) t.deliveries },
)

unfoldable pub claim : Moment → ℕ → Action Tables (List Delivery)
claim at limit = statement (claim_update at limit)

-- The row that `Finish` leaves.
abbrev pub finished_row : ℕ → Status → ℕ → String → String → Delivery → Delivery
finished_row db_now status next last_error provider_ref d = record d {
  status = status;
  next_attempt_at = to_seconds next;
  last_error = last_error;
  provider_ref = if provider_ref == "" then d.provider_ref else provider_ref;
  locked_until = none;
  version = suc d.version;
  updated_at = to_seconds db_now;
}

-- The rows with an id that are not deleted are changed.
abbrev pub is_row : ℕ → Delivery → Bool
is_row id d = eqb d.id id && is_null d.deleted_at

unfoldable pub update_rows :
    (Delivery → Bool) → (Delivery → Delivery) → List Delivery → List Delivery
update_rows wanted f [] = []
update_rows wanted f (d ∷ rows) =
    let rest = update_rows wanted f rows in if wanted d then f d ∷ rest else d ∷ rest

abbrev pub finish_update :
    ℕ → ℕ → Status → ℕ → String → String → Tables → Result (Unit {0}) × Tables
finish_update db_now id status next last_error provider_ref t =
    if any (is_row id) t.deliveries
    then (
      ok tt,
      record t {
        deliveries =
            update_rows (is_row id) (finished_row db_now status next last_error provider_ref)
              t.deliveries;
      },
    )
    else (err (sentinel not_found), t)

unfoldable pub finish : ℕ → ℕ → Status → ℕ → String → String → Action Tables (Unit {0})
finish db_now id status next last_error provider_ref =
    statement (finish_update db_now id status next last_error provider_ref)

unfoldable pub add_attempt : ℕ → ℕ → Status → String → Action Tables (Unit {0})
add_attempt delivery_id attempt_ status reason = statement (λ t. (
  ok tt,
  record t {
    attempts =
        record { delivery_id = delivery_id; attempt = attempt_; status = status; error = reason }
        ∷ t.attempts;
  },
))

-- The row that the reader may mark: their own, delivered in the application and not yet read.
abbrev pub is_unread : ℕ → ℕ → Delivery → Bool
is_unread id user_id d =
    eqb d.id id
    && eqb d.user_id user_id
    && d.channel == channel_in_app
    && same_status d.status sent
    && is_null d.deleted_at
    && is_null d.read_at

abbrev pub read_row : ℕ → Option ℕ → Delivery → Delivery
read_row db_now actor d = record d {
  read_at = some (to_seconds db_now);
  updated_by = actor;
  version = suc d.version;
  updated_at = to_seconds db_now;
}

abbrev pub first_row : (Delivery → Bool) → List Delivery → Result Delivery
first_row wanted [] = err (sentinel no_rows)
first_row wanted (d ∷ rows) = let rest = first_row wanted rows in if wanted d then ok d else rest

abbrev pub read_result : ℕ → Option ℕ → Result Delivery → Result Delivery
read_result db_now actor (ok d) = ok (read_row db_now actor d)
read_result db_now actor (err e) = err e

abbrev pub mark_read_update : ℕ → ℕ → ℕ → Option ℕ → Tables → Result Delivery × Tables
mark_read_update db_now id user_id actor t = (
  read_result db_now actor (first_row (is_unread id user_id) t.deliveries),
  record t { deliveries = update_rows (is_unread id user_id) (read_row db_now actor) t.deliveries },
)

abbrev no_row_is_missing : Result Delivery → Action Tables Delivery
no_row_is_missing (ok d) = pure d
no_row_is_missing (err e) = if is e no_rows then raise (sentinel not_found) else raise e

unfoldable pub mark_read : ℕ → ℕ → ℕ → Option ℕ → Action Tables Delivery
mark_read db_now id user_id actor =
    attempt (statement (mark_read_update db_now id user_id actor)) no_row_is_missing

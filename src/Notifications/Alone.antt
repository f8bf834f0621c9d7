-- ===== src/Notifications/Alone.antt =====
-- A table with one delivery in the rounds of internal/modules/notification/dispatch.go, while the
-- connection works: a round, computed.

use golang_template.Outbox.Claim.{is_null}
use golang_template.Prelude.{
  ℕ, zero, suc, ◌<◌, ◌≡◌, refl, ap, Bool, true, false, ◌&&◌, List, [], ◌∷◌, none, take, arith,
  eqb_refl,
}
use golang_template.Errors.{ok}
use golang_template.Storage.{Db, statement, attempt, pure, ◌>>=◌}
use golang_template.Notifications.{Delivery, Attempt, Tables}
use golang_template.Notifications.Store.{
  Moment, due, insert_due, all_due, claim_one, claim_rows, claimed, claim, is_row, finished_row,
  update_rows, finish, add_attempt,
}
use golang_template.Notifications.Dispatch.{
  Module, Outcome, outcome, deliver, deliver_all, dispatch_once, send_by,
}

-- Tables with one delivery, over a connection that does not fail.
abbrev pub alone : Delivery → List Attempt → Db Tables
alone d log = record { tables = record { deliveries = d ∷ []; attempts = log }; faults = [] }

-- The row and the entry of the log that an attempt leaves.
abbrev pub row_after : Module → Delivery → Outcome → Delivery
row_after m d o = finished_row m.at.db_now o.status o.next o.reason "" d

abbrev pub entry_of : Delivery → Outcome → Attempt
entry_of d o = record {
  delivery_id = d.id;
  attempt = d.attempts;
  status = o.status;
  error = o.reason;
}

-- The attempt that a round makes of a due delivery.
abbrev pub attempted : Module → Delivery → Outcome
attempted m d = outcome m (claim_one m.at d) (send_by (m.senders d.channel) (claim_one m.at d))

take_nil : (n : ℕ) → take {A = Delivery} n [] ≡ []
take_nil zero = refl
take_nil (suc n) = refl

take_one : (n : ℕ) (d : Delivery) → 0 < n → take n (d ∷ []) ≡ d ∷ []
take_one zero d h = absurd (omega arith)
take_one (suc n) d h = ap (λ ds. d ∷ ds) (take_nil n)

and_first : (a b c e : Bool) → a && b && c && e ≡ true → a ≡ true
and_first true b c e h = refl
and_first false b c e h = h

pub and_second : (a b : Bool) → a && b ≡ true → b ≡ true
and_second true b h = h
and_second false b h = cc

due_live : (at : Moment) (d : Delivery) → due at d ≡ true → is_null d.deleted_at ≡ true
unfolding due
due_live at d h = and_first (is_null d.deleted_at) _ _ _ h

module _ (m : Module) (d r : Delivery) (log : List Attempt) where
  -- A worker that finishes a delivery writes its outcome over the row, whatever its status is.
  pub deliver-alone :
      is_row d.id r ≡ true
      → deliver m d (alone r log) ≡ (
        ok tt,
        alone
            (row_after m r (outcome m d (send_by (m.senders d.channel) d)))
            (entry_of d (outcome m d (send_by (m.senders d.channel) d)) ∷ log),
      )
  unfolding deliver finish add_attempt statement attempt pure update_rows
  deliver-alone mine = rw mine refl

module _ (m : Module) (d : Delivery) (log : List Attempt) where
  deliver_all-alone :
      is_row d.id d ≡ true
      → (deliver_all m (d ∷ []) (alone d log)).1
        ≡ alone
            (row_after m d (outcome m d (send_by (m.senders d.channel) d)))
            (entry_of d (outcome m d (send_by (m.senders d.channel) d)) ∷ log)
  unfolding deliver_all ◌>>=◌ attempt pure
  deliver_all-alone mine = rw (deliver-alone m d d log mine) refl

module _ (m : Module) (d : Delivery) (log : List Attempt) where
  -- A round in the terms of its own steps.
  pub round_alone :
      due m.at d ≡ true
      → 0 < m.batch_size
      → (dispatch_once m none (alone d log)).1
        ≡ alone
            (row_after m (claim_one m.at d) (attempted m d))
            (entry_of (claim_one m.at d) (attempted m d) ∷ log)
  unfolding dispatch_once claim ◌>>=◌ attempt statement all_due insert_due claim_rows claimed
  round_alone h room =
      rw (h, take_one m.batch_size d room, eqb_refl d.id)
        (deliver_all-alone m (claim_one m.at d) log (rw (due_live m.at d h, eqb_refl d.id) refl))

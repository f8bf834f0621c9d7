-- ===== src/Notifications/Outcome.antt =====
-- On one delivery through the rounds of internal/modules/notification/dispatch.go, while the
-- connection works.
use mathlib.Core.Path.{subst}
use golang_template.Outbox.{to_seconds}
use golang_template.Outbox.Claim.{is_null}
use golang_template.Prelude.{
  ℕ, suc, ◌+◌, ◌*◌, ◌<◌, ◌≤◌, ◌≡◌, refl, sym, ap, ◌∙◌, true, false, eqb, leb, le→leb, List, [], ◌∷◌,
  none, some, length, arith,
}
use golang_template.Errors.{Err, is_permanent}
use golang_template.Storage.{Db}
use golang_template.Notifications.{
  Status, pending, sent, failed, Delivery, Attempt, Tables, backoff,
}
use golang_template.Notifications.Store.{Moment, due, claim_one, is_row}
use golang_template.Notifications.Alone.{
  alone, row_after, entry_of, attempted, round_alone, deliver-alone, and_second,
}
use golang_template.Notifications.Judged.{AttemptMade, send_by-Asked, outcome-Judged}
use golang_template.Notifications.Dispatch.{
  Module, Outcome, outcome, deliver, dispatch_once, send_by,
}

module _ (m : Module) (d : Delivery) (log : List Attempt) where
  -- While the connection works, a round of the dispatcher, with room in its batch, on a table with
  -- one due delivery makes one attempt on it: the sender of its channel is asked, where there is
  -- one, the attempt is counted, the lock is gone, and the log has one more entry, with the
  -- delivery's id, the attempt's number and the row's status and error. The row is sent after no
  -- error, failed after a permanent error or at the last attempt, and otherwise pending until 30,
  -- 120, 600 or 3600 seconds have passed, by the attempts made before.
  pub round_of_one :
      due m.at d ≡ true
      → 0 < m.batch_size
      → AttemptMade m d log (dispatch_once m none (alone d log)).1.tables
  round_of_one h room =
      let made = ap (λ (x : Db Tables). x.tables) (round_alone m d log h room) in
      record {
        row = row_after m (claim_one m.at d) (attempted m d);
        left = ap (λ (t : Tables). t.deliveries) made;
        same_id = refl;
        counted = refl;
        unlocked = refl;
        next_version = refl;
        answer = send_by (m.senders d.channel) (claim_one m.at d);
        asked = send_by-Asked m d (m.senders d.channel) refl;
        judged = outcome-Judged m d (send_by (m.senders d.channel) (claim_one m.at d));
        entry = entry_of (claim_one m.at d) (attempted m d);
        logged = ap (λ (t : Tables). t.attempts) made;
        entry_of_id = refl;
        entry_numbered = refl;
        entry_status = refl;
        entry_error = refl;
      }

-- Rounds one after the other.
abbrev pub rounds : List Module → Db Tables → Db Tables
rounds [] db = db
rounds (m ∷ ms) db = rounds ms (dispatch_once m none db).1

-- In each of the rounds the delivery is due, there is room for it in the batch, and its sender
-- returns an error that is not permanent.
abbrev pub KeepsFailing : Err → List Module → Delivery → Type 0
KeepsFailing e [] d = Unit
KeepsFailing e (m ∷ ms) d =
    (due m.at d ≡ true)
    × (0 < m.batch_size)
    × (send_by (m.senders d.channel) (claim_one m.at d) ≡ some e)
    × KeepsFailing e ms (row_after m (claim_one m.at d) (attempted m d))

-- What the rounds leave: one delivery with this status and number of attempts, and a log of this
-- length.
abbrev pub Left : Db Tables → Status → ℕ → ℕ → Type 0
Left db status attempts_ entries =
    (d : Delivery) × (db.tables.deliveries ≡ d ∷ [])
    × (d.status ≡ status)
    × (d.attempts ≡ attempts_)
    × (length db.tables.attempts ≡ entries)

failed_last :
    (m : Module) (d : Delivery) (e : Err)
    → is_permanent e ≡ false
    → d.max_attempts ≤ d.attempts
    → (outcome m d (some e)).status ≡ failed
failed_last m d e temporary last = rw (temporary, le→leb d.max_attempts d.attempts last) refl

shifted : (a b : ℕ) → suc a + suc b ≡ a + suc (suc b)
shifted a b = omega arith

-- While the connection works, a delivery that is alone in the table, that has attempts left, that
-- is due with room in the batch in each round, and whose sends fail each time with an error that
-- is not permanent, is failed once as many rounds were made as attempts were left to it, and the
-- log has an entry for each of them.
pub retries_end :
    (e : Err) (ms : List Module) (d : Delivery) (log : List Attempt)
    → is_permanent e ≡ false
    → 0 < length ms
    → d.attempts + length ms ≡ d.max_attempts
    → KeepsFailing e ms d
    → Left (rounds ms (alone d log)) failed d.max_attempts (length log + length ms)
retries_end e [] d log temporary some_ total failing = absurd (omega arith)
retries_end e (m ∷ []) d log temporary some_ total (h, room, sends, none_left) =
    rw (round_alone m d log h room) (
      row_after m (claim_one m.at d) (attempted m d),
      refl,
      ap (λ x. (outcome m (claim_one m.at d) x).status) sends
          ∙ failed_last m (claim_one m.at d) e temporary (omega arith),
      omega arith,
      omega arith,
    )
retries_end e (m ∷ m' ∷ ms) d log temporary some_ total (h, room, sends, failing) =
    let d' = row_after m (claim_one m.at d) (attempted m d) in
    let log' = entry_of (claim_one m.at d) (attempted m d) ∷ log in
    subst
      (λ x. Left (rounds (m' ∷ ms) x) failed d.max_attempts (length log + suc (suc (length ms))))
      (sym (round_alone m d log h room))
      (subst (λ n. Left (rounds (m' ∷ ms) (alone d' log')) failed d.max_attempts n)
        (shifted (length log) (length ms))
        (retries_end e (m' ∷ ms) d' log' temporary (omega arith) (omega arith) failing))

not_last : (a b : ℕ) → a < b → leb b a ≡ false
not_last a b h = ground arith

is_row-live : (i : ℕ) (r : Delivery) → is_row i r ≡ true → is_null r.deleted_at ≡ true
is_row-live i r h = and_second (eqb r.id i) (is_null r.deleted_at) h

module _ (m : Module) (d r : Delivery) (log : List Attempt) (e : Err) (later : Moment) where
  -- While the connection works, a worker that finishes its attempt late writes over what another
  -- worker stored: if its own attempt failed with an error that is not permanent and was not the
  -- last, a delivery, alone in the table and not deleted, that is marked as sent becomes pending,
  -- and is due again after the delay, unless another transaction holds it.
  pub late_failure_reopens :
      r.status ≡ sent
      → is_row d.id r ≡ true
      → send_by (m.senders d.channel) d ≡ some e
      → is_permanent e ≡ false
      → d.attempts < d.max_attempts
      → to_seconds (m.now + backoff d.attempts * 1000000) ≤ later.db_now
      → later.held r.id ≡ false
      → (r' : Delivery) × ((deliver m d (alone r log)).1.tables.deliveries ≡ r' ∷ [])
        × (r'.status ≡ pending)
        × (due later r' ≡ true)
  unfolding due
  late_failure_reopens was_sent mine sends temporary more after free =
      let o : Outcome = record {
        status = pending;
        reason = m.error_text e;
        next = m.now + backoff d.attempts * 1000000;
      } in
      let same : outcome m d (send_by (m.senders d.channel) d) ≡ o =
        ap (outcome m d) sends ∙ rw (temporary, not_last d.attempts d.max_attempts more) refl in
      (
        row_after m r o,
        rw (deliver-alone m d r log mine, same) refl,
        refl,
        rw
            (
              is_row-live d.id r mine,
              le→leb (to_seconds (m.now + backoff d.attempts * 1000000)) later.db_now after,
              free,
            )
            refl,
      )

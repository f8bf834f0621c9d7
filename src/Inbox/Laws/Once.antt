-- ===== src/Inbox/Laws/Once.antt =====
-- How often `Process` of internal/platform/inbox/store.go applies an event, over schedules of
-- deliveries and faults.
use golang_template.Prelude.{
  ℕ, ◌≡◌, ◌≢◌, ◌+◌, ◌≤◌, refl, ◌⊎◌, inl, inr, String, true, false, ◌&&◌, ◌==◌, eq_iff, eqb,
  if◌then◌else◌, Option, some, List, [], ◌∷◌, arith, ap, ◌∙◌,
}
use golang_template.Prelude.Int.{ℤ, pos, ltb_ℤ}
use golang_template.Errors.{Result, ok}
use golang_template.Storage.{Fault, Db, statement}
use golang_template.Storage.Laws.{body_of, with_tx_atomic, with_tx-eq-ok, statement-eq-ok}
use golang_template.Event.{Event}
use golang_template.Inbox.{
  Message, Tables, Handler, watermark, recorded, run_handler, apply_once, process,
}
use golang_template.Inbox.Laws.Watermarks.{marked, NotStale, apply_once-eq-ok}

-- The effect of a delivery that took place: the handler ran once, without an error, in a database
-- where the event was neither recorded nor stale, and is recorded with it.
pub record Applied {S : Type 0} (m : Message) (e : Event) (h : Option (Handler S)) (t t' : Tables S)
    : Type 0 where
  pub new : recorded m.consumer_name m.event_id t.inbox ≡ false
  pub not_stale : NotStale e (watermark m.consumer_name e.subject t.watermarks)
  pub positive : ltb_ℤ (pos 0) e.aggregate_version ≡ true
  pub faults : List (Option Fault)
  pub ran : (run_handler h e (record { tables = marked m e t; faults = faults })).0 ≡ ok tt
  pub left : t' ≡ (run_handler h e (record { tables = marked m e t; faults = faults })).1.tables

module _ {S : Type 0} (m : Message) (e : Event) (h : Option (Handler S)) (db : Db (Tables S)) where
  applied :
      (d : Db (Tables S)) {a : Unit {0}}
      → (body_of (apply_once m e h) db).0 ≡ ok a
      → d.tables ≡ (body_of (apply_once m e h) db).1.tables
      → Applied m e h db.tables d.tables
  applied d body left =
      let (new, fresh, (positive, fs, ran, final)) = apply_once-eq-ok m e h _ body in
      record {
        new = new;
        not_stale = fresh;
        positive = positive;
        faults = fs;
        ran = ran;
        left = left ∙ ap (λ (d : Db (Tables S)). d.tables) final;
      }

  -- Whatever the connection does, `Process` leaves every table as it was or applies the event
  -- completely: the record, the watermark and the handler's writes come together.
  pub process_atomic :
      ((process m e h db).1.tables ≡ db.tables)
      ⊎ Applied m e h db.tables (process m e h db).1.tables
  unfolding process
  process_atomic = elim (with_tx_atomic (apply_once m e h) db) [
    | inl same ↦ inl same
    | inr (a, body, left) ↦ inr (applied (process m e h db).1 body left)
  ]

  -- When `Process` returns no error, the event has been applied.
  pub process-eq-ok :
      (process m e h db).0 ≡ ok tt → Applied m e h db.tables (process m e h db).1.tables
  unfolding process
  process-eq-ok good =
      let (body, left) = with_tx-eq-ok (apply_once m e h) db good in
      applied (process m e h db).1 body left

  -- A delivery of an event that the consumer has recorded changes nothing and reports an error,
  -- whatever the connection does.
  pub process-recorded :
      recorded m.consumer_name m.event_id db.tables.inbox ≡ true
      → ((process m e h db).1.tables ≡ db.tables) × ((process m e h db).0 ≢ ok tt)
  process-recorded old = (
    elim process_atomic [ inl same ↦ same | inr a ↦ cc (a.new) ],
    λ good. cc ((process-eq-ok good).new),
  )

-- A handler that writes down its calls, to see how often and in which order they take place.
pub record Call : Type 0 where
  pub consumer : String
  pub id : ℕ
  pub subject : String
  pub version : ℤ

abbrev pub call : Message → Event → Call
call m e = record {
  consumer = m.consumer_name;
  id = m.event_id;
  subject = e.subject;
  version = e.aggregate_version;
}

abbrev write_call : Call → Tables (List Call) → Result (Unit {0}) × Tables (List Call)
write_call c t = (ok tt, record t { app = c ∷ t.app })

unfoldable pub log_call : Message → Handler (List Call)
log_call m e = statement (write_call (call m e))

-- A schedule: every delivery in turn, whatever the earlier ones returned.
unfoldable pub deliver_all :
    List (Message × Event) → Db (Tables (List Call)) → Db (Tables (List Call))
deliver_all [] db = db
deliver_all ((m, e) ∷ rest) db = deliver_all rest (process m e (some (log_call m)) db).1

abbrev pub calls : String → ℕ → List Call → ℕ
calls c i [] = 0
calls c i (x ∷ xs) = (if x.consumer == c && eqb x.id i then 1 else 0) + calls c i xs

-- One delivery to the writing handler: nothing, or one call with its bookkeeping.
pub process_log :
    (m : Message) (e : Event) (db : Db (Tables (List Call)))
    → ((process m e (some (log_call m)) db).1.tables ≡ db.tables)
      ⊎ ((recorded m.consumer_name m.event_id db.tables.inbox ≡ false)
          × NotStale e (watermark m.consumer_name e.subject db.tables.watermarks)
          × (ltb_ℤ (pos 0) e.aggregate_version ≡ true)
          × ((process m e (some (log_call m)) db).1.tables
              ≡ record (marked m e db.tables) { app = call m e ∷ db.tables.app }))
unfolding log_call
process_log m e db = elim (process_atomic m e (some (log_call m)) db) [
  | inl same ↦ inl same
  | inr a ↦ inr (
    a.new,
    a.not_stale,
    a.positive,
    a.left
        ∙ ap (λ (d : Db (Tables (List Call))). d.tables)
            (statement-eq-ok (write_call (call m e)) _ a.ran).1,
  )
]

-- Each event was logged at most once, and only if it is recorded.
pub record LoggedOnce (t : Tables (List Call)) : Type 0 where
  pub once : (c : String) (i : ℕ) → calls c i t.app ≤ 1
  pub backed : (c : String) (i : ℕ) → recorded c i t.inbox ≡ false → calls c i t.app ≡ 0

process-LoggedOnce :
    (m : Message) (e : Event) (db : Db (Tables (List Call)))
    → LoggedOnce db.tables
    → LoggedOnce (process m e (some (log_call m)) db).1.tables
unfolding recorded
process-LoggedOnce m e db v = elim (process_log m e db) [
  | inl same ↦ rw same v
  | inr (new, _, _, left) ↦ rw left (record {
    once = λ c i. ground (arith, v.once c i, v.backed c i, new, eq_iff m.consumer_name c);
    backed = λ c i fresh. ground (arith, v.backed c i, eq_iff m.consumer_name c);
  })
]

deliver_all-LoggedOnce :
    (schedule : List (Message × Event)) (db : Db (Tables (List Call)))
    → LoggedOnce db.tables
    → LoggedOnce (deliver_all schedule db).tables
unfolding deliver_all
deliver_all-LoggedOnce [] db v = v
deliver_all-LoggedOnce ((m, e) ∷ rest) db v =
    deliver_all-LoggedOnce rest (process m e (some (log_call m)) db).1 (process-LoggedOnce m e db v)

abbrev pub empty_tables : Tables (List Call)
empty_tables = record { inbox = []; watermarks = []; app = [] }

-- From empty tables, whatever is delivered, in whatever order and however often, and whatever
-- statements, begins and commits fail, with or without effect, each consumer's handler takes
-- effect at most once for each event id.
pub at_most_once :
    (schedule : List (Message × Event)) (faults : List (Option Fault)) (c : String) (i : ℕ)
    → calls c i
        (deliver_all schedule (record { tables = empty_tables; faults = faults })).tables.app
      ≤ 1
at_most_once schedule faults c i =
    (deliver_all-LoggedOnce schedule (record { tables = empty_tables; faults = faults })
        (record { once = λ c i. omega arith; backed = λ c i fresh. refl })).once
      c i

-- ===== src/Inbox/Laws/InOrder.antt =====
-- The order in which a handler of the inbox sees the events of a subject, over schedules of
-- deliveries and faults.
use golang_template.Prelude.{
  ◌≡◌, eq_refl, inl, inr, true, eq_iff, Option, none, some, List, [], ◌∷◌, arith, All,
}
use golang_template.Prelude.Int.{ℤ, pos, ltb_ℤ, ◌≤ℤ◌}
use golang_template.Storage.{Fault, Db}
use golang_template.Event.{Event, is_stale}
use golang_template.Inbox.{Message, Watermark, Tables, watermark, upsert_watermark, process}
use golang_template.Inbox.Laws.Watermarks.{watermark-upsert, NotStale}
use golang_template.Inbox.Laws.Once.{Call, call, log_call, deliver_all, process_log, empty_tables}

-- The watermark of a call's subject stands at its version or above.
abbrev AtMost : Option ℤ → Call → Type 0
AtMost none x = ⊥
AtMost (some l) x = (x.version ≤ℤ l) × (pos 1 ≤ℤ l)

abbrev Below : List Watermark → Call → Type 0
Below ws x = AtMost (watermark x.consumer x.subject ws) x

-- `y` is not above `x`, if both are of one consumer and one subject.
abbrev pub NotAbove : Call → Call → Type 0
NotAbove x y = y.consumer ≡ x.consumer → y.subject ≡ x.subject → y.version ≤ℤ x.version

-- The latest call stands first.
abbrev pub InOrder : List Call → Type 0
InOrder [] = Unit
InOrder (x ∷ xs) = All (NotAbove x) xs × InOrder xs

All-mono : {P Q : Call → Type 0} (xs : List Call) → ((x : Call) → P x → Q x) → All P xs → All Q xs
All-mono [] f h = tt
All-mono (x ∷ xs) f (p, h) = (f x p, All-mono xs f h)

module _ (m : Message) (e : Event) (ws : List Watermark) where
  abbrev upserted : List Watermark
  upserted = upsert_watermark m.consumer_name e.subject e.aggregate_version ws

  Below-upsert :
      (x : Call) → ltb_ℤ (pos 0) e.aggregate_version ≡ true → Below ws x → Below upserted x
  Below-upsert x p b =
      rw watermark-upsert
        (ground (arith, eq_iff m.consumer_name x.consumer, eq_iff e.subject x.subject))

  Below-call : ltb_ℤ (pos 0) e.aggregate_version ≡ true → Below upserted (call m e)
  Below-call p = rw (watermark-upsert, eq_refl, eq_refl) (ground arith)

  call_above :
      (x : Call)
      → NotStale e (watermark m.consumer_name e.subject ws)
      → Below ws x
      → NotAbove (call m e) x
  unfolding is_stale
  call_above x fresh b c s = ground arith

pub record Ordered (t : Tables (List Call)) : Type 0 where
  pub below : All (Below t.watermarks) t.app
  pub in_order : InOrder t.app

process-Ordered :
    (m : Message) (e : Event) (db : Db (Tables (List Call)))
    → Ordered db.tables
    → Ordered (process m e (some (log_call m)) db).1.tables
process-Ordered m e db v = elim (process_log m e db) [
  | inl same ↦ rw same v
  | inr (_, fresh, positive, left) ↦ rw left (record {
    below = (
      Below-call m e db.tables.watermarks positive,
      All-mono db.tables.app (λ x b. Below-upsert m e db.tables.watermarks x positive b) v.below,
    );
    in_order = (
      All-mono db.tables.app (λ x b. call_above m e db.tables.watermarks x fresh b) v.below,
      v.in_order,
    );
  })
]

deliver_all-Ordered :
    (schedule : List (Message × Event)) (db : Db (Tables (List Call)))
    → Ordered db.tables
    → Ordered (deliver_all schedule db).tables
unfolding deliver_all
deliver_all-Ordered [] db v = v
deliver_all-Ordered ((m, e) ∷ rest) db v =
    deliver_all-Ordered rest (process m e (some (log_call m)) db).1 (process-Ordered m e db v)

-- From empty tables, whatever is delivered in whatever order, and whatever statements, begins and
-- commits fail, a consumer's handler takes effect on the events of one subject in an order in
-- which their versions never go down.
pub versions-InOrder :
    (schedule : List (Message × Event)) (faults : List (Option Fault))
    → InOrder (deliver_all schedule (record { tables = empty_tables; faults = faults })).tables.app
versions-InOrder schedule faults =
    (deliver_all-Ordered schedule (record { tables = empty_tables; faults = faults })
      (record { below = tt; in_order = tt })).in_order

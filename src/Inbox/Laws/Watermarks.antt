-- ===== src/Inbox/Laws/Watermarks.antt =====
-- The map of watermarks, and what the body of `process` did when it returned no error.
use golang_template.Prelude.{
  ◌≡◌, refl, inl, inr, String, Bool, true, false, ◌&&◌, ◌==◌, eq_iff, if◌then◌else◌, Option, none,
  some, List, [], ◌∷◌, arith, Bool-cases, ap, ◌∙◌,
}
use golang_template.Prelude.Int.{ℤ, pos, ltb_ℤ}
use golang_template.Errors.{Result, ok, is}
use golang_template.Storage.{
  Fault, Db, continue, settle, next_fault, lost, applied, later_faults, statement, attempt, pure,
  raise, ◌>>=◌,
}
use golang_template.Storage.Laws.{statement-eq-ok, >>=-eq-ok}
use golang_template.Event.{Event, is_stale}
use golang_template.Inbox.{
  Message, Watermark, Tables, Handler, watermark, recorded, upsert_watermark, reject_stale, judge,
  as_row, insert_row, advance_row, insert_inbox, advance_watermark, run_handler, once_inserted,
  apply_once,
}

-- The version after an upsert: the greater of the two.
abbrev pub raised : Option ℤ → ℤ → ℤ
raised none v = v
raised (some l) v = if ltb_ℤ l v then v else l

-- An upsert raises one subject of one consumer to the new version, never lowers it, and leaves the
-- others alone.
pub watermark-upsert :
    (c s c' s' : String) (v : ℤ) (ws : List Watermark)
    → watermark c' s' (upsert_watermark c s v ws)
      ≡ (if c == c' && s == s' then some (raised (watermark c s ws) v) else watermark c' s' ws)
unfolding watermark upsert_watermark
watermark-upsert c s c' s' v [] = ground arith
watermark-upsert c s c' s' v (w ∷ ws) = ground (
  arith,
  watermark-upsert c s c' s' v ws,
  eq_iff w.consumer c,
  eq_iff w.subject s,
  eq_iff w.consumer c',
  eq_iff w.subject s',
  eq_iff c c',
  eq_iff s s',
)

-- The tables after the bookkeeping of `process`, before the handler runs.
abbrev pub marked : {S : Type 0} → Message → Event → Tables S → Tables S
marked m e t = record t {
  inbox = (m.consumer_name, m.event_id) ∷ t.inbox;
  watermarks = upsert_watermark m.consumer_name e.subject e.aggregate_version t.watermarks;
}

-- A version is not below the one applied last.
abbrev pub NotStale : Event → Option ℤ → Type 0
NotStale e none = Unit
NotStale e (some last) = is_stale e.aggregate_version last ≡ false

module _ {S : Type 0} where
  judge-eq-ok :
      (f : Option Fault) (rest : List (Option Fault)) (e : Event) (o : Option ℤ) (t : Tables S)
      → (continue (judge e) (settle f rest t (as_row o, t))).0 ≡ ok tt
      → NotStale e o
        × ((continue (judge e) (settle f rest t (as_row o, t))).1
            ≡ record { tables = t; faults = rest })
  unfolding pure raise is
  judge-eq-ok none rest e none t h = (tt, refl)
  judge-eq-ok none rest e (some last) t h = ground arith
  judge-eq-ok (some (lost x)) rest e o t h = cc
  judge-eq-ok (some (applied x)) rest e o t h = cc

  reject_stale-eq-ok :
      (consumer : String) (e : Event) (db : Db (Tables S))
      → (reject_stale consumer e db).0 ≡ ok tt
      → NotStale e (watermark consumer e.subject db.tables.watermarks)
        × ((reject_stale consumer e db).1
            ≡ record { tables = db.tables; faults = later_faults db.faults })
  unfolding reject_stale attempt statement
  reject_stale-eq-ok consumer e db h =
      judge-eq-ok (next_fault db.faults) (later_faults db.faults) e
        (watermark consumer e.subject db.tables.watermarks) db.tables h

  insert_inbox-eq-ok :
      (m : Message) (db : Db (Tables S))
      → (insert_inbox m db).0 ≡ ok true
      → (recorded m.consumer_name m.event_id db.tables.inbox ≡ false)
        × ((insert_inbox m db).1 ≡ record {
          tables = record db.tables { inbox = (m.consumer_name, m.event_id) ∷ db.tables.inbox };
          faults = later_faults db.faults;
        })
  unfolding insert_inbox
  insert_inbox-eq-ok m db h =
      let (added, d) = statement-eq-ok (insert_row m) db h in
      elim (Bool-cases (recorded m.consumer_name m.event_id db.tables.inbox)) [
        | inl old ↦ cc (rw old at added)
        | inr new ↦ (new, rw new at d)
      ]

  advance_watermark-eq-ok :
      (c : String) (e : Event) (db : Db (Tables S))
      → (advance_watermark c e db).0 ≡ ok tt
      → (ltb_ℤ (pos 0) e.aggregate_version ≡ true)
        × ((advance_watermark c e db).1 ≡ record {
          tables = record db.tables {
            watermarks = upsert_watermark c e.subject e.aggregate_version db.tables.watermarks;
          };
          faults = later_faults db.faults;
        })
  unfolding advance_watermark
  advance_watermark-eq-ok c e db h =
      let (valid, d) = statement-eq-ok (advance_row c e) db h in
      elim (Bool-cases (ltb_ℤ (pos 0) e.aggregate_version)) [
        | inl positive ↦ (positive, rw positive at d)
        | inr negative ↦ cc (rw negative at valid)
      ]

  -- What the last part of the body did, from the state in which it was reached.
  abbrev pub Ran :
      Message → Event → Option (Handler S) → Tables S → Result (Unit {0}) × Db (Tables S) → Type 0
  Ran m e h t out =
      (ltb_ℤ (pos 0) e.aggregate_version ≡ true)
      × (fs : List (Option Fault)) × ((run_handler h e
            (record { tables = marked m e t; faults = fs })).0
          ≡ ok tt)
      × (out.1 ≡ (run_handler h e (record { tables = marked m e t; faults = fs })).1)

  abbrev second : Result (Unit {0}) × Db (Tables S) → Db (Tables S)
  second x = x.1

  once_inserted-eq-ok :
      (m : Message) (e : Event) (h : Option (Handler S)) (t : Tables S) (fs : List (Option Fault))
      → (once_inserted m e h true (record {
        tables = record t { inbox = (m.consumer_name, m.event_id) ∷ t.inbox };
        faults = fs;
      })).0
        ≡ ok tt
      → Ran m e h t (
          once_inserted m e h true (record {
            tables = record t { inbox = (m.consumer_name, m.event_id) ∷ t.inbox };
            faults = fs;
          }))
  once_inserted-eq-ok m e h t fs returned =
      let (_, advanced, rest, same) =
        >>=-eq-ok (advance_watermark m.consumer_name e) (λ _. run_handler h e) _ returned in
      let (positive, d) = advance_watermark-eq-ok m.consumer_name e _ advanced in
      (
        positive,
        later_faults fs,
        rw d at rest,
        ap second same ∙ ap (λ (x : Db (Tables S)). (run_handler h e x).1) d,
      )

  inserted_cases :
      (m : Message) (e : Event) (h : Option (Handler S)) (t : Tables S) (fs : List (Option Fault))
      (b : Bool)
      → (insert_inbox m (record { tables = t; faults = fs })).0 ≡ ok b
      → (once_inserted m e h b (insert_inbox m (record { tables = t; faults = fs })).1).0 ≡ ok tt
      → (recorded m.consumer_name m.event_id t.inbox ≡ false)
        × Ran m e h t
            (once_inserted m e h b (insert_inbox m (record { tables = t; faults = fs })).1)
  unfolding raise
  inserted_cases m e h t fs true inserted rest =
      let (fresh, d) = insert_inbox-eq-ok m (record { tables = t; faults = fs }) inserted in
      let (positive, fs', good, left) =
        once_inserted-eq-ok m e h t (later_faults fs) (rw d at rest) in
      (
        fresh,
        (positive, fs', good, ap (λ (x : Db (Tables S)). (once_inserted m e h true x).1) d ∙ left),
      )
  inserted_cases m e h t fs false inserted rest = cc

  inserted-eq-ok :
      (m : Message) (e : Event) (h : Option (Handler S)) (t : Tables S) (fs : List (Option Fault))
      → ((insert_inbox m >>= once_inserted m e h) (record { tables = t; faults = fs })).0 ≡ ok tt
      → (recorded m.consumer_name m.event_id t.inbox ≡ false)
        × Ran m e h t
            ((insert_inbox m >>= once_inserted m e h) (record { tables = t; faults = fs }))
  inserted-eq-ok m e h t fs returned =
      let (b, inserted, rest, same) =
        >>=-eq-ok (insert_inbox m) (once_inserted m e h) (record { tables = t; faults = fs })
          returned in
      rw same (inserted_cases m e h t fs b inserted rest)

  -- When the body returns without an error, the event was new and not stale, and the handler ran
  -- once and without an error, on the tables with the event recorded.
  pub apply_once-eq-ok :
      (m : Message) (e : Event) (h : Option (Handler S)) (db : Db (Tables S))
      → (apply_once m e h db).0 ≡ ok tt
      → (recorded m.consumer_name m.event_id db.tables.inbox ≡ false)
        × NotStale e (watermark m.consumer_name e.subject db.tables.watermarks)
        × Ran m e h db.tables (apply_once m e h db)
  unfolding apply_once
  apply_once-eq-ok m e h db returned =
      let (_, passed, rest, same) =
        >>=-eq-ok (reject_stale m.consumer_name e) (λ _. insert_inbox m >>= once_inserted m e h) db
          returned in
      let (fresh, d) = reject_stale-eq-ok m.consumer_name e db passed in
      let (new, ran) = inserted-eq-ok m e h db.tables (later_faults db.faults) (rw d at rest) in
      (new, fresh, rw (same, d) ran)

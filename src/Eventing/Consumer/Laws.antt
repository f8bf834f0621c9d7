-- ===== src/Eventing/Consumer/Laws.antt =====
-- How `handle` can end, and what it leaves behind.
use golang_template.Prelude.{
  ◌≡◌, refl, true, false, ◌⊎◌, inl, inr, ◌∷◌, Option, none, some, Bool-cases,
}
use golang_template.Errors.{Err, message, permanent_error, duplicate, stale, Result, ok, err, is}
use golang_template.Storage.{Fault, lost, applied, Db, next_fault, later_faults}
use golang_template.Event.{Event}
use golang_template.Inbox.{Tables, Handler, process}
use golang_template.Inbox.Laws.Once.{Applied, process_atomic, process-eq-ok}
use golang_template.Eventing.Failure.{
  Record, Env, Route, dead_letter, retry, crash, source_topic, route,
}
use golang_template.Eventing.Consumer.{
  World, returned, Counter, processed, duplicated, staled, dead_lettered, retried, publish_then,
  publish, take_route, fail, after_process, dispatch, handle_admitted, handle, admit, inbox_message,
  lookup,
}

-- The tables as they were, or with the record's event applied completely.
abbrev pub Kept : {S : Type 0} → Env S → Record → Tables S → Tables S → Type 0
Kept {S} env r t t' =
    (t' ≡ t)
    ⊎ ((e : Event) × (h : Option (Handler S)) × (admit env r ≡ ok e)
        × (lookup e.event_type env.handlers ≡ some h)
        × Applied (inbox_message env r e) e h t t')

-- Why `handle` does not apply a record's event or skip it, when it starts in the database `db`:
-- the record does not decode or validate, no handler takes the event's type, or `Process` failed
-- with an error that is neither the inbox's duplicate nor its stale event.
pub data Cause {S : Type 0} (env : Env S) (r : Record) (db : Db (Tables S)) : Err → Type 0 where
  refused : (x : Err) → admit env r ≡ err x → Cause env r db x
  unsupported :
      (e : Event)
      → admit env r ≡ ok e
      → lookup e.event_type env.handlers ≡ none
      → Cause env r db (permanent_error (message "unsupported event type"))
  failed :
      (e : Event) (h : Option (Handler S)) (x : Err)
      → admit env r ≡ ok e
      → lookup e.event_type env.handlers ≡ some h
      → (process (inbox_message env r e) e h db).0 ≡ err x
      → is x duplicate ≡ false
      → is x stale ≡ false
      → Cause env r db x

-- What a call of `handle` that returned nil did, from the database `db`: it applied the event, or
-- skipped it because `Process` answered that it is a duplicate or that it is stale, or published
-- it to the dead letters or to the retry topic for one of the causes.
pub data Accounted {S : Type 0} (env : Env S) (r : Record) (db : Db (Tables S)) (w w' : World S)
    : Type 0 where
  once :
      (e : Event) (h : Option (Handler S))
      → admit env r ≡ ok e
      → lookup e.event_type env.handlers ≡ some h
      → (process (inbox_message env r e) e h db).0 ≡ ok tt
      → Applied (inbox_message env r e) e h db.tables w'.db.tables
      → w'.counters ≡ processed (source_topic r) ∷ w.counters
      → w'.published ≡ w.published
      → Accounted env r db w w'
  skipped_duplicate :
      (e : Event) (h : Option (Handler S)) (x : Err)
      → admit env r ≡ ok e
      → lookup e.event_type env.handlers ≡ some h
      → (process (inbox_message env r e) e h db).0 ≡ err x
      → is x duplicate ≡ true
      → Kept env r db.tables w'.db.tables
      → w'.counters ≡ duplicated (source_topic r) ∷ w.counters
      → w'.published ≡ w.published
      → Accounted env r db w w'
  skipped_stale :
      (e : Event) (h : Option (Handler S)) (x : Err)
      → admit env r ≡ ok e
      → lookup e.event_type env.handlers ≡ some h
      → (process (inbox_message env r e) e h db).0 ≡ err x
      → is x duplicate ≡ false
      → is x stale ≡ true
      → Kept env r db.tables w'.db.tables
      → w'.counters ≡ staled (source_topic r) ∷ w.counters
      → w'.published ≡ w.published
      → Accounted env r db w w'
  buried :
      (x : Err) (f : Record)
      → Cause env r db x
      → route env r x w.now ≡ dead_letter f
      → Kept env r db.tables w'.db.tables
      → w'.counters ≡ dead_lettered (source_topic r) ∷ w.counters
      → w'.published ≡ f ∷ w.published
      → Accounted env r db w w'
  delayed :
      (x : Err) (f : Record)
      → Cause env r db x
      → route env r x w.now ≡ retry f
      → Kept env r db.tables w'.db.tables
      → w'.counters ≡ retried (source_topic r) ∷ w.counters
      → w'.published ≡ f ∷ w.published
      → Accounted env r db w w'

module _ {S : Type 0} where
  publish_then-eq-nil :
      (f : Option Fault) (g : Record) (c : Counter) (w : World S)
      → (publish_then f g c w).0 ≡ returned none
      → ((publish_then f g c w).1.counters ≡ c ∷ w.counters)
        × ((publish_then f g c w).1.published ≡ g ∷ w.published)
        × ((publish_then f g c w).1.db ≡ w.db)
  publish_then-eq-nil none g c w e = (refl, refl, refl)
  publish_then-eq-nil (some (lost x)) g c w e = cc
  publish_then-eq-nil (some (applied x)) g c w e = cc

  abbrev taken : World S → World S
  taken w = record w { publish_faults = later_faults w.publish_faults }

  module _ (env : Env S) (r : Record) (s : Db (Tables S)) where
    take_route-Accounted :
        (x : Err) (rt : Route) (w : World S)
        → Cause env r s x
        → route env r x w.now ≡ rt
        → Kept env r s.tables w.db.tables
        → (take_route r rt w).0 ≡ returned none
        → Accounted env r s w (take_route r rt w).1
    unfolding publish
    take_route-Accounted x (dead_letter f) w why e k nil =
        let (c, p, d) =
          publish_then-eq-nil (next_fault w.publish_faults) f (dead_lettered (source_topic r))
            (taken w) nil in
        buried x f why e (rw d k) c p
    take_route-Accounted x (retry f) w why e k nil =
        let (c, p, d) =
          publish_then-eq-nil (next_fault w.publish_faults) f (retried (source_topic r)) (taken w)
            nil in
        delayed x f why e (rw d k) c p
    take_route-Accounted x crash w why e k nil = cc

    fail-Accounted :
        (x : Err) (w : World S)
        → Cause env r s x
        → Kept env r s.tables w.db.tables
        → (fail env r x w).0 ≡ returned none
        → Accounted env r s w (fail env r x w).1
    unfolding fail
    fail-Accounted x w why k nil = take_route-Accounted x (route env r x w.now) w why refl k nil

    rebase :
        {w' : World S} (w : World S) (db : Db (Tables S))
        → Accounted env r s (record w { db = db }) w'
        → Accounted env r s w w'
    rebase w db (once e h ad lk good a c p) = once e h ad lk good a c p
    rebase w db (skipped_duplicate e h x ad lk bad old k q p) =
        skipped_duplicate e h x ad lk bad old k q p
    rebase w db (skipped_stale e h x ad lk bad new late k q p) =
        skipped_stale e h x ad lk bad new late k q p
    rebase w db (buried x f why e k c p) = buried x f why e k c p
    rebase w db (delayed x f why e k c p) = delayed x f why e k c p

    after_process-Accounted :
        (res : Result (Unit {0})) (db : Db (Tables S)) (w : World S) (e : Event)
        (h : Option (Handler S))
        → admit env r ≡ ok e
        → lookup e.event_type env.handlers ≡ some h
        → (process (inbox_message env r e) e h s).0 ≡ res
        → (db.tables ≡ s.tables) ⊎ Applied (inbox_message env r e) e h s.tables db.tables
        → (res ≡ ok tt → Applied (inbox_message env r e) e h s.tables db.tables)
        → (after_process env r (res, db) w).0 ≡ returned none
        → Accounted env r s w (after_process env r (res, db) w).1
    after_process-Accounted (ok a) db w e h ad lk ran k done nil =
        once e h ad lk ran (done refl) refl refl
    after_process-Accounted (err x) db w e h ad lk ran k done nil =
        let kept : Kept env r s.tables db.tables = elim k [
          | inl same ↦ inl same
          | inr a ↦ inr (e, h, ad, lk, a)
        ] in
        elim (Bool-cases (is x duplicate)) [
          | inl old ↦ rw old (skipped_duplicate e h x ad lk ran old kept refl refl)
          | inr new ↦ elim (Bool-cases (is x stale)) [
            | inl late ↦ rw (new, late) (skipped_stale e h x ad lk ran new late kept refl refl)
            | inr other ↦
                rw (new, other)
                  (rebase w db (
                    fail-Accounted x (record w { db = db }) (failed e h x ad lk ran new other) kept
                      (rw (new, other) at nil)))
          ]
        ]

  module _ (env : Env S) (r : Record) (w : World S) where
    dispatch-Accounted :
        (e : Event) (o : Option (Option (Handler S)))
        → admit env r ≡ ok e
        → lookup e.event_type env.handlers ≡ o
        → (dispatch env r e o w).0 ≡ returned none
        → Accounted env r w.db w (dispatch env r e o w).1
    dispatch-Accounted e none ad lk nil =
        fail-Accounted env r w.db _ w (unsupported e ad lk) (inl refl) nil
    dispatch-Accounted e (some h) ad lk nil =
        let m = inbox_message env r e in
        let (res, db) = process m e h w.db in
        after_process-Accounted env r w.db res db w e h ad lk refl (process_atomic m e h w.db)
          (λ good. process-eq-ok m e h w.db good) nil

    handle_admitted-Accounted :
        (a : Result Event)
        → admit env r ≡ a
        → (handle_admitted env r a w).0 ≡ returned none
        → Accounted env r w.db w (handle_admitted env r a w).1
    handle_admitted-Accounted (ok e) ad nil =
        dispatch-Accounted e (lookup e.event_type env.handlers) ad refl nil
    handle_admitted-Accounted (err x) ad nil =
        fail-Accounted env r w.db x w (refused x ad) (inl refl) nil

    -- When `handle` returns nil, so that the offset will be committed, the record is accounted for
    -- once, and one counter names how. Either its event was applied; or it was skipped, only
    -- because `Process` answered that it is a duplicate or that it is stale; or the record was
    -- published as a dead letter or for a retry, only because it does not decode or validate, has
    -- an event type without a handler, or `Process` failed with any other error.
    pub handle-Accounted :
        (handle env r w).0 ≡ returned none → Accounted env r w.db w (handle env r w).1
    unfolding handle
    handle-Accounted nil = handle_admitted-Accounted (admit env r) refl nil

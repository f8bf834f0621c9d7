-- ===== src/Outbox/Enqueued.antt =====
-- On `Enqueue` of internal/platform/outbox/store.go and `New` of internal/platform/event/event.go.
use golang_template.Prelude.{
  if◌then◌else◌, ℕ, ◌≡◌, refl, sym, Bool, true, false, String, List, ◌∷◌, Option, none, some,
}
use golang_template.Errors.{Err, Result, ok, err, ok-injective}
use golang_template.Storage.{Db, Action, statement, attempt, pure, raise}
use golang_template.Storage.Laws.{statement-eq-ok}
use golang_template.Storage.Yields.{Yields}
use golang_template.Event.{Event, Codec, NewParams, validate, new, envelope, checked}
use golang_template.Outbox.{
  Row, new_row, insert_row, enqueue, enqueue_checked, enqueue_marshalled, has_row, enqueued,
}

-- The rows `old` with a row for the event in front.
pub record Enqueued (codec : Codec) (topic key aggregate_type : String) (e : Event)
    (headers : String) (db_now : ℕ) (old rows : List Row) : Type 0 where
  pub payload : String
  pub marshalled : codec.marshal e ≡ ok payload
  pub stored : rows ≡ new_row e topic key aggregate_type payload headers db_now ∷ old

abbrev answer_if : Bool → Err → Row → List Row → Result (Unit {0}) × List Row
answer_if b x r rows = if b then (err x, rows) else (ok tt, r ∷ rows)

inserted_if :
    (b : Bool) (x : Err) (r : Row) (rows : List Row) {u : Unit {0}}
    → (answer_if b x r rows).0 ≡ ok u
    → (answer_if b x r rows).1 ≡ r ∷ rows
inserted_if true x r rows h = cc
inserted_if false x r rows h = refl

enqueued-eq-ok :
    (r : Result (Unit {0})) (db : Db (List Row)) {u : Unit {0}}
    → (enqueued r db).0 ≡ ok u
    → (r ≡ ok tt) × ((enqueued r db).1 ≡ db)
unfolding pure raise
enqueued-eq-ok (ok a) db h = (refl, refl)
enqueued-eq-ok (err e) db h = cc

module _ (codec : Codec) (topic key aggregate_type : String) (e : Event) (headers : String)
    (db_now : ℕ) (old : List Row) where
  abbrev Gives : Action (List Row) (Unit {0}) → Type 0
  Gives m =
      Yields (λ rows. rows ≡ old) m
        (λ u rows. Enqueued codec topic key aggregate_type e headers db_now old rows)

  statement-Enqueued :
      (payload : String)
      → codec.marshal e ≡ ok payload
      → Gives (
          attempt
            (statement (insert_row (new_row e topic key aggregate_type payload headers db_now)))
            enqueued)
  unfolding attempt
  statement-Enqueued payload marshalled = record {
    at = λ db u same h.
        let row = new_row e topic key aggregate_type payload headers db_now in
        let run = statement (insert_row row) db in
        let (done, left) = enqueued-eq-ok run.0 run.1 h in
        let (stored, after) = statement-eq-ok (insert_row row) db done in
        record {
          payload = payload;
          marshalled = marshalled;
          stored =
              rw (left, after, sym same)
                (inserted_if (has_row row.id db.tables) _ row db.tables stored);
        };
  }

  marshalled-Enqueued :
      (m : Result String)
      → codec.marshal e ≡ m
      → Gives (enqueue_marshalled e topic key aggregate_type headers db_now m)
  unfolding raise
  marshalled-Enqueued (err x) same = record { at = λ db u p h. cc }
  marshalled-Enqueued (ok payload) same = statement-Enqueued payload same

  checked-Enqueued :
      (v : Option Err) → Gives (enqueue_checked codec e topic key aggregate_type headers db_now v)
  unfolding raise
  checked-Enqueued (some x) = record { at = λ db u p h. cc }
  checked-Enqueued none = marshalled-Enqueued (codec.marshal e) refl

  pub enqueue-Enqueued : Gives (enqueue codec topic key aggregate_type e headers db_now)
  unfolding enqueue
  enqueue-Enqueued = checked-Enqueued (validate codec e)

checked_value : (v : Option Err) (a : Event) {e : Event} → checked v a ≡ ok e → a ≡ e
checked_value none a h = ok-injective a _ h
checked_value (some x) a h = cc

-- The event that `New` returns has the parameters' type, version, subject and schema, and the data
-- that was encoded.
pub new-eq-ok :
    (codec : Codec) (p : NewParams) (raw : Result String) (id : Result ℕ) (fresh : String) (now : ℕ)
    (e : Event)
    → new codec p raw id fresh now ≡ ok e
    → (e.event_type ≡ p.event_type)
      × (e.aggregate_version ≡ p.aggregate_version)
      × (e.subject ≡ p.subject)
      × (e.data_schema ≡ p.data_schema)
      × (raw ≡ ok e.payload)
unfolding new envelope
new-eq-ok codec p (err x) id fresh now e h = cc
new-eq-ok codec p (ok raw) (err x) fresh now e h = cc
new-eq-ok codec p (ok raw) (ok id) fresh now e h =
    let same =
      checked_value (validate codec (envelope codec p raw id fresh now))
        (envelope codec p raw id fresh now) h in
    rw (sym same) (refl, refl, refl, refl, refl)

-- ===== src/Posts/Announced.antt =====
-- The events of internal/modules/post/events.go in the outbox.
use golang_template.Prelude.{◌≡◌, refl, sym, String, ◌<>◌, List}
use golang_template.Prelude.Int.{pos}
use golang_template.Errors.{Result, ok, err, ok-injective}
use golang_template.Storage.{pure, raise}
use golang_template.Storage.Yields.{Yields, Yields-bind}
use golang_template.Storage.Tx.Laws.{Inside, InsideResult, Yields-in_tx, Yields-focus}
use golang_template.Event.{Event}
use golang_template.Outbox as Outbox
use golang_template.Outbox.Enqueued.{Enqueued, enqueue-Enqueued, new-eq-ok}
use golang_template.Posts.{Post, Tables}
use golang_template.Posts.Events.{
  Module, Call, Data, at_least_1, params, post_event, event_headers, put_outbox, outbox_of,
  enqueue_post, enqueue_new,
}

-- One event of the type and the schema about the post, with the data, was put in front of the
-- outbox.
pub record Announced (m : Module) (c : Call) (event_type schema : String) (data_ : Data) (p : Post)
    (old rows : List Outbox.Row) : Type 0 where
  pub event : Event
  pub typed : event.event_type ≡ event_type
  pub versioned : event.aggregate_version ≡ pos (at_least_1 p.version)
  pub about : event.subject ≡ "urn:post:" <> m.uuid_text p.id
  pub described : event.data_schema ≡ schema
  pub carries : m.marshal_data data_ ≡ ok event.payload
  pub stored :
      Enqueued m.codec m.event_topic
        (m.uuid_text p.id)
        "post"
        event
        (m.marshal_headers (event_headers c))
        c.draws.db_now
        old
        rows

-- The tables `t` but for the outbox, which has the event.
pub record Published (m : Module) (c : Call) (event_type schema : String) (data_ : Data) (p : Post)
    (t t' : Tables) : Type 0 where
  pub rows : List Outbox.Row
  pub left : t' ≡ put_outbox rows t
  pub announced : Announced m c event_type schema data_ p t.outbox rows

module _ (m : Module) (c : Call) (p : Post) (t : Tables) where
  enqueue_post-Published :
      (event_type schema : String) (data_ : Data) (e : Event)
      → e.event_type ≡ event_type
      → e.aggregate_version ≡ pos (at_least_1 p.version)
      → e.subject ≡ "urn:post:" <> m.uuid_text p.id
      → e.data_schema ≡ schema
      → m.marshal_data data_ ≡ ok e.payload
      → Yields
          (Inside (λ t'. t' ≡ t))
          (enqueue_post m c p e)
          (InsideResult (λ u. Published m c event_type schema data_ p t))
  unfolding enqueue_post
  enqueue_post-Published event_type schema data_ e typed versioned about described carries =
      Yields-in_tx _ (record {
        at = λ db u same h.
            let (rows, stored, left) =
              (Yields-focus outbox_of put_outbox _ t (
                  enqueue-Enqueued m.codec m.event_topic (m.uuid_text p.id) "post" e
                    (m.marshal_headers (event_headers c)) c.draws.db_now t.outbox)).at
                db u same h in
            record {
              rows = rows;
              left = left;
              announced = record {
                event = e;
                typed = typed;
                versioned = versioned;
                about = about;
                described = described;
                carries = carries;
                stored = stored;
              };
            };
      })

  enqueue_new-by :
      (event_type schema : String) (data_ : Data) (r : Result Event)
      → post_event m c p event_type schema data_ ≡ r
      → Yields
          (Inside (λ t'. t' ≡ t))
          (enqueue_new m c p r)
          (InsideResult (λ a t'. (a ≡ p) × Published m c event_type schema data_ p t t'))
  unfolding post_event raise pure
  enqueue_new-by event_type schema data_ (err x) same = record { at = λ db a h k. cc }
  enqueue_new-by event_type schema data_ (ok e) same =
      let (typed, versioned, about, described, carries) =
        new-eq-ok m.codec (params m c p event_type schema) (m.marshal_data data_) c.event_id
          c.fresh_correlation c.now e same in
      Yields-bind _ _ _
        (enqueue_post-Published event_type schema data_ e typed versioned about described carries)
        (λ u. record { at = λ db a h k. (sym (ok-injective p a k), h) })

  pub enqueue_new-Published :
      (event_type schema : String) (data_ : Data)
      → Yields
          (Inside (λ t'. t' ≡ t))
          (enqueue_new m c p (post_event m c p event_type schema data_))
          (InsideResult (λ a t'. (a ≡ p) × Published m c event_type schema data_ p t t'))
  enqueue_new-Published event_type schema data_ = enqueue_new-by event_type schema data_ _ refl

-- ===== src/Eventing/Relay/Sent.antt =====
-- The records that `runBatch` of internal/platform/eventing/relay.go handed to the broker, and the
-- rows that it marked.
use golang_template.Prelude.{
  ℕ, ◌/◌, String, ◌≡◌, refl, Bool, true, false, ◌||◌, eqb, eqb_iff, eqb_refl, List, [], ◌∷◌, Option,
  none, some, All, arith, Bool-cases, inl, inr, ap, ◌∙◌,
}
use golang_template.Prelude.Int.{ℤ}
use golang_template.Errors.{Result, ok, err}
use golang_template.Storage.{Fault, lost, applied, Db, statement, next_fault}
use golang_template.Storage.Keeps.{
  Keeps, Keeps-statement, Keeps-bind, Keeps-with_tx, Keeps-pure, Keeps-raise, Keeps-if,
}
use golang_template.Outbox.{Row, Record, has_row}
use golang_template.Outbox.Claim.{
  is_null, Moment, claim, claim_update, claim_rows, chosen_rows, decodes, decoded_or_fail,
}
use golang_template.Outbox.Marks.{
  update_row, published_row, failed_row, mark_published_update, mark_published, mark_failed,
  backlog,
}
use golang_template.Eventing.Relay.{
  Config, Tick, World, Answer, answer_of, sent_by, publish, or_continue, mark, relay_records,
  after_claim, run_batch,
}

-- Whether a record of an id was handed to the broker.
abbrev pub was_sent : ℕ → List Record → Bool
was_sent id [] = false
was_sent id (r ∷ rs) = eqb r.id id || was_sent id rs

-- A row that is marked as published was sent.
abbrev pub IsSent : List Record → Row → Type 0
IsSent sent r = (is_null r.published_at || was_sent r.id sent) ≡ true

abbrev pub AllSent : List Record → List Row → Type 0
AllSent sent rows = All (IsSent sent) rows

module _ (sent : List Record) where
  claim_rows-AllSent :
      (at : Moment) (worker : String) (chosen rows : List Row)
      → AllSent sent rows
      → AllSent sent (claim_rows at worker chosen rows)
  unfolding claim_rows
  claim_rows-AllSent at worker chosen [] ps = tt
  claim_rows-AllSent at worker chosen (r ∷ rows) (p, ps) = elim (Bool-cases (has_row r.id chosen)) [
    | inl mine ↦ rw mine (p, claim_rows-AllSent at worker chosen rows ps)
    | inr other ↦ rw other (p, claim_rows-AllSent at worker chosen rows ps)
  ]

  update_row-AllSent :
      (id : ℕ) (f : Row → Row) (rows : List Row)
      → ((r : Row) → eqb r.id id ≡ true → IsSent sent r → IsSent sent (f r))
      → AllSent sent rows
      → AllSent sent (update_row id f rows)
  unfolding update_row
  update_row-AllSent id f [] k ps = tt
  update_row-AllSent id f (r ∷ rows) k (p, ps) = elim (Bool-cases (eqb r.id id)) [
    | inl same ↦ rw same (k r same p, update_row-AllSent id f rows k ps)
    | inr other ↦ rw other (p, update_row-AllSent id f rows k ps)
  ]

  claim-AllSent :
      (valid : String → Bool) (at : Moment) (worker : String) (limit lease : ℕ)
      → Keeps (AllSent sent) (claim valid at worker limit lease)
  unfolding claim
  claim-AllSent valid at worker limit lease = Keeps-with_tx _ (
      Keeps-bind (statement (claim_update at worker limit lease)) (decoded_or_fail valid)
        (Keeps-statement (claim_update at worker limit lease)
          (λ rows ps. claim_rows-AllSent at worker (chosen_rows at lease limit rows) rows ps))
        (λ rs. Keeps-if (decodes valid rs) _ _ (Keeps-pure rs) (Keeps-raise _)))

  mark_published-AllSent :
      (id db_now : ℕ) → was_sent id sent ≡ true → Keeps (AllSent sent) (mark_published id db_now)
  unfolding mark_published
  mark_published-AllSent id db_now there =
      Keeps-statement (mark_published_update id db_now) (λ rows ps.
        elim (Bool-cases (has_row id rows)) [
          | inl found ↦ rw found (
              update_row-AllSent id (published_row db_now) rows
                (λ r same p. ap (λ n. was_sent n sent) ((eqb_iff r.id id).0 same) ∙ there) ps)
          | inr missing ↦ rw missing ps
        ])

  mark_failed-AllSent :
      (id : ℕ) (cause : Option String) (available : ℕ)
      → Keeps (AllSent sent) (mark_failed id cause available)
  unfolding mark_failed
  mark_failed-AllSent id none available = Keeps-raise _
  mark_failed-AllSent id (some cause) available =
      Keeps-statement _
        (λ rows ps. update_row-AllSent id (failed_row available cause) rows (λ r same p. p) ps)

backlog-AllSent : (sent : List Record) → Keeps (AllSent sent) backlog
unfolding backlog
backlog-AllSent sent = Keeps-statement _ (λ rows ps. ps)

or_later : (a b c : Bool) → (a || c) ≡ true → (a || (b || c)) ≡ true
or_later a b c h = ground arith

more-AllSent :
    (r : Record) (sent : List Record) (rows : List Row)
    → AllSent sent rows
    → AllSent (r ∷ sent) rows
more-AllSent r sent [] ps = tt
more-AllSent r sent (x ∷ rows) (p, ps) = (
  or_later (is_null x.published_at) (eqb r.id x.id) (was_sent x.id sent) p,
  more-AllSent r sent rows ps,
)

sent_by-AllSent :
    (f : Option Fault) (r : Record) (sent : List Record) (rows : List Row)
    → AllSent sent rows
    → AllSent (sent_by f r sent) rows
sent_by-AllSent none r sent rows ps = more-AllSent r sent rows ps
sent_by-AllSent (some (lost e)) r sent rows ps = ps
sent_by-AllSent (some (applied e)) r sent rows ps = more-AllSent r sent rows ps

answer-sent :
    (f : Option Fault) (r : Record) (sent : List Record)
    → answer_of f ≡ none
    → was_sent r.id (sent_by f r sent) ≡ true
answer-sent none r sent h = rw (eqb_refl r.id) refl
answer-sent (some (lost e)) r sent h = ground arith
answer-sent (some (applied e)) r sent h = ground arith

-- What holds between two steps of the relay.
abbrev pub Settled : World → Type 0
Settled w = AllSent w.sent w.outbox.tables

or_continue-Settled :
    (what : String) (w : World) (next : World → Answer) (a : Result (Unit {0}) × Db (List Row))
    → AllSent w.sent a.1.tables
    → ((v : World) → Settled v → Settled (next v).1)
    → Settled (or_continue what w next a).1
or_continue-Settled what w next (ok a, db) p k = k (record w { outbox = db }) p
or_continue-Settled what w next (err x, db) p k = p

module _ (convert : ℕ → ℤ) (tick : ℕ → Tick) where
  mark-Settled :
      (r : Record) (answer : Option String) (w : World) (next : World → Answer)
      → (answer ≡ none → was_sent r.id w.sent ≡ true)
      → Settled w
      → ((v : World) → Settled v → Settled (next v).1)
      → Settled (mark convert tick r answer w next).1
  unfolding mark
  mark-Settled r none w next there p k =
      or_continue-Settled _ w next _
        ((mark_published-AllSent w.sent r.id (tick w.turn).db_now (there refl)).at w.outbox p) k
  mark-Settled r (some e) w next there p k =
      or_continue-Settled _ w next _ ((mark_failed-AllSent w.sent r.id (some e) _).at w.outbox p) k

  relay_records-Settled :
      (rs : List Record) (w : World) → Settled w → Settled (relay_records convert tick rs w).1
  unfolding relay_records
  relay_records-Settled [] w p = (backlog-AllSent w.sent).at w.outbox p
  relay_records-Settled (r ∷ rs) w p =
      let f = next_fault w.publish_faults in
      mark-Settled r (answer_of f) (publish r w) (relay_records convert tick rs)
        (answer-sent f r w.sent) (sent_by-AllSent f r w.sent w.outbox.tables p)
        (relay_records-Settled rs)

  after_claim-Settled :
      (w : World) (a : Result (List Record) × Db (List Row))
      → AllSent w.sent a.1.tables
      → Settled (after_claim convert tick w a).1
  after_claim-Settled w (err x, db) p = p
  after_claim-Settled w (ok rs, db) p = relay_records-Settled rs (record w { outbox = db }) p

  -- If every row that is marked as published was sent, the same holds after a batch, whichever
  -- statements, commits and publishes fail, and wherever the batch stops.
  pub published_rows_were_sent :
      (valid : String → Bool) (at : Moment) (cfg : Config) (w : World)
      → Settled w
      → Settled (run_batch convert tick valid at cfg w).1
  unfolding run_batch
  published_rows_were_sent valid at cfg w p = after_claim-Settled w _ (
      (claim-AllSent w.sent valid at cfg.worker_id cfg.batch_size (cfg.lease / 1000)).at w.outbox p)

-- ===== src/Eventing/Relay.antt =====
-- internal/platform/eventing/relay.go: `runBatch` claims rows of the outbox, publishes them and
-- marks the outcome; `retryDelay` backs off.
--
-- `tick` gives the clocks and the random draw of each record's turn. A publish may fail without
-- effect, or after the broker has the record. Durations are nanoseconds, times microseconds.
-- Metrics are left out.
pub mod Delay
pub mod Sent
use golang_template.Prelude.{
  ℕ, zero, suc, ◌+◌, ◌-◌, ◌*◌, ◌/◌, ◌%◌, ◌^◌, String, ◌≡◌, refl, Bool, true, false, ltb, leb,
  if◌then◌else◌, List, [], ◌∷◌, Option, none, some,
}
use golang_template.Prelude.Int.{ℤ, pos, negsuc, max_int64, ltb_ℤ, leb_ℤ}
use golang_template.Errors.{Err, message, wrapped, Result, ok, err}
use golang_template.Storage.{Fault, lost, applied, Db, next_fault, later_faults}
use golang_template.Outbox.{Row, Record}
use golang_template.Outbox.Claim.{Moment, claim}
use golang_template.Outbox.Marks.{mark_published, mark_failed, backlog}

abbrev pub second : ℕ
second = 1_000_000_000

-- `RelayConfig` with the defaults of `NewRelay`; a duration below 1 is 0.
pub record Config : Type 0 where
  pub worker_id : String
  pub batch_size : ℕ
  pub poll_interval : ℕ
  pub lease : ℕ

abbrev or_default : ℕ → ℕ → ℕ
or_default d n = if ltb n 1 then d else n

unfoldable pub new_config : Config → Config
new_config cfg = record {
  worker_id = cfg.worker_id;
  batch_size = or_default 100 cfg.batch_size;
  poll_interval = or_default second cfg.poll_interval;
  lease = or_default (30 * second) cfg.lease;
}

-- `time.Duration` of a float64 that does not fit an int64 depends on the processor: `convert`.
abbrev pub to_duration : (ℕ → ℤ) → ℕ → ℤ
to_duration convert n = if leb n max_int64 then pos n else convert n

abbrev pub at_most_minute : ℤ → ℤ
at_most_minute d = if ltb_ℤ (pos (60 * second)) d then pos (60 * second) else d

-- `retryDelayBase`: powers of two and a second are exact in a float64.
unfoldable pub retry_delay_base : (ℕ → ℤ) → ℕ → ℤ
retry_delay_base convert attempt = at_most_minute (to_duration convert (2 ^ (attempt - 1) * second))

-- `base + rand.Int64N(base/4 + 1)`, from a draw.
abbrev pub jittered : ℤ → ℕ → ℤ
jittered (pos n) draw = pos (n + draw % (n / 4 + 1))
jittered (negsuc n) draw = negsuc n

unfoldable pub retry_delay : (ℕ → ℤ) → ℕ → ℕ → ℤ
retry_delay convert attempt draw = jittered (retry_delay_base convert attempt) draw

abbrev pub later : ℕ → ℤ → ℕ
later now (pos d) = now + d / 1000
later now (negsuc d) = now - suc d / 1000

pub record Tick : Type 0 where
  pub app_now : ℕ
  pub db_now : ℕ
  pub draw : ℕ

pub record World : Type 0 where
  pub outbox : Db (List Row)
  pub sent : List Record
  pub publish_faults : List (Option Fault)
  pub turn : ℕ

abbrev pub answer_of : Option Fault → Option String
answer_of none = none
answer_of (some (lost e)) = some e
answer_of (some (applied e)) = some e

abbrev pub sent_by : Option Fault → Record → List Record → List Record
sent_by none r sent = r ∷ sent
sent_by (some (lost e)) r sent = sent
sent_by (some (applied e)) r sent = r ∷ sent

-- `Publish` of one record: the error's text, if any.
abbrev pub publish : Record → World → World
publish r w = record w {
  sent = sent_by (next_fault w.publish_faults) r w.sent;
  publish_faults = later_faults w.publish_faults;
  turn = suc w.turn;
}

-- The `error` of `runBatch`, which is nil at the end of a batch.
abbrev pub Answer : Type 0
Answer = Option Err × World

abbrev pub or_continue :
    String → World → (World → Answer) → Result (Unit {0}) × Db (List Row) → Answer
or_continue what w next (ok a, db) = next (record w { outbox = db })
or_continue what w next (err x, db) = (some (wrapped what x), record w { outbox = db })

module _ (convert : ℕ → ℤ) (tick : ℕ → Tick) where
  -- MarkPublished, or MarkFailed with the delay for the attempts so far.
  unfoldable pub mark : Record → Option String → World → (World → Answer) → Answer
  mark r none w next =
      or_continue "mark event published" w next (mark_published r.id (tick w.turn).db_now w.outbox)
  mark r (some e) w next = or_continue "mark event failed after publish error" w next (
      mark_failed r.id (some e)
        (later (tick w.turn).app_now (retry_delay convert r.attempts (tick w.turn).draw)) w.outbox)

  -- The end of `runBatch`: the backlog is read for its gauge, and an error of that is ignored.
  abbrev pub observe_backlog : World → Answer
  observe_backlog w = let (r, db) = backlog w.outbox in (none, record w { outbox = db })

  -- The loop of `runBatch`: it stops where an outcome cannot be marked.
  unfoldable pub relay_records : List Record → World → Answer
  relay_records [] w = observe_backlog w
  relay_records (r ∷ rs) w =
      let next = relay_records rs in
      mark r (answer_of (next_fault w.publish_faults)) (publish r w) next

  abbrev pub after_claim : World → Result (List Record) × Db (List Row) → Answer
  after_claim w (err x, db) = (some (wrapped "claim outbox" x), record w { outbox = db })
  after_claim w (ok rs, db) = relay_records rs (record w { outbox = db })

  unfoldable pub run_batch : (String → Bool) → Moment → Config → World → Answer
  run_batch valid at cfg w =
      after_claim w (claim valid at cfg.worker_id cfg.batch_size (cfg.lease / 1000) w.outbox)

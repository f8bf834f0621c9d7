-- ===== src/Eventing/Run.antt =====
-- `waitUntilReady` and the loop over a poll's records in `Run`, of
-- internal/platform/eventing/consumer.go.
pub mod Laws
use golang_template.Prelude.{
  ℕ, zero, suc, ◌+◌, String, ◌≡◌, refl, Bool, true, false, ◌&&◌, ◌||◌, ◌==◌, ltb, leb,
  if◌then◌else◌, List, [], ◌∷◌, ◌++◌, Option, none, some, get_elem?, length,
}
use golang_template.Prelude.Int.{ℤ, pos, negsuc, ltb_ℤ, leb_ℤ, succ_int64, pred_int64}
use golang_template.Errors.{
  Err, message, wrapped, permanent_error, duplicate, stale, Result, ok, err, is, is_permanent,
}
use golang_template.Storage.{Fault, lost, applied, Db, next_fault, later_faults}
use golang_template.Event.{Event, Codec, decode, retry_topic, dlq_topic}
use golang_template.Inbox.{Message, Tables, Handler, process}
use golang_template.Strconv.{Parsed, atoi, itoa}
use golang_template.Eventing.Headers.{
  Header, header_attempt, header_source_topic, header_not_before, header_consumer,
  header_error_class, header_first_failed_at, header_last_failed_at, header_value, set_header,
}
use golang_template.Eventing.Failure.{Record, Config, Env}
use golang_template.Eventing.Consumer.{World, Exit, returned, panicked, handle}

abbrev wait_for : Option ℕ → ℕ → ℕ
wait_for none now = now
wait_for (some t) now = if ltb now t then t else now

-- A fetched record, with whether the context is cancelled during its wait, and the answer of
-- `CommitRecords`.
pub record Fetched : Type 0 where
  pub fetched : Record
  pub cancelled : Bool
  pub commit_fault : Option String

-- What a pass over the fetched records leaves: the records whose offsets were committed, the
-- latest first, how the loop ended, and the world.
pub record Pass (S : Type 0) : Type 0 where
  pub committed : List Record
  pub exit : Exit
  pub world : World S

module _ {S : Type 0} where
  abbrev deadline : Env S → ℕ → String → Option ℕ
  deadline env now raw = if raw == "" then none else env.parse_time raw

  -- `waitUntilReady`: the clock when it returns, if the context is not cancelled meanwhile.
  unfoldable pub wait_until_ready : Env S → Record → ℕ → ℕ
  wait_until_ready env r now =
      wait_for (deadline env now (header_value r.headers header_not_before)) now

  -- Whether the record's wait is not over yet.
  abbrev pub must_wait : Env S → Record → ℕ → Bool
  must_wait env r now = ltb now (wait_until_ready env r now)

  abbrev pub stop : List Record → Exit → World S → Pass S
  stop done x w = record { committed = done; exit = x; world = w }

  -- `CommitRecords`, and on to the next record if it returned nil.
  abbrev pub after_commit :
      (List Record → World S → Pass S) → Record → List Record → World S → Option String → Pass S
  after_commit next r done w none = next (r ∷ done) w
  after_commit next r done w (some x) =
      stop done (returned (some (wrapped "commit event offset" (message x)))) w

  abbrev pub after_handle :
      (List Record → World S → Pass S) → Fetched → List Record → Exit × World S → Pass S
  after_handle next f done (panicked, w) = stop done panicked w
  after_handle next f done (returned (some x), w) = stop done (returned (some x)) w
  after_handle next f done (returned none, w) = after_commit next f.fetched done w f.commit_fault

  -- The inner loop of `Run`: wait, process, commit, and stop at the first error.
  unfoldable pub run_records : Env S → List Fetched → List Record → World S → Pass S
  run_records env [] done w = stop done (returned none) w
  run_records env (f ∷ fs) done w =
      let now = wait_until_ready env f.fetched w.now in
      let next = run_records env fs in
      if f.cancelled && must_wait env f.fetched w.now
      then stop done (returned (some (message "context canceled"))) w
      else after_handle next f done (handle env f.fetched (record w { now = now }))

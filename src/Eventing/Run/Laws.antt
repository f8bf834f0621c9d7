-- ===== src/Eventing/Run/Laws.antt =====
-- What the loop of `Run` commits.
use golang_template.Prelude.{
  String, ◌≡◌, refl, true, ◌&&◌, List, [], ◌∷◌, ◌++◌, Option, none, some, Bool-cases, inl, inr, ap,
}
use golang_template.Errors.{message, wrapped}
use golang_template.Eventing.Failure.{Record, Env}
use golang_template.Eventing.Consumer.{World, Exit, returned, panicked, handle}
use golang_template.Eventing.Run.{
  Fetched, Pass, wait_until_ready, must_wait, after_commit, after_handle, run_records,
}

-- What `Run` does with a record once its wait is over: the call of `handle`.
abbrev pub handled_by : {S : Type 0} → Env S → Fetched → World S → Exit × World S
handled_by env f w = handle env f.fetched (record w { now = wait_until_ready env f.fetched w.now })

-- The records that a pass handled with a nil error and committed, in order, and the worlds that
-- it went through.
pub data Handled {S : Type 0} (env : Env S) : List Fetched → World S → World S → Type 0 where
  end : {w : World S} → Handled env [] w w
  then_one :
      {fs : List Fetched} {w w' : World S} (f : Fetched)
      → (handled_by env f w).0 ≡ returned none
      → f.commit_fault ≡ none
      → Handled env fs (handled_by env f w).1 w'
      → Handled env (f ∷ fs) w w'

-- Why a pass stops in the world `w` with these records left: there are none, or the context is
-- cancelled during the wait for the next one, or `handle` does not return nil for it, or the
-- commit of its offset fails after `handle` returned nil.
pub data Stopped {S : Type 0} (env : Env S) : List Fetched → World S → Exit → Type 0 where
  finished : {w : World S} → Stopped env [] w (returned none)
  cancelled_wait :
      {f : Fetched} {fs : List Fetched} {w : World S}
      → f.cancelled && must_wait env f.fetched w.now ≡ true
      → Stopped env (f ∷ fs) w (returned (some (message "context canceled")))
  not_accepted :
      {f : Fetched} {fs : List Fetched} {w : World S} {x : Exit}
      → (handled_by env f w).0 ≡ x
      → (x ≡ returned none → ⊥)
      → Stopped env (f ∷ fs) w x
  not_committed :
      {f : Fetched} {fs : List Fetched} {w : World S} {y : String}
      → (handled_by env f w).0 ≡ returned none
      → f.commit_fault ≡ some y
      → Stopped env (f ∷ fs) w (returned (some (wrapped "commit event offset" (message y))))

-- The offsets of a series of records, committed in turn after `done`, the latest first.
abbrev pub committed_onto : List Fetched → List Record → List Record
committed_onto [] done = done
committed_onto (f ∷ fs) done = committed_onto fs (f.fetched ∷ done)

-- The pass committed exactly a first part of the records, each after it was handled with a nil
-- error, in the order in which they were fetched, and it stopped before the rest for a reason.
pub record Committed {S : Type 0} (env : Env S) (fs : List Fetched) (done : List Record)
    (w : World S) (p : Pass S) : Type 0 where
  pub first : List Fetched
  pub rest : List Fetched
  pub split : fs ≡ first ++ rest
  pub reached : World S
  pub handled : Handled env first w reached
  pub committed : p.committed ≡ committed_onto first done
  pub stopped : Stopped env rest reached p.exit

abbrev exit_of : {S : Type 0} → Exit × World S → Exit
exit_of x = x.0

abbrev world_of : {S : Type 0} → Exit × World S → World S
world_of x = x.1

module _ {S : Type 0} (env : Env S) where
  nothing_more :
      (f : Fetched) (fs : List Fetched) (done : List Record) (w : World S) (p : Pass S)
      → p.committed ≡ done
      → Stopped env (f ∷ fs) w p.exit
      → Committed env (f ∷ fs) done w p
  nothing_more f fs done w p same why = record {
    first = [];
    rest = f ∷ fs;
    split = refl;
    reached = w;
    handled = end;
    committed = same;
    stopped = why;
  }

  one_more :
      (f : Fetched) (fs : List Fetched) (done : List Record) (w : World S) (p : Pass S)
      → (handled_by env f w).0 ≡ returned none
      → f.commit_fault ≡ none
      → Committed env fs (f.fetched ∷ done) (handled_by env f w).1 p
      → Committed env (f ∷ fs) done w p
  one_more f fs done w p nil kept c = record {
    first = f ∷ c.first;
    rest = c.rest;
    split = ap (λ (l : List Fetched). f ∷ l) c.split;
    reached = c.reached;
    handled = then_one f nil kept c.handled;
    committed = c.committed;
    stopped = c.stopped;
  }

  after_commit-Committed :
      (f : Fetched) (fs : List Fetched) (done : List Record) (w v : World S) (o : Option String)
      → handled_by env f w ≡ (returned none, v)
      → f.commit_fault ≡ o
      → Committed env fs (f.fetched ∷ done) v (run_records env fs (f.fetched ∷ done) v)
      → Committed env (f ∷ fs) done w (after_commit (run_records env fs) f.fetched done v o)
  after_commit-Committed f fs done w v none e kept next =
      one_more f fs done w _ (ap exit_of e) kept (rw (ap world_of e) next)
  after_commit-Committed f fs done w v (some x) e fault next =
      nothing_more f fs done w _ refl (not_committed (ap exit_of e) fault)

  after_handle-Committed :
      (f : Fetched) (fs : List Fetched) (done : List Record) (w : World S) (x : Exit × World S)
      → handled_by env f w ≡ x
      → ((v : World S)
          → Committed env fs (f.fetched ∷ done) v (run_records env fs (f.fetched ∷ done) v))
      → Committed env (f ∷ fs) done w (after_handle (run_records env fs) f done x)
  after_handle-Committed f fs done w (panicked, v) e next =
      nothing_more f fs done w _ refl (not_accepted (ap exit_of e) (λ x. cc))
  after_handle-Committed f fs done w (returned (some y), v) e next =
      nothing_more f fs done w _ refl (not_accepted (ap exit_of e) (λ x. cc))
  after_handle-Committed f fs done w (returned none, v) e next =
      after_commit-Committed f fs done w v f.commit_fault e refl (next v)

  -- Whatever fails, `Run` commits exactly the offsets of a first part of the fetched records, in
  -- order and with no gap, each after `handle` returned nil for it and the commit succeeded. It
  -- stops before the rest only where the rest is empty, which ends the pass without an error, or
  -- where the next record's wait is cancelled, `handle` does not return nil for it, or its commit
  -- fails; the pass ends with the error or the panic of that.
  pub run_records-Committed :
      (fs : List Fetched) (done : List Record) (w : World S)
      → Committed env fs done w (run_records env fs done w)
  unfolding run_records
  run_records-Committed [] done w = record {
    first = [];
    rest = [];
    split = refl;
    reached = w;
    handled = end;
    committed = refl;
    stopped = finished;
  }
  run_records-Committed (f ∷ fs) done w =
      elim (Bool-cases (f.cancelled && must_wait env f.fetched w.now)) [
        | inl cancelled ↦ rw cancelled (nothing_more f fs done w _ refl (cancelled_wait cancelled))
        | inr go ↦ rw go (
            after_handle-Committed f fs done w (handled_by env f w) refl
              (run_records-Committed fs (f.fetched ∷ done)))
      ]

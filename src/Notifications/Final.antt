-- ===== src/Notifications/Final.antt =====
-- On deliveries that are finished, under internal/modules/notification/dispatch.go.

use golang_template.Prelude.{
  ℕ, ◌≡◌, refl, sym, inl, inr, true, false, eqb, List, [], ◌∷◌, Option, none, some, any, take,
  Bool-cases,
}
use golang_template.Errors.{Err, Result, ok, err, ok-injective}
use golang_template.Storage.{Db, Action, attempt, raise, on_ok, ◌>>=◌}
use golang_template.Storage.Laws.{statement-eq-ok, statement_outcome}
use golang_template.Storage.Keeps.{Keeps, Keeps-statement, Keeps-pure, Keeps-bind}
use golang_template.Notifications.{Delivery, Tables}
use golang_template.Notifications.Store.{
  all_due, has_id, claimed, claim_update, claim, is_row, finish_update, finish, add_attempt,
}
use golang_template.Notifications.Dispatch.{Module, Outcome, deliver, deliver_all, dispatch_once}
use golang_template.Notifications.Rows.{
  is_final, Member, UniqueIds, Others, eqb-sym, take-Others, Others-has_id, all_due-Others,
  claim_rows-Member, claimed-Others, update_rows-Member,
}

abbrev Has : Delivery → Tables → Type 0
Has d t = Member d t.deliveries

Keeps-attempt :
    {S A B : Type 0} {P : S → Type 0} (m : Action S A) (k : Result A → Action S B)
    → Keeps P m
    → ((r : Result A) → Keeps P (k r))
    → Keeps P (attempt m k)
unfolding attempt
Keeps-attempt m k km kk = record { at = λ db p. let (r, d) = m db in (kk r).at d (km.at db p) }

module _ (d : Delivery) where
  finish-Has :
      (m : Module) (id : ℕ) (o : Outcome)
      → eqb id d.id ≡ false
      → Keeps (Has d) (finish m.at.db_now id o.status o.next o.reason "")
  unfolding finish
  finish-Has m id o other = Keeps-statement _ (λ t h. finish_if m id o other t h)
    where
      finish_if :
          (m : Module) (id : ℕ) (o : Outcome)
          → eqb id d.id ≡ false
          → (t : Tables) → Has d t
          → Has d (finish_update m.at.db_now id o.status o.next o.reason "" t).1
      finish_if m id o other t h = elim (Bool-cases (any (is_row id) t.deliveries)) [
        | inl there ↦
            rw there
              (update_rows-Member (is_row id) _ d t.deliveries (rw (eqb-sym id d.id other) refl) h)
        | inr missing ↦ rw missing h
      ]

  deliver-Has : (m : Module) (r : Delivery) → eqb r.id d.id ≡ false → Keeps (Has d) (deliver m r)
  unfolding deliver add_attempt
  deliver-Has m r other =
      Keeps-attempt _ _ (finish-Has m r.id _ other)
        (λ _. Keeps-attempt _ _ (Keeps-statement _ (λ t h. h)) (λ _. Keeps-pure tt))

  deliver_all-Has :
      (m : Module) (rows : List Delivery) → Others d.id rows → Keeps (Has d) (deliver_all m rows)
  unfolding deliver_all
  deliver_all-Has m [] h = Keeps-pure tt
  deliver_all-Has m (r ∷ rows) (h, hs) =
      Keeps-bind _ _ (deliver-Has m r h) (λ _. deliver_all-Has m rows hs)

module _ (m : Module) (d : Delivery) (final : is_final d ≡ true) where
  chosen-lacks :
      (t : Tables)
      → UniqueIds t.deliveries
      → Has d t
      → has_id d.id (take m.batch_size (all_due m.at t.deliveries)) ≡ false
  chosen-lacks t unique h =
      Others-has_id d.id _
        (take-Others d.id m.batch_size _ (all_due-Others m.at d t.deliveries final unique h))

  claim-Has :
      (t : Tables) → UniqueIds t.deliveries → Has d t → Has d (claim_update m.at m.batch_size t).1
  claim-Has t unique h = claim_rows-Member m.at _ d t.deliveries (chosen-lacks t unique h) h

  claimed-lacks :
      (db : Db Tables) (rows : List Delivery)
      → UniqueIds db.tables.deliveries
      → Has d db.tables
      → (claim m.at m.batch_size db).0 ≡ ok rows
      → Others d.id rows
  unfolding claim
  claimed-lacks db rows unique h done =
      let (same, left) = statement-eq-ok (claim_update m.at m.batch_size) db done in
      let e =
        ok-injective
          (claimed m.at (take m.batch_size (all_due m.at db.tables.deliveries))
            db.tables.deliveries)
          rows same in
      rw (sym e) (claimed-Others m.at _ d.id db.tables.deliveries (chosen-lacks db.tables unique h))

  claim-db-Has :
      (db : Db Tables)
      → UniqueIds db.tables.deliveries
      → Has d db.tables
      → Has d (claim m.at m.batch_size db).1.tables
  unfolding claim
  claim-db-Has db unique h = elim (statement_outcome (claim_update m.at m.batch_size) db) [
    | inl same ↦ rw same h
    | inr changed ↦ rw changed (claim-Has db.tables unique h)
  ]

  then-Has :
      (r : Result (List Delivery)) (db : Db Tables)
      → ((rows : List Delivery) → r ≡ ok rows → Others d.id rows)
      → Has d db.tables
      → Has d (on_ok (deliver_all m) r db).1.tables
  then-Has (ok rows) db lacks h = (deliver_all-Has d m rows (lacks rows refl)).at db h
  then-Has (err e) db lacks h = h

  -- From tables whose deliveries have different ids, a run of the dispatcher leaves a delivery that was sent, failed or skipped as it is, with its
  -- lock, attempts and version, whatever the senders answer and whatever the connection does.
  pub final_is_untouched :
      (done : Option Err) (db : Db Tables)
      → UniqueIds db.tables.deliveries
      → Member d db.tables.deliveries
      → Member d (dispatch_once m done db).1.tables.deliveries
  unfolding dispatch_once ◌>>=◌ attempt claim raise
  final_is_untouched (some e) db unique h = h
  final_is_untouched none db unique h =
      let run = claim m.at m.batch_size db in
      then-Has run.0 run.1 (λ rows same. claimed-lacks db rows unique h same)
        (claim-db-Has db unique h)

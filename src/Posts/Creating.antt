-- ===== src/Posts/Creating.antt =====
-- On the loop of `create` in internal/modules/post/store.go, on the pool and in a transaction.
use mathlib.Core.Path.{subst}
use golang_template.Prelude.{
  ℕ, zero, suc, ◌+◌, ◌<◌, ◌≡◌, refl, sym, ◌∙◌, Bool, true, false, String, [], Option, none, some,
  arith, if◌then◌else◌,
}
use golang_template.Errors.{Err, pg_error, pg_matches, map_error, Result, ok, err}
use golang_template.Storage.{Db, Action, statement, attempt, pure, raise, with_tx, ◌>>=◌}
use golang_template.Storage.Tx.{Tx, opened, in_tx, run_tx, body, from_server, in_failed_transaction}
use golang_template.Refid.{Generator, next, is_conflict, max_tries, contains}
use golang_template.Posts.{
  Post, Tables, pool, tx, Draws, insert_post, create, create_loop, insert_with, ref_code,
  with_reference, err_exhausted,
}
use golang_template.Posts.Events as Events
use golang_template.Posts.Events.{Module, Call, announce_created}
use golang_template.Posts.Stored.{insert_post-err}

-- The error of an INSERT whose reference id is taken.
abbrev pub taken : Err
taken = pg_error "23505" "posts_reference_id_key"

conflict_taken : is_conflict taken ≡ true
unfolding is_conflict pg_matches contains
conflict_taken = refl

plus_zero : (i : ℕ) → i + 0 ≡ i
plus_zero i = omega arith

plus_suc : (i j : ℕ) → i + suc j ≡ suc i + j
plus_suc i j = omega arith

zero_plus : (i : ℕ) → 0 + i ≡ i
zero_plus i = omega arith

one_plus : (i : ℕ) → suc i ≡ 1 + i
one_plus i = omega arith

without_events :
    (b : Bool) (x y : Action Tables Post) (db : Db Tables)
    → b ≡ false
    → (if b then x else y) db ≡ y db
without_events true x y db h = cc
without_events false x y db h = refl

-- Tables with a connection that does not fail.
abbrev pub steady {ℓ} : {S : Type ℓ} → S → Db S
steady t = record { tables = t; faults = [] }

module _ (refs : Option Generator) (draws : Draws) (p : Post) (t : Tables) where
  abbrev pub inserted : ℕ → String → Result Post × Tables
  inserted i ref = insert_post (draws.new_id i) draws.db_now (with_reference ref p) t

  -- The try `i` draws a reference id that is taken.
  abbrev pub TakenAt : ℕ → Type 0
  TakenAt i =
      (ref : String) × (next refs ref_code (draws.bytes i) ≡ ok ref)
      × ((inserted i ref).0 ≡ err taken)

  -- The try `i` draws a reference id that is free, and stores the post.
  abbrev pub FreeAt : ℕ → Post → Tables → Type 0
  FreeAt i a t' =
      (ref : String) × (next refs ref_code (draws.bytes i) ≡ ok ref) × (inserted i ref ≡ (ok a, t'))

  try_free :
      (i : ℕ) (again : Err → Action Tables Post) (r : Result String) (ref : String) (a : Post)
      (t' : Tables)
      → r ≡ ok ref
      → inserted i ref ≡ (ok a, t')
      → insert_with pool refs draws p i again r (steady t) ≡ (ok a, steady t')
  unfolding attempt statement pure
  try_free i again r ref a t' e h = rw (e, h) refl

  try_taken :
      (i : ℕ) (again : Err → Action Tables Post) (r : Result String) (ref : String)
      → r ≡ ok ref
      → (inserted i ref).0 ≡ err taken
      → insert_with pool refs draws p i again r (steady t) ≡ again taken (steady t)
  unfolding attempt statement is_conflict pg_matches contains
  try_taken i again r ref e h =
      rw (e, h, insert_post-err (draws.new_id i) draws.db_now (with_reference ref p) t taken h) refl

  loop_succeeds :
      (d left i : ℕ) (last : Option Err) (a : Post) (t' : Tables)
      → d < left
      → ((j : ℕ) → j < d → TakenAt (i + j))
      → FreeAt (i + d) a t'
      → create_loop pool refs draws p left i last (steady t) ≡ (ok a, steady t')
  unfolding create_loop
  loop_succeeds d zero i last a t' lt before free = absurd (omega arith)
  loop_succeeds zero (suc left) i last a t' lt before free =
      let (ref, e, h) = subst (λ k. FreeAt k a t') (plus_zero i) free in try_free i _ _ ref a t' e h
  loop_succeeds (suc d) (suc left) i last a t' lt before free =
      let (ref, e, h) = subst TakenAt (plus_zero i) (before 0 (omega arith)) in
      try_taken i _ _ ref e h
      ∙ loop_succeeds d left (suc i) (some taken) a t' (omega arith)
          (λ j lt. subst TakenAt (plus_suc i j) (before (suc j) (omega arith)))
          (subst (λ k. FreeAt k a t') (plus_suc i d) free)

  loop_exhausted :
      (left i : ℕ) (last : Err)
      → is_conflict last ≡ true
      → ((j : ℕ) → j < left → TakenAt (i + j))
      → create_loop pool refs draws p left i (some last) (steady t) ≡ (err err_exhausted, steady t)
  unfolding create_loop raise
  loop_exhausted zero i last conflict all = rw conflict refl
  loop_exhausted (suc left) i last conflict all =
      let (ref, e, h) = subst TakenAt (plus_zero i) (all 0 (omega arith)) in
      try_taken i _ _ ref e h
      ∙ loop_exhausted left (suc i) taken conflict_taken
          (λ j lt. subst TakenAt (plus_suc i j) (all (suc j) (omega arith)))

abbrev pub aborted_tx : Db (Tx Tables) → Db (Tx Tables)
aborted_tx db = record { tables = record { rows = db.tables.rows; aborted = true }; faults = [] }

abbrev pub refused_statement : Err
refused_statement = pg_error in_failed_transaction ""

-- Inside a transaction: a try that is taken aborts it, and the next try is refused.
module _ (refs : Option Generator) (draws : Draws) (p : Post) (t : Tables) where
  first_try_inside :
      (i : ℕ) (again : Err → Action (Tx Tables) Post) (r : Result String) (ref : String)
      → r ≡ ok ref
      → (inserted refs draws p t i ref).0 ≡ err taken
      → insert_with tx refs draws p i again r (opened (steady t))
        ≡ again taken (aborted_tx (opened (steady t)))
  unfolding attempt statement in_tx from_server is_conflict pg_matches contains
  first_try_inside i again r ref e h =
      rw (e, h, insert_post-err (draws.new_id i) draws.db_now (with_reference ref p) t taken h) refl

  second_try_inside :
      (i : ℕ) (again : Err → Action (Tx Tables) Post) (r : Result String) (ref : String)
      → r ≡ ok ref
      → insert_with tx refs draws p i again r (aborted_tx (opened (steady t)))
        ≡ (err refused_statement, aborted_tx (opened (steady t)))
  unfolding attempt in_tx is_conflict pg_matches raise map_error
  second_try_inside i again r ref e = rw e refl

-- A body that fails ends the transaction with its error and without effect.
failed_body :
    (t : Tables) (m : Action (Tx Tables) Post) (k : Post → Action (Tx Tables) Post) (e : Err)
    → m (opened (steady t)) ≡ (err e, aborted_tx (opened (steady t)))
    → run_tx (m >>= k) (steady t) ≡ (err e, steady t)
unfolding run_tx with_tx body ◌>>=◌ attempt
failed_body t m k e h = rw h refl

with_events :
    (b : Bool) (x y : Action Tables Post) (db : Db Tables)
    → b ≡ true
    → (if b then x else y) db ≡ x db
with_events true x y db h = refl
with_events false x y db h = cc

module _ (m : Module) (c : Call) (p : Post) (t : Tables) where
  -- Without an outbox and without failures of the connection, `create` stores the post and
  -- returns it as soon as one of the first eight reference ids that are drawn is free and those
  -- drawn before it are taken.
  pub create_finds_free :
      (k : ℕ) (a : Post) (t' : Tables)
      → m.has_events ≡ false
      → k < 8
      → ((j : ℕ) → j < k → TakenAt m.refs c.draws p t j)
      → FreeAt m.refs c.draws p t k a t'
      → Events.create_post m c p (steady t) ≡ (ok a, steady t')
  unfolding Events.create_post create
  create_finds_free k a t' h lt before free =
      without_events m.has_events _ _ (steady t) h
      ∙ loop_succeeds m.refs c.draws p t k max_tries 0 none a t' lt
          (λ j l. subst (TakenAt m.refs c.draws p t) (sym (zero_plus j)) (before j l))
          (subst (λ i. FreeAt m.refs c.draws p t i a t') (sym (zero_plus k)) free)

  -- Without an outbox and without failures of the connection, `create` stores nothing and returns
  -- the error for exhausted reference ids if all the eight that are drawn are taken.
  pub create_exhausted :
      m.has_events ≡ false
      → ((j : ℕ) → j < 8 → TakenAt m.refs c.draws p t j)
      → Events.create_post m c p (steady t) ≡ (err err_exhausted, steady t)
  unfolding Events.create_post create create_loop
  create_exhausted h all =
      let (ref, e, x) = all 0 (omega arith) in
      without_events m.has_events _ _ (steady t) h
      ∙ try_taken m.refs c.draws p t 0 _ _ ref e x
      ∙ loop_exhausted m.refs c.draws p t 7 1 taken conflict_taken
          (λ j l. subst (TakenAt m.refs c.draws p t) (one_plus j) (all (suc j) (omega arith)))

  -- With an outbox, and without failures of the connection, a reference id that is taken ends
  -- `create`: it returns the error of a failed transaction, and stores nothing, whatever
  -- reference ids the further tries draw.
  pub create_gives_up :
      (ref : String)
      → m.has_events ≡ true
      → TakenAt m.refs c.draws p t 0
      → next m.refs ref_code (c.draws.bytes 1) ≡ ok ref
      → Events.create_post m c p (steady t) ≡ (err (pg_error in_failed_transaction ""), steady t)
  unfolding Events.create_post create create_loop
  create_gives_up ref h (first, e, x) e' =
      with_events m.has_events _ _ (steady t) h
      ∙ failed_body t (create_loop tx m.refs c.draws p 8 0 none) (announce_created m c)
          refused_statement
          (first_try_inside m.refs c.draws p t 0 _ _ first e x
            ∙ second_try_inside m.refs c.draws p t 1 _ _ ref e')

-- ===== src/Posts/Stored.antt =====
-- What the statements and the loop of internal/modules/post/store.go leave in the tables.
use golang_template.Prelude.{
  ℕ, zero, suc, eqb, ◌≡◌, refl, ap, ◌∙◌, Bool, true, false, String, ◌==◌, List, ◌∷◌, any, Option,
  none, some, if◌then◌else◌,
}
use golang_template.Errors.{
  Err, message, map_error, pg_error, pg_matches, Result, ok, err, ok-injective,
}
use golang_template.Storage.{
  Db, Action, Fault, lost, applied, settle, next_fault, later_faults, statement, attempt, pure,
  raise,
}
use golang_template.Storage.Yields.{Yields, Yields-statement}
use golang_template.Storage.Tx.{Tx, in_tx, run_unless}
use golang_template.Storage.Tx.Laws.{Inside, InsideResult, Yields-in_tx}
use golang_template.Refid.{Generator, next, is_conflict}
use golang_template.Posts.Yielding.{Yields-if}
use golang_template.Posts.Rows.{clash}
use golang_template.Posts.{
  store_unless, broken_reference, Post, Tables, tx, Draws, insert_post, stored_row, create,
  create_loop, insert_with, after_insert, ref_code, with_reference,
}

-- The tables with a post in front.
abbrev pub with_post : Post → Tables → Tables
with_post p t = record t { posts = p ∷ t.posts }

abbrev answer_if : Bool → Bool → Option String → Err → Err → Post → Tables → Result Post × Tables
answer_if a b o x y row t = if a then (err x, t) else if b then (err y, t) else store_unless o row t

answer_if-ok :
    (a b : Bool) (o : Option String) (x y : Err) (row : Post) (t : Tables) (p : Post)
    → (answer_if a b o x y row t).0 ≡ ok p
    → (answer_if a b o x y row t).1 ≡ with_post p t
answer_if-ok true b o x y row t p h = cc
answer_if-ok false true o x y row t p h = cc
answer_if-ok false false (some c) x y row t p h = cc
answer_if-ok false false none x y row t p h = ap (λ q. with_post q t) (ok-injective row p h)

answer_if-err :
    (a b : Bool) (o : Option String) (x y : Err) (row : Post) (t : Tables) (e : Err)
    → (answer_if a b o x y row t).0 ≡ err e
    → (answer_if a b o x y row t).1 ≡ t
answer_if-err true b o x y row t e h = refl
answer_if-err false true o x y row t e h = refl
answer_if-err false false (some c) x y row t e h = refl
answer_if-err false false none x y row t e h = cc

-- The INSERT returns a row only if it stored it, and changes nothing otherwise.
pub insert_post-ok :
    (id now : ℕ) (p : Post) (t : Tables) (a : Post)
    → (insert_post id now p t).0 ≡ ok a
    → (insert_post id now p t).1 ≡ with_post a t
unfolding insert_post
insert_post-ok id now p t a h =
    answer_if-ok (any (λ (r : Post). eqb r.id id) t.posts)
      (any (λ (r : Post). r.reference_id == p.reference_id) t.posts) (broken_reference t.users p)
      (pg_error "23505" "posts_pkey") (pg_error "23505" "posts_reference_id_key")
      (stored_row id now p) t a h

pub insert_post-err :
    (id now : ℕ) (p : Post) (t : Tables) (e : Err)
    → (insert_post id now p t).0 ≡ err e
    → (insert_post id now p t).1 ≡ t
unfolding insert_post
insert_post-err id now p t e h =
    answer_if-err (any (λ (r : Post). eqb r.id id) t.posts)
      (any (λ (r : Post). r.reference_id == p.reference_id) t.posts) (broken_reference t.users p)
      (pg_error "23505" "posts_pkey") (pg_error "23505" "posts_reference_id_key")
      (stored_row id now p) t e h

err-injective : (d e : Err) → (r : Result Post) → r ≡ err d → r ≡ err e → d ≡ e
err-injective d e r h k = cc

settle-conflict :
    (f : Option Fault) (rest : List (Option Fault)) (t : Tables) (r : Result Post) (t' : Tables)
    (e : Err)
    → ((e : Err) → r ≡ err e → t' ≡ t)
    → (settle f rest t (r, t')).0 ≡ err e
    → is_conflict e ≡ true
    → (settle f rest t (r, t')).1.tables ≡ t
unfolding is_conflict pg_matches
settle-conflict none rest t r t' e same h conflict = same e h
settle-conflict (some (lost x)) rest t r t' e same h conflict = refl
settle-conflict (some (applied x)) rest t r t' e same h conflict =
    clash (ap is_conflict (err-injective (message x) e _ refl h)) refl conflict

conflict_leaves :
    (b : Bool) (id now : ℕ) (p : Post) (db : Db (Tx Tables)) (e : Err)
    → (run_unless b (statement (insert_post id now p)) db).0 ≡ err e
    → is_conflict e ≡ true
    → (run_unless b (statement (insert_post id now p)) db).1.tables.rows ≡ db.tables.rows
unfolding statement
conflict_leaves true id now p db e h conflict = refl
conflict_leaves false id now p db e h conflict =
    let run = insert_post id now p db.tables.rows in
    settle-conflict (next_fault db.faults) (later_faults db.faults) db.tables.rows run.0 run.1 e
      (λ x. insert_post-err id now p db.tables.rows x) h conflict

-- A statement that reports a conflict left the tables alone.
insert_tx-conflict :
    (id now : ℕ) (p : Post) (db : Db (Tx Tables)) (e : Err)
    → (tx (insert_post id now p) db).0 ≡ err e
    → is_conflict e ≡ true
    → (tx (insert_post id now p) db).1.tables.rows ≡ db.tables.rows
unfolding in_tx
insert_tx-conflict id now p db e h conflict =
    conflict_leaves db.tables.aborted id now p db e h conflict

-- The row that was inserted is the value that is returned, whatever tries came before.
abbrev Inserts : Tables → Action (Tx Tables) Post → Type 0
Inserts t m = Yields (Inside (λ t'. t' ≡ t)) m (InsideResult (λ a t'. t' ≡ with_post a t))

insert_tx-Inserts : (id now : ℕ) (p : Post) (t : Tables) → Inserts t (tx (insert_post id now p))
insert_tx-Inserts id now p t =
    Yields-in_tx _
      (Yields-statement _ (λ t' a same h. insert_post-ok id now p t' a h ∙ ap (with_post a) same))

module _ (refs : Option Generator) (draws : Draws) (p : Post) (t : Tables) where
  again-Inserts :
      (b : Bool) (again : Err → Action (Tx Tables) Post) (e : Err) (db : Db (Tx Tables)) (a : Post)
      → ((e : Err) → Inserts t (again e))
      → (b ≡ true → db.tables.rows ≡ t)
      → ((if b then again e else raise (map_error e)) db).0 ≡ ok a
      → ((if b then again e else raise (map_error e)) db).1.tables.rows ≡ with_post a t
  unfolding raise
  again-Inserts true again e db a k same h = (k e).at db a (same refl) h
  again-Inserts false again e db a k same h = cc

  after_insert-Inserts :
      (again : Err → Action (Tx Tables) Post) (r : Result Post) (db : Db (Tx Tables)) (a : Post)
      → ((e : Err) → Inserts t (again e))
      → ((a : Post) → r ≡ ok a → db.tables.rows ≡ with_post a t)
      → ((e : Err) → r ≡ err e → is_conflict e ≡ true → db.tables.rows ≡ t)
      → (after_insert again r db).0 ≡ ok a
      → (after_insert again r db).1.tables.rows ≡ with_post a t
  unfolding pure raise
  after_insert-Inserts again (ok b) db a k stored conflicts h = stored a h
  after_insert-Inserts again (err e) db a k stored conflicts h =
      again-Inserts (is_conflict e) again e db a k (conflicts e refl) h

  insert_with-Inserts :
      (i : ℕ) (again : Err → Action (Tx Tables) Post) (ref : Result String)
      → ((e : Err) → Inserts t (again e))
      → Inserts t (insert_with tx refs draws p i again ref)
  unfolding attempt raise
  insert_with-Inserts i again (err e) k = record { at = λ db a h done. cc }
  insert_with-Inserts i again (ok ref) k = record {
    at = λ db a same done.
        let q = with_reference ref p in
        let run = tx (insert_post (draws.new_id i) draws.db_now q) db in
        after_insert-Inserts again run.0 run.1 a k
          (λ b h. (insert_tx-Inserts (draws.new_id i) draws.db_now q t).at db b same h)
          (λ e h conflict.
            insert_tx-conflict (draws.new_id i) draws.db_now q db e h conflict ∙ same)
          done;
  }

  create_loop-Inserts :
      (left i : ℕ) (e : Err) → Inserts t (create_loop tx refs draws p left i (some e))
  unfolding create_loop raise
  create_loop-Inserts zero i e =
      Yields-if (is_conflict e) _ _ (record { at = λ db a h done. cc })
        (record { at = λ db a h done. cc })
  create_loop-Inserts (suc left) i e =
      insert_with-Inserts i _ (next refs ref_code (draws.bytes i))
        (λ x. create_loop-Inserts left (suc i) x)

  -- What `create` returns in a transaction is the post that it put in front of the others.
  pub create-Inserts : Inserts t (create tx refs draws p)
  unfolding create create_loop
  create-Inserts =
      insert_with-Inserts 0 _ (next refs ref_code (draws.bytes 0)) (λ x. create_loop-Inserts 7 1 x)

-- ===== src/Posts.antt =====
-- internal/modules/post/store.go: the table of posts.
--
-- A row has the columns of `posts` in cmd/migrate/migrations/000006_create_posts.up.sql, and the model
-- has beside it the ids of `users` that it refers to, the outbox and the audit log. A
-- `uuid.UUID` is a number with `uuid.Nil` as 0, times are microseconds, and metadata is the
-- JSON text that is stored. The query timeout is a fault of the statement. The lengths of the texts
-- and whether the metadata is JSON are not checked, nor whether the caller of an UPDATE is a user.
pub mod Events
pub mod Handlers
pub mod Rows
pub mod Keeping
pub mod Invariants
pub mod Requests
pub mod Lasting
pub mod Yielding
pub mod Changed
pub mod Locking
pub mod Gone
pub mod Listing
pub mod Paging
pub mod ListTests
pub mod Creating
pub mod Announced
pub mod Stored
pub mod Published
pub mod Deletion
pub mod Tests
use golang_template.Prelude.{
  ℕ, zero, suc, ◌+◌, eqb, String, Bool, true, false, not, ◌&&◌, ◌||◌, ◌==◌, ltb, if◌then◌else◌,
  List, [], ◌∷◌, Option, none, some, any,
}
use golang_template.Errors.{
  Err, sentinel, not_found, version_mismatch, no_rows, pg_error, message, Result, ok, err, is,
  map_error,
}
use golang_template.Storage.{Action, attempt, statement, raise, pure}
use golang_template.Storage.Tx.{Tx, in_tx}
use golang_template.Refid.{Generator, next, is_conflict, max_tries}
use golang_template.Outbox.{to_seconds}
use golang_template.Outbox.Claim.{is_null}
use golang_template.Outbox as Outbox
use golang_template.Audit as Audit

pub record Post : Type 0 where
  pub id : ℕ
  pub reference_id : String
  pub user_id : ℕ
  pub title : String
  pub content : String
  pub tags : List String
  pub version : ℕ
  pub is_visible : Bool
  pub metadata : String
  pub created_at : ℕ
  pub updated_at : ℕ
  pub created_by : Option ℕ
  pub updated_by : Option ℕ
  pub deleted_at : Option ℕ
  pub deleted_by : Option ℕ

pub record Tables : Type 0 where
  pub users : List ℕ
  pub posts : List Post
  pub outbox : List Outbox.Row
  pub audit : List Audit.Row

-- `querier`: the pool or a transaction, by how it runs a query for one row.
abbrev pub Querier : Type 0 → Type 0
Querier T = (Tables → Result Post × Tables) → Action T Post

abbrev pub pool : Querier Tables
pool f = statement f

abbrev pub tx : Querier (Tx Tables)
tx f = in_tx (statement f)

-- `Scan` finds a row, or `pgx.ErrNoRows`.
abbrev pub on_posts : (List Post → Result Post × List Post) → Tables → Result Post × Tables
on_posts f t = let (r, posts) = f t.posts in (r, record t { posts = posts })

unfoldable pub meta_or_empty : String → String
meta_or_empty m = if m == "" || m == "null" then "{}" else m

abbrev pub with_reference : String → Post → Post
with_reference ref p = record p { reference_id = ref; metadata = meta_or_empty p.metadata }

-- What the database chooses for a new row: `gen_random_uuid()` and `NOW()`.
abbrev pub stored_row : ℕ → ℕ → Post → Post
stored_row id now p = record p {
  id = id;
  version = 1;
  created_at = to_seconds now;
  updated_at = to_seconds now;
  deleted_at = none;
  deleted_by = none;
}

abbrev is_user : List ℕ → Option ℕ → Bool
is_user users none = true
is_user users (some i) = any (λ u. eqb u i) users

-- The reference to `users` that a new post breaks, if it breaks one. `deleted_by` is null.
abbrev pub broken_reference : List ℕ → Post → Option String
broken_reference users p =
    if not (is_user users (some p.user_id))
    then some "posts_user_id_fkey"
    else if not (is_user users p.created_by)
    then some "posts_created_by_fkey"
    else if not (is_user users p.updated_by)
    then some "posts_updated_by_fkey"
    else none

abbrev pub store_unless : Option String → Post → Tables → Result Post × Tables
store_unless none row t = (ok row, record t { posts = row ∷ t.posts })
store_unless (some reference) row t = (err (pg_error "23503" reference), t)

-- The INSERT, with the unique indexes and the references to `users`.
unfoldable pub insert_post : ℕ → ℕ → Post → Tables → Result Post × Tables
insert_post id now p t =
    if any (λ r. eqb r.id id) t.posts
    then (err (pg_error "23505" "posts_pkey"), t)
    else if any (λ r. r.reference_id == p.reference_id) t.posts
    then (err (pg_error "23505" "posts_reference_id_key"), t)
    else store_unless (broken_reference t.users p) (stored_row id now p) t

-- The random choices of a call: the bytes and the row id of each try, and the database's clock.
pub record Draws : Type 0 where
  pub bytes : ℕ → Result (ℕ → ℕ)
  pub new_id : ℕ → ℕ
  pub db_now : ℕ

abbrev pub ref_code : String
ref_code = "PST"

abbrev pub err_exhausted : Err
err_exhausted = message "refid: could not allocate unique reference id"

-- After the last try: the conflict is reported as `ErrExhausted`.
abbrev pub give_up : {T : Type 0} → Option Err → Post → Action T Post
give_up none p = pure p
give_up (some e) p = if is_conflict e then raise err_exhausted else raise (map_error e)

abbrev pub after_insert : {T : Type 0} → (Err → Action T Post) → Result Post → Action T Post
after_insert again (ok p) = pure p
after_insert again (err e) = if is_conflict e then again e else raise (map_error e)

module _ {T : Type 0} (db : Querier T) (refs : Option Generator) (draws : Draws) (p : Post) where
  abbrev pub insert_with : ℕ → (Err → Action T Post) → Result String → Action T Post
  insert_with i again (err e) = raise e
  insert_with i again (ok ref) =
      attempt (db (insert_post (draws.new_id i) draws.db_now (with_reference ref p)))
        (after_insert again)

  -- The loop of `create`, by the number of tries that are left and of those made.
  unfoldable pub create_loop : ℕ → ℕ → Option Err → Action T Post
  create_loop zero i last = give_up last p
  create_loop (suc left) i last =
      insert_with i (λ e. create_loop left (suc i) (some e)) (next refs ref_code (draws.bytes i))

  unfoldable pub create : Action T Post
  create = create_loop max_tries 0 none

abbrev pub first_post : (Post → Bool) → List Post → Result Post
first_post wanted [] = err (sentinel no_rows)
first_post wanted (r ∷ rows) = let rest = first_post wanted rows in if wanted r then ok r else rest

-- deleted_at IS NULL
abbrev pub active : Post → Bool
active p = is_null p.deleted_at

-- `pgx.ErrNoRows` becomes a sentinel of the storage package.
abbrev pub no_row_is : {T : Type 0} → Err → Result Post → Action T Post
no_row_is instead (ok p) = pure p
no_row_is instead (err e) = if is e no_rows then raise instead else raise e

unfoldable pub get_post : (Post → Bool) → Action Tables Post
get_post wanted =
    attempt (statement (λ t. (first_post (λ p. wanted p && active p) t.posts, t)))
      (no_row_is (sentinel not_found))

unfoldable pub get_by_id : ℕ → Action Tables Post
unfolding get_post
get_by_id id = get_post (λ p. eqb p.id id)

-- The reference id is compared in upper case; `to_upper` is `strings.ToUpper`.
unfoldable pub get_by_reference_id : (String → String) → String → Action Tables Post
unfolding get_post
get_by_reference_id to_upper ref = get_post (λ p. p.reference_id == to_upper ref)

-- An `int` column holds at most 2^31 - 1.
abbrev pub max_int32 : ℕ
max_int32 = 2147483647

-- The row that UPDATE … SET leaves, from the caller's post.
abbrev pub updated_row : ℕ → Post → Post → Post
updated_row now p r = record r {
  title = p.title;
  content = p.content;
  tags = p.tags;
  is_visible = p.is_visible;
  metadata = meta_or_empty p.metadata;
  version = suc r.version;
  updated_at = to_seconds now;
  updated_by = p.updated_by;
}

abbrev pub replace_row : Result Post → Post → List Post → Result Post × List Post
replace_row (ok r') r rows = (ok r', r' ∷ rows)
replace_row (err e) r rows = (err e, r ∷ rows)

abbrev pub keep_row : Post → Result Post × List Post → Result Post × List Post
keep_row r (res, rows) = (res, r ∷ rows)

-- Change the row with the caller's id that the WHERE clause admits, and return it.
abbrev pub change_row : (Post → Bool) → (Post → Result Post) → List Post → Result Post × List Post
change_row wanted change [] = (err (sentinel no_rows), [])
change_row wanted change (r ∷ rows) =
    let rest = change_row wanted change rows in
    if wanted r then replace_row (change r) r rows else keep_row r rest

abbrev pub bump : ℕ → Post → Post → Result Post
bump now p r =
    if ltb r.version max_int32 then ok (updated_row now p r) else err (pg_error "22003" "")

unfoldable pub update_where : Post → Post → Bool
update_where p r = eqb r.id p.id && eqb r.version p.version && active r

-- `Scan` of the RETURNING clause into the caller's post.
abbrev pub scan_updated : Post → Result Post → Result Post
scan_updated p (err e) = err e
scan_updated p (ok r) = ok (record p {
  version = r.version;
  is_visible = r.is_visible;
  metadata = meta_or_empty r.metadata;
  updated_at = r.updated_at;
  updated_by = r.updated_by;
  deleted_at = r.deleted_at;
  deleted_by = r.deleted_by;
})

abbrev pub scanned : (Result Post → Result Post) → Result Post × Tables → Result Post × Tables
scanned scan (r, t) = (scan r, t)

unfoldable pub update_post : ℕ → Post → Tables → Result Post × Tables
update_post now p t =
    scanned (scan_updated p) (on_posts (change_row (update_where p) (bump now p)) t)

-- `update`: no row with this id and version is a version mismatch.
unfoldable pub update : {T : Type 0} → Querier T → ℕ → Post → Action T Post
update db now p = attempt (db (update_post now p)) (no_row_is (sentinel version_mismatch))

abbrev pub deleted_row : ℕ → Post → Post → Post
deleted_row now p r = record r {
  deleted_at = some (to_seconds now);
  updated_at = to_seconds now;
  deleted_by = p.deleted_by;
  updated_by = p.deleted_by;
}

unfoldable pub delete_where : Post → Post → Bool
delete_where p r = eqb r.id p.id && active r

abbrev pub scan_deleted : Post → Result Post → Result Post
scan_deleted p (err e) = err e
scan_deleted p (ok r) = ok (record p {
  updated_at = r.updated_at;
  updated_by = r.updated_by;
  deleted_at = r.deleted_at;
  deleted_by = r.deleted_by;
})

unfoldable pub delete_post : ℕ → Post → Tables → Result Post × Tables
delete_post now p t =
    scanned (scan_deleted p)
      (on_posts (change_row (delete_where p) (λ r. ok (deleted_row now p r))) t)

unfoldable pub soft_delete : {T : Type 0} → Querier T → ℕ → Post → Action T Post
soft_delete db now p = attempt (db (delete_post now p)) (no_row_is (sentinel not_found))

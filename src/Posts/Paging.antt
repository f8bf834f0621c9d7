-- ===== src/Posts/Paging.antt =====
-- On the listing of internal/modules/post, by its defaults and by its cursors.
use golang_template.Prelude.{
  ℕ, ◌≡◌, ◌≢◌, refl, sym, ap, ◌∙◌, inl, inr, String, Bool, true, false, not, ◌&&◌, ◌==◌,
  if◌then◌else◌, List, Option, none, some, length,
}
use golang_template.Errors.{Err, Result, ok, err, ok-injective}
use golang_template.Storage.{Db, statement, pure}
use golang_template.Storage.Laws.{statement-eq-ok, >>=-eq-ok}
use golang_template.Query.{
  Page, Sort, Codec, Text, Values, parse_page, parse_sort, parse_uuid, with_order, settled,
  is_order, to_lower, using_cursor,
}
use golang_template.Query.Laws.{if-cases, if-ok}
use golang_template.Posts.{Post, Tables}
use golang_template.Posts.Listing.{
  listed, keep_rows, ListQuery, ListResult, Server, default_column, sort_columns, agreed, with_user,
  with_sort, with_page, parse, list, list_from, ordered, column_order,
}

clash : {A : Type 0} {a b : Bool} → a ≡ b → a ≡ false → b ≡ true → A
clash e f t = cc

settled-by :
    (s : Sort) → s.by ≡ default_column → (settled sort_columns default_column s).by ≡ default_column
settled-by s same = rw same refl

if-not :
    {A : Type 0} (b : Bool) (r : Result A) (e : Err) {a : A}
    → (if b then r else err e) ≡ ok a
    → (b ≡ true) × (r ≡ ok a)
if-not true r e h = (refl, h)
if-not false r e h = cc

with_order-by :
    (order : String) (s q : Sort)
    → s.by ≡ default_column
    → with_order sort_columns default_column order s ≡ ok q
    → q.by ≡ default_column
with_order-by order s q same h =
    elim (if-cases (order == "") (ok (settled sort_columns default_column s)) _ h) [
      | inl done ↦ sym (ap (λ (x : Sort). x.by) (ok-injective _ q done)) ∙ settled-by s same
      | inr (given, rest) ↦
          let (known, done) = if-not (is_order (to_lower order)) _ _ rest in
          sym (ap (λ (x : Sort). x.by) (ok-injective _ q done))
          ∙ settled-by (record s { order = to_lower order }) same
    ]

sorted_by_default :
    (qs : Values) (q : Sort)
    → qs "sort_by" ≡ ""
    → parse_sort qs default_column "desc" sort_columns ≡ ok q
    → q.by ≡ default_column
unfolding parse_sort
sorted_by_default qs q empty h =
    elim (if-cases (qs "sort_by" == "")
      (with_order sort_columns default_column (qs "order")
        (record { by = default_column; order = to_lower "desc" }))
      _ h) [
        | inl done ↦
            with_order-by (qs "order") (record { by = default_column; order = to_lower "desc" }) q
              refl done
        | inr (given, rest) ↦ clash (ap (λ s. s == "") empty) given refl
      ]

no_cursor :
    (b : Bool) (by : String)
    → by ≡ default_column
    → b && not (by == "created_at") ≡ false
    → b ≡ false
no_cursor true by same h = clash (ap (λ s. not (s == "created_at")) same) h refl
no_cursor false by same h = refl

agreed-eq-ok :
    (q q' : ListQuery)
    → q.sort.by ≡ default_column
    → agreed q ≡ ok q'
    → (q ≡ q') × (using_cursor q'.page ≡ false)
agreed-eq-ok q q' same h =
    let (cond, done) = if-ok _ _ _ h in
    let e = ok-injective q q' done in
    (
      e,
      sym (ap (λ (x : ListQuery). using_cursor x.page) e)
          ∙ no_cursor (using_cursor q.page) q.sort.by same cond,
    )

column_order-none :
    (server : Server) (s : Sort) → s.by ≡ default_column → column_order server s ≡ none
unfolding column_order
column_order-none server s same = rw same refl

no_rows_from :
    (server : Server) (q : ListQuery) (o : Option (Post → Post → Bool)) (t : Tables)
    {items : List Post}
    → o ≡ none
    → (ordered server q o t).0 ≢ ok items
no_rows_from server q none t same h = cc
no_rows_from server q (some before) t same h = cc

list_from-fails :
    (server : Server) (q : ListQuery) (db : Db Tables) (a : ListResult)
    → q.sort.by ≡ default_column
    → (list_from server q db).0 ≢ ok a
list_from-fails server q db a same h =
    let (total, counted, rest, left) =
      >>=-eq-ok (statement (λ t. (ok (length (keep_rows (listed server q) t.posts)), t))) _ db h in
    let (items, found, done, after) =
      >>=-eq-ok (statement (ordered server q (column_order server q.sort))) _ _ rest in
    let (answered, unchanged) =
      statement-eq-ok (ordered server q (column_order server q.sort)) _ found in
    no_rows_from server q (column_order server q.sort) _ (column_order-none server q.sort same)
      answered

abbrev Plain : ListQuery → Type 0
Plain q = (q.sort.by ≡ default_column) × (using_cursor q.page ≡ false)

module _ (codec : Codec) (text : Text) (qs : Values) (q : ListQuery) where
  with_user-Plain :
      (page : Page) (sort : Sort) (r : Result (Option ℕ))
      → sort.by ≡ default_column
      → with_user text qs page sort r ≡ ok q
      → Plain q
  with_user-Plain page sort (err e) same h = cc
  with_user-Plain page sort (ok u) same h =
      let (e, plain) = agreed-eq-ok _ q same h in
      (sym (ap (λ (x : ListQuery). x.sort.by) e) ∙ same, plain)

  with_sort-Plain :
      (page : Page) (r : Result Sort)
      → ((s : Sort) → r ≡ ok s → s.by ≡ default_column)
      → with_sort codec text qs page r ≡ ok q
      → Plain q
  with_sort-Plain page (err e) same h = cc
  with_sort-Plain page (ok s) same h =
      with_user-Plain page s (parse_uuid codec text qs "user_id") (same s refl) h

  with_page-Plain :
      (r : Result Page) → qs "sort_by" ≡ "" → with_page codec text qs r ≡ ok q → Plain q
  with_page-Plain (err e) empty h = cc
  with_page-Plain (ok page) empty h =
      with_sort-Plain page (parse_sort qs default_column "desc" sort_columns)
        (λ s. sorted_by_default qs s empty) h

  parsed-Plain : qs "sort_by" ≡ "" → parse codec text qs ≡ ok q → Plain q
  unfolding parse
  parsed-Plain empty h = with_page-Plain (parse_page codec qs) empty h

list_from-next_cursor :
    (server : Server) (q : ListQuery) (db : Db Tables) (a : ListResult)
    → (list_from server q db).0 ≡ ok a
    → a.next_cursor ≡ ""
unfolding pure
list_from-next_cursor server q db a h =
    let (total, counted, rest, left) =
      >>=-eq-ok (statement (λ t. (ok (length (keep_rows (listed server q) t.posts)), t))) _ db h in
    let (items, found, done, after) =
      >>=-eq-ok (statement (ordered server q (column_order server q.sort))) _ _ rest in
    sym (ap (λ (x : ListResult). x.next_cursor) (ok-injective _ a done))

without_cursor : (p : Page) → p.cursor ≡ "" → using_cursor p ≡ false
unfolding using_cursor
without_cursor p empty = ap (λ s. not (s == "")) empty

module _ (codec : Codec) (server : Server) where
  -- A listing whose request names no sort column is answered with an error, whatever the request
  -- holds besides and whatever the connection does: its parameters are refused, or the query that
  -- they make fails.
  pub default_listing_fails :
      (text : Text) (qs : Values) (q : ListQuery) (db : Db Tables) (a : ListResult)
      → qs "sort_by" ≡ ""
      → parse codec text qs ≡ ok q
      → (list codec server q db).0 ≢ ok a
  unfolding list
  default_listing_fails text qs q db a empty parsed =
      let (by, plain) = parsed-Plain codec text qs q empty parsed in
      rw plain (list_from-fails server q db a by)

  -- A page that was asked for without a cursor comes without the cursor of the next page.
  pub first_page_has_no_cursor :
      (q : ListQuery) (db : Db Tables) (a : ListResult)
      → q.page.cursor ≡ ""
      → (list codec server q db).0 ≡ ok a
      → a.next_cursor ≡ ""
  unfolding list
  first_page_has_no_cursor q db a empty =
      rw (without_cursor q.page empty) (list_from-next_cursor server q db a)

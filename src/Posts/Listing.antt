-- ===== src/Posts/Listing.antt =====
-- The listing of internal/modules/post: query.go, and `List` of store.go.
--
-- What Postgres does for ILIKE, and the order of its texts, are arguments. An ORDER BY that names
-- no column of `posts` is an error of the server.
use golang_template.Prelude.{
  ℕ, zero, suc, eqb, String, Bool, true, false, not, ◌&&◌, ◌||◌, ◌==◌, ltb, leb, if◌then◌else◌,
  List, [], ◌∷◌, Option, none, some, any, take, length,
}
use golang_template.Prelude.Int.{ℤ, pos_part}
use golang_template.Errors.{Err, message, pg_error, Result, ok, err}
use golang_template.Storage.{Db, Action, statement, pure, raise, ◌>>=◌}
use golang_template.Query.{
  Page, new_page, Sort, Cursor, Codec, Text, Values, parse_page, parse_sort, parse_csv, parse_uuid,
  optional_string, using_cursor, decode_cursor,
}
use golang_template.Posts.{Post, Tables, active}

abbrev pub sort_columns : List String
sort_columns = "created_at" ∷ "updated_at" ∷ "title" ∷ []

pub record ListQuery : Type 0 where
  pub page : Page
  pub sort : Sort
  pub search : String
  pub tags : List String
  pub user_id : Option ℕ

abbrev pub new_list_query : ListQuery
new_list_query = record {
  page = new_page;
  sort = record { by = "created_at"; order = "desc" };
  search = "";
  tags = [];
  user_id = none;
}

-- The column that `Parse` hands over as the default, with the tab that the source has in it.
abbrev pub default_column : String
default_column = "created_a\tt"

abbrev tags_or_none : Option (List String) → List String
tags_or_none none = []
tags_or_none (some tags) = tags

-- A cursor goes with the order by creation only.
abbrev pub agreed : ListQuery → Result ListQuery
agreed q =
    if using_cursor q.page && not (q.sort.by == "created_at")
    then err (message "cursor pagination requires sort_by=created_at")
    else ok q

abbrev pub with_user : Text → Values → Page → Sort → Result (Option ℕ) → Result ListQuery
with_user text qs page sort (err e) = err e
with_user text qs page sort (ok user_id) = agreed (record {
  page = page;
  sort = sort;
  search = optional_string text qs "search";
  tags = tags_or_none (parse_csv text qs "tags");
  user_id = user_id;
})

abbrev pub with_sort : Codec → Text → Values → Page → Result Sort → Result ListQuery
with_sort codec text qs page (err e) = err e
with_sort codec text qs page (ok sort) =
    with_user text qs page sort (parse_uuid codec text qs "user_id")

abbrev pub with_page : Codec → Text → Values → Result Page → Result ListQuery
with_page codec text qs (err e) = err e
with_page codec text qs (ok page) =
    with_sort codec text qs page (parse_sort qs default_column "desc" sort_columns)

unfoldable pub parse : Codec → Text → Values → Result ListQuery
parse codec text qs = with_page codec text qs (parse_page codec qs)

-- `a ILIKE '%' || b || '%'`, and whether a title sorts before or with another.
pub record Server : Type 0 where
  pub ilike : String → String → Bool
  pub title_leb : String → String → Bool

abbrev contains_all : List String → List String → Bool
contains_all tags [] = true
contains_all tags (w ∷ ws) = any (λ t. t == w) tags && contains_all tags ws

abbrev by_user : Option ℕ → Post → Bool
by_user none p = true
by_user (some u) p = eqb p.user_id u

abbrev by_search : Server → String → Post → Bool
by_search server search p =
    search == "" || server.ilike p.title search || server.ilike p.content search

-- The conditions of the WHERE clause without the cursor's.
unfoldable pub listed : Server → ListQuery → Post → Bool
listed server q p =
    active p
    && p.is_visible
    && by_search server q.search p
    && contains_all p.tags q.tags
    && by_user q.user_id p

-- (created_at, id) < (…)
abbrev pub key_lt : ℕ → ℕ → ℕ → ℕ → Bool
key_lt t i t' i' = ltb t t' || eqb t t' && ltb i i'

abbrev is_asc : ListQuery → Bool
is_asc q = q.sort.order == "asc"

unfoldable pub past_cursor : ListQuery → Cursor → Post → Bool
past_cursor q c p =
    if is_asc q
    then key_lt c.created_at c.id p.created_at p.id
    else key_lt p.created_at p.id c.created_at c.id

unfoldable pub keep_rows : (Post → Bool) → List Post → List Post
keep_rows wanted [] = []
keep_rows wanted (p ∷ rows) =
    let rest = keep_rows wanted rows in if wanted p then p ∷ rest else rest

unfoldable pub insert_by : (Post → Post → Bool) → Post → List Post → List Post
insert_by before p [] = p ∷ []
insert_by before p (x ∷ xs) =
    let rest = insert_by before p xs in if before p x then p ∷ x ∷ xs else x ∷ rest

unfoldable pub order_by : (Post → Post → Bool) → List Post → List Post
order_by before [] = []
order_by before (p ∷ rows) = insert_by before p (order_by before rows)

abbrev flipped : Bool → (Post → Post → Bool) → Post → Post → Bool
flipped true before a b = before a b
flipped false before a b = before b a

-- ORDER BY of the sort's clause: the order of a column of `posts`, or none.
unfoldable pub column_order : Server → Sort → Option (Post → Post → Bool)
column_order server s =
    let asc = s.order == "asc" in
    if s.by == "created_at"
    then some (flipped asc (λ a b. leb a.created_at b.created_at))
    else if s.by == "updated_at"
    then some (flipped asc (λ a b. leb a.updated_at b.updated_at))
    else if s.by == "title"
    then some (flipped asc (λ a b. server.title_leb a.title b.title))
    else none

pub record ListResult : Type 0 where
  pub items : List Post
  pub total : ℕ
  pub next_cursor : String

abbrev drop : ℕ → List Post → List Post
drop zero xs = xs
drop (suc n) [] = []
drop (suc n) (x ∷ xs) = drop n xs

abbrev last_post : List Post → Option Post
last_post [] = none
last_post (p ∷ []) = some p
last_post (p ∷ q ∷ ps) = last_post (q ∷ ps)

abbrev next_of : Codec → Option Post → String
next_of codec none = ""
next_of codec (some p) = codec.encode (record { created_at = p.created_at; id = p.id })

abbrev full_page : Codec → ListQuery → List Post → ListResult
full_page codec q items = record {
  items = items;
  total = 0;
  next_cursor =
      if eqb (length items) (pos_part q.page.limit) then next_of codec (last_post items) else "";
}

-- The query with a cursor.
abbrev pub keyset_rows : Server → ListQuery → Cursor → Tables → List Post
keyset_rows server q c t = take (pos_part q.page.limit) (
    order_by (flipped (is_asc q) (λ a b. not (key_lt b.created_at b.id a.created_at a.id)))
      (keep_rows (λ p. listed server q p && past_cursor q c p) t.posts))

abbrev pub list_after : Codec → Server → ListQuery → Result Cursor → Action Tables ListResult
list_after codec server q (err e) = raise e
list_after codec server q (ok c) =
    statement (λ t. (ok (full_page codec q (keyset_rows server q c t)), t))

-- The query with an offset.
abbrev pub ordered :
    Server → ListQuery → Option (Post → Post → Bool) → Tables → Result (List Post) × Tables
ordered server q none t = (err (pg_error "42601" ""), t)
ordered server q (some before) t = (
  ok (
      take (pos_part q.page.limit)
        (drop (pos_part q.page.offset) (order_by before (keep_rows (listed server q) t.posts)))),
  t,
)

abbrev with_total : ℕ → List Post → ListResult
with_total total items = record { items = items; total = total; next_cursor = "" }

abbrev pub list_from : Server → ListQuery → Action Tables ListResult
list_from server q =
    statement (λ t. (ok (length (keep_rows (listed server q) t.posts)), t)) >>= λ total.
    statement (ordered server q (column_order server q.sort)) >>= λ items.
    pure (with_total total items)

-- `List`: with a cursor, or the total and the page from an offset.
unfoldable pub list : Codec → Server → ListQuery → Action Tables ListResult
list codec server q =
    if using_cursor q.page
    then list_after codec server q (decode_cursor codec q.page.cursor)
    else list_from server q

-- `httpx.CursorPagination` and `httpx.OffsetPagination`.
pub data Pagination : Type 0 where
  by_cursor : (limit : ℤ) (next_cursor : String) → Pagination
  by_offset : (total : ℕ) (limit offset : ℤ) → Pagination

pub data ListReply : Type 0 where
  listing : List Post → Pagination → ListReply
  refused : (status : ℕ) → Err → ListReply

abbrev pub pagination : ListQuery → ListResult → Pagination
pagination q r =
    if using_cursor q.page
    then by_cursor q.page.limit r.next_cursor
    else by_offset r.total q.page.limit q.page.offset

abbrev answer_list : ListQuery → Result ListResult × Db Tables → ListReply × Db Tables
answer_list q (err e, db) = (refused 500 e, db)
answer_list q (ok r, db) = (listing r.items (pagination q r), db)

abbrev list_valid : Codec → Server → ListQuery → Option Err → Db Tables → ListReply × Db Tables
list_valid codec server q (some e) db = (refused 400 e, db)
list_valid codec server q none db = answer_list q (list codec server q db)

abbrev list_parsed :
    Codec → Server → (ListQuery → Option Err) → Result ListQuery → Db Tables → ListReply × Db Tables
list_parsed codec server validate (err e) db = (refused 400 e, db)
list_parsed codec server validate (ok q) db = list_valid codec server q (validate q) db

-- The handler; `validate` is `httpx.Validate.Struct`.
unfoldable pub list_posts_handler :
    Codec → Text → Server → (ListQuery → Option Err) → Values → Db Tables → ListReply × Db Tables
unfolding list
list_posts_handler codec text server validate qs db =
    list_parsed codec server validate (parse codec text qs) db

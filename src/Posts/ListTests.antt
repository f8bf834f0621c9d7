-- ===== src/Posts/ListTests.antt =====
-- Runs of the listing of internal/modules/post, and the theorems about it at them.
use golang_template.Prelude.{ℕ, ◌≡◌, ◌≢◌, refl, true, [], ◌∷◌, none}
use golang_template.Prelude.Int.{pos}
use golang_template.Errors.{ok}
use golang_template.Storage.{Db}
use golang_template.Query.{Page, Sort, Cursor, Codec, Text, Values, new_page}
use golang_template.Posts.{Post, Tables}
use golang_template.Posts.Listing.{
  ListQuery, ListResult, Server, default_column, new_list_query, parse, list,
}
use golang_template.Posts.Paging.{default_listing_fails, first_page_has_no_cursor}

abbrev codec : Codec
codec = record {
  encode = λ c. "next";
  decode = λ s. ok (record { created_at = 9; id = 9 });
  parse_uuid = λ s. none;
}

abbrev text : Text
text = record { trim_space = λ s. s; split_commas = λ s. s ∷ [] }

abbrev server : Server
server = record { ilike = λ a b. true; title_leb = λ a b. true }

abbrev row : ℕ → Post
row n = record {
  id = n;
  reference_id = "APP-PST-AAAAA";
  user_id = 3;
  title = "title";
  content = "text";
  tags = [];
  version = 1;
  is_visible = true;
  metadata = "{}";
  created_at = n;
  updated_at = 0;
  created_by = none;
  updated_by = none;
  deleted_at = none;
  deleted_by = none;
}

abbrev start : Db Tables
start = record {
  tables = record { users = 3 ∷ []; posts = row 8 ∷ row 9 ∷ row 6 ∷ []; outbox = []; audit = [] };
  faults = [];
}

-- What the parameters of a request without any are.
abbrev defaults : ListQuery
defaults = record new_list_query { sort = record { by = default_column; order = "desc" } }

-- A query for one post, by creation.
abbrev by_creation : ListQuery
by_creation = record new_list_query { page = record new_page { limit = pos 1 } }

abbrev first_page : ListResult
first_page = record { items = row 9 ∷ []; total = 3; next_cursor = "" }

default_listing_fails_example : (list codec server defaults start).0 ≢ ok first_page
unfolding parse golang_template.Query.parse_page golang_template.Query.parse_sort
    golang_template.Query.parse_uuid golang_template.Query.optional_string
    golang_template.Query.using_cursor golang_template.Query.to_lower
    golang_template.Query.parse_csv
default_listing_fails_example =
    default_listing_fails codec server text (λ key. "") defaults start first_page refl refl

-- The newest post is listed first, and a cursor goes on after it.
list_tests :
    ((list codec server by_creation start).0 ≡ ok first_page)
    × ((list codec server
          (record by_creation { page = record { limit = pos 1; offset = pos 0; cursor = "c" } })
          start).0
        ≡ ok (record { items = row 8 ∷ []; total = 0; next_cursor = "next" }))
unfolding list golang_template.Query.using_cursor golang_template.Storage.◌>>=◌
    golang_template.Storage.statement golang_template.Posts.Listing.column_order
    golang_template.Storage.pure golang_template.Posts.Listing.order_by
    golang_template.Posts.Listing.keep_rows golang_template.Posts.Listing.listed
    golang_template.Posts.Listing.insert_by golang_template.Query.decode_cursor
    golang_template.Posts.Listing.past_cursor
list_tests = (refl, refl)

first_page_has_no_cursor_example : first_page.next_cursor ≡ ""
unfolding list golang_template.Query.using_cursor golang_template.Storage.◌>>=◌
    golang_template.Storage.statement golang_template.Posts.Listing.column_order
    golang_template.Storage.pure golang_template.Posts.Listing.order_by
    golang_template.Posts.Listing.keep_rows golang_template.Posts.Listing.listed
    golang_template.Posts.Listing.insert_by
first_page_has_no_cursor_example =
    first_page_has_no_cursor codec server by_creation start first_page refl refl

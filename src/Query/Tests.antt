-- ===== src/Query/Tests.antt =====
-- Runs of internal/platform/query on concrete requests.
use golang_template.Prelude.{◌≡◌, refl, ◌==◌, if◌then◌else◌, [], ◌∷◌, none}
use golang_template.Prelude.Int.{pos}
use golang_template.Errors.{message, ok, err}
use golang_template.Query.{
  Page, Sort, Cursor, Codec, Values, parse_page, parse_sort, clause, decode_cursor,
}
use golang_template.Query.Laws.{IsPage, parse_page-IsPage}

abbrev codec : Codec
codec = record {
  encode = λ c. "next";
  decode = λ s. ok (record { created_at = 5; id = 7 });
  parse_uuid = λ s. none;
}

abbrev request : Values
request key =
    if key == "limit"
    then "50"
    else if key == "order"
    then "ASC"
    else if key == "cursor"
    then "next"
    else ""

abbrev page : Page
page = record { limit = pos 50; offset = pos 0; cursor = "next" }

parse_tests :
    (parse_page codec request ≡ ok page)
    × (parse_page codec (λ key. if key == "limit" then "101" else "")
        ≡ err (message "limit must be between 1 and 100"))
    × (parse_page codec (λ key. if key == "offset" then "-1" else "")
        ≡ err (message "offset must be >= 0"))
    × (parse_sort request "title" "desc" ("title" ∷ [])
        ≡ ok (record { by = "title"; order = "asc" }))
    × (clause (record { by = "title"; order = "asc" }) ≡ "title ASC")
unfolding parse_page golang_template.Strconv.atoi golang_template.Strconv.scan decode_cursor
    parse_sort golang_template.Query.to_lower clause
parse_tests = (refl, refl, refl, refl, refl)

parse_page-IsPage_example : IsPage codec page
unfolding parse_page golang_template.Strconv.atoi golang_template.Strconv.scan decode_cursor
parse_page-IsPage_example = parse_page-IsPage codec request page refl

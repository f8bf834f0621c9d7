-- ===== src/Query.antt =====
-- internal/platform/query: the parameters of a listing.
--
-- A request is its query values, `r.URL.Query().Get`. Base64 and JSON of a cursor are an
-- argument, `Codec`, as is `uuid.Parse`. `strings.ToLower` and `strings.TrimSpace` are written
-- for ASCII.
pub mod Laws
pub mod Tests
use Prim.Native.Char.{Char, code}
use Prim.Native.String
use golang_template.Prelude.{
  ℕ, suc, ◌+◌, ◌-◌, String, Bool, true, false, not, ◌&&◌, ◌||◌, ◌==◌, ◌<>◌, eqb, ltb, leb,
  if◌then◌else◌, List, [], ◌∷◌, Option, none, some, any,
}
use golang_template.Prelude.Int.{ℤ, pos, ltb_ℤ}
use golang_template.Errors.{Err, message, Result, ok, err}
use golang_template.Strconv.{Parsed, atoi}

abbrev pub Values : Type 0
Values = String → String

abbrev pub default_limit : ℤ
default_limit = pos 20

abbrev pub max_limit : ℤ
max_limit = pos 100

pub record Page : Type 0 where
  pub limit : ℤ
  pub offset : ℤ
  pub cursor : String

abbrev pub new_page : Page
new_page = record { limit = default_limit; offset = pos 0; cursor = "" }

-- A position on (created_at, id).
pub record Cursor : Type 0 where
  pub created_at : ℕ
  pub id : ℕ

-- Base64 over JSON, and `uuid.Parse`.
pub record Codec : Type 0 where
  pub encode : Cursor → String
  pub decode : String → Result Cursor
  pub parse_uuid : String → Option ℕ

abbrev pub complete : Cursor → Result Cursor
complete c = if eqb c.id 0 || eqb c.created_at 0 then err (message "incomplete cursor") else ok c

abbrev checked : Result Cursor → Result Cursor
checked (err e) = err e
checked (ok c) = complete c

unfoldable pub decode_cursor : Codec → String → Result Cursor
decode_cursor codec s = checked (codec.decode s)

abbrev pub limit_of : Page → Parsed → Result Page
limit_of page n =
    if n.failed
    then err (message "invalid limit")
    else if ltb_ℤ n.value (pos 1) || ltb_ℤ max_limit n.value
    then err (message "limit must be between 1 and 100")
    else ok (record page { limit = n.value })

abbrev pub offset_of : Page → Parsed → Result Page
offset_of page n =
    if n.failed
    then err (message "invalid offset")
    else if ltb_ℤ n.value (pos 0)
    then err (message "offset must be >= 0")
    else ok (record page { offset = n.value })

abbrev pub cursor_of : Page → String → Result Cursor → Result Page
cursor_of page s (err e) = err (message "invalid cursor")
cursor_of page s (ok c) = ok (record page { cursor = s })

abbrev pub with_limit : String → Page → Result Page
with_limit s page = if s == "" then ok page else limit_of page (atoi s)

abbrev pub with_offset : String → Page → Result Page
with_offset s page = if s == "" then ok page else offset_of page (atoi s)

abbrev pub with_cursor : Codec → String → Page → Result Page
with_cursor codec s page = if s == "" then ok page else cursor_of page s (decode_cursor codec s)

infixl 10 ◌then_page◌
abbrev pub ◌then_page◌ : Result Page → (Page → Result Page) → Result Page
ok p then_page k = k p
err e then_page k = err e

unfoldable pub parse_page : Codec → Values → Result Page
parse_page codec qs =
    with_limit (qs "limit") new_page
    then_page with_offset (qs "offset")
    then_page with_cursor codec (qs "cursor")

unfoldable pub using_cursor : Page → Bool
using_cursor p = not (p.cursor == "")

pub record Sort : Type 0 where
  pub by : String
  pub order : String

abbrev lower : Char → Char
lower c =
    if leb b'A' (code c) && leb (code c) b'Z'
    then String.char_at "abcdefghijklmnopqrstuvwxyz" (code c - b'A')
    else c

unfoldable pub to_lower : String → String
to_lower String.[] = ""
to_lower (String.◌∷◌ c s) = String.◌∷◌ (lower c) (to_lower s)

abbrev pub allows : List String → String → Bool
allows allowed column = any (λ a. a == column) allowed

abbrev pub is_order : String → Bool
is_order o = o == "asc" || o == "desc"

-- An order that is neither becomes "desc"; a column that is not allowed becomes the default.
abbrev pub settled : List String → String → Sort → Sort
settled allowed default_by s = record {
  by = if allows allowed s.by then s.by else default_by;
  order = if is_order s.order then s.order else "desc";
}

abbrev pub with_order : List String → String → String → Sort → Result Sort
with_order allowed default_by order s =
    if order == ""
    then ok (settled allowed default_by s)
    else if is_order (to_lower order)
    then ok (settled allowed default_by (record s { order = to_lower order }))
    else err (message "invalid order")

unfoldable pub parse_sort : Values → String → String → List String → Result Sort
parse_sort qs default_by default_order allowed =
    if qs "sort_by" == ""
    then with_order allowed default_by (qs "order")
        (record { by = default_by; order = to_lower default_order })
    else if allows allowed (qs "sort_by")
    then with_order allowed default_by (qs "order")
        (record { by = qs "sort_by"; order = to_lower default_order })
    else err (message "invalid sort_by")

unfoldable pub clause : Sort → String
clause s = s.by <> " " <> (if s.order == "asc" then "ASC" else "DESC")

-- The parameters of param.go, over `strings.TrimSpace` and `strings.Split`.
pub record Text : Type 0 where
  pub trim_space : String → String
  pub split_commas : String → List String

unfoldable pub optional_string : Text → Values → String → String
optional_string text qs key = text.trim_space (qs key)

unfoldable pub non_empty : Text → List String → List String
non_empty text [] = []
non_empty text (p ∷ ps) =
    let rest = non_empty text ps in
    if text.trim_space p == "" then rest else text.trim_space p ∷ rest

abbrev some_if_any : List String → Option (List String)
some_if_any [] = none
some_if_any (p ∷ ps) = some (p ∷ ps)

unfoldable pub parse_csv : Text → Values → String → Option (List String)
parse_csv text qs key =
    if optional_string text qs key == ""
    then none
    else some_if_any (non_empty text (text.split_commas (optional_string text qs key)))

abbrev valid_uuid : String → Option ℕ → Result (Option ℕ)
valid_uuid key none = err (message ("invalid " <> key))
valid_uuid key (some u) = ok (some u)

unfoldable pub parse_uuid : Codec → Text → Values → String → Result (Option ℕ)
parse_uuid codec text qs key =
    if optional_string text qs key == ""
    then ok none
    else valid_uuid key (codec.parse_uuid (optional_string text qs key))

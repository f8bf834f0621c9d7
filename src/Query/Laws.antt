-- ===== src/Query/Laws.antt =====
-- On the parameters of internal/platform/query.
use golang_template.Prelude.{
  ◌≡◌, ◌≢◌, ◌⊎◌, refl, sym, inl, inr, String, Bool, true, false, ◌||◌, ◌==◌, if◌then◌else◌, arith,
}
use golang_template.Prelude.Int.{ℤ, pos, ◌≤ℤ◌, ltb_ℤ}
use golang_template.Errors.{Err, Result, ok, err, ok-injective}
use golang_template.Strconv.{Parsed, atoi}
use golang_template.Query.{
  Page, new_page, max_limit, Cursor, Codec, Values, limit_of, offset_of, cursor_of, with_limit,
  with_offset, with_cursor, parse_page, decode_cursor, ◌then_page◌,
}

-- A page that the listings serve.
pub record IsPage (codec : Codec) (p : Page) : Type 0 where
  pub at_least_1 : pos 1 ≤ℤ p.limit
  pub at_most_100 : p.limit ≤ℤ pos 100
  pub from_0 : pos 0 ≤ℤ p.offset
  pub decodes : p.cursor ≢ "" → (c : Cursor) × (decode_cursor codec p.cursor ≡ ok c)

step :
    (r : Result Page) (k : Page → Result Page) {q : Page}
    → (r then_page k) ≡ ok q
    → (p : Page) × (r ≡ ok p) × (k p ≡ ok q)
step (ok p) k h = (p, refl, h)
step (err e) k h = cc

new_page-IsPage : (codec : Codec) → IsPage codec new_page
new_page-IsPage codec = record {
  at_least_1 = omega arith;
  at_most_100 = omega arith;
  from_0 = omega arith;
  decodes = λ given. absurd (given refl);
}

pub if-ok :
    {A : Type 0} (b : Bool) (e : Err) (r : Result A) {a : A}
    → (if b then err e else r) ≡ ok a
    → (b ≡ false) × (r ≡ ok a)
if-ok true e r h = cc
if-ok false e r h = (refl, h)

or_parts : (a b : Bool) → a || b ≡ false → (a ≡ false) × (b ≡ false)
or_parts true b h = cc
or_parts false b h = (refl, h)

not_below : (a b : ℤ) → ltb_ℤ a b ≡ false → b ≤ℤ a
not_below a b h = ground arith

pub if-cases :
    {A : Type 0} (b : Bool) (x y : Result A) {q : A}
    → (if b then x else y) ≡ ok q
    → (x ≡ ok q) ⊎ ((b ≡ false) × (y ≡ ok q))
if-cases true x y h = inl h
if-cases false x y h = inr (refl, h)

module _ (codec : Codec) where
  limit_of-IsPage :
      (n : Parsed) (p q : Page) → IsPage codec p → limit_of p n ≡ ok q → IsPage codec q
  limit_of-IsPage n p q k h =
      let (read, checked) = if-ok n.failed _ _ h in
      let (inside, same) = if-ok _ _ _ checked in
      let (above, below) = or_parts (ltb_ℤ n.value (pos 1)) (ltb_ℤ max_limit n.value) inside in
      rw (sym (ok-injective _ q same)) (record {
        at_least_1 = not_below n.value (pos 1) above;
        at_most_100 = not_below max_limit n.value below;
        from_0 = k.from_0;
        decodes = k.decodes;
      })

  with_limit-IsPage :
      (s : String) (p q : Page) → IsPage codec p → with_limit s p ≡ ok q → IsPage codec q
  with_limit-IsPage s p q k h = elim (if-cases (s == "") (ok p) (limit_of p (atoi s)) h) [
    | inl same ↦ rw (sym (ok-injective p q same)) k
    | inr (given, read) ↦ limit_of-IsPage (atoi s) p q k read
  ]

  offset_of-IsPage :
      (n : Parsed) (p q : Page) → IsPage codec p → offset_of p n ≡ ok q → IsPage codec q
  offset_of-IsPage n p q k h =
      let (read, checked) = if-ok n.failed _ _ h in
      let (above, same) = if-ok _ _ _ checked in
      rw (sym (ok-injective (record p { offset = n.value }) q same)) (record {
        at_least_1 = k.at_least_1;
        at_most_100 = k.at_most_100;
        from_0 = not_below n.value (pos 0) above;
        decodes = k.decodes;
      })

  with_offset-IsPage :
      (s : String) (p q : Page) → IsPage codec p → with_offset s p ≡ ok q → IsPage codec q
  with_offset-IsPage s p q k h = elim (if-cases (s == "") (ok p) (offset_of p (atoi s)) h) [
    | inl same ↦ rw (sym (ok-injective p q same)) k
    | inr (given, read) ↦ offset_of-IsPage (atoi s) p q k read
  ]

  cursor_of-IsPage :
      (s : String) (r : Result Cursor) (p q : Page)
      → decode_cursor codec s ≡ r
      → IsPage codec p
      → cursor_of p s r ≡ ok q
      → IsPage codec q
  cursor_of-IsPage s (err e) p q same k h = cc
  cursor_of-IsPage s (ok c) p q same k h = rw (sym (ok-injective _ q h)) (record {
    at_least_1 = k.at_least_1;
    at_most_100 = k.at_most_100;
    from_0 = k.from_0;
    decodes = λ given. (c, same);
  })

  with_cursor-IsPage :
      (s : String) (p q : Page) → IsPage codec p → with_cursor codec s p ≡ ok q → IsPage codec q
  with_cursor-IsPage s p q k h =
      elim (if-cases (s == "") (ok p) (cursor_of p s (decode_cursor codec s)) h) [
        | inl same ↦ rw (sym (ok-injective p q same)) k
        | inr (given, read) ↦ cursor_of-IsPage s (decode_cursor codec s) p q refl k read
      ]

  -- A page that `ParsePage` accepts has a limit of 1 to 100 and an offset that is not negative,
  -- and its cursor, if it has one, decodes to a complete position, whatever the request holds.
  pub parse_page-IsPage : (qs : Values) (p : Page) → parse_page codec qs ≡ ok p → IsPage codec p
  unfolding parse_page
  parse_page-IsPage qs p h =
      let (b, to_b, last) = step _ (with_cursor codec (qs "cursor")) h in
      let (a, to_a, middle) = step _ (with_offset (qs "offset")) to_b in
      with_cursor-IsPage (qs "cursor") b p
        (with_offset-IsPage (qs "offset") a b
          (with_limit-IsPage (qs "limit") new_page a (new_page-IsPage codec) to_a) middle)
        last

-- ===== src/Outbox/Claim.antt =====
-- `Claim` of internal/platform/outbox/store.go: a worker leases the rows that are due.
use golang_template.Prelude.{
  ℕ, suc, ◌+◌, String, Bool, true, false, not, ◌&&◌, ◌||◌, eqb, ltb, leb, if◌then◌else◌, List, [],
  ◌∷◌, Option, none, some, take,
}
use golang_template.Errors.{message, Result, ok}
use golang_template.Storage.{Action, statement, raise, pure, with_tx, ◌>>=◌}
use golang_template.Outbox.{Row, Record, to_record, to_seconds, has_row}

abbrev pub is_null {ℓ} : {A : Type ℓ} → Option A → Bool
is_null none = true
is_null (some a) = false

-- locked_at IS NULL OR locked_at < now - lease
abbrev pub lease_over : Option ℕ → ℕ → ℕ → Bool
lease_over none app_now lease = true
lease_over (some l) app_now lease = ltb (l + lease) app_now

-- The clocks of a call, its lease, and the rows that other transactions hold.
pub record Moment : Type 0 where
  pub app_now : ℕ
  pub db_now : ℕ
  pub held : ℕ → Bool

-- The WHERE clause of the candidates.
unfoldable pub eligible : Moment → ℕ → Row → Bool
eligible at lease r =
    is_null r.published_at
    && ltb r.attempts r.max_attempts
    && leb r.available_at at.db_now
    && lease_over r.locked_at at.app_now lease
    && not (at.held r.id)

-- ORDER BY available_at, occurred_at
abbrev pub before : Row → Row → Bool
before a b =
    ltb a.available_at b.available_at
    || eqb a.available_at b.available_at && leb a.occurred_at b.occurred_at

unfoldable pub insert_sorted : Row → List Row → List Row
insert_sorted r [] = r ∷ []
insert_sorted r (x ∷ xs) = if before r x then r ∷ x ∷ xs else x ∷ insert_sorted r xs

unfoldable pub candidates : Moment → ℕ → List Row → List Row
candidates at lease [] = []
candidates at lease (r ∷ rows) =
    let rest = candidates at lease rows in
    if eligible at lease r then insert_sorted r rest else rest

abbrev pub claim_one : Moment → String → Row → Row
claim_one at worker r = record r {
  locked_at = some (to_seconds at.db_now);
  locked_by = some worker;
  attempts = suc r.attempts;
}

-- UPDATE … FROM candidates: the new table.
unfoldable pub claim_rows : Moment → String → List Row → List Row → List Row
claim_rows at worker chosen [] = []
claim_rows at worker chosen (r ∷ rows) =
    let rest = claim_rows at worker chosen rows in
    if has_row r.id chosen then claim_one at worker r ∷ rest else r ∷ rest

-- The same statement's RETURNING.
unfoldable pub returned_rows : Moment → String → List Row → List Row → List Record
returned_rows at worker chosen [] = []
returned_rows at worker chosen (r ∷ rows) =
    let rest = returned_rows at worker chosen rows in
    if has_row r.id chosen then to_record (claim_one at worker r) ∷ rest else rest

unfoldable pub limit_or_default : ℕ → ℕ
limit_or_default limit = if ltb limit 1 then 100 else limit

abbrev pub chosen_rows : Moment → ℕ → ℕ → List Row → List Row
chosen_rows at lease limit rows = take (limit_or_default limit) (candidates at lease rows)

abbrev pub claim_update : Moment → String → ℕ → ℕ → List Row → Result (List Record) × List Row
claim_update at worker limit lease rows = (
  ok (returned_rows at worker (chosen_rows at lease limit rows) rows),
  claim_rows at worker (chosen_rows at lease limit rows) rows,
)

-- `Claim`: all in one transaction. A row whose headers do not decode fails it.
abbrev pub decodes : (String → Bool) → List Record → Bool
decodes valid [] = true
decodes valid (r ∷ rs) = valid r.headers && decodes valid rs

abbrev pub decoded_or_fail : (String → Bool) → List Record → Action (List Row) (List Record)
decoded_or_fail valid rs =
    if decodes valid rs then pure rs else raise (message "decode outbox headers")

unfoldable pub claim : (String → Bool) → Moment → String → ℕ → ℕ → Action (List Row) (List Record)
claim valid at worker limit lease =
    with_tx (statement (claim_update at worker limit lease) >>= decoded_or_fail valid)

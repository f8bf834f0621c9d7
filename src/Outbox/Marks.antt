-- ===== src/Outbox/Marks.antt =====
-- `MarkPublished`, `MarkFailed` and `Backlog` of internal/platform/outbox/store.go.
use golang_template.Prelude.{
  ℕ, suc, String, eqb, ltb, if◌then◌else◌, List, [], ◌∷◌, Option, none, some,
}
use golang_template.Errors.{sentinel, not_found, message, Result, ok, err}
use golang_template.Storage.{Action, statement, raise}
use golang_template.Outbox.{Row, to_seconds, has_row}
use golang_template.Outbox.Claim.{is_null}

abbrev pub published_row : ℕ → Row → Row
published_row db_now r = record r {
  published_at = some (to_seconds db_now);
  locked_at = none;
  locked_by = none;
  last_error = none;
}

-- UPDATE … WHERE id = $1
unfoldable pub update_row : ℕ → (Row → Row) → List Row → List Row
update_row id f [] = []
update_row id f (r ∷ rows) = (if eqb r.id id then f r else r) ∷ update_row id f rows

abbrev pub mark_published_update : ℕ → ℕ → List Row → Result (Unit {0}) × List Row
mark_published_update id db_now rows =
    if has_row id rows
    then (ok tt, update_row id (published_row db_now) rows)
    else (err (sentinel not_found), rows)

unfoldable pub mark_published : ℕ → ℕ → Action (List Row) (Unit {0})
mark_published id db_now = statement (mark_published_update id db_now)

abbrev pub failed_row : ℕ → String → Row → Row
failed_row available cause r = record r {
  available_at = to_seconds available;
  locked_at = none;
  locked_by = none;
  last_error = some cause;
}

-- `MarkFailed`, with the text of a cause that is not nil. The time is the application's clock.
unfoldable pub mark_failed : ℕ → Option String → ℕ → Action (List Row) (Unit {0})
mark_failed id none available = raise (message "failure cause is required")
mark_failed id (some cause) available =
    statement (λ rows. (ok tt, update_row id (failed_row available cause) rows))

abbrev pub oldest : Option ℕ → ℕ → Option ℕ
oldest none t = some t
oldest (some s) t = some (if ltb t s then t else s)

unfoldable pub backlog_rows : List Row → ℕ × Option ℕ
backlog_rows [] = (0, none)
backlog_rows (r ∷ rows) =
    let (n, first) = backlog_rows rows in
    if is_null r.published_at then (suc n, oldest first r.occurred_at) else (n, first)

-- `Backlog`: the count of unpublished rows, and when the oldest occurred.
unfoldable pub backlog : Action (List Row) (ℕ × Option ℕ)
backlog = statement (λ rows. (ok (backlog_rows rows), rows))

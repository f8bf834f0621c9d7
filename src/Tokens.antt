-- ===== src/Tokens.antt =====
-- internal/modules/user/token_store.go: the one-time tokens of mails that verify an address or
-- reset a password.
--
-- A row has the columns of `user_tokens` in cmd/migrate/migrations/000003_user_tokens.up.sql.
-- `hash` is SHA-256. Times are the database's clock; the identifier is drawn by the database.
pub mod Laws
pub mod Tests
use golang_template.Prelude.{
  ℕ, String, ◌==◌, Bool, true, false, ◌&&◌, ◌||◌, not, eqb, ltb, if◌then◌else◌, List, [], ◌∷◌,
  Option, none, some, any,
}
use golang_template.Errors.{sentinel, not_found, pg_error, Result, ok, err}
use golang_template.Storage.{Action, statement}
use golang_template.Outbox.Claim.{is_null}

pub record UserToken : Type 0 where
  pub id : ℕ
  pub user_id : ℕ
  pub token_hash : String
  pub purpose : String
  pub expires_at : ℕ
  pub used_at : Option ℕ

abbrev pub purpose_email_verify : String
purpose_email_verify = "email_verify"

abbrev pub purpose_password_reset : String
purpose_password_reset = "password_reset"

abbrev is_purpose : String → Bool
is_purpose p = p == purpose_email_verify || p == purpose_password_reset

unfoldable pub has_hash : String → List UserToken → Bool
has_hash h [] = false
has_hash h (t ∷ ts) = t.token_hash == h || has_hash h ts

-- The INSERT, with the check of the purpose, the unique hash, and the reference to the ids of
-- `users`.
abbrev pub insert_token :
    List ℕ → ℕ → ℕ → String → String → ℕ → List UserToken → Result (Unit {0}) × List UserToken
insert_token users id user_id purpose h expires_at ts =
    if not (is_purpose purpose)
    then (err (pg_error "23514" "user_tokens_purpose_check"), ts)
    else if has_hash h ts
    then (err (pg_error "23505" "user_tokens_token_hash_key"), ts)
    else if not (any (λ u. eqb u user_id) users)
    then (err (pg_error "23503" "user_tokens_user_id_fkey"), ts)
    else (
      ok tt,
      record {
        id = id;
        user_id = user_id;
        token_hash = h;
        purpose = purpose;
        expires_at = expires_at;
        used_at = none;
      }
          ∷ ts,
    )

-- `Create`
unfoldable pub create : List ℕ → ℕ → ℕ → String → String → ℕ → Action (List UserToken) (Unit {0})
create users id user_id purpose h expires_at =
    statement (insert_token users id user_id purpose h expires_at)

abbrev pub use_if : Bool → ℕ → UserToken → UserToken
use_if b now t = if b then record t { used_at = some now } else t

-- UPDATE user_tokens SET used_at = NOW() WHERE …
unfoldable pub use_where : (UserToken → Bool) → ℕ → List UserToken → List UserToken
use_where p now [] = []
use_where p now (t ∷ ts) = use_if (p t) now t ∷ use_where p now ts

abbrev pub is_open_of : ℕ → String → UserToken → Bool
is_open_of user_id purpose t = eqb t.user_id user_id && t.purpose == purpose && is_null t.used_at

-- `InvalidateOpen`
unfoldable pub invalidate_open : ℕ → ℕ → String → Action (List UserToken) (Unit {0})
invalidate_open now user_id purpose =
    statement (λ ts. (ok tt, use_where (is_open_of user_id purpose) now ts))

-- The WHERE clause of `Consume`.
abbrev pub is_usable : ℕ → String → String → UserToken → Bool
is_usable now h purpose t =
    t.token_hash == h && t.purpose == purpose && is_null t.used_at && ltb now t.expires_at

-- The row that RETURNING gives first.
unfoldable pub first_used : (UserToken → Bool) → ℕ → List UserToken → Result UserToken
first_used p now [] = err (sentinel not_found)
first_used p now (t ∷ ts) = if p t then ok (use_if true now t) else first_used p now ts

-- `Consume`
unfoldable pub consume : (String → String) → ℕ → String → String → Action (List UserToken) UserToken
consume hash now plain purpose = statement (λ ts. (
  first_used (is_usable now (hash plain) purpose) now ts,
  use_where (is_usable now (hash plain) purpose) now ts,
))

-- ===== src/Session.antt =====
-- internal/modules/user/refresh_store.go: the refresh tokens, and the users' token versions of
-- internal/modules/user/store.go.
--
-- A row has the columns of `refresh_tokens` in cmd/migrate/migrations/000002_refresh_tokens.up.sql.
-- The primary key is the row's number, which the database draws; times are its clock's.
pub mod Claims
pub mod Blocklist
pub mod Steps
pub mod Handlers
pub mod Laws
use golang_template.Prelude.{
  ℕ, suc, ◌+◌, String, Bool, true, false, ◌&&◌, ◌||◌, eqb, not, if◌then◌else◌, List, [], ◌∷◌,
  Option, none, some, map,
}
use golang_template.Prelude.Int.{ℤ}
use golang_template.Errors.{
  Err, sentinel, not_found, refresh_reuse, pg_error, message, wrapped, Result, ok, err,
}
use golang_template.Storage.{Action, statement, raise, pure, with_tx, ◌>>=◌, ◌>>◌}
use golang_template.Outbox.Claim.{is_null}

-- The columns of `users` that the sessions read.
pub record User : Type 0 where
  pub id : ℕ
  pub email : String
  pub password_hash : String
  pub is_active : Bool
  pub token_version : ℕ

pub record RefreshSession : Type 0 where
  pub id : ℕ
  pub user_id : ℕ
  pub jti : ℕ
  pub expires_at : ℕ
  pub revoked_at : Option ℕ
  pub replaced_by : Option ℕ

pub record Tables : Type 0 where
  pub users : List User
  pub refresh_tokens : List RefreshSession

unfoldable pub user_by : (User → Bool) → List User → Option User
user_by p [] = none
user_by p (u ∷ us) = if p u then some u else user_by p us

unfoldable pub session_by : ℕ → List RefreshSession → Option RefreshSession
session_by jti [] = none
session_by jti (s ∷ ss) = if eqb s.jti jti then some s else session_by jti ss

abbrev pub or_not_found {ℓ} : {A : Type ℓ} → Option A → Result A
or_not_found none = err (sentinel not_found)
or_not_found (some a) = ok a

-- `GetByID` of the user store; `GetByEmail` below.
unfoldable pub get_by_id : ℕ → Action Tables User
get_by_id id = statement (λ t. (or_not_found (user_by (λ u. eqb u.id id) t.users), t))

-- The column is of type `citext`: `same_email` is its equality.
unfoldable pub get_by_email : (String → String → Bool) → String → Action Tables User
get_by_email same_email email =
    statement (λ t. (or_not_found (user_by (λ u. same_email u.email email) t.users), t))

-- `GetByJTI`
unfoldable pub get_by_jti : ℕ → Action Tables RefreshSession
get_by_jti jti = statement (λ t. (or_not_found (session_by jti t.refresh_tokens), t))

abbrev is_some {ℓ} : {A : Type ℓ} → Option A → Bool
is_some o = not (is_null o)

-- The INSERT of a row that replaces none, with the foreign key and the unique `jti`.
abbrev pub insert_session : ℕ → ℕ → ℕ → ℕ → Tables → Result ℕ × Tables
insert_session id user_id jti expires_at t =
    if not (is_some (user_by (λ u. eqb u.id user_id) t.users))
    then (err (pg_error "23503" "refresh_tokens_user_id_fkey"), t)
    else if is_some (session_by jti t.refresh_tokens)
    then (err (pg_error "23505" "refresh_tokens_jti_key"), t)
    else (
      ok id,
      record t {
        refresh_tokens =
            record {
              id = id;
              user_id = user_id;
              jti = jti;
              expires_at = expires_at;
              revoked_at = none;
              replaced_by = none;
            }
            ∷ t.refresh_tokens;
      },
    )

-- `Insert`, with the number that the database draws.
unfoldable pub insert : ℕ → ℕ → ℕ → ℕ → Action Tables ℕ
insert id user_id jti expires_at = statement (insert_session id user_id jti expires_at)

-- UPDATE … SET revoked_at = NOW() WHERE … AND revoked_at IS NULL
abbrev pub revoke_if : Bool → ℕ → Option ℕ → RefreshSession → RefreshSession
revoke_if b now replaced s =
    if b && is_null s.revoked_at
    then record s { revoked_at = some now; replaced_by = replaced }
    else s

unfoldable pub revoke_where :
    (RefreshSession → Bool)
    → ℕ
    → (RefreshSession → Option ℕ)
    → List RefreshSession
    → List RefreshSession
revoke_where p now replaced [] = []
revoke_where p now replaced (s ∷ ss) =
    revoke_if (p s) now (replaced s) s ∷ revoke_where p now replaced ss

-- Whether such an UPDATE finds a row.
unfoldable pub some_open : (RefreshSession → Bool) → List RefreshSession → Bool
some_open p [] = false
some_open p (s ∷ ss) = p s && is_null s.revoked_at || some_open p ss

-- The row that `Rotate` locks: its `revoked_at`.
abbrev pub revoked_of : Option RefreshSession → Result (Option ℕ)
revoked_of none = err (sentinel not_found)
revoked_of (some s) = ok s.revoked_at

abbrev pub select_revoked : ℕ → Tables → Result (Option ℕ) × Tables
select_revoked jti t = (revoked_of (session_by jti t.refresh_tokens), t)

abbrev pub refuse_revoked : Option ℕ → Action Tables (Unit {0})
refuse_revoked none = pure tt
refuse_revoked (some at) = raise (sentinel refresh_reuse)

abbrev pub has_jti : ℕ → RefreshSession → Bool
has_jti jti s = eqb s.jti jti

-- The UPDATE of `Rotate` and the test of `RowsAffected`.
abbrev pub replace_session : ℕ → ℕ → ℕ → Tables → Result (Unit {0}) × Tables
replace_session jti new_id now t = (
  if some_open (has_jti jti) t.refresh_tokens then ok tt else err (sentinel refresh_reuse),
  record t { refresh_tokens = revoke_where (has_jti jti) now (λ s. some new_id) t.refresh_tokens },
)

-- `Rotate`: the old token is revoked and a new one inserted, in one transaction.
unfoldable pub rotate : ℕ → ℕ → ℕ → ℕ → ℕ → ℕ → Action Tables (Unit {0})
rotate new_id now old_jti new_jti user_id expires_at = with_tx (
    statement (select_revoked old_jti) >>= λ revoked.
    refuse_revoked revoked
    >> (insert new_id user_id new_jti expires_at >>= λ id.
        statement (replace_session old_jti id now)))

abbrev pub revoke_sessions : (RefreshSession → Bool) → ℕ → Tables → Result (Unit {0}) × Tables
revoke_sessions p now t =
    (ok tt, record t { refresh_tokens = revoke_where p now (λ s. s.replaced_by) t.refresh_tokens })

-- `Revoke`
unfoldable pub revoke : ℕ → ℕ → Action Tables (Unit {0})
revoke now jti = statement (revoke_sessions (has_jti jti) now)

abbrev pub has_user : ℕ → RefreshSession → Bool
has_user user_id s = eqb s.user_id user_id

-- `RevokeAllForUser`
unfoldable pub revoke_all_for_user : ℕ → ℕ → Action Tables (Unit {0})
revoke_all_for_user now user_id = statement (revoke_sessions (has_user user_id) now)

unfoldable pub bump_version : ℕ → List User → List User
bump_version id [] = []
bump_version id (u ∷ us) =
    (if eqb u.id id then record u { token_version = suc u.token_version } else u)
    ∷ bump_version id us

abbrev version_of : Option User → Result ℕ
version_of none = err (sentinel not_found)
version_of (some u) = ok (suc u.token_version)

-- `IncrementTokenVersion`: the UPDATE returns the new version.
abbrev pub increment : ℕ → Tables → Result ℕ × Tables
increment id t =
    (version_of (user_by (λ u. eqb u.id id) t.users), record t { users = bump_version id t.users })

unfoldable pub increment_token_version : ℕ → Action Tables ℕ
increment_token_version id = statement (increment id)

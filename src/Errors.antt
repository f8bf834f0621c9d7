-- ===== src/Errors.antt =====
-- Go's `error` values as this program builds and inspects them: the sentinels of
-- internal/platform/storage/storage.go, internal/platform/inbox/store.go and
-- internal/modules/user/refresh_store.go, driver errors, and the wrappers that `errors.Is` and
-- `errors.As` look through; internal/platform/event/error.go and `storage.MapError`.
use golang_template.Prelude.{
  ◌≡◌, String, Bool, true, false, ◌==◌, if◌then◌else◌, Option, none, some,
}

-- The sentinel errors, compared by identity.
pub data Sentinel : Type 0 where
  not_found conflict version_mismatch duplicate stale refresh_reuse exhausted forbidden no_rows :
      Sentinel

-- An `error` that is not nil.
pub data Err : Type 0 where
  sentinel : Sentinel → Err
  pg_error : (code constraint : String) → Err
  message : String → Err
  wrapped : String → Err → Err
  permanent_error : Err → Err

-- What a call with an `error` result returns.
pub data Result {ℓ} (A : Type ℓ) : Type ℓ where
  ok : A → Result A
  err : Err → Result A

abbrev pub same_sentinel : Sentinel → Sentinel → Bool
same_sentinel not_found not_found = true
same_sentinel conflict conflict = true
same_sentinel version_mismatch version_mismatch = true
same_sentinel duplicate duplicate = true
same_sentinel stale stale = true
same_sentinel refresh_reuse refresh_reuse = true
same_sentinel exhausted exhausted = true
same_sentinel forbidden forbidden = true
same_sentinel no_rows no_rows = true
same_sentinel _ _ = false

-- `errors.Is` against a sentinel: the chain of `Unwrap` is walked.
unfoldable pub is : Err → Sentinel → Bool
is (sentinel s) t = same_sentinel s t
is (wrapped _ e) t = is e t
is (permanent_error e) t = is e t
is _ t = false

-- `Permanent` marks an error; `IsPermanent` finds the mark anywhere in the chain.
unfoldable pub permanent : Option Err → Option Err
permanent none = none
permanent (some e) = some (permanent_error e)

unfoldable pub is_permanent : Err → Bool
is_permanent (permanent_error e) = true
is_permanent (wrapped _ e) = is_permanent e
is_permanent _ = false

abbrev pub unique_violation : String
unique_violation = "23505"

-- `errors.As` with a `*pgconn.PgError`, and a test of its code and constraint.
unfoldable pub pg_matches : (String → String → Bool) → Err → Bool
pg_matches p (pg_error code constraint) = p code constraint
pg_matches p (wrapped _ e) = pg_matches p e
pg_matches p (permanent_error e) = pg_matches p e
pg_matches p _ = false

unfoldable pub map_error : Err → Err
unfolding pg_matches
map_error e = if pg_matches (λ code _. code == unique_violation) e then sentinel conflict else e

pub ok-injective {ℓ} : {A : Type ℓ} (a b : A) → ok a ≡ ok b → a ≡ b
ok-injective a b e = cc

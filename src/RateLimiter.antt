-- ===== src/RateLimiter.antt =====
-- internal/platform/ratelimiter: the rule of a route, and the middleware that asks a limiter.
--
-- A limiter is a function on its own state; the one over Redis is a parameter, since its script
-- runs in the Redis server. Times and durations are nanoseconds. `clientIP` and `userOrIP` give
-- the key that a request is counted under.
pub mod Memory
pub mod Laws
pub mod Tests
use golang_template.Prelude.{
  ℕ, suc, ◌+◌, ◌/◌, String, ◌<>◌, Bool, true, false, ltb, if◌then◌else◌, Option, none, some,
}
use golang_template.Prelude.Int.{ℤ}
use golang_template.Errors.{Err, Result, ok, err}

pub record Rule : Type 0 where
  pub requests : ℤ
  pub window : ℤ

-- The source's `Result`.
pub record LimitResult : Type 0 where
  pub allowed : Bool
  pub limit : ℤ
  pub remaining : ℤ
  pub retry_after : ℕ

abbrev pub Limiter : Type 0 → Type 0
Limiter S = String → Rule → S → Result LimitResult × S

-- What a request carries that the keys read: `net.SplitHostPort` is the platform's.
pub record Request : Type 0 where
  pub remote_addr : String
  pub principal : Option String

-- The host of an address, or the address where it has no port.
abbrev pub client_ip : (String → Option String) → Request → String
client_ip split_host r = elim (split_host r.remote_addr) [ none ↦ r.remote_addr | some host ↦ host ]

unfoldable pub user_or_ip : (String → Option String) → Request → String
user_or_ip split_host r = elim r.principal [
  | some id ↦ "user:" <> id
  | none ↦ "ip:" <> client_ip split_host r
]

-- `formatRetryAfter`, as the number that is printed: whole seconds, at least one.
unfoldable pub format_retry_after : ℕ → ℕ
format_retry_after d = let secs = d / 1_000_000_000 in if ltb secs 1 then 1 else secs

-- `Middleware`, without the logger and the responder.
pub record Middleware (S F : Type 0) : Type 0 where
  pub limiter : Option (Limiter S)
  pub fallback : Option (Limiter F)
  pub enabled : Bool

-- What became of a request: handled, with the limit's headers if they were set, or answered 429.
pub data Outcome : Type 0 where
  passed : Option LimitResult → Outcome
  limited : LimitResult → ℕ → Outcome

abbrev pub unlimited : Rule → LimitResult
unlimited rule = record {
  allowed = true;
  limit = rule.requests;
  remaining = rule.requests;
  retry_after = 0;
}

module _ {S F : Type 0} where
  -- The fallback, where the route has one.
  abbrev pub allow_fallback :
      Option (Limiter F) → Bool → String → Rule → S × F → Result LimitResult × (S × F)
  allow_fallback (some l) true key rule (s, f) = let (r, g) = l key rule f in (r, (s, g))
  allow_fallback none memory key rule st = (ok (unlimited rule), st)
  allow_fallback (some l) false key rule st = (ok (unlimited rule), st)

  abbrev pub allow_answered :
      Middleware S F
      → Bool
      → String
      → Rule
      → F
      → Result LimitResult × S
      → Result LimitResult × (S × F)
  allow_answered m memory key rule f (ok r, s) = (ok r, (s, f))
  allow_answered m memory key rule f (err e, s) = allow_fallback m.fallback memory key rule (s, f)

  abbrev pub allow_by :
      Option (Limiter S)
      → Middleware S F
      → Bool
      → String
      → Rule
      → S × F
      → Result LimitResult × (S × F)
  allow_by none m memory key rule st = allow_fallback m.fallback memory key rule st
  allow_by (some l) m memory key rule (s, f) = allow_answered m memory key rule f (l key rule s)

  -- `allow`: a limiter that fails lets the request pass, unless the route has a fallback.
  unfoldable pub allow :
      Middleware S F → Bool → String → Rule → S × F → Result LimitResult × (S × F)
  allow m memory key rule st = allow_by m.limiter m memory key rule st

  abbrev pub answer : Result LimitResult × (S × F) → Outcome × (S × F)
  answer (err e, st) = (passed none, st)
  answer (ok r, st) =
      (if r.allowed then passed (some r) else limited r (format_retry_after r.retry_after), st)

  -- The handler of `wrap`, for a request whose key is known.
  unfoldable pub wrap : Middleware S F → Rule → Bool → String → S × F → Outcome × (S × F)
  wrap m rule memory key st =
      if m.enabled then answer (allow m memory key rule st) else (passed none, st)

  -- `ByIP`, `ByIPAuth` and `ByUser`.
  unfoldable pub by_ip :
      (String → Option String) → Middleware S F → Rule → Request → S × F → Outcome × (S × F)
  by_ip split_host m rule r st = wrap m rule false (client_ip split_host r) st

  unfoldable pub by_ip_auth :
      (String → Option String) → Middleware S F → Rule → Request → S × F → Outcome × (S × F)
  by_ip_auth split_host m rule r st = wrap m rule true (client_ip split_host r) st

  unfoldable pub by_user :
      (String → Option String) → Middleware S F → Rule → Request → S × F → Outcome × (S × F)
  by_user split_host m rule r st = wrap m rule false (user_or_ip split_host r) st

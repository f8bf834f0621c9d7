-- ===== src/RateLimiter/Memory.antt =====
-- internal/platform/ratelimiter/memory.go: a fixed window for each key, counted in memory.
--
-- The map of buckets is a list of its entries. The lock makes a call one step.
use golang_template.Prelude.{
  ℕ, suc, ◌+◌, ◌-◌, String, ◌==◌, Bool, true, false, ltb, if◌then◌else◌, List, [], ◌∷◌, Option,
  none, some,
}
use golang_template.Prelude.Int.{pos, pos_part, ltb_ℤ, leb_ℤ, ◌-ℤ◌}
use golang_template.RateLimiter.{Rule, LimitResult, Limiter}
use golang_template.Errors.{ok}

-- `memoryBucket`
pub record Bucket : Type 0 where
  pub count : ℕ
  pub expires_at : ℕ

abbrev pub Clients : Type 0
Clients = List (String × Bucket)

-- `NewMemoryLimiter`
abbrev pub new_memory_limiter : Clients
new_memory_limiter = []

unfoldable pub bucket_of : String → Clients → Option Bucket
bucket_of key [] = none
bucket_of key ((k, b) ∷ rest) = if k == key then some b else bucket_of key rest

unfoldable pub set_bucket : String → Bucket → Clients → Clients
set_bucket key b [] = (key, b) ∷ []
set_bucket key b ((k, c) ∷ rest) =
    if k == key then (k, b) ∷ rest else (k, c) ∷ set_bucket key b rest

abbrev pub minute : ℕ
minute = 60_000_000_000

abbrev pub window_of : Rule → ℕ
window_of rule = if ltb_ℤ (pos 0) rule.window then pos_part rule.window else minute

abbrev fresh : ℕ → Rule → Bucket
fresh now rule = record { count = 0; expires_at = now + window_of rule }

-- The bucket that counts: a new one if there is none, or if its window is over.
abbrev pub current : ℕ → Rule → Option Bucket → Bucket
current now rule none = fresh now rule
current now rule (some b) = if ltb b.expires_at now then fresh now rule else b

abbrev pub result_of : Bool → ℕ → Rule → Bucket → LimitResult
result_of allowed now rule b = record {
  allowed = allowed;
  limit = rule.requests;
  remaining = if allowed then pos (pos_part (rule.requests -ℤ pos b.count)) else pos 0;
  retry_after = b.expires_at - now;
}

abbrev pub count_call : ℕ → Rule → Bucket → LimitResult × Bucket
count_call now rule b =
    let b' = record b { count = suc b.count } in
    if leb_ℤ rule.requests (pos b.count)
    then (result_of false now rule b, b)
    else (result_of true now rule b', b')

-- `Allow`, at a time.
unfoldable pub allow : ℕ → String → Rule → Clients → LimitResult × Clients
allow now key rule clients =
    let (r, b) = count_call now rule (current now rule (bucket_of key clients)) in
    (r, set_bucket key b clients)

-- The memory limiter as the middleware calls it; it never fails.
abbrev pub limiter : ℕ → Limiter Clients
limiter now key rule clients = let (r, rest) = allow now key rule clients in (ok r, rest)

-- ===== src/RateLimiter/Tests.antt =====
-- Runs of the limiter with a rule of two requests.
use golang_template.Prelude.{
  arith, ◌+◌, ◌≤◌, ◌≡◌, refl, true, false, not, List, [], ◌∷◌, none, some,
}
use golang_template.Prelude.Int.{pos}
use golang_template.Errors.{message, err}
use golang_template.RateLimiter.{
  Rule, LimitResult, Limiter, Middleware, Request, limited, wrap, by_ip_auth,
}
use golang_template.RateLimiter.Memory
use golang_template.RateLimiter.Memory.{Bucket, Clients, limiter}
use golang_template.RateLimiter.Laws.{
  Call, calls_of, admitted, requests_of, min, calls_admitted, limited_request, with_fallback,
  is_limited, by_ip_auth-falls_back,
}

abbrev bucket : Bucket
bucket = record { count = 1; expires_at = 100 }

abbrev clients : Clients
clients = ("10.0.0.2", record { count = 0; expires_at = 50 }) ∷ ("10.0.0.1", bucket) ∷ []

abbrev calls : List Call
calls = (10, "10.0.0.1") ∷ (20, "10.0.0.2") ∷ (30, "10.0.0.1") ∷ (40, "10.0.0.1") ∷ []

calls_admitted_example :
    1 + admitted "10.0.0.1" (requests_of 2 (pos 60)) calls clients
    ≡ min 2 (1 + calls_of "10.0.0.1" calls)
unfolding Memory.bucket_of
calls_admitted_example =
    calls_admitted 2 (pos 60) "10.0.0.1" bucket calls clients refl (omega arith)
      (omega arith, (omega arith, (omega arith, (omega arith, tt))))

abbrev full : Clients
full = ("10.0.0.1", record { count = 2; expires_at = 2_500_000_100 }) ∷ []

abbrev refusal : LimitResult
refusal = record { allowed = false; limit = pos 2; remaining = pos 0; retry_after = 2_500_000_000 }

abbrev failing : Limiter Clients
failing key rule st = (err (message "connection refused"), st)

limited_request_run : (true ≡ true) × (false ≡ false) × (1 ≤ 2)
unfolding wrap golang_template.RateLimiter.allow Memory.allow Memory.bucket_of
    golang_template.RateLimiter.format_retry_after
limited_request_run =
    limited_request refusal 2 (with_fallback failing 100) (requests_of 2 (pos 60)) true "10.0.0.1"
      ([], full) refl

abbrev request : Request
request = record { remote_addr = "10.0.0.1:5000"; principal = none }

by_ip_auth-falls_back_run :
    (is_limited
        (by_ip_auth
          (λ a. some "10.0.0.1")
          (with_fallback failing 100)
          (requests_of 2 (pos 60))
          request
          ([], full)).0
      ≡ not (Memory.allow 100 "10.0.0.1" (requests_of 2 (pos 60)) full).0.allowed)
    × ((by_ip_auth
          (λ a. some "10.0.0.1")
          (with_fallback failing 100)
          (requests_of 2 (pos 60))
          request
          ([], full)).1.1
        ≡ (Memory.allow 100 "10.0.0.1" (requests_of 2 (pos 60)) full).1)
by_ip_auth-falls_back_run =
    by_ip_auth-falls_back (λ a. some "10.0.0.1") failing 100 (requests_of 2 (pos 60)) request []
      full (message "connection refused") refl

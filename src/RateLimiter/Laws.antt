-- ===== src/RateLimiter/Laws.antt =====
-- Theorems on internal/platform/ratelimiter: the memory limiter, alone and behind the middleware.
use golang_template.Prelude.{
  ℕ, suc, ◌+◌, ◌≤◌, String, ◌==◌, eq_iff, eq_refl, ◌≡◌, refl, Bool, true, false, not, ltb, leb,
  if◌then◌else◌, ◌<◌, ap, ◌∙◌, List, [], ◌∷◌, Option, none, some, arith, All, Bool-cases, ltb→lt,
  inl, inr,
}
use golang_template.Prelude.Int.{ℤ, pos}
use golang_template.Errors.{Err, Result, ok, err}
use golang_template.RateLimiter.{
  Rule, LimitResult, Limiter, Middleware, Outcome, passed, limited, wrap, allow, by_ip_auth, answer,
  allow_answered, Request, client_ip, format_retry_after,
}
use golang_template.RateLimiter.Memory.{
  Bucket, Clients, bucket_of, set_bucket, count_call, current, limiter, result_of,
}
use golang_template.RateLimiter.Memory

bucket_of-set_bucket :
    (key : String) (b : Bucket) (clients : Clients)
    → bucket_of key (set_bucket key b clients) ≡ some b
unfolding bucket_of set_bucket
bucket_of-set_bucket key b [] = rw (eq_refl key) refl
bucket_of-set_bucket key b ((k, c) ∷ rest) = elim (Bool-cases (k == key)) [
  | inl same ↦ rw same (rw same refl)
  | inr other ↦ rw other (rw other (bucket_of-set_bucket key b rest))
]

bucket_of-set_bucket-other :
    (key other : String) (b : Bucket) (clients : Clients)
    → (key == other) ≡ false
    → bucket_of other (set_bucket key b clients) ≡ bucket_of other clients
unfolding bucket_of set_bucket
bucket_of-set_bucket-other key other b [] h = rw h refl
bucket_of-set_bucket-other key other b ((k, c) ∷ rest) h = elim (Bool-cases (k == key)) [
  | inl same ↦ let miss = ap (λ t. t == other) ((eq_iff k key).0 same) ∙ h in rw same (rw miss refl)
  | inr mine ↦ rw mine (elim (Bool-cases (k == other)) [
    | inl hit ↦ rw hit refl
    | inr miss ↦ rw miss (bucket_of-set_bucket-other key other b rest h)
  ])
]

-- A call: when, and under which key.
abbrev pub Call : Type 0
Call = ℕ × String

abbrev pub count_if : Bool → ℕ → ℕ
count_if b n = if b then suc n else n

-- How many calls a list has for a key, and how many of them the limiter admits.
unfoldable pub calls_of : String → List Call → ℕ
calls_of key [] = 0
calls_of key ((now, k) ∷ calls) = count_if (k == key) (calls_of key calls)

abbrev pub is_admitted : String → String → Bool → Bool
is_admitted key k allowed = if k == key then allowed else false

unfoldable pub admitted : String → Rule → List Call → Clients → ℕ
admitted key rule [] clients = 0
admitted key rule ((now, k) ∷ calls) clients =
    let (r, rest) = Memory.allow now k rule clients in
    count_if (is_admitted key k r.allowed) (admitted key rule calls rest)

abbrev pub counted : Bucket → Bucket
counted b = record b { count = suc b.count }

abbrev pub min : ℕ → ℕ → ℕ
min a b = if leb a b then a else b

abbrev pub requests_of : ℕ → ℤ → Rule
requests_of n window = record { requests = pos n; window = window }

count_call-room :
    (now n : ℕ) (window : ℤ) (b : Bucket)
    → now ≤ b.expires_at
    → b.count < n
    → let called =
        count_call now (requests_of n window) (current now (requests_of n window) (some b)) in
      (called.0.allowed ≡ true) × (called.1 ≡ counted b)
count_call-room now n window b live room = ground arith

count_call-full :
    (now n : ℕ) (window : ℤ) (b : Bucket)
    → now ≤ b.expires_at
    → n ≤ b.count
    → let called =
        count_call now (requests_of n window) (current now (requests_of n window) (some b)) in
      (called.0.allowed ≡ false) × (called.1 ≡ b)
count_call-full now n window b live full = ground arith

module _ (n : ℕ) (window : ℤ) (key : String) where
  -- Until a key's bucket expires, the limiter admits exactly the first calls of that key that fill
  -- the bucket up to the rule's number of requests, however calls of other keys come between.
  pub calls_admitted :
      (b : Bucket) (calls : List Call) (clients : Clients)
      → bucket_of key clients ≡ some b
      → b.count ≤ n
      → All (λ c. c.0 ≤ b.expires_at) calls
      → b.count + admitted key (requests_of n window) calls clients
        ≡ min n (b.count + calls_of key calls)
  unfolding admitted calls_of Memory.allow
  calls_admitted b [] clients at_b le all = ground arith
  calls_admitted b ((now, k) ∷ calls) clients at_b le (live, all) = elim (Bool-cases (k == key)) [
    | inr other ↦
        let (_, b') =
          count_call now (requests_of n window)
            (current now (requests_of n window) (bucket_of k clients)) in
        rw other (
          calls_admitted b calls (set_bucket k b' clients)
            (bucket_of-set_bucket-other k key b' clients other ∙ at_b) le all)
    | inl mine ↦ rw ((eq_iff k key).0 mine) (
        rw (eq_refl key) (
          rw at_b (elim (Bool-cases (ltb b.count n)) [
            | inl room ↦
                let (granted, new) = count_call-room now n window b live (ltb→lt b.count n room) in
                let rest =
                  calls_admitted (counted b) calls (set_bucket key (counted b) clients)
                    (bucket_of-set_bucket key (counted b) clients) (ltb→lt b.count n room) all in
                rw granted (rw new (ground (arith, rest)))
            | inr full ↦
                let (refused, same) = count_call-full now n window b live (ground arith) in
                let rest =
                  calls_admitted b calls (set_bucket key b clients)
                    (bucket_of-set_bucket key b clients) le all in
                rw refused (rw same (ground (arith, rest)))
          ])))
  ]

abbrev pub is_limited : Outcome → Bool
is_limited (passed r) = false
is_limited (limited r s) = true

module _ {S F : Type 0} (r : LimitResult) (seconds : ℕ) where
  answer-limited :
      (a : Result LimitResult × (S × F))
      → (answer a).0 ≡ limited r seconds
      → (r.allowed ≡ false) × (1 ≤ seconds)
  unfolding format_retry_after
  answer-limited (ok x, st) h = ground arith
  answer-limited (err e, st) h = ground arith

  wrapped-limited :
      (b : Bool) (a : Result LimitResult × (S × F)) (st : S × F)
      → (if b then answer a else (passed none, st)).0 ≡ limited r seconds
      → (b ≡ true) × (r.allowed ≡ false) × (1 ≤ seconds)
  wrapped-limited true a st h = let (refused, waits) = answer-limited a h in (refl, refused, waits)
  wrapped-limited false a st h = ground arith

  -- A request is answered 429 only if the middleware is enabled and the limiter's answer refused
  -- it; the client is told to wait for at least a second.
  pub limited_request :
      (m : Middleware S F) (rule : Rule) (memory : Bool) (key : String) (st : S × F)
      → (wrap m rule memory key st).0 ≡ limited r seconds
      → (m.enabled ≡ true) × (r.allowed ≡ false) × (1 ≤ seconds)
  unfolding wrap
  limited_request m rule memory key st h =
      wrapped-limited m.enabled (allow m memory key rule st) st h

abbrev pub with_fallback : {S : Type 0} → Limiter S → ℕ → Middleware S Clients
with_fallback l now = record { limiter = some l; fallback = some (limiter now); enabled = true }

is_limited_if :
    (b : Bool) (r : LimitResult) (s : ℕ)
    → is_limited (if b then passed (some r) else limited r s) ≡ not b
is_limited_if true r s = refl
is_limited_if false r s = refl

falls_back :
    {S : Type 0} (l : Limiter S) (now : ℕ) (rule : Rule) (key : String) (clients : Clients)
    (a : Result LimitResult × S) (e : Err)
    → a.0 ≡ err e
    → let (outcome, (_, rest)) =
        answer (allow_answered (with_fallback l now) true key rule clients a) in
      let (counted, after) = Memory.allow now key rule clients in
      (is_limited outcome ≡ not counted.allowed) × (rest ≡ after)
falls_back l now rule key clients (ok r, s) e h = ground arith
falls_back l now rule key clients (err x, s) e h =
    let counted = (Memory.allow now key rule clients).0 in
    (is_limited_if counted.allowed counted (format_retry_after counted.retry_after), refl)

-- While the first limiter fails, a route with the memory fallback is limited by it: a request
-- is refused exactly where the memory limiter refuses it, which counts the request either way.
pub by_ip_auth-falls_back :
    {S : Type 0} (split_host : String → Option String) (l : Limiter S) (now : ℕ) (rule : Rule)
    (r : Request) (s : S) (clients : Clients) (e : Err)
    → (l (client_ip split_host r) rule s).0 ≡ err e
    → let (outcome, (_, rest)) = by_ip_auth split_host (with_fallback l now) rule r (s, clients) in
      let (counted, after) = Memory.allow now (client_ip split_host r) rule clients in
      (is_limited outcome ≡ not counted.allowed) × (rest ≡ after)
unfolding by_ip_auth wrap allow
by_ip_auth-falls_back split_host l now rule r s clients e h =
    let key = client_ip split_host r in falls_back l now rule key clients (l key rule s) e h

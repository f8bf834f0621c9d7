-- ===== src/Eventing/Relay/Delay.antt =====
-- The back-off of the relay.
use native.Mathlib.Nat.{pow-le-pow_right}
use golang_template.Prelude.{
  ℕ, suc, ◌+◌, ◌-◌, ◌*◌, ◌/◌, ◌%◌, ◌^◌, ◌≤◌, ◌≡◌, ltb, if◌then◌else◌, arith,
}
use golang_template.Prelude.Int.{ℤ, pos}
use golang_template.Eventing.Relay.{
  second, to_duration, at_most_minute, retry_delay_base, retry_delay,
}

-- Seconds, at most a minute of them.
abbrev pub capped : ℕ → ℕ
capped s = if ltb 60 s then 60 else s

-- A number of seconds that fits an int64 as nanoseconds.
capped_duration :
    (convert : ℕ → ℤ) (s : ℕ)
    → s ≤ 2 ^ 33
    → at_most_minute (to_duration convert (s * second)) ≡ pos (capped s * second)
capped_duration convert s h = ground arith

retry_delay_base-capped :
    (convert : ℕ → ℤ) (k : ℕ)
    → k ≤ 33
    → retry_delay_base convert (suc k) ≡ pos (capped (2 ^ k) * second)
unfolding retry_delay_base
retry_delay_base-capped convert k h =
    let less : suc k - 1 ≡ k = omega arith in
    rw less (capped_duration convert (2 ^ k) (pow-le-pow_right {n = 2} (omega arith) h))

jitter-le : (base draw : ℕ) → 4 * (base + draw % (base / 4 + 1)) ≤ 5 * base
jitter-le base draw = omega arith

-- After failure number `suc k`, up to the 34th, the next try is due after `2 ^ k` seconds or after
-- a minute, whichever is less, and at most a quarter of that later; how the processor converts a
-- float that is out of range does not matter.
pub retry_delay_bounds :
    (convert : ℕ → ℤ) (k draw : ℕ)
    → k ≤ 33
    → (d : ℕ) × (retry_delay convert (suc k) draw ≡ pos d)
      × (capped (2 ^ k) * second ≤ d)
      × (4 * d ≤ 5 * (capped (2 ^ k) * second))
unfolding retry_delay
retry_delay_bounds convert k draw h =
    let base = capped (2 ^ k) * second in
    (
      base + draw % (base / 4 + 1),
      rw (retry_delay_base-capped convert k h),
      omega arith,
      jitter-le base draw,
    )

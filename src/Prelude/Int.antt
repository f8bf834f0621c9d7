-- ===== src/Prelude/Int.antt =====
-- Signed integers over the native numbers, under the library's names.
use Prim.Native.Nat.{ℕ, suc, ◌+◌, ◌-◌, ◌≤◌}
use mathlib.Core.Bool.{Bool}
use golang_template.Prelude.Tests.{ltb, leb, if◌then◌else◌}

-- `negsuc n` is -(n + 1).
pub data ℤ : Type 0 where
  pos : ℕ → ℤ
  negsuc : ℕ → ℤ

abbrev pub pos_part : ℤ → ℕ
pos_part (pos n) = n
pos_part (negsuc n) = 0

abbrev pub neg_part : ℤ → ℕ
neg_part (pos n) = 0
neg_part (negsuc n) = suc n

-- a - b, as an integer.
abbrev pub sub_ℕ : ℕ → ℕ → ℤ
sub_ℕ a b = if leb b a then pos (a - b) else negsuc (b - a - 1)

infixl 65 ◌+ℤ◌ ◌-ℤ◌
infix 50 ◌≤ℤ◌
abbrev pub ◌+ℤ◌ : ℤ → ℤ → ℤ
a +ℤ b = sub_ℕ (pos_part a + pos_part b) (neg_part a + neg_part b)

abbrev pub ◌-ℤ◌ : ℤ → ℤ → ℤ
a -ℤ b = sub_ℕ (pos_part a + neg_part b) (neg_part a + pos_part b)

abbrev pub ◌≤ℤ◌ : ℤ → ℤ → Type 0
a ≤ℤ b = pos_part a + neg_part b ≤ pos_part b + neg_part a

abbrev pub ltb_ℤ : ℤ → ℤ → Bool
ltb_ℤ a b = ltb (pos_part a + neg_part b) (pos_part b + neg_part a)

abbrev pub leb_ℤ : ℤ → ℤ → Bool
leb_ℤ a b = leb (pos_part a + neg_part b) (pos_part b + neg_part a)

-- Go's `int64` and, on 64-bit platforms, `int`: the largest value and its successor.
abbrev pub max_int64 : ℕ
max_int64 = 9223372036854775807

-- `x + 1` on int64, which wraps from the largest value to the smallest.
abbrev pub succ_int64 : ℤ → ℤ
succ_int64 (pos n) = if ltb n max_int64 then pos (suc n) else negsuc max_int64
succ_int64 (negsuc n) = sub_ℕ 0 n

-- `x - 1` on int64, which wraps from the smallest value to the largest.
abbrev pub pred_int64 : ℤ → ℤ
pred_int64 (pos n) = sub_ℕ n 1
pred_int64 (negsuc n) = if ltb n max_int64 then negsuc (suc n) else pos max_int64

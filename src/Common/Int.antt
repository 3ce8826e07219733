-- ===== src/Common/Int.antt =====
-- Signed integers over the native numbers, and C's machine integers as their two's complement
-- ranges. `negsuc n` is -(n + 1).
use se_navi_common.Common.Tests.{ltb, leb, ◌==◌, if◌then◌else◌}
use Prim.Native.Nat.{ℕ, suc, ◌+◌, ◌-◌, ◌*◌, ◌/◌, ◌%◌, ◌^◌, ◌≤◌, ◌<◌}
use mathlib.Core.Path.{◌≡◌}
use mathlib.Core.Bool.{Bool, true, false}
use native.Mathlib.Omega.{arith}

pub data ℤ : Type 0 where
  pos : ℕ → ℤ
  negsuc : ℕ → ℤ

abbrev pub pos_part : ℤ → ℕ
pos_part (pos n) = n
pos_part (negsuc n) = 0

abbrev pub neg_part : ℤ → ℕ
neg_part (pos n) = 0
neg_part (negsuc n) = suc n

-- a - b, as an integer.
abbrev pub sub_ℕ : ℕ → ℕ → ℤ
sub_ℕ a b = if leb b a then pos (a - b) else negsuc (b - a - 1)

infixl 65 ◌+ℤ◌ ◌-ℤ◌
infix 50 ◌≤ℤ◌ ◌<ℤ◌
unfoldable pub ◌+ℤ◌ : ℤ → ℤ → ℤ
a +ℤ b = sub_ℕ (pos_part a + pos_part b) (neg_part a + neg_part b)

unfoldable pub ◌-ℤ◌ : ℤ → ℤ → ℤ
a -ℤ b = sub_ℕ (pos_part a + neg_part b) (neg_part a + pos_part b)

-- A multiple by a number.
infixl 70 ◌·ℤ◌
unfoldable pub ◌·ℤ◌ : ℕ → ℤ → ℤ
k ·ℤ a = sub_ℕ (k * pos_part a) (k * neg_part a)

abbrev pub ◌≤ℤ◌ : ℤ → ℤ → Type 0
a ≤ℤ b = pos_part a + neg_part b ≤ pos_part b + neg_part a

abbrev pub ◌<ℤ◌ : ℤ → ℤ → Type 0
a <ℤ b = pos_part a + neg_part b < pos_part b + neg_part a

abbrev pub ltb_ℤ : ℤ → ℤ → Bool
ltb_ℤ a b = ltb (pos_part a + neg_part b) (pos_part b + neg_part a)

abbrev pub leb_ℤ : ℤ → ℤ → Bool
leb_ℤ a b = leb (pos_part a + neg_part b) (pos_part b + neg_part a)

abbrev pub eqb_ℤ : ℤ → ℤ → Bool
eqb_ℤ a b = (pos_part a + neg_part b) == (pos_part b + neg_part a)

-- C's `/` and `%` round towards zero.
abbrev pub tdiv : ℤ → ℕ → ℤ
tdiv (pos n) d = pos (n / d)
tdiv (negsuc n) d = sub_ℕ 0 (suc n / d)

abbrev pub tmod : ℤ → ℕ → ℤ
tmod (pos n) d = pos (n % d)
tmod (negsuc n) d = sub_ℕ 0 (suc n % d)

-- The number that a bit pattern of 16, 32 or 64 bits stands for.
abbrev pub signed16 : ℕ → ℤ
signed16 w = if ltb w (2 ^ 15) then pos w else negsuc (2 ^ 16 - w - 1)

abbrev pub signed32 : ℕ → ℤ
signed32 w = if ltb w (2 ^ 31) then pos w else negsuc (2 ^ 32 - w - 1)

abbrev pub signed64 : ℕ → ℤ
signed64 w = if ltb w (2 ^ 63) then pos w else negsuc (2 ^ 64 - w - 1)

-- A result brought into `int32_t` or `int64_t`, by two's complement wrap-around.
unfoldable pub i32 : ℤ → ℤ
i32 (pos n) = signed32 (n % 2 ^ 32)
i32 (negsuc n) = signed32 (2 ^ 32 - 1 - n % 2 ^ 32)

unfoldable pub i64 : ℤ → ℤ
i64 (pos n) = signed64 (n % 2 ^ 64)
i64 (negsuc n) = signed64 (2 ^ 64 - 1 - n % 2 ^ 64)

-- The bit pattern that a conversion to `uint32_t`, or to `uint16_t`, leaves.
unfoldable pub u32 : ℤ → ℕ
u32 (pos n) = n % 2 ^ 32
u32 (negsuc n) = 2 ^ 32 - 1 - n % 2 ^ 32

unfoldable pub u16 : ℤ → ℕ
u16 (pos n) = n % 2 ^ 16
u16 (negsuc n) = 2 ^ 16 - 1 - n % 2 ^ 16

abbrev pub IsInt16 : ℤ → Type 0
IsInt16 z = (neg_part z ≤ 2 ^ 15) × (pos_part z < 2 ^ 15)

abbrev pub IsInt32 : ℤ → Type 0
IsInt32 z = (neg_part z ≤ 2 ^ 31) × (pos_part z < 2 ^ 31)

abbrev pub IsInt64 : ℤ → Type 0
IsInt64 z = (neg_part z ≤ 2 ^ 63) × (pos_part z < 2 ^ 63)

pub i32_id : (z : ℤ) → IsInt32 z → i32 z ≡ z
unfolding i32
i32_id (pos n) h = ground arith
i32_id (negsuc n) h = ground arith

pub i64_id : (z : ℤ) → IsInt64 z → i64 z ≡ z
unfolding i64
i64_id (pos n) h = ground arith
i64_id (negsuc n) h = ground arith

pub i32-IsInt32 : (z : ℤ) → IsInt32 (i32 z)
unfolding i32
i32-IsInt32 (pos n) = ground arith
i32-IsInt32 (negsuc n) = ground arith

-- One lemma for each operation lets `omega` work with the operations shut, at any depth.
pub +ℤ_parts :
    (a b : ℤ)
    → pos_part (a +ℤ b) + neg_part a + neg_part b ≡ neg_part (a +ℤ b) + pos_part a + pos_part b
unfolding ◌+ℤ◌
+ℤ_parts a b = ground arith

pub -ℤ_parts :
    (a b : ℤ)
    → pos_part (a -ℤ b) + neg_part a + pos_part b ≡ neg_part (a -ℤ b) + pos_part a + neg_part b
unfolding ◌-ℤ◌
-ℤ_parts a b = ground arith

pub eq_of_parts : (a b : ℤ) → pos_part a + neg_part b ≡ pos_part b + neg_part a → a ≡ b
eq_of_parts a b h = ground arith

-- One of the two parts is zero: `pos_part` and `neg_part` of a difference are exact.
pub +ℤ_pos : (a b : ℤ) → pos_part (a +ℤ b) ≡ pos_part a + pos_part b - (neg_part a + neg_part b)
unfolding ◌+ℤ◌
+ℤ_pos a b = ground arith

pub +ℤ_neg : (a b : ℤ) → neg_part (a +ℤ b) ≡ neg_part a + neg_part b - (pos_part a + pos_part b)
unfolding ◌+ℤ◌
+ℤ_neg a b = ground arith

pub -ℤ_pos : (a b : ℤ) → pos_part (a -ℤ b) ≡ pos_part a + neg_part b - (neg_part a + pos_part b)
unfolding ◌-ℤ◌
-ℤ_pos a b = ground arith

pub -ℤ_neg : (a b : ℤ) → neg_part (a -ℤ b) ≡ neg_part a + pos_part b - (pos_part a + neg_part b)
unfolding ◌-ℤ◌
-ℤ_neg a b = ground arith

pub ·ℤ_pos : (k : ℕ) (a : ℤ) → pos_part (k ·ℤ a) ≡ k * pos_part a - k * neg_part a
unfolding ◌·ℤ◌
·ℤ_pos k a = ground arith

pub ·ℤ_neg : (k : ℕ) (a : ℤ) → neg_part (k ·ℤ a) ≡ k * neg_part a - k * pos_part a
unfolding ◌·ℤ◌
·ℤ_neg k a = ground arith

pub ·ℤ_parts :
    (k : ℕ) (a : ℤ) → pos_part (k ·ℤ a) + k * neg_part a ≡ neg_part (k ·ℤ a) + k * pos_part a
unfolding ◌·ℤ◌
·ℤ_parts k a = ground arith

-- A number with its sign turned.
pub negated_pos : (a : ℕ) → pos_part (sub_ℕ 0 a) ≡ 0
negated_pos a = ground arith

pub negated_neg : (a : ℕ) → neg_part (sub_ℕ 0 a) ≡ a
negated_neg a = ground arith

pub ltb_ℤ→lt : (a b : ℤ) → ltb_ℤ a b ≡ true → a <ℤ b
ltb_ℤ→lt a b h = ground arith

pub ltb_ℤ→ge : (a b : ℤ) → ltb_ℤ a b ≡ false → b ≤ℤ a
ltb_ℤ→ge a b h = ground arith

-- Enough where only sums of parts are compared, and quicker.
pub ruleset sum_laws = (arith, +ℤ_parts, -ℤ_parts, ·ℤ_parts)

pub ruleset int_laws = (arith, +ℤ_pos, +ℤ_neg, -ℤ_pos, -ℤ_neg, ·ℤ_pos, ·ℤ_neg, eq_of_parts)

pub u32-lt : (z : ℤ) → u32 z < 2 ^ 32
unfolding u32
u32-lt (pos n) = omega arith
u32-lt (negsuc n) = omega arith

-- A conversion to the unsigned type and back gives the number that it began with.
pub signed32-u32 : (z : ℤ) → IsInt32 z → signed32 (u32 z) ≡ z
unfolding u32
signed32-u32 (pos n) h = ground arith
signed32-u32 (negsuc n) h = ground arith

pub u16-lt : (z : ℤ) → u16 z < 2 ^ 16
unfolding u16
u16-lt (pos n) = omega arith
u16-lt (negsuc n) = omega arith

pub signed16-u16 : (z : ℤ) → IsInt16 z → signed16 (u16 z) ≡ z
unfolding u16
signed16-u16 (pos n) h = ground arith
signed16-u16 (negsuc n) h = ground arith

-- The difference of two unsigned numbers, taken after both were converted to `int32_t`.
pub i32-sub :
    (a b : ℕ) → a < 2 ^ 32 → b < 2 ^ 32 → i32 (i32 (pos a) -ℤ i32 (pos b)) ≡ i32 (pos a -ℤ pos b)
unfolding i32 ◌-ℤ◌
i32-sub a b ha hb = ground arith

pub u32_id : (z : ℤ) → neg_part z ≡ 0 → pos_part z < 2 ^ 32 → u32 z ≡ pos_part z
unfolding u32
u32_id (pos n) h k = omega arith
u32_id (negsuc n) h k = absurd (omega arith)

-- The upper half of the unsigned numbers turns negative.
pub i32_high : (n : ℕ) → 2 ^ 31 ≤ n → n < 2 ^ 32 → i32 (pos n) ≡ pos n -ℤ pos (2 ^ 32)
unfolding i32 ◌-ℤ◌
i32_high n h k = ground arith

-- INT_MIN has no negation in its range.
pub i32-neg_min : (z : ℤ) → neg_part z ≡ 2 ^ 31 → i32 (pos 0 -ℤ z) ≡ z
unfolding i32 ◌-ℤ◌
i32-neg_min (pos n) h = absurd (omega arith)
i32-neg_min (negsuc n) h = ground arith

pub pos-sub : (a b : ℕ) → b ≤ a → pos a -ℤ pos b ≡ pos (a - b)
unfolding ◌-ℤ◌
pos-sub a b h = ground arith

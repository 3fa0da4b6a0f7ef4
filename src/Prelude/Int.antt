-- ===== src/Prelude/Int.antt =====
-- Signed integers over the native numbers, and Go's int32 and uint64 conversions on them.
use Prim.Native.Nat.{ℕ, suc, ◌+◌, ◌-◌, ◌*◌, ◌/◌, ◌%◌, ◌≤◌, ◌<◌}
use mathlib.Core.Path.{◌≡◌}
use mathlib.Core.Logic.{◌↔◌}
use mathlib.Core.Bool.{Bool, true, false}
use native.Mathlib.Omega.{arith}
use chainmaker.Prelude.Tests.{ltb, leb, nat_eq, if◌then◌else◌}
use chainmaker.Prelude.Eq.{Equality}

-- `negsuc n` is -(n + 1).
pub data ℤ : Type 0 where
  pos : ℕ → ℤ
  negsuc : ℕ → ℤ

abbrev pub pos_part : ℤ → ℕ
pos_part (pos n) = n
pos_part (negsuc n) = 0

abbrev pub neg_part : ℤ → ℕ
neg_part (pos n) = 0
neg_part (negsuc n) = suc n

-- a - b, as an integer.
abbrev pub sub_ℕ : ℕ → ℕ → ℤ
sub_ℕ a b = if leb b a then pos (a - b) else negsuc (b - a - 1)

abbrev pub ltb_ℤ : ℤ → ℤ → Bool
ltb_ℤ a b = ltb (pos_part a + neg_part b) (pos_part b + neg_part a)

abbrev pub leb_ℤ : ℤ → ℤ → Bool
leb_ℤ a b = leb (pos_part a + neg_part b) (pos_part b + neg_part a)

infix 50 ◌≤ℤ◌ ◌<ℤ◌
abbrev pub ◌≤ℤ◌ : ℤ → ℤ → Type 0
a ≤ℤ b = pos_part a + neg_part b ≤ pos_part b + neg_part a

abbrev pub ◌<ℤ◌ : ℤ → ℤ → Type 0
a <ℤ b = pos_part a + neg_part b < pos_part b + neg_part a

abbrev pub int_eq : ℤ → ℤ → Bool
int_eq (pos a) (pos b) = nat_eq a b
int_eq (negsuc a) (negsuc b) = nat_eq a b
int_eq (pos a) (negsuc b) = false
int_eq (negsuc a) (pos b) = false

pub int_eq_iff : (a b : ℤ) → (int_eq a b ≡ true) ↔ (a ≡ b)
int_eq_iff a b = ground arith

instance abbrev pub int_instance : Equality ℤ
int_instance = record { beq = int_eq; agrees = int_eq_iff }

-- int32(n) of a number: two's complement.
abbrev pub int32_of : ℕ → ℤ
int32_of n =
    if ltb (n % 4294967296) 2147483648
    then pos (n % 4294967296)
    else negsuc (4294967295 - n % 4294967296)

-- The int32 that has the bits of an integer.
abbrev pub wrap32 : ℤ → ℤ
wrap32 (pos n) = int32_of n
wrap32 (negsuc n) = int32_of (4294967295 - n % 4294967296)

-- uint64(a)
abbrev pub uint64_of : ℤ → ℕ
uint64_of (pos n) = n % 18446744073709551616
uint64_of (negsuc n) = 18446744073709551615 - n % 18446744073709551616

abbrev pub u64 : ℕ → ℕ
u64 n = n % 18446744073709551616

-- int32 addition, subtraction and multiplication by a numeral, with wrap-around.
unfoldable pub add32 : ℤ → ℤ → ℤ
add32 a b = wrap32 (sub_ℕ (pos_part a + pos_part b) (neg_part a + neg_part b))

unfoldable pub sub32 : ℤ → ℤ → ℤ
sub32 a b = wrap32 (sub_ℕ (pos_part a + neg_part b) (neg_part a + pos_part b))

unfoldable pub mul32 : ℤ → ℕ → ℤ
mul32 a k = wrap32 (sub_ℕ (pos_part a * k) (neg_part a * k))

-- Go's `/` and `%` round towards zero. The model's callers test for a zero divisor.
unfoldable pub quot32 : ℤ → ℕ → ℤ
quot32 a d = sub_ℕ (pos_part a / d) (neg_part a / d)

unfoldable pub rem32 : ℤ → ℤ → ℤ
rem32 a d = sub_ℕ (pos_part a % (pos_part d + neg_part d)) (neg_part a % (pos_part d + neg_part d))

-- int64 addition and multiplication, with wrap-around.
abbrev pub int64_of : ℕ → ℤ
int64_of n =
    if ltb (n % 18446744073709551616) 9223372036854775808
    then pos (n % 18446744073709551616)
    else negsuc (18446744073709551615 - n % 18446744073709551616)

abbrev pub wrap64 : ℤ → ℤ
wrap64 (pos n) = int64_of n
wrap64 (negsuc n) = int64_of (18446744073709551615 - n % 18446744073709551616)

unfoldable pub add64 : ℤ → ℤ → ℤ
add64 a b = wrap64 (sub_ℕ (pos_part a + pos_part b) (neg_part a + neg_part b))

unfoldable pub mul64 : ℤ → ℤ → ℤ
mul64 a b = wrap64 (
    sub_ℕ (pos_part a * pos_part b + neg_part a * neg_part b)
      (pos_part a * neg_part b + neg_part a * pos_part b))

-- Without wrap-around the operations are those of the numbers.
pub int32_of_small : (n : ℕ) → n < 2147483648 → int32_of n ≡ pos n
int32_of_small n h = ground arith

pub add32_small : (a b : ℕ) → a + b < 2147483648 → add32 (pos a) (pos b) ≡ pos (a + b)
unfolding add32
add32_small a b h = ground arith

pub mul32_small : (a k : ℕ) → a * k < 2147483648 → mul32 (pos a) k ≡ pos (a * k)
unfolding mul32
mul32_small a k h = ground arith

pub quot32_small : (a d : ℕ) → quot32 (pos a) (suc d) ≡ pos (a / suc d)
unfolding quot32
quot32_small a d = ground arith

pub rem32_small : (a d : ℕ) → rem32 (pos a) (pos (suc d)) ≡ pos (a % suc d)
unfolding rem32
rem32_small a d = ground arith

-- ===== src/Base/Int.antt =====
-- Rust's `i64`: integers, and the checked operations on those of 64 bits.
use Prim.Native.Nat.{ℕ, zero, suc, ◌+◌, ◌-◌, ◌*◌, ◌/◌, ◌%◌, ◌^◌}
use mathlib.Core.Path.{◌≡◌, refl}
use mathlib.Core.Logic.{◌↔◌}
use mathlib.Core.Bool.{Bool, true, false}
use mathlib.Core.Option.{Option, none, some}
use native.Mathlib.Omega.{arith}
use joan.Base.Tests.{ltb, leb, nat_beq, if◌then◌else◌}
use joan.Base.Classes.{Eq}

-- `negsuc n` is -(n + 1).
pub data ℤ : Type 0 where
  pos : ℕ → ℤ
  negsuc : ℕ → ℤ

abbrev pub is_negative : ℤ → Bool
is_negative (pos n) = false
is_negative (negsuc n) = true

-- The absolute value.
abbrev pub magnitude : ℤ → ℕ
magnitude (pos n) = n
magnitude (negsuc n) = suc n

abbrev pub with_sign : Bool → ℕ → ℤ
with_sign false n = pos n
with_sign true zero = pos 0
with_sign true (suc n) = negsuc n

abbrev pub differ : Bool → Bool → Bool
differ true true = false
differ true false = true
differ false b = b

abbrev pub sub_ℕ : ℕ → ℕ → ℤ
sub_ℕ a b = if leb b a then pos (a - b) else negsuc (b - a - 1)

unfoldable pub neg : ℤ → ℤ
neg (pos n) = with_sign true n
neg (negsuc n) = pos (suc n)

infixl 65 ◌+ℤ◌ ◌-ℤ◌
infixl 70 ◌*ℤ◌
unfoldable pub ◌+ℤ◌ : ℤ → ℤ → ℤ
pos a +ℤ pos b = pos (a + b)
pos a +ℤ negsuc b = sub_ℕ a (suc b)
negsuc a +ℤ pos b = sub_ℕ b (suc a)
negsuc a +ℤ negsuc b = negsuc (suc (a + b))

unfoldable pub ◌-ℤ◌ : ℤ → ℤ → ℤ
unfolding neg ◌+ℤ◌
a -ℤ b = a +ℤ neg b

unfoldable pub ◌*ℤ◌ : ℤ → ℤ → ℤ
a *ℤ b = with_sign (differ (is_negative a) (is_negative b)) (magnitude a * magnitude b)

-- Division towards zero, and the remainder with the sign of the dividend.
unfoldable pub quot : ℤ → ℤ → ℤ
quot a b = with_sign (differ (is_negative a) (is_negative b)) (magnitude a / magnitude b)

unfoldable pub rem : ℤ → ℤ → ℤ
rem a b = with_sign (is_negative a) (magnitude a % magnitude b)

unfoldable pub lt_ℤ : ℤ → ℤ → Bool
lt_ℤ (pos a) (pos b) = ltb a b
lt_ℤ (pos a) (negsuc b) = false
lt_ℤ (negsuc a) (pos b) = true
lt_ℤ (negsuc a) (negsuc b) = ltb b a

abbrev pub int_beq : ℤ → ℤ → Bool
int_beq (pos a) (pos b) = nat_beq a b
int_beq (negsuc a) (negsuc b) = nat_beq a b
int_beq (pos a) (negsuc b) = false
int_beq (negsuc a) (pos b) = false

pub int_beq_iff : (a b : ℤ) → (int_beq a b ≡ true) ↔ (a ≡ b)
int_beq_iff a b = ground arith

instance abbrev pub int_eq : Eq ℤ
int_eq = record { beq = int_beq; beq_iff = int_beq_iff }

abbrev pub i64_half : ℕ
i64_half = 2 ^ 63

-- From `i64::MIN` to `i64::MAX`.
unfoldable pub fits_i64 : ℤ → Bool
fits_i64 (pos n) = ltb n i64_half
fits_i64 (negsuc n) = ltb n i64_half

abbrev pub checked : ℤ → Option ℤ
checked n = if fits_i64 n then some n else none

unfoldable pub checked_neg : ℤ → Option ℤ
unfolding neg fits_i64
checked_neg a = checked (neg a)

unfoldable pub checked_add_i64 : ℤ → ℤ → Option ℤ
unfolding ◌+ℤ◌ fits_i64
checked_add_i64 a b = checked (a +ℤ b)

unfoldable pub checked_sub_i64 : ℤ → ℤ → Option ℤ
unfolding ◌-ℤ◌ fits_i64
checked_sub_i64 a b = checked (a -ℤ b)

unfoldable pub checked_mul_i64 : ℤ → ℤ → Option ℤ
unfolding ◌*ℤ◌ fits_i64
checked_mul_i64 a b = checked (a *ℤ b)

-- `None` if the divisor is zero or the quotient overflows.
unfoldable pub checked_div_i64 : ℤ → ℤ → Option ℤ
unfolding quot fits_i64
checked_div_i64 a b = if int_beq b (pos 0) then none else checked (quot a b)

-- `None` also where the quotient overflows, `i64::MIN` by -1.
unfoldable pub checked_rem_i64 : ℤ → ℤ → Option ℤ
unfolding rem quot fits_i64
checked_rem_i64 a b =
    if int_beq b (pos 0) then none else (if fits_i64 (quot a b) then some (rem a b) else none)

rem_overflow : checked_rem_i64 (negsuc (i64_half - 1)) (negsuc 0) ≡ none
unfolding checked_rem_i64
rem_overflow = refl

quotient_truncates : checked_div_i64 (negsuc 6) (pos 2) ≡ some (negsuc 2)
unfolding checked_div_i64
quotient_truncates = refl

remainder_sign : checked_rem_i64 (negsuc 6) (pos 4) ≡ some (negsuc 2)
unfolding checked_rem_i64
remainder_sign = refl

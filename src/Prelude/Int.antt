-- ===== src/Prelude/Int.antt =====
-- Go's signed 64-bit `int` over the native numbers.
use Prim.Native.Nat.{ℕ, zero, suc, ◌+◌, ◌-◌, ◌*◌, ◌%◌, ◌≤◌}
use mathlib.Core.Path.{◌≡◌}
use mathlib.Core.Bool.{Bool, true, false}
use mathlib.Core.Logic.{◌↔◌}
use native.Mathlib.Omega.{arith}
use zensor_server.Prelude.Tests.{Eq, nat_beq, ltb, leb, if◌then◌else◌}

-- `negsuc n` is -(n + 1).
pub data ℤ : Type 0 where
  pos : ℕ → ℤ
  negsuc : ℕ → ℤ

abbrev pub pos_part : ℤ → ℕ
pos_part (pos n) = n
pos_part (negsuc _) = 0

abbrev pub neg_part : ℤ → ℕ
neg_part (pos _) = 0
neg_part (negsuc n) = suc n

abbrev pub ltb_ℤ : ℤ → ℤ → Bool
ltb_ℤ a b = ltb (pos_part a + neg_part b) (pos_part b + neg_part a)

abbrev pub leb_ℤ : ℤ → ℤ → Bool
leb_ℤ a b = leb (pos_part a + neg_part b) (pos_part b + neg_part a)

infix 50 ◌≤ℤ◌
abbrev pub ◌≤ℤ◌ : ℤ → ℤ → Type 0
a ≤ℤ b = pos_part a + neg_part b ≤ pos_part b + neg_part a

abbrev pub int_max : ℕ
int_max = 9223372036854775807

-- The integer that a 64-bit pattern stands for, in two's complement.
abbrev pub of_pattern : ℕ → ℤ
of_pattern n = if leb n int_max then pos n else negsuc (18446744073709551615 - n)

-- `a * k` on `int`, wrap-around included.
unfoldable pub mul_int : ℤ → ℕ → ℤ
mul_int (pos n) k = of_pattern (n * k % 18446744073709551616)
mul_int (negsuc n) k =
    of_pattern ((18446744073709551616 - suc n * k % 18446744073709551616) % 18446744073709551616)

-- Below the largest `int` the product does not wrap.
pub mul_int-pos : (n k : ℕ) → n * k ≤ int_max → mul_int (pos n) k ≡ pos (n * k)
unfolding mul_int
mul_int-pos n k h = ground arith

-- -n
abbrev pub negate : ℕ → ℤ
negate zero = pos 0
negate (suc n) = negsuc n

abbrev pub ℤ_beq : ℤ → ℤ → Bool
ℤ_beq (pos a) (pos b) = nat_beq a b
ℤ_beq (negsuc a) (negsuc b) = nat_beq a b
ℤ_beq _ _ = false

pub ℤ_beq_iff : (a b : ℤ) → (ℤ_beq a b ≡ true) ↔ (a ≡ b)
ℤ_beq_iff (pos a) (pos b) = ground arith
ℤ_beq_iff (negsuc a) (negsuc b) = ground arith
ℤ_beq_iff (pos a) (negsuc b) = ground arith
ℤ_beq_iff (negsuc a) (pos b) = ground arith

instance abbrev pub int_eq : Eq ℤ
int_eq = record { test = ℤ_beq; test_iff = ℤ_beq_iff }

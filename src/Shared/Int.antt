-- ===== src/Shared/Int.antt =====
-- C's `int`: the integers, and the wrap-around of 32-bit arithmetic. `negsuc n` is -(n + 1).
use Prim.Native.Nat.{ℕ, suc, ◌+◌, ◌-◌, ◌%◌, ◌^◌, ◌≤◌, ◌<◌}
use mathlib.Core.Path.{◌≡◌}
use mathlib.Core.Bool.{Bool, true, false}
use mathlib.Core.Logic.{◌↔◌}
use native.Mathlib.Omega.{arith}
use os_ex.Shared.Tests.{ltb, leb, ◌==◌, if◌then◌else◌}

pub data ℤ : Type 0 where
  pos : ℕ → ℤ
  negsuc : ℕ → ℤ

abbrev pub pos_part : ℤ → ℕ
pos_part (pos n) = n
pos_part (negsuc n) = 0

abbrev pub neg_part : ℤ → ℕ
neg_part (pos n) = 0
neg_part (negsuc n) = suc n

-- a - b, as an integer.
abbrev pub sub_ℕ : ℕ → ℕ → ℤ
sub_ℕ a b = if leb b a then pos (a - b) else negsuc (b - a - 1)

infixl 65 ◌+ℤ◌ ◌-ℤ◌
infix 50 ◌≤ℤ◌
unfoldable pub ◌+ℤ◌ : ℤ → ℤ → ℤ
a +ℤ b = sub_ℕ (pos_part a + pos_part b) (neg_part a + neg_part b)

unfoldable pub ◌-ℤ◌ : ℤ → ℤ → ℤ
a -ℤ b = sub_ℕ (pos_part a + neg_part b) (neg_part a + pos_part b)

abbrev pub ◌≤ℤ◌ : ℤ → ℤ → Type 0
a ≤ℤ b = pos_part a + neg_part b ≤ pos_part b + neg_part a

-- `a < b` and `a == b` on `int`.
abbrev pub lt_int : ℤ → ℤ → Bool
lt_int a b = ltb (pos_part a + neg_part b) (pos_part b + neg_part a)

abbrev pub eq_int : ℤ → ℤ → Bool
eq_int a b = (pos_part a + neg_part b) == (pos_part b + neg_part a)

abbrev pub minus_one : ℤ
minus_one = negsuc 0

-- The values of an `int`.
abbrev pub IsInt : ℤ → Type 0
IsInt a = (pos_part a < 2 ^ 31) × (neg_part a ≤ 2 ^ 31)

-- The two's complement pattern of a number, and the `int` with a given pattern.
abbrev pub to_bits : ℤ → ℕ
to_bits (pos n) = n % 2 ^ 32
to_bits (negsuc n) = 2 ^ 32 - 1 - n % 2 ^ 32

abbrev pub of_bits : ℕ → ℤ
of_bits u = if ltb u (2 ^ 31) then pos u else negsuc (2 ^ 32 - 1 - u)

unfoldable pub wrap_int : ℤ → ℤ
wrap_int a = of_bits (to_bits a)

-- `a + b` and `a - b` on `int`.
unfoldable pub add_int : ℤ → ℤ → ℤ
unfolding ◌+ℤ◌ wrap_int
add_int a b = wrap_int (a +ℤ b)

unfoldable pub sub_int : ℤ → ℤ → ℤ
unfolding ◌-ℤ◌ wrap_int
sub_int a b = wrap_int (a -ℤ b)

pub eq_int_iff : (a b : ℤ) → (eq_int a b ≡ true) ↔ (a ≡ b)
eq_int_iff a b = ground arith

pub eq_int_self : (a : ℤ) → eq_int a a ≡ true
eq_int_self a = ground arith

pub +ℤ_parts :
    (a b : ℤ)
    → pos_part (a +ℤ b) + neg_part a + neg_part b ≡ neg_part (a +ℤ b) + pos_part a + pos_part b
unfolding ◌+ℤ◌
+ℤ_parts a b = ground arith

pub add_int-sub_int : (a b : ℤ) → IsInt a → IsInt b → add_int (sub_int a b) b ≡ a
unfolding sub_int add_int
add_int-sub_int a b p q = ground arith

pub add_int-IsInt : (a b : ℤ) → IsInt (add_int a b)
unfolding add_int wrap_int
add_int-IsInt a b = ground arith

-- One more and one less of a number that is small enough.
pub add_int-pos : (n : ℕ) → n + 1 < 2 ^ 31 → add_int (pos n) (pos 1) ≡ pos (n + 1)
unfolding add_int
add_int-pos n h = ground arith

pub sub_int-pos : (n : ℕ) → n + 1 < 2 ^ 31 → sub_int (pos (suc n)) (pos 1) ≡ pos n
unfolding sub_int
sub_int-pos n h = ground arith

pub lt_int-pos : (n : ℕ) → lt_int (pos n) (pos 0) ≡ false
lt_int-pos n = ground arith

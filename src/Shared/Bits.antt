-- ===== src/Shared/Bits.antt =====
-- Facts about `bit_or` at variables, which the tactics take for an unknown: the law for the lowest
-- digit, and from it what it does to a number's low and high digits.
use Prim.Native.Nat.{
  ℕ, zero, suc, ◌+◌, ◌*◌, ◌/◌, ◌%◌, ◌≤◌, ◌<◌, max, bit_or, digits, bit_or-bitwise,
}
use mathlib.Core.Path.{◌≡◌, refl, ap, ◌∙◌}
use native.Mathlib.Omega.{arith}

abbrev or_digits : ℕ → ℕ → ℕ → ℕ
or_digits n a b = digits (λ b. b) max n a b

or_digits_fuel : (n m a b : ℕ) → a ≤ n → a ≤ m → or_digits n a b ≡ or_digits m a b
or_digits_fuel zero zero a b p q = refl
or_digits_fuel zero (suc m) zero b p q = refl
or_digits_fuel zero (suc m) (suc a) b p q = absurd (omega arith)
or_digits_fuel (suc n) zero zero b p q = refl
or_digits_fuel (suc n) zero (suc a) b p q = absurd (omega arith)
or_digits_fuel (suc n) (suc m) zero b p q = refl
or_digits_fuel (suc n) (suc m) (suc a) b p q =
    omega (arith, or_digits_fuel n m (suc a / 2) (b / 2) (omega arith) (omega arith))

pub zero-bit_or : (b : ℕ) → bit_or 0 b ≡ b
zero-bit_or b = bit_or-bitwise 0 b

pub bit_or_step : (a b : ℕ) → bit_or a b ≡ bit_or (a / 2) (b / 2) * 2 + max (a % 2) (b % 2)
bit_or_step zero b = omega (arith, zero-bit_or b, zero-bit_or (b / 2))
bit_or_step (suc a) b = omega (
  arith,
  bit_or-bitwise (suc a) b,
  bit_or-bitwise (suc a / 2) (b / 2),
  or_digits_fuel a (suc a / 2) (suc a / 2) (b / 2) (omega arith) (omega arith),
)

bit_or-zero_fuel : (n a : ℕ) → a ≤ n → bit_or a 0 ≡ a
bit_or-zero_fuel n zero h = refl
bit_or-zero_fuel zero (suc a) h = absurd (omega arith)
bit_or-zero_fuel (suc n) (suc a) h =
    omega (arith, bit_or_step (suc a) 0, bit_or-zero_fuel n (suc a / 2) (omega arith))

pub bit_or-zero : (a : ℕ) → bit_or a 0 ≡ a
bit_or-zero a = bit_or-zero_fuel a a (omega arith)

or_eq : {a b c d : ℕ} → a ≡ c → b ≡ d → bit_or a b ≡ bit_or c d
or_eq p q = cc

-- Without its last `n` binary digits.
abbrev shifted : ℕ → ℕ → ℕ
shifted zero a = a
shifted (suc n) a = shifted n (a / 2)

-- The last `n` binary digits.
abbrev lowest : ℕ → ℕ → ℕ
lowest zero a = 0
lowest (suc n) a = lowest n (a / 2) * 2 + a % 2

half-bit_or : (a b : ℕ) → bit_or a b / 2 ≡ bit_or (a / 2) (b / 2)
half-bit_or a b = omega (arith, bit_or_step a b)

shifted-bit_or : (n a b : ℕ) → shifted n (bit_or a b) ≡ bit_or (shifted n a) (shifted n b)
shifted-bit_or zero a b = refl
shifted-bit_or (suc n) a b = rw (half-bit_or a b) (shifted-bit_or n (a / 2) (b / 2))

lowest-bit_or : (n a b : ℕ) → lowest n (bit_or a b) ≡ bit_or (lowest n a) (lowest n b)
lowest-bit_or zero a b = refl
lowest-bit_or (suc n) a b = omega (
  arith,
  half-bit_or a b,
  bit_or_step a b,
  ap (lowest n) (half-bit_or a b),
  lowest-bit_or n (a / 2) (b / 2),
  bit_or_step (lowest (suc n) a) (lowest (suc n) b),
  or_eq (half_lowest n a) (half_lowest n b),
)
  where
    half_lowest : (n a : ℕ) → lowest (suc n) a / 2 ≡ lowest n (a / 2)
    half_lowest n a = omega arith

-- The page number and the offset in a page.
pub page-bit_or : (a b : ℕ) → bit_or a b / 4096 ≡ bit_or (a / 4096) (b / 4096)
page-bit_or a b = omega (
  arith,
  shifted-bit_or 12 a b,
  shifted_page (bit_or a b),
  or_eq (shifted_page a) (shifted_page b),
)
  where
    shifted_page : (a : ℕ) → shifted 12 a ≡ a / 4096
    shifted_page a = omega arith

pub offset-bit_or : (a b : ℕ) → bit_or a b % 4096 ≡ bit_or (a % 4096) (b % 4096)
offset-bit_or a b = omega (
  arith,
  lowest-bit_or 12 a b,
  lowest_offset (bit_or a b),
  or_eq (lowest_offset a) (lowest_offset b),
)
  where
    lowest_offset : (a : ℕ) → lowest 12 a ≡ a % 4096
    lowest_offset a = omega arith

-- The flags of an entry are the digits that a page's address does not have.
pub page_address-bit_or : (a b : ℕ) → a % 4096 ≡ 0 → b < 4096 → bit_or a b ≡ a + b
page_address-bit_or a b h l = omega (
  arith,
  page-bit_or a b,
  offset-bit_or a b,
  bit_or-zero (a / 4096),
  zero-bit_or b,
  ap (bit_or (a / 4096)) digit,
  or_eq h rest,
)
  where
    digit : b / 4096 ≡ 0
    digit = omega arith

    rest : b % 4096 ≡ b
    rest = omega arith

pub page_flags-bit_or :
    (a f g : ℕ)
    → a % 4096 ≡ 0
    → f < 4096
    → g < 4096
    → (bit_or (a + f) g ≡ a + bit_or f g) × (bit_or f g < 4096)
page_flags-bit_or a f g h l l' = (omega (arith, high, low, bounded), omega (arith, bounded))
  where
    zero_digit : g / 4096 ≡ 0
    zero_digit = omega arith

    high : bit_or (a + f) g / 4096 ≡ (a + f) / 4096
    high =
        page-bit_or (a + f) g
        ∙ ap (bit_or ((a + f) / 4096)) zero_digit
        ∙ bit_or-zero ((a + f) / 4096)

    rest : (a + f) % 4096 ≡ f
    rest = omega arith

    rest' : g % 4096 ≡ g
    rest' = omega arith

    low : bit_or (a + f) g % 4096 ≡ bit_or f g
    low = offset-bit_or (a + f) g ∙ or_eq rest rest'

    bounded : bit_or f g < 4096
    bounded = omega (arith, low)

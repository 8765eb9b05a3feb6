-- ===== src/Prelude/Bits.antt =====
-- The bit operations of the machine words as arithmetic: masks, shifts into free bits, complements.
use Prim.Native.Nat.{ℕ, zero, suc, ◌+◌, ◌-◌, ◌*◌, ◌/◌, ◌%◌, ◌^◌, ◌≤◌, ◌<◌, min, max}
use Prim.Native.Nat.{bit_and, bit_or, bit_xor, digits, bitwise, differ}
use Prim.Native.Nat.{bit_and-bitwise, bit_or-bitwise, bit_xor-bitwise}
use mathlib.Core.Path.{◌≡◌, refl, ap}
use native.Mathlib.Nat.{pow-suc, one-le-pow}
use native.Mathlib.Omega.{arith}

-- `bitwise` recurs on the digits with the first number as its fuel; any larger fuel does as well.
module _ (z : ℕ → ℕ) (op : ℕ → ℕ → ℕ) where
  more_fuel : (n m a b : ℕ) → a ≤ n → a ≤ m → digits z op n a b ≡ digits z op m a b
  more_fuel zero zero a b p q = refl
  more_fuel zero (suc m) zero b p q = refl
  more_fuel (suc n) zero zero b p q = refl
  more_fuel (suc n) (suc m) zero b p q = refl
  more_fuel zero (suc m) (suc a) b p q = absurd (omega arith)
  more_fuel (suc n) zero (suc a) b p q = absurd (omega arith)
  more_fuel (suc n) (suc m) (suc a) b p q =
      ap (λ (t : ℕ). t * 2 + op (suc a % 2) (b % 2))
        (more_fuel n m (suc a / 2) (b / 2) (omega arith) (omega arith))

  first_digit :
      (a b : ℕ)
      → bitwise z op (suc a) b ≡ bitwise z op (suc a / 2) (b / 2) * 2 + op (suc a % 2) (b % 2)
  first_digit a b =
      omega (arith, more_fuel a (suc a / 2) (suc a / 2) (b / 2) (omega arith) (omega arith))

or_digit : (a b : ℕ) → bit_or a b ≡ bit_or (a / 2) (b / 2) * 2 + max (a % 2) (b % 2)
or_digit zero b = simp bit_or-bitwise (omega arith)
or_digit (suc a) b = simp bit_or-bitwise (first_digit (λ y. y) max a b)

and_digit : (a b : ℕ) → bit_and a b ≡ bit_and (a / 2) (b / 2) * 2 + min (a % 2) (b % 2)
and_digit zero b = simp bit_and-bitwise (omega arith)
and_digit (suc a) b = simp bit_and-bitwise (first_digit (λ y. 0) min a b)

xor_digit : (a b : ℕ) → bit_xor a b ≡ bit_xor (a / 2) (b / 2) * 2 + differ (a % 2) (b % 2)
xor_digit zero b = simp bit_xor-bitwise (omega arith)
xor_digit (suc a) b = simp bit_xor-bitwise (first_digit (λ y. y) differ a b)

zero_or : (b : ℕ) → bit_or 0 b ≡ b
zero_or b = bit_or-bitwise 0 b

-- A number shifted above the bits of another one is added by `|`.
pub bit_or_above : (k a b : ℕ) → a < 2 ^ k → bit_or a (b * 2 ^ k) ≡ a + b * 2 ^ k
bit_or_above zero zero b h = omega (arith, zero_or (b * 2 ^ 0))
bit_or_above zero (suc a) b h = absurd (omega arith)
bit_or_above (suc k) a b h = omega (
  arith,
  or_digit a (b * 2 ^ suc k),
  ap (λ (t : ℕ). b * t) (pow-suc 2 k),
  ap (λ (t : ℕ). bit_or (a / 2) t)
      (halve (b * 2 ^ suc k) (b * 2 ^ k) (omega (arith, ap (λ (t : ℕ). b * t) (pow-suc 2 k)))),
  bit_or_above k (a / 2) b (omega (arith, pow-suc 2 k)),
)
  where
    halve : (n m : ℕ) → n ≡ 2 * m → n / 2 ≡ m
    halve n m e = omega arith

and_zero : (n a : ℕ) → a ≤ n → bit_and a 0 ≡ 0
and_zero n zero h = bit_and-bitwise 0 0
and_zero zero (suc a) h = absurd (omega arith)
and_zero (suc n) (suc a) h =
    omega (arith, and_digit (suc a) 0, and_zero n (suc a / 2) (omega arith))

and_one : (a : ℕ) → bit_and a 1 ≡ a % 2
and_one a = omega (arith, and_digit a 1, and_zero (a / 2) (a / 2) (omega arith))

and_seven : (a : ℕ) → bit_and a 7 ≡ a % 8
and_seven a = omega (arith, and_digit a 7, and_digit (a / 2) 3, and_one (a / 2 / 2))

-- `a & 0x7F`.
pub bit_and_low7 : (a : ℕ) → bit_and a 0x7f ≡ a % 128
bit_and_low7 a = omega (
  arith,
  and_digit a 127,
  and_digit (a / 2) 63,
  and_digit (a / 2 / 2) 31,
  and_digit (a / 2 / 2 / 2) 15,
  and_seven (a / 2 / 2 / 2 / 2),
)

pub bit_and_low1 : (a : ℕ) → bit_and a 1 ≡ a % 2
bit_and_low1 a = and_one a

and_eight : (a : ℕ) → bit_and a 8 ≡ a / 8 % 2 * 8
and_eight a =
    omega
      (arith, and_digit a 8, and_digit (a / 2) 4, and_digit (a / 2 / 2) 2, and_one (a / 2 / 2 / 2))

-- `a & 0x80`.
pub bit_and_bit7 : (a : ℕ) → bit_and a 0x80 ≡ a / 128 % 2 * 128
bit_and_bit7 a = omega (
  arith,
  and_digit a 128,
  and_digit (a / 2) 64,
  and_digit (a / 2 / 2) 32,
  and_digit (a / 2 / 2 / 2) 16,
  and_eight (a / 2 / 2 / 2 / 2),
)

-- `a | 0x80` for a number of seven bits.
pub bit_or_bit7 : (a : ℕ) → a < 128 → bit_or a 0x80 ≡ a + 128
bit_or_bit7 a h = bit_or_above 7 a 1 h

xor_zero_fuel : (n a : ℕ) → a ≤ n → bit_xor a 0 ≡ a
xor_zero_fuel n zero h = bit_xor-bitwise 0 0
xor_zero_fuel zero (suc a) h = absurd (omega arith)
xor_zero_fuel (suc n) (suc a) h = omega (
  arith,
  xor_digit (suc a) 0,
  xor_zero_fuel n (suc a / 2) (omega arith),
  differ_zero (suc a % 2) (omega arith),
)
  where
    differ_zero : (d : ℕ) → d < 2 → differ d 0 ≡ d
    differ_zero zero p = refl
    differ_zero (suc zero) p = refl
    differ_zero (suc (suc d)) p = absurd (omega arith)

pub bit_xor_zero : (a : ℕ) → bit_xor a 0 ≡ a
bit_xor_zero a = xor_zero_fuel a a (omega arith)

differ_one : (d : ℕ) → d < 2 → differ d 1 + d ≡ 1
differ_one zero p = refl
differ_one (suc zero) p = refl
differ_one (suc (suc d)) p = absurd (omega arith)

-- `^ 1` sets the free lowest bit.
pub bit_xor_one : (a : ℕ) → bit_xor (2 * a) 1 ≡ 2 * a + 1
bit_xor_one a = omega (
  arith,
  xor_digit (2 * a) 1,
  ap (λ (t : ℕ). bit_xor t 0) (let e : 2 * a / 2 ≡ a = omega arith in e),
  ap (λ (t : ℕ). differ t 1) (let e : 2 * a % 2 ≡ 0 = omega arith in e),
  bit_xor_zero a,
)

-- `^` with all ones is the complement.
pub bit_xor_ones : (k a : ℕ) → a < 2 ^ k → bit_xor a (2 ^ k - 1) + a ≡ 2 ^ k - 1
bit_xor_ones zero zero h = bit_xor-bitwise 0 0
bit_xor_ones zero (suc a) h = absurd (omega arith)
bit_xor_ones (suc k) a h = omega (
  arith,
  xor_digit a (2 ^ suc k - 1),
  ap (λ (t : ℕ). bit_xor (a / 2) t) (half_ones k),
  ap (λ (t : ℕ). differ (a % 2) t) (odd_ones k),
  differ_one (a % 2) (omega arith),
  bit_xor_ones k (a / 2) (omega (arith, pow-suc 2 k)),
  pow-suc 2 k,
  one-le-pow k 2,
)
  where
    half_ones : (k : ℕ) → (2 ^ suc k - 1) / 2 ≡ 2 ^ k - 1
    half_ones k = omega (arith, pow-suc 2 k, one-le-pow k 2)

    odd_ones : (k : ℕ) → (2 ^ suc k - 1) % 2 ≡ 1
    odd_ones k = omega (arith, pow-suc 2 k, one-le-pow k 2)

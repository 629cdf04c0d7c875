-- ===== src/Base/Bits.antt =====
-- `&` with a mask of low ones and `|` of disjoint fields, as arithmetic.
use Prim.Native.Nat.{
  ℕ, zero, suc, ◌+◌, ◌*◌, ◌/◌, ◌%◌, ◌^◌, ◌≤◌, ◌<◌, min, max, bit_and, bit_or, digits,
  bit_and-bitwise, bit_or-bitwise,
}
use mathlib.Core.Path.{◌≡◌, refl, ap}
use mathlib.Core.Bool.{Bool, true, ◌&&◌}
use native.Mathlib.Nat.{pow-suc}
use native.Mathlib.Omega.{arith}

-- Over a small range, check every value by evaluation.
unfoldable pub all_below : ℕ → (ℕ → Bool) → Bool
all_below zero test = true
all_below (suc top) test = test top && all_below top test

pub all_below_sound :
    (top : ℕ) (test : ℕ → Bool) (i : ℕ) → all_below top test ≡ true → i < top → test i ≡ true
unfolding all_below
all_below_sound zero test i every below = absurd (omega arith)
all_below_sound (suc top) test i every below = ground (arith, all_below_sound top test i)

-- One binary digit of an operation that is defined digit by digit; more fuel changes nothing.
module _ (z : ℕ → ℕ) (f : ℕ → ℕ → ℕ) where
  enough_fuel : (k l i j : ℕ) → i ≤ k → i ≤ l → digits z f k i j ≡ digits z f l i j
  enough_fuel zero zero i j h g = refl
  enough_fuel (suc k) (suc l) (suc i) j h g =
      omega (arith, enough_fuel k l (suc i / 2) (j / 2) (omega arith) (omega arith))
  enough_fuel (suc k) (suc l) zero j h g = refl
  enough_fuel zero (suc l) zero j h g = refl
  enough_fuel (suc k) zero zero j h g = refl
  enough_fuel zero (suc l) (suc i) j h g = absurd (omega arith)
  enough_fuel (suc k) zero (suc i) j h g = absurd (omega arith)

pub zero-bit_and : (b : ℕ) → bit_and 0 b ≡ 0
zero-bit_and b = bit_and-bitwise 0 b

zero-bit_or : (b : ℕ) → bit_or 0 b ≡ b
zero-bit_or b = bit_or-bitwise 0 b

pub bit_and_digit : (a b : ℕ) → bit_and a b ≡ bit_and (a / 2) (b / 2) * 2 + min (a % 2) (b % 2)
bit_and_digit zero b = omega (arith, zero-bit_and b, zero-bit_and (b / 2))
bit_and_digit (suc a) b = omega (
  arith,
  bit_and-bitwise (suc a) b,
  bit_and-bitwise (suc a / 2) (b / 2),
  enough_fuel (λ y. 0) min a (suc a / 2) (suc a / 2) (b / 2) (omega arith) (omega arith),
)

pub bit_or_digit : (a b : ℕ) → bit_or a b ≡ bit_or (a / 2) (b / 2) * 2 + max (a % 2) (b % 2)
bit_or_digit zero b = omega (arith, zero-bit_or b, zero-bit_or (b / 2))
bit_or_digit (suc a) b = omega (
  arith,
  bit_or-bitwise (suc a) b,
  bit_or-bitwise (suc a / 2) (b / 2),
  enough_fuel (λ y. y) max a (suc a / 2) (suc a / 2) (b / 2) (omega arith) (omega arith),
)

and_zero_fuel : (n a : ℕ) → a ≤ n → bit_and a 0 ≡ 0
and_zero_fuel n zero h = zero-bit_and 0
and_zero_fuel zero (suc a) h = absurd (omega arith)
and_zero_fuel (suc n) (suc a) h =
    omega (arith, bit_and_digit (suc a) 0, and_zero_fuel n (suc a / 2) (omega arith))

or_zero_fuel : (n a : ℕ) → a ≤ n → bit_or a 0 ≡ a
or_zero_fuel n zero h = zero-bit_or 0
or_zero_fuel zero (suc a) h = absurd (omega arith)
or_zero_fuel (suc n) (suc a) h =
    omega (arith, bit_or_digit (suc a) 0, or_zero_fuel n (suc a / 2) (omega arith))

pub bit_or-zero : (a : ℕ) → bit_or a 0 ≡ a
bit_or-zero a = or_zero_fuel a a (omega arith)

pub bit_and-zero : (a : ℕ) → bit_and a 0 ≡ 0
bit_and-zero a = and_zero_fuel a a (omega arith)

-- Each mask of ones from the one that is a digit shorter.
pub and_1 : (a : ℕ) → bit_and a 1 ≡ a % 2
and_1 a = omega (arith, bit_and_digit a 1, and_zero_fuel (a / 2) (a / 2) (omega arith))

pub and_3 : (a : ℕ) → bit_and a 3 ≡ a % 4
and_3 a = omega (arith, bit_and_digit a 3, and_1 (a / 2))

pub and_7 : (a : ℕ) → bit_and a 7 ≡ a % 8
and_7 a = omega (arith, bit_and_digit a 7, and_3 (a / 2))

pub and_15 : (a : ℕ) → bit_and a 0x0f ≡ a % 16
and_15 a = omega (arith, bit_and_digit a 15, and_7 (a / 2))

pub and_31 : (a : ℕ) → bit_and a 0x1f ≡ a % 32
and_31 a = omega (arith, bit_and_digit a 31, and_15 (a / 2))

pub and_63 : (a : ℕ) → bit_and a 0x3f ≡ a % 64
and_63 a = omega (arith, bit_and_digit a 63, and_31 (a / 2))

pub and_127 : (a : ℕ) → bit_and a 0x7f ≡ a % 128
and_127 a = omega (arith, bit_and_digit a 127, and_63 (a / 2))

pub and_255 : (a : ℕ) → bit_and a 0xff ≡ a % 256
and_255 a = omega (arith, bit_and_digit a 255, and_127 (a / 2))

-- `(q << k) | r` is a sum where `r` has at most `k` digits.
pub or_fields : (k q r s : ℕ) → s ≡ q * 2 ^ k → r < 2 ^ k → bit_or s r ≡ s + r
or_fields zero q r s e h = let z : r ≡ 0 = omega arith in rw (z, bit_or-zero) (omega arith)
or_fields (suc k) q r s e h =
    let p : 2 ^ suc k ≡ 2 ^ k * 2 = pow-suc 2 k in
    let double : s ≡ q * 2 ^ k * 2 = omega (arith, ap (λ (t : ℕ). q * t) p) in
    let half = or_fields k q (r / 2) (s / 2) (omega arith) (omega arith) in
    omega (arith, bit_or_digit s r, half)

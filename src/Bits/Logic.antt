-- ===== src/Bits/Logic.antt =====
-- `&` with a mask of low bits and `|` of disjoint fields, as arithmetic, at every width.
-- The native operations mean a recursion on binary digits with the first number as fuel; any
-- sufficient fuel gives the same digits, which leaves one equation for the lowest digit.
use Prim.Native.Nat.{min, max, digits, bit_and-bitwise, bit_or-bitwise}
use native.Mathlib.Nat.{pow-suc, one-le-pow}
use raspdif.Prelude.{ℕ, zero, suc, ◌+◌, ◌-◌, ◌*◌, ◌/◌, ◌%◌, ◌^◌, ◌≤◌, ◌<◌, ◌≡◌, refl, ap, arith}
use raspdif.Prelude.{bit_and, bit_or}
use raspdif.Bits.Digits.{double_pow}

module _ (z : ℕ → ℕ) (f : ℕ → ℕ → ℕ) where
  out_of_digits : (n b : ℕ) → digits z f n zero b ≡ z b
  out_of_digits zero b = refl
  out_of_digits (suc n) b = refl

  same_digits : (a n m b : ℕ) → a ≤ n → a ≤ m → digits z f n a b ≡ digits z f m a b
  same_digits zero n m b h k = rw (out_of_digits n b, out_of_digits m b)
  same_digits (suc a) zero m b h k = absurd (omega arith)
  same_digits (suc a) (suc n) zero b h k = absurd (omega arith)
  same_digits (suc a) (suc n) (suc m) b h k =
      ap (λ t. t * 2 + f (suc a % 2) (b % 2))
        (same_digits (suc a / 2) n m (b / 2) (omega arith) (omega arith))

pub bit_and_digit : (x y : ℕ) → bit_and x y ≡ bit_and (x / 2) (y / 2) * 2 + min (x % 2) (y % 2)
bit_and_digit zero y = omega (arith, bit_and-bitwise 0 y, bit_and-bitwise 0 (y / 2))
bit_and_digit (suc x) y = omega (
  arith,
  bit_and-bitwise (suc x) y,
  bit_and-bitwise (suc x / 2) (y / 2),
  same_digits (λ t. 0) min (suc x / 2) x (suc x / 2) (y / 2) (omega arith) (omega arith),
)

pub bit_or_digit : (x y : ℕ) → bit_or x y ≡ bit_or (x / 2) (y / 2) * 2 + max (x % 2) (y % 2)
bit_or_digit zero y = omega (arith, bit_or-bitwise 0 y, bit_or-bitwise 0 (y / 2))
bit_or_digit (suc x) y = omega (
  arith,
  bit_or-bitwise (suc x) y,
  bit_or-bitwise (suc x / 2) (y / 2),
  same_digits (λ t. t) max (suc x / 2) x (suc x / 2) (y / 2) (omega arith) (omega arith),
)

-- Laws that go from `x / 2` to `x`: induction on a bound of `x`.
bit_and-zero_below : (fuel x : ℕ) → x ≤ fuel → bit_and x 0 ≡ 0
bit_and-zero_below fuel zero bound = refl
bit_and-zero_below zero (suc x) bound = absurd (omega arith)
bit_and-zero_below (suc fuel) (suc x) bound =
    omega (arith, bit_and_digit (suc x) 0, bit_and-zero_below fuel (suc x / 2) (omega arith))

bit_or-zero_below : (fuel x : ℕ) → x ≤ fuel → bit_or x 0 ≡ x
bit_or-zero_below fuel zero bound = refl
bit_or-zero_below zero (suc x) bound = absurd (omega arith)
bit_or-zero_below (suc fuel) (suc x) bound =
    omega (arith, bit_or_digit (suc x) 0, bit_or-zero_below fuel (suc x / 2) (omega arith))

-- `(q << k) | r` is a sum when `r` fits in `k` bits.
pub bit_or_fields : (k q r : ℕ) → r < 2 ^ k → bit_or (q * 2 ^ k) r ≡ q * 2 ^ k + r
bit_or_fields zero q r h = ground (arith, bit_or-zero_below (q * 1) (q * 1))
bit_or_fields (suc k) q r h = ground (
  arith,
  bit_or_digit (q * 2 ^ suc k) r,
  double_pow q k,
  pow-suc 2 k,
  bit_or_fields k q (r / 2) (omega (arith, pow-suc 2 k)),
)

bit_and_fields : (k q r : ℕ) → r < 2 ^ k → bit_and (q * 2 ^ k + r) (2 ^ k - 1) ≡ r
bit_and_fields zero q r h = ground (arith, bit_and-zero_below (q * 1 + r) (q * 1 + r))
bit_and_fields (suc k) q r h = ground (
  arith,
  bit_and_digit (q * 2 ^ suc k + r) (2 ^ suc k - 1),
  double_pow q k,
  pow-suc 2 k,
  bit_and_fields k q (r / 2) (omega (arith, pow-suc 2 k)),
)

-- `x & (2^k - 1)` is the remainder by `2^k`.
pub bit_and_mask : (k x : ℕ) → bit_and x (2 ^ k - 1) ≡ x % 2 ^ k
bit_and_mask k x = ground (arith, one-le-pow k 2, bit_and_fields k (x / 2 ^ k) (x % 2 ^ k))

-- ===== src/Bits/Digits.antt =====
-- The binary digits of a word, the lowest first, and the two compiler intrinsics that act on
-- them: `__builtin_popcount` and `__rbit`.
use mathlib.Core.List.{reverse-cons, reverse-reverse}
use mathlib.Core.Path.{subst}
use native.Mathlib.Nat.{pow-suc, div-div-eq-div-mul, mul-add-div_right, div-eq_of_lt}
use raspdif.Prelude.{ℕ, zero, suc, ◌+◌, ◌*◌, ◌/◌, ◌%◌, ◌^◌, ◌<◌, ◌≡◌, refl, sym, ap, ◌∙◌, arith}
use raspdif.Prelude.{Bool, true, false, List, [], ◌∷◌, ◌++◌, reverse, length, length-append, ◌==◌}

unfoldable pub odd : ℕ → Bool
odd x = x % 2 == 1

abbrev pub digit : Bool → ℕ
digit true = 1
digit false = 0

-- The `n` lowest digits of `x`, bit 0 first.
unfoldable pub bits : ℕ → ℕ → List Bool
unfolding odd
bits zero x = []
bits (suc n) x = odd x ∷ bits n (x / 2)

-- The number that the digits stand for.
unfoldable pub val : List Bool → ℕ
val [] = 0
val (b ∷ bs) = digit b + 2 * val bs

unfoldable pub ones : List Bool → ℕ
ones [] = 0
ones (b ∷ bs) = digit b + ones bs

-- `__builtin_popcount` of a 32-bit word.
unfoldable pub popcount : ℕ → ℕ
unfolding bits ones
popcount x = ones (bits 32 x)

-- `__rbit`: the 32 bits in the opposite order.
unfoldable pub rbit : ℕ → ℕ
unfolding bits val
rbit x = val (reverse (bits 32 x))

pub popcount_lem : (x : ℕ) → popcount x ≡ ones (bits 32 x)
unfolding popcount
popcount_lem x = refl

pub digit-odd : (x : ℕ) → digit (odd x) ≡ x % 2
unfolding odd
digit-odd x = ground arith

pub length-bits : (n x : ℕ) → length (bits n x) ≡ n
unfolding bits
length-bits zero x = refl
length-bits (suc n) x = ap suc (length-bits n (x / 2))

pub length-reverse {ℓ} : {A : Type ℓ} (xs : List A) → length (reverse xs) ≡ length xs
length-reverse [] = refl
length-reverse (x ∷ xs) =
    rw reverse-cons (omega (arith, length-append (reverse xs) (x ∷ []), length-reverse xs))

pub odd_of_mod : (x y : ℕ) → x % 2 ≡ y % 2 → odd x ≡ odd y
unfolding odd
odd_of_mod x y h = rw h

pow-two-suc : (n : ℕ) → 2 ^ suc n ≡ 2 * 2 ^ n
pow-two-suc n = omega (arith, pow-suc 2 n)

pub double_pow : (q k : ℕ) → q * 2 ^ suc k ≡ 2 * (q * 2 ^ k)
double_pow q k = omega (arith, ap (λ (t : ℕ). q * t) (pow-suc 2 k))

-- What stands above the digits does not matter to them.
pub bits-add_high : (n q r : ℕ) → bits n (q * 2 ^ n + r) ≡ bits n r
unfolding bits
bits-add_high zero q r = refl
bits-add_high (suc n) q r =
    let half : (q * 2 ^ suc n + r) / 2 ≡ q * 2 ^ n + r / 2 = omega (arith, double_pow q n) in
    let low : odd (q * 2 ^ suc n + r) ≡ odd r = odd_of_mod _ _ (omega (arith, double_pow q n)) in
    rw (half, low) (ap (λ t. odd r ∷ t) (bits-add_high n q (r / 2)))

pub bits-mod : (n x : ℕ) → bits n (x % 2 ^ n) ≡ bits n x
bits-mod n x = sym (bits-add_high n (x / 2 ^ n) (x % 2 ^ n)) ∙ ap (bits n) (omega arith)

-- The digits of a word are those of its low part followed by those of its high part.
pub bits-split : (n m k x : ℕ) → n + m ≡ k → bits k x ≡ bits n x ++ bits m (x / 2 ^ n)
unfolding bits
bits-split zero m k x e =
    let e' : k ≡ m = omega arith in let d : x / 2 ^ 0 ≡ x = omega arith in rw (e', d)
bits-split (suc n) m zero x e = absurd (omega arith)
bits-split (suc n) m (suc k) x e =
    rw (pow-two-suc n, ← div-div-eq-div-mul)
      (ap (λ t. odd x ∷ t) (bits-split n m k (x / 2) (omega arith)))

-- A low field below a high one.
pub bits_fields :
    (n m k lo hi : ℕ) → n + m ≡ k → lo < 2 ^ n → bits k (hi * 2 ^ n + lo) ≡ bits n lo ++ bits m hi
bits_fields n m k lo hi e h =
    let high : (hi * 2 ^ n + lo) / 2 ^ n ≡ hi =
      mul-add-div_right (omega arith) hi lo ∙ omega (arith, div-eq_of_lt h) in
    rw (bits-split n m k (hi * 2 ^ n + lo) e, high, bits-add_high) refl

pub val-bits : (n x : ℕ) → x < 2 ^ n → val (bits n x) ≡ x
unfolding bits val
val-bits zero x h = omega arith
val-bits (suc n) x h =
    omega (arith, digit-odd x, pow-suc 2 n, val-bits n (x / 2) (omega (arith, pow-suc 2 n)))

halve : (b : Bool) (n : ℕ) → (digit b + 2 * n) / 2 ≡ n
halve true n = omega arith
halve false n = omega arith

low_digit : (b : Bool) (n : ℕ) → odd (digit b + 2 * n) ≡ b
unfolding odd
low_digit true n = ground arith
low_digit false n = ground arith

pub bits-val : (bs : List Bool) → bits (length bs) (val bs) ≡ bs
unfolding bits val
bits-val [] = refl
bits-val (b ∷ bs) =
    let half : (digit b + 2 * val bs) / 2 ≡ val bs = halve b (val bs) in
    let low : odd (digit b + 2 * val bs) ≡ b = low_digit b (val bs) in
    rw (half, low) (ap (λ t. b ∷ t) (bits-val bs))

pub bits-rbit : (x : ℕ) → bits 32 (rbit x) ≡ reverse (bits 32 x)
unfolding rbit
bits-rbit x =
    subst (λ n. bits n (val (reverse (bits 32 x))) ≡ reverse (bits 32 x))
      (length-reverse (bits 32 x) ∙ length-bits 32 x) (bits-val (reverse (bits 32 x)))

-- Reversing twice gives the word back.
pub reverse-bits-rbit : (x : ℕ) → reverse (bits 32 (rbit x)) ≡ bits 32 x
reverse-bits-rbit x = rw bits-rbit (reverse-reverse (bits 32 x))

val-lt : (bs : List Bool) → val bs < 2 ^ length bs
unfolding val
val-lt [] = omega arith
val-lt (true ∷ bs) = omega (arith, pow-two-suc (length bs), val-lt bs)
val-lt (false ∷ bs) = omega (arith, pow-two-suc (length bs), val-lt bs)

pub rbit-lt : (x : ℕ) → rbit x < 2 ^ 32
unfolding rbit
rbit-lt x =
    subst (λ n. val (reverse (bits 32 x)) < 2 ^ n) (length-reverse (bits 32 x) ∙ length-bits 32 x)
      (val-lt (reverse (bits 32 x)))

-- ===== src/Bits/Single.antt =====
-- Single bits of `&` and `|`, and of the masks of one bit in 32.
use native.Mathlib.Nat.{pow-succ', div-div-eq-div-mul}
use Prim.Native.Nat.{min, max}
use raspdif.Prelude.{ℕ, zero, suc, ◌/◌, ◌%◌, ◌^◌, ◌<◌, ◌≡◌, refl, sym, ap, ◌∙◌, arith}
use raspdif.Prelude.{true, ◌==◌, ==_iff, if◌then◌else◌, bit_and, bit_or, bit_xor}
use raspdif.Bits.Logic.{bit_and_digit, bit_or_digit}
use raspdif.Bits.Table.{every_below, every_below_at}

-- Bit `i` of a word.
abbrev pub bit_of : ℕ → ℕ → ℕ
bit_of i word = word / 2 ^ i % 2

pub bit_of-suc : (i word : ℕ) → bit_of (suc i) word ≡ bit_of i (word / 2)
bit_of-suc i word =
    ap (λ t. t % 2) (ap (λ k. word / k) (pow-succ' 2 i) ∙ sym (div-div-eq-div-mul word 2 (2 ^ i)))

pub bit_of-bit_or : (i a b : ℕ) → bit_of i (bit_or a b) ≡ max (bit_of i a) (bit_of i b)
bit_of-bit_or zero a b = omega (arith, bit_or_digit a b)
bit_of-bit_or (suc i) a b =
    let half : bit_or a b / 2 ≡ bit_or (a / 2) (b / 2) = omega (arith, bit_or_digit a b) in
    rw (bit_of-suc i (bit_or a b), bit_of-suc i a, bit_of-suc i b, half)
      (bit_of-bit_or i (a / 2) (b / 2))

pub bit_of-bit_and : (i a b : ℕ) → bit_of i (bit_and a b) ≡ min (bit_of i a) (bit_of i b)
bit_of-bit_and zero a b = omega (arith, bit_and_digit a b)
bit_of-bit_and (suc i) a b =
    let half : bit_and a b / 2 ≡ bit_and (a / 2) (b / 2) = omega (arith, bit_and_digit a b) in
    rw (bit_of-suc i (bit_and a b), bit_of-suc i a, bit_of-suc i b, half)
      (bit_of-bit_and i (a / 2) (b / 2))

mask_table :
    every_below 32 (λ k. every_below 32 (λ i. bit_of i (2 ^ k) == (if i == k then 1 else 0))) ≡ true
unfolding every_below
mask_table = refl

pub bit_of-mask : (k i : ℕ) → k < 32 → i < 32 → bit_of i (2 ^ k) ≡ (if i == k then 1 else 0)
bit_of-mask k i hk hi =
    (==_iff _ _).0 (every_below_at 32 _ i (every_below_at 32 _ k mask_table hk) hi)

complement_table :
    every_below 32 (λ k.
      every_below 32 (λ i. bit_of i (bit_xor (2 ^ k) 0xFFFF_FFFF) == (if i == k then 0 else 1)))
    ≡ true
unfolding every_below
complement_table = refl

pub bit_of-complement :
    (k i : ℕ) → k < 32 → i < 32 → bit_of i (bit_xor (2 ^ k) 0xFFFF_FFFF) ≡ (if i == k then 0 else 1)
bit_of-complement k i hk hi =
    (==_iff _ _).0 (every_below_at 32 _ i (every_below_at 32 _ k complement_table hk) hi)

-- Setting and clearing one bit of 32.
pub bit_of-set :
    (k i word : ℕ)
    → k < 32
    → i < 32
    → bit_of i (bit_or word (2 ^ k)) ≡ (if i == k then 1 else bit_of i word)
bit_of-set k i word hk hi = rw (bit_of-bit_or i word (2 ^ k), bit_of-mask k i hk hi) (ground arith)

pub bit_of-clear :
    (k i word : ℕ)
    → k < 32
    → i < 32
    → bit_of i (bit_and word (bit_xor (2 ^ k) 0xFFFF_FFFF)) ≡ (if i == k then 0 else bit_of i word)
bit_of-clear k i word hk hi =
    rw (bit_of-bit_and i word (bit_xor (2 ^ k) 0xFFFF_FFFF), bit_of-complement k i hk hi)
      (ground arith)

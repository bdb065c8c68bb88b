-- ===== src/Bits/Table.antt =====
-- Facts over a small range, checked value by value.
use mathlib.Core.Path.{ap₂}
use raspdif.Prelude.{ℕ, zero, suc, ◌<◌, ◌≡◌, refl, arith, Bool, true, false, ◌&&◌}
use raspdif.Prelude.{List, [], ◌∷◌}

-- The test holds of every number below the bound.
unfoldable pub every_below : ℕ → (ℕ → Bool) → Bool
every_below zero test = true
every_below (suc k) test = every_below k test && test k

pub every_below_at :
    (k : ℕ) (test : ℕ → Bool) (i : ℕ) → every_below k test ≡ true → i < k → test i ≡ true
unfolding every_below
every_below_at zero test i passed small = absurd (omega arith)
every_below_at (suc k) test i passed small = ground (arith, every_below_at k test i)

abbrev pub same_bit : Bool → Bool → Bool
same_bit true b = b
same_bit false true = false
same_bit false false = true

abbrev pub same_bits : List Bool → List Bool → Bool
same_bits [] [] = true
same_bits [] (y ∷ ys) = false
same_bits (x ∷ xs) [] = false
same_bits (x ∷ xs) (y ∷ ys) = same_bit x y && same_bits xs ys

pub same_bit_sound : (x y : Bool) → same_bit x y ≡ true → x ≡ y
same_bit_sound x y h = ground arith

pub same_bits_sound : (xs ys : List Bool) → same_bits xs ys ≡ true → xs ≡ ys
same_bits_sound [] [] h = refl
same_bits_sound [] (y ∷ ys) h = ground arith
same_bits_sound (x ∷ xs) [] h = ground arith
same_bits_sound (x ∷ xs) (y ∷ ys) h =
    ap₂ ◌∷◌ (same_bit_sound x y (ground arith)) (same_bits_sound xs ys (ground arith))

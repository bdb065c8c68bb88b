-- ===== src/Spdif/Line.antt =====
-- What the line code is, independently of the encoder: biphase mark coding bit by bit, and the
-- receiver that reads it back. The comments of source/spdif.c state the rule: the first half of
-- a cell always differs from the state before, the second half repeats it for 0 and differs for 1.
use raspdif.Prelude.{ℕ, ◌≡◌, refl, ap, Bool, true, false, not}
use raspdif.Prelude.{List, [], ◌∷◌, ◌++◌, Option, none, some, if◌then◌else◌, reverse}
use mathlib.Core.Option
use raspdif.Bits.{bits}

-- The order in which a word of `n` bits leaves the serialiser: the highest bit first.
abbrev pub wire : ℕ → ℕ → List Bool
wire n x = reverse (bits n x)

abbrev pub differ : Bool → Bool → Bool
differ true b = not b
differ false b = b

-- The second half of a cell, when the line stood at `l` before it.
abbrev pub second_half : Bool → Bool → Bool
second_half l b = differ (not l) b

unfoldable pub biphase : Bool → List Bool → List Bool
biphase l [] = []
biphase l (b ∷ bs) = not l ∷ second_half l b ∷ biphase (second_half l b) bs

-- Where the line stands after the cells of `bs`.
unfoldable pub level_after : Bool → List Bool → Bool
level_after l [] = l
level_after l (b ∷ bs) = level_after (second_half l b) bs

-- A receiver: a cell that does not begin with a transition is no biphase-mark data.
unfoldable pub receive : Bool → List Bool → Option (List Bool)
receive l [] = some []
receive l (x ∷ []) = none
receive l (x ∷ y ∷ r) =
    if differ l x then Option.map (λ bs. differ x y ∷ bs) (receive y r) else none

pub biphase-append :
    (l : Bool) (xs ys : List Bool)
    → biphase l (xs ++ ys) ≡ biphase l xs ++ biphase (level_after l xs) ys
unfolding biphase level_after
biphase-append l [] ys = refl
biphase-append l (b ∷ xs) ys =
    ap (λ t. not l ∷ second_half l b ∷ t) (biphase-append (second_half l b) xs ys)

pub level_after-append :
    (l : Bool) (xs ys : List Bool) → level_after l (xs ++ ys) ≡ level_after (level_after l xs) ys
unfolding level_after
level_after-append l [] ys = refl
level_after-append l (b ∷ xs) ys = level_after-append (second_half l b) xs ys

-- A receiver that knows the level of the line reads back any bits that were sent.
pub receive-biphase : (l : Bool) (bs : List Bool) → receive l (biphase l bs) ≡ some bs
unfolding biphase receive
receive-biphase l [] = refl
receive-biphase true (true ∷ bs) = rw (receive-biphase true bs)
receive-biphase true (false ∷ bs) = rw (receive-biphase false bs)
receive-biphase false (true ∷ bs) = rw (receive-biphase false bs)
receive-biphase false (false ∷ bs) = rw (receive-biphase true bs)

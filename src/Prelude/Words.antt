-- ===== src/Prelude/Words.antt =====
-- Machine words as native numbers: the casts of C by `%`, the shifts by `*` and `/`.
use Prim.Native.Nat.{ℕ, ◌+◌, ◌-◌, ◌*◌, ◌/◌, ◌%◌, ◌^◌}
use raspdif.Prelude.Tests.{ltb, if◌then◌else◌}

abbrev pub u8 : ℕ → ℕ
u8 n = n % 2 ^ 8

abbrev pub u16 : ℕ → ℕ
u16 n = n % 2 ^ 16

abbrev pub u32 : ℕ → ℕ
u32 n = n % 2 ^ 32

abbrev pub shl : ℕ → ℕ → ℕ
shl x k = x * 2 ^ k

abbrev pub shr : ℕ → ℕ → ℕ
shr x k = x / 2 ^ k

-- `-x` in 32 bits.
abbrev pub neg32 : ℕ → ℕ
neg32 x = u32 (2 ^ 32 - u32 x)

-- `x >> k` of an `int32_t` given by its bit pattern: the sign bit is copied in from the left.
abbrev pub asr32 : ℕ → ℕ → ℕ
asr32 x k = if ltb x (2 ^ 31) then shr x k else shr x k + (2 ^ 32 - 2 ^ (32 - k))

-- The 32-bit pattern of the signed number that `x` is in `w` bits, for `w` up to 32.
abbrev pub sign_extend : ℕ → ℕ → ℕ
sign_extend w x = if ltb (x % 2 ^ w) (2 ^ (w - 1)) then x % 2 ^ w else x % 2 ^ w + (2 ^ 32 - 2 ^ w)

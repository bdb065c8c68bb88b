-- ===== src/Registers.antt =====
-- Bit fields of a 32-bit register or memory word, as a little-endian compiler lays them out, and the
-- bus that the drivers reach the registers by.
pub mod Fields
use raspdif.Prelude.{List, [], ◌∷◌}
use raspdif.Prelude.{ℕ, ◌+◌, ◌*◌, ◌/◌, ◌%◌, ◌^◌}

pub record Field : Type 0 where
  pub lo : ℕ
  pub width : ℕ

abbrev pub bit_at : ℕ → Field
bit_at k = record { lo = k; width = 1 }

abbrev pub get : Field → ℕ → ℕ
get f x = x / 2 ^ f.lo % 2 ^ f.width

-- `x.f = v`: the low bits of `v` replace the field, the other bits stay.
abbrev pub put : Field → ℕ → ℕ → ℕ
put f v x =
    x / 2 ^ (f.lo + f.width) * 2 ^ (f.lo + f.width) + v % 2 ^ f.width * 2 ^ f.lo + x % 2 ^ f.lo

-- The registers of the peripherals, which hardware changes too: a read, which may take time and so
-- change the state, and a write.
pub record Bus (S : Type 0) : Type 0 where
  pub read : ℕ → S → ℕ × S
  pub write : ℕ → ℕ → S → S

-- `register->f = v` on a volatile register: the word is read, changed and written back.
abbrev pub assign : {S : Type 0} → Bus S → ℕ → Field → ℕ → S → S
assign bus address f v s =
    let (word, s') = bus.read address s in bus.write address (put f v word) s'

-- A driver function: it returns, an assertion stops it, or it is still in a loop.
pub data Driven (A : Type 0) : Type 0 where
  returned : A → Driven A
  aborted : Driven A
  looping : Driven A

-- Assignments to fields of one volatile register, in order.
abbrev pub assign_all : {S : Type 0} → Bus S → ℕ → List (Field × ℕ) → S → S
assign_all bus address [] s = s
assign_all bus address ((f, v) ∷ rest) s = assign_all bus address rest (assign bus address f v s)

-- What a call returns is passed on; a call that does not return ends the caller.
infixl 5 ◌>>=◌
abbrev pub ◌>>=◌ : {A B : Type 0} → Driven A → (A → Driven B) → Driven B
returned a >>= f = f a
aborted >>= f = aborted
looping >>= f = looping

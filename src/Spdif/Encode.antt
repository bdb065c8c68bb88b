-- ===== src/Spdif/Encode.antt =====
-- `spdif_encode_biphase_mark` against the line code of `Line`: the table walk by nibbles sends
-- each data bit as a biphase-mark cell. The child `Wire` puts the whole code word together.
pub mod Wire
use mathlib.Core.List.{append-nil, append_assoc, reverse-append}
use mathlib.Core.Path.{◌≡⟨◌⟩◌, ◌∎}
use native.Mathlib.Nat.{div-div-eq-div-mul}
use raspdif.Prelude.{ℕ, ◌+◌, ◌*◌, ◌/◌, ◌%◌, ◌^◌, ◌<◌, ◌≡◌, refl, sym, ap, ◌∙◌, arith}
use raspdif.Prelude.{Bool, true, false, ◌&&◌, List, [], ◌∷◌, ◌++◌, bit_xor, get_or}
use raspdif.Prelude.{neg32, u8, and_left, and_right}
use raspdif.Bits.{
  bits, odd, digit, digit-odd, bits-split, bits-add_high, bits-mod, bit_and_mask, every_below,
  every_below_at,
}
use raspdif.Bits.{same_bit, same_bits, same_bit_sound, same_bits_sound}
use raspdif.Spdif.{Preamble, preamble_code, bmc_lut_0, nibble, next_code, raw_of_bytes}
use raspdif.Spdif.{preamble_m, preamble_w, preamble_b}
use raspdif.Spdif.Line.{wire, biphase, level_after, biphase-append, level_after-append}

-- The code byte when the last half cell of the byte before was `q`.
code_after : ℕ → ℕ → ℕ
code_after q n = u8 (bit_xor (get_or bmc_lut_0 n 0) (neg32 q))

next_code_lem : (prev n : ℕ) → next_code prev n ≡ code_after (prev % 2) n
unfolding next_code code_after
next_code_lem prev n = rw (bit_and_mask 1 prev)

-- The table holds the biphase-mark cells of every nibble, for both levels of the line.
good_entry : Bool → ℕ → ℕ → Bool
good_entry l q n =
    same_bits (wire 8 (code_after q n)) (biphase l (wire 4 n))
    && same_bit (odd (code_after q n)) (level_after l (wire 4 n))

table_low : every_below 16 (good_entry false 0) ≡ true
unfolding every_below good_entry code_after bits odd biphase level_after
table_low = refl

table_high : every_below 16 (good_entry true 1) ≡ true
unfolding every_below good_entry code_after bits odd biphase level_after
table_high = refl

record Coded (l : Bool) (n c : ℕ) : Type 0 where
  cells : wire 8 c ≡ biphase l (wire 4 n)
  level : odd c ≡ level_after l (wire 4 n)

Coded-of_entry : (l : Bool) (q n : ℕ) → good_entry l q n ≡ true → Coded l n (code_after q n)
unfolding good_entry
Coded-of_entry l q n h = record {
  cells = same_bits_sound _ _ (and_left _ _ h);
  level = same_bit_sound _ _ (and_right _ _ h);
}

code_after-Coded : (l : Bool) (n : ℕ) → n < 16 → Coded l n (code_after (digit l) n)
code_after-Coded true n h = Coded-of_entry true 1 n (every_below_at 16 _ n table_high h)
code_after-Coded false n h = Coded-of_entry false 0 n (every_below_at 16 _ n table_low h)

next_code-Coded : (prev n : ℕ) → n < 16 → Coded (odd prev) n (next_code prev n)
next_code-Coded prev n h = rw (next_code_lem, ← digit-odd prev) (code_after-Coded (odd prev) n h)

-- Words sent one after the other.
spell : ℕ → List ℕ → List Bool
spell w [] = []
spell w (x ∷ xs) = wire w x ++ spell w xs

codes : ℕ → List ℕ → List ℕ
codes prev [] = []
codes prev (n ∷ ns) = next_code prev n ∷ codes (next_code prev n) ns

last_code : ℕ → List ℕ → ℕ
last_code prev [] = prev
last_code prev (n ∷ ns) = last_code (next_code prev n) ns

abbrev Nibbles : List ℕ → Type 0
Nibbles [] = Unit
Nibbles (n ∷ ns) = (n < 16) × Nibbles ns

spell-codes :
    (prev : ℕ) (ns : List ℕ)
    → Nibbles ns
    → spell 8 (codes prev ns) ≡ biphase (odd prev) (spell 4 ns)
unfolding spell codes biphase
spell-codes prev [] h = refl
spell-codes prev (n ∷ ns) h =
    let c = next_code-Coded prev n h.0 in
    rw (biphase-append (odd prev) (wire 4 n) (spell 4 ns), ← c.level, c.cells)
      (ap (λ t. biphase (odd prev) (wire 4 n) ++ t) (spell-codes (next_code prev n) ns h.1))

odd-last_code :
    (prev : ℕ) (ns : List ℕ)
    → Nibbles ns
    → odd (last_code prev ns) ≡ level_after (odd prev) (spell 4 ns)
unfolding spell last_code level_after
odd-last_code prev [] h = refl
odd-last_code prev (n ∷ ns) h =
    let c = next_code-Coded prev n h.0 in
    rw (level_after-append (odd prev) (wire 4 n) (spell 4 ns), ← c.level)
      (odd-last_code (next_code prev n) ns h.1)

-- The eight bytes of the union, the highest first, spell out the word.
abbrev Bytes : List ℕ → Type 0
Bytes [] = Unit
Bytes (x ∷ xs) = (x < 256) × Bytes xs

wire_byte : (k j x r : ℕ) → 8 + k ≡ j → x < 256 → wire j (x + 256 * r) ≡ wire k r ++ wire 8 x
wire_byte k j x r e h =
    let high : (x + 256 * r) / 2 ^ 8 ≡ r = omega arith in
    let low : bits 8 (x + 256 * r) ≡ bits 8 x = ap (bits 8) (omega arith) ∙ bits-add_high 8 r x in
    rw (bits-split 8 k j (x + 256 * r) e, high, low) (reverse-append (bits 8 x) (bits k r))

wire_nibble : (k j x : ℕ) → 4 + k ≡ j → wire j x ≡ wire k (x / 16) ++ wire 4 (x % 16)
wire_nibble k j x e =
    rw (bits-split 4 k j x e, ← bits-mod 4 x) (reverse-append (bits 4 (x % 16)) (bits k (x / 16)))

nibble_lem : (word k : ℕ) → nibble word k ≡ word / 2 ^ k % 16
unfolding nibble
nibble_lem word k = bit_and_mask 4 (word / 2 ^ k)

nibbles : ℕ → List ℕ
nibbles word =
    nibble word 24
    ∷ nibble word 20
    ∷ nibble word 16
    ∷ nibble word 12
    ∷ nibble word 8
    ∷ nibble word 4
    ∷ nibble word 0
    ∷ []

-- One nibble split off the digits of the word from bit `i` on.
peel :
    (word i i' k j : ℕ) (rest : List Bool)
    → 4 + k ≡ j
    → 2 ^ i' ≡ 2 ^ i * 16
    → wire j (word / 2 ^ i) ++ rest ≡ wire k (word / 2 ^ i') ++ (wire 4 (nibble word i) ++ rest)
peel word i i' k j rest e p =
    rw (wire_nibble k j (word / 2 ^ i) e, nibble_lem, p, ← div-div-eq-div-mul word (2 ^ i) 16)
      (append_assoc (wire k (word / 2 ^ i / 16)) (wire 4 (word / 2 ^ i % 16)) rest)

spell-nibbles : (word : ℕ) → wire 28 word ≡ spell 4 (nibbles word)
unfolding spell nibbles bits
spell-nibbles word =
    wire 28 word
    ≡⟨ sym (append-nil (wire 28 word)) ⟩ wire 28 word ++ []
    ≡⟨ ap (λ t. wire 28 t ++ []) (omega arith) ⟩ wire 28 (word / 2 ^ 0) ++ []
    ≡⟨ peel word 0 4 24 28 _ refl refl ⟩ _
    ≡⟨ peel word 4 8 20 24 _ refl refl ⟩ _
    ≡⟨ peel word 8 12 16 20 _ refl refl ⟩ _
    ≡⟨ peel word 12 16 12 16 _ refl refl ⟩ _
    ≡⟨ peel word 16 20 8 12 _ refl refl ⟩ _
    ≡⟨ peel word 20 24 4 8 _ refl refl ⟩ _
    ≡⟨ peel word 24 28 0 4 _ refl refl ⟩ spell 4 (nibbles word) ∎

-- One byte split off the union.
peel_byte :
    (k j x : ℕ) (xs : List ℕ) (rest : List Bool)
    → 8 + k ≡ j
    → x < 256
    → wire j (raw_of_bytes (x ∷ xs)) ++ rest ≡ wire k (raw_of_bytes xs) ++ (wire 8 x ++ rest)
peel_byte k j x xs rest e h =
    rw (wire_byte k j x (raw_of_bytes xs) e h)
      (append_assoc (wire k (raw_of_bytes xs)) (wire 8 x) rest)

next_code-lt : (prev n : ℕ) → next_code prev n < 256
unfolding next_code
next_code-lt prev n = omega arith

preamble_code-lt : (p : Preamble) → preamble_code p < 256
preamble_code-lt preamble_m = omega arith
preamble_code-lt preamble_w = omega arith
preamble_code-lt preamble_b = omega arith

-- The preamble ends low, so the first table byte needs no inversion.
preamble_low : (p : Preamble) → odd (preamble_code p) ≡ false
unfolding odd
preamble_low preamble_m = refl
preamble_low preamble_w = refl
preamble_low preamble_b = refl

nibble-lt : (word k : ℕ) → nibble word k < 16
nibble-lt word k = omega (arith, nibble_lem word k)

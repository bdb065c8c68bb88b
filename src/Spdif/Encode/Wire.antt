-- ===== src/Spdif/Encode/Wire.antt =====
-- The whole code word of `spdif_encode_biphase_mark` on the wire, and the level it ends at.
use mathlib.Core.List.{append-nil}
use mathlib.Core.Path.{◌≡⟨◌⟩◌, ◌∎}
use raspdif.Prelude.{ℕ, ◌+◌, ◌<◌, ◌≡◌, refl, sym, ap, ◌∙◌, arith}
use raspdif.Prelude.{Bool, true, false, List, [], ◌∷◌, ◌++◌, get_or, ◌==◌, ==_iff}
use raspdif.Bits.{bits, odd, odd_of_mod, digit-odd, every_below, every_below_at}
use raspdif.Spdif.{Preamble, preamble_code, bmc_lut_0}
use raspdif.Spdif.{nibble, next_code, raw_of_bytes, encode_biphase_mark}
use raspdif.Spdif.Line.{wire, biphase, level_after}
use raspdif.Spdif.Encode.{code_after, next_code_lem, Nibbles, spell, codes, last_code, nibbles}
use raspdif.Spdif.Encode.{spell-codes, odd-last_code, spell-nibbles, peel_byte, next_code-lt}
use raspdif.Spdif.Encode.{preamble_code-lt, preamble_low, nibble-lt}

table_plain : every_below 16 (λ n. get_or bmc_lut_0 n 0 == code_after 0 n) ≡ true
unfolding every_below code_after
table_plain = refl

first_code : (p : Preamble) (n : ℕ) → n < 16 → get_or bmc_lut_0 n 0 ≡ next_code (preamble_code p) n
first_code p n h =
    (==_iff _ _).0 (every_below_at 16 _ n table_plain h)
    ∙ rw (next_code_lem, ← digit-odd (preamble_code p), preamble_low p)

nibbles-Nibbles : (word : ℕ) → Nibbles (nibbles word)
unfolding nibbles
nibbles-Nibbles word = search (nibble-lt, tt) depth 12

-- The bytes of the union on the wire, the last byte first, before what is already there.
onto : List ℕ → List Bool → List Bool
onto [] rest = rest
onto (x ∷ xs) rest = onto xs (wire 8 x ++ rest)

abbrev width : List ℕ → ℕ
width [] = 0
width (x ∷ xs) = 8 + width xs

abbrev Bytes : List ℕ → Type 0
Bytes [] = Unit
Bytes (x ∷ xs) = (x < 256) × Bytes xs

wire-onto :
    (xs : List ℕ) (rest : List Bool)
    → Bytes xs
    → wire (width xs) (raw_of_bytes xs) ++ rest ≡ onto xs rest
unfolding onto bits
wire-onto [] rest h = refl
wire-onto (x ∷ xs) rest h =
    peel_byte (width xs) _ x xs rest refl h.0 ∙ wire-onto xs (wire 8 x ++ rest) h.1

module _ (p : Preamble) (word : ℕ) where
  -- The bytes of the union, `byte[0]` first: the table codes in sequence, then the preamble.
  code_bytes : List ℕ
  code_bytes =
      let byte7 = preamble_code p in
      let byte6 = next_code byte7 (nibble word 24) in
      let byte5 = next_code byte6 (nibble word 20) in
      let byte4 = next_code byte5 (nibble word 16) in
      let byte3 = next_code byte4 (nibble word 12) in
      let byte2 = next_code byte3 (nibble word 8) in
      let byte1 = next_code byte2 (nibble word 4) in
      let byte0 = next_code byte1 (nibble word 0) in
      byte0 ∷ byte1 ∷ byte2 ∷ byte3 ∷ byte4 ∷ byte5 ∷ byte6 ∷ byte7 ∷ []

  encode-raw_of_bytes : encode_biphase_mark p word ≡ raw_of_bytes code_bytes
  unfolding encode_biphase_mark code_bytes
  encode-raw_of_bytes = rw (first_code p (nibble word 24) (nibble-lt word 24))

  code_bytes-Bytes : Bytes code_bytes
  unfolding code_bytes
  code_bytes-Bytes = search (next_code-lt, preamble_code-lt, tt) depth 12

  onto-code_bytes :
      onto code_bytes []
      ≡ wire 8 (preamble_code p) ++ spell 8 (codes (preamble_code p) (nibbles word))
  unfolding onto code_bytes spell codes nibbles
  onto-code_bytes = refl

  -- The code word, sent from its highest bit on, is the preamble and then the biphase-mark cells
  -- of the 28 low data bits, the highest first, with the line low before the first of them.
  pub encode_wire :
      wire 64 (encode_biphase_mark p word)
      ≡ wire 8 (preamble_code p) ++ biphase false (wire 28 word)
  unfolding code_bytes
  encode_wire =
      wire 64 (encode_biphase_mark p word)
      ≡⟨ ap (wire 64) encode-raw_of_bytes ⟩ wire 64 (raw_of_bytes code_bytes)
      ≡⟨ sym (append-nil (wire 64 (raw_of_bytes code_bytes))) ⟩
        wire 64 (raw_of_bytes code_bytes) ++ []
      ≡⟨ wire-onto code_bytes [] code_bytes-Bytes ⟩ onto code_bytes []
      ≡⟨ onto-code_bytes ⟩
        wire 8 (preamble_code p) ++ spell 8 (codes (preamble_code p) (nibbles word))
      ≡⟨ ap (λ t. wire 8 (preamble_code p) ++ t) cells ⟩
        wire 8 (preamble_code p) ++ biphase false (wire 28 word) ∎
    where
      cells : spell 8 (codes (preamble_code p) (nibbles word)) ≡ biphase false (wire 28 word)
      cells =
          rw (spell-nibbles word, ← preamble_low p)
            (spell-codes (preamble_code p) (nibbles word) (nibbles-Nibbles word))

  -- The last half cell of the code word is where the cells of the 28 data bits leave the line.
  pub odd-encode : odd (encode_biphase_mark p word) ≡ level_after false (wire 28 word)
  unfolding code_bytes last_code nibbles
  odd-encode =
      rw (encode-raw_of_bytes, spell-nibbles word, ← preamble_low p)
        (odd_of_mod _ _ (omega arith)
          ∙ odd-last_code (preamble_code p) (nibbles word) (nibbles-Nibbles word))

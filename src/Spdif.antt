-- ===== src/Spdif.antt =====
-- include/spdif.h and source/spdif.c: the subframe with its bit fields, the biphase-mark encoder
-- and `spdif_build_subframe`. The channel status block is in the child `ChannelStatus`.
pub mod Line
pub mod Encode
pub mod Build
pub mod ChannelStatus
use raspdif.Prelude.{ℕ, ◌+◌, ◌*◌, ◌%◌, ◌^◌, List, [], ◌∷◌, get_or, bit_and, bit_xor}
use raspdif.Prelude.{u8, shl, shr, asr32, neg32}
use raspdif.Bits.{popcount, rbit}

pub data SampleDepth : Type 0 where
  depth_16 depth_20 depth_24 : SampleDepth

pub data Preamble : Type 0 where
  preamble_m preamble_w preamble_b : Preamble

-- `spdif_subframe_t`: the bit fields, the lowest first.
pub record Subframe : Type 0 where
  pub preamble : ℕ
  pub aux : ℕ
  pub sample : ℕ
  pub validity : ℕ
  pub user_data : ℕ
  pub channel_status : ℕ
  pub parity : ℕ

-- The other member of the union: the word that the fields lie in.
abbrev pub raw : Subframe → ℕ
raw s =
    s.preamble
    + (s.aux * 2 ^ 4
        + (s.sample * 2 ^ 8
            + (s.validity * 2 ^ 28
                + (s.user_data * 2 ^ 29 + (s.channel_status * 2 ^ 30 + s.parity * 2 ^ 31)))))

-- `spdif_frame_t`
pub record Frame : Type 0 where
  pub a : Subframe
  pub b : Subframe

-- `SPDIF_FRAME_COUNT`; a `spdif_block_t` is the list of its frames.
abbrev pub spdif_frame_count : ℕ
spdif_frame_count = 192

abbrev pub Block : Type 0
Block = List Frame

-- What `memset` to 0 leaves.
abbrev pub zero_subframe : Subframe
zero_subframe = record {
  preamble = 0;
  aux = 0;
  sample = 0;
  validity = 0;
  user_data = 0;
  channel_status = 0;
  parity = 0;
}

abbrev pub zero_frame : Frame
zero_frame = record { a = zero_subframe; b = zero_subframe }

-- The defines `SPDIF_PREAMBLE_M`, `_W` and `_B`, as the switch picks them.
abbrev pub preamble_code : Preamble → ℕ
preamble_code preamble_b = 0xE8
preamble_code preamble_m = 0xE2
preamble_code preamble_w = 0xE4

abbrev pub bmc_lut_0 : List ℕ
bmc_lut_0 =
    0xCC ∷ 0xCD ∷ 0xCB ∷ 0xCA ∷ 0xD3 ∷ 0xD2 ∷ 0xD4 ∷ 0xD5 ∷ 0xB3 ∷ 0xB2 ∷ 0xB4 ∷ 0xB5 ∷ 0xAC ∷ 0xAD
    ∷ 0xAB ∷ 0xAA ∷ []

-- `(data >> k) & 0xF`
unfoldable pub nibble : ℕ → ℕ → ℕ
nibble word k = bit_and (shr word k) 0xF

-- `bmc_lut_0[n] ^ -(int)(prev & 1)`, cut to a byte by the store.
unfoldable pub next_code : ℕ → ℕ → ℕ
next_code prev n = u8 (bit_xor (get_or bmc_lut_0 n 0) (neg32 (bit_and prev 1)))

-- The union of `byte[8]` and `raw`, on a little-endian machine: `byte[0]` is the lowest.
abbrev pub raw_of_bytes : List ℕ → ℕ
raw_of_bytes [] = 0
raw_of_bytes (x ∷ xs) = x + 256 * raw_of_bytes xs

unfoldable pub encode_biphase_mark : Preamble → ℕ → ℕ
encode_biphase_mark p word =
    let byte7 = preamble_code p in
    let byte6 = get_or bmc_lut_0 (nibble word 24) 0 in
    let byte5 = next_code byte6 (nibble word 20) in
    let byte4 = next_code byte5 (nibble word 16) in
    let byte3 = next_code byte4 (nibble word 12) in
    let byte2 = next_code byte3 (nibble word 8) in
    let byte1 = next_code byte2 (nibble word 4) in
    let byte0 = next_code byte1 (nibble word 0) in
    raw_of_bytes (byte0 ∷ byte1 ∷ byte2 ∷ byte3 ∷ byte4 ∷ byte5 ∷ byte6 ∷ byte7 ∷ [])

-- The switch on the depth; a store into a bit field keeps its low bits. `sample` is the pattern
-- of an `int32_t`.
unfoldable pub store_sample : Subframe → SampleDepth → ℕ → Subframe
store_sample s depth_16 x = record s { sample = shl x 4 % 2 ^ 20; aux = 0 }
store_sample s depth_20 x = record s { sample = x % 2 ^ 20; aux = 0 }
store_sample s depth_24 x = record s { sample = asr32 x 4 % 2 ^ 20; aux = bit_and x 0xF % 2 ^ 4 }

-- Validity and parity are reset, then the parity of the whole word is stored.
unfoldable pub update_subframe : Subframe → SampleDepth → ℕ → Subframe
unfolding store_sample popcount
update_subframe s depth x =
    let s' = record (store_sample s depth x) { validity = 0; parity = 0 } in
    record s' { parity = popcount (raw s') % 2 }

-- The updated subframe, and the code that is returned.
unfoldable pub build_subframe : Subframe → Preamble → SampleDepth → ℕ → Subframe × ℕ
build_subframe s p depth x =
    let s' = update_subframe s depth x in (s', encode_biphase_mark p (rbit (raw s')))

-- ===== src/Samples.antt =====
-- The PCM input of source/main.c: `raspdif_format_t` and `raspdif_parse_sample`.
pub mod Value
use raspdif.Prelude.{ℕ, ◌+◌, ◌-◌, ◌^◌, List, get_or, bit_or, shl, sign_extend}
use raspdif.Spdif.{SampleDepth, depth_16, depth_24}

-- `raspdif_format_t`
pub data Format : Type 0 where
  s16le s24le : Format

-- Bytes of one sample: 3, or `sizeof(int16_t)`.
abbrev pub sample_size : Format → ℕ
sample_size s24le = 3
sample_size s16le = 2

-- The depth that `raspdif_buffer_samples` encodes a format with.
abbrev pub bit_depth : Format → SampleDepth
bit_depth s24le = depth_24
bit_depth s16le = depth_16

-- `raspdif_parse_sample` with the pointer `&buffer[at]`: the pattern of the `int32_t` returned. The
-- conversion to `int16_t` and the 24-bit field both sign-extend.
unfoldable pub parse_sample : Format → List ℕ → ℕ → ℕ
parse_sample s16le buffer at =
    sign_extend 16 (bit_or (shl (get_or buffer (at + 1) 0) 8) (get_or buffer at 0))
parse_sample s24le buffer at = sign_extend 24 (
    bit_or (bit_or (shl (get_or buffer (at + 2) 0) 16) (shl (get_or buffer (at + 1) 0) 8))
      (get_or buffer at 0))

-- ===== src/Spdif/ChannelStatus.antt =====
-- `spdif_pcm_channel_status_t` and `spdif_populate_channel_status`.
pub mod Populate
use raspdif.Prelude.{
  ℕ, zero, suc, ◌+◌, ◌*◌, ◌/◌, ◌%◌, ◌^◌, List, [], ◌∷◌, ◌++◌, get_or, modify, replicate, shr,
}
use raspdif.Spdif.{Subframe, Frame, Block, spdif_frame_count}

-- The fields of the struct, by bytes.
pub record PcmChannelStatus : Type 0 where
  pub aes3 : ℕ
  pub compressed : ℕ
  pub copy_permit : ℕ
  pub pcm_mode : ℕ
  pub mode : ℕ
  pub category_code : ℕ
  pub source_number : ℕ
  pub channel_number : ℕ
  pub sample_frequency : ℕ
  pub clock_accuracy : ℕ
  pub reserved : ℕ
  pub word_length : ℕ
  pub sample_word_length : ℕ
  pub original_sampling_frequency : ℕ
  pub reserved2 : List ℕ

-- `raw`: the 24 bytes that the fields lie in.
unfoldable pub status_bytes : PcmChannelStatus → List ℕ
status_bytes c =
    (c.aes3 + c.compressed * 2 + c.copy_permit * 2 ^ 2 + c.pcm_mode * 2 ^ 3 + c.mode * 2 ^ 6)
    ∷ c.category_code
    ∷ (c.source_number + c.channel_number * 2 ^ 4)
    ∷ (c.sample_frequency + c.clock_accuracy * 2 ^ 4 + c.reserved * 2 ^ 6)
    ∷ (c.word_length + c.sample_word_length * 2 + c.original_sampling_frequency * 2 ^ 4)
    ∷ c.reserved2

-- `memset` to 0, then the assignments in order; the fields that they set to 0 included.
unfoldable pub channel_status_a : PcmChannelStatus
channel_status_a = record {
  aes3 = 0;
  compressed = 0;
  copy_permit = 1;
  pcm_mode = 0;
  mode = 0;
  category_code = 0;
  source_number = 0;
  channel_number = 1;
  sample_frequency = 1;
  clock_accuracy = 0;
  reserved = 0;
  word_length = 0;
  sample_word_length = 0;
  original_sampling_frequency = 0;
  reserved2 = replicate 19 0;
}

unfoldable pub channel_status_b : PcmChannelStatus
unfolding channel_status_a
channel_status_b = record channel_status_a { channel_number = 2 }

-- `raw[i / 8] >> (i % 8)`, stored into a field of one bit.
unfoldable pub status_bit : PcmChannelStatus → ℕ → ℕ
unfolding status_bytes
status_bit c i = shr (get_or (status_bytes c) (i / 8) 0) (i % 8) % 2

-- The body of the loop.
unfoldable pub mark_frame : ℕ → Frame → Frame
mark_frame i frame = record frame {
  a = record frame.a { channel_status = status_bit channel_status_a i };
  b = record frame.b { channel_status = status_bit channel_status_b i };
}

-- The loop, with `left` rounds to go at index `i`.
unfoldable pub populate_from : ℕ → ℕ → Block → Block
populate_from zero i block = block
populate_from (suc left) i block = populate_from left (i + 1) (modify block i (mark_frame i))

unfoldable pub populate_channel_status : Block → Block
populate_channel_status block = populate_from spdif_frame_count 0 block

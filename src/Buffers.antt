-- ===== src/Buffers.antt =====
-- include/raspdif.h and `raspdif_buffer_samples` of source/main.c: the sample buffers that DMA
-- reads, and the two counters that the function keeps between calls.
pub mod Store
pub mod Slots
use raspdif.Prelude.{ℕ, ◌+◌, ◌%◌, Bool, ◌==◌, if◌then◌else◌, List, get_or, modify}
use raspdif.Prelude.{u8, u32, shr}
use raspdif.Spdif.{Preamble, preamble_b, preamble_m, preamble_w}
use raspdif.Spdif.{Frame, Block, zero_frame, spdif_frame_count, build_subframe}
use raspdif.Samples.{Format, bit_depth}

abbrev pub buffer_count : ℕ
buffer_count = 3

abbrev pub buffer_size : ℕ
buffer_size = 2048

-- `raspdif_sample_t`: the two words of a code, in the order in which the serialiser sends them.
pub record CodedSample : Type 0 where
  pub msb : ℕ
  pub lsb : ℕ

-- An element of `raspdif_buffer_t`.
pub record CodedPair : Type 0 where
  pub a : CodedSample
  pub b : CodedSample

-- The buffers lie in memory that the VideoCore clears when it is allocated.
abbrev pub zero_pair : CodedPair
zero_pair = record { a = record { msb = 0; lsb = 0 }; b = record { msb = 0; lsb = 0 } }

abbrev pub Buffer : Type 0
Buffer = List CodedPair

-- The static variables `frame_index` (8 bits) and `sample_count` (32 bits).
pub record Position : Type 0 where
  pub frame_index : ℕ
  pub sample_count : ℕ

abbrev pub start : Position
start = record { frame_index = 0; sample_count = 0 }

-- What one call leaves behind, and its result.
pub record Buffered : Type 0 where
  pub position : Position
  pub buffer : Buffer
  pub block : Block
  pub full : Bool

abbrev pub coded : ℕ → CodedSample
coded code = record { msb = u32 (shr code 32); lsb = u32 code }

abbrev pub first_preamble : ℕ → Preamble
first_preamble frame_index = if frame_index == 0 then preamble_b else preamble_m

-- The codes go to the slot of the old count; whether the buffer is full is asked of the new one.
unfoldable pub buffer_samples : Position → Buffer → Block → Format → ℕ → ℕ → Buffered
buffer_samples pos buffer block format sample_a sample_b =
    let frame : Frame = get_or block pos.frame_index zero_frame in
    let slot = pos.sample_count % buffer_size in
    let (a', code_a) =
      build_subframe frame.a (first_preamble pos.frame_index) (bit_depth format) sample_a in
    let buffer_a = modify buffer slot (λ s. record s { a = coded code_a }) in
    let (b', code_b) = build_subframe frame.b preamble_w (bit_depth format) sample_b in
    let count = u32 (pos.sample_count + 1) in
    record {
      position = record {
        frame_index = u8 ((pos.frame_index + 1) % spdif_frame_count);
        sample_count = count;
      };
      buffer = modify buffer_a slot (λ s. record s { b = coded code_b });
      block = modify block pos.frame_index (λ _. record { a = a'; b = b' });
      full = count % buffer_size == 0;
    }

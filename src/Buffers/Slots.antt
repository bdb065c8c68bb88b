-- ===== src/Buffers/Slots.antt =====
-- What the slot that `raspdif_buffer_samples` fills sends down the line: DMA feeds the serialiser
-- the upper word of a code and then the lower one, each from its highest bit on.
use mathlib.Core.List.{reverse-append}
use raspdif.Prelude.{zero, suc, ==-false}
use raspdif.Spdif.{preamble_b, preamble_m}
use raspdif.Prelude.{ℕ, ◌/◌, ◌%◌, ◌^◌, ◌<◌, ◌≡◌, refl, sym, ap, ◌∙◌, arith, u32}
use raspdif.Prelude.{Bool, false, List, ◌++◌, reverse, some, get_or, drop}
use raspdif.Bits.{bits, bits-split, bits-mod, odd, odd_of_mod}
use raspdif.Spdif.{Preamble, preamble_w, preamble_code, SampleDepth, Subframe, Block, zero_frame}
use raspdif.Spdif.{spdif_frame_count, build_subframe}
use raspdif.Spdif.Line.{wire, biphase}
use raspdif.Spdif.Build.{payload, build_subframe-wire}
use raspdif.Spdif.Build.Parity.{build_subframe_level}
use raspdif.Spdif.Build.Audio.{received_audio, received_audio-build_subframe, left_justified}
use raspdif.Samples.{Format, bit_depth}
use raspdif.Buffers.{buffer_size, CodedSample, Buffer, Position, coded, zero_pair}
use raspdif.Buffers.{first_preamble, buffer_samples}
use raspdif.Buffers.Store.{IsPosition, IsBlock, IsBuffer, IsSlotReady}
use raspdif.Buffers.Store.{current-IsFrame, block-buffer_samples, buffer-buffer_samples}

abbrev pub serial : CodedSample → List Bool
serial c = wire 32 c.msb ++ wire 32 c.lsb

serial-coded : (code : ℕ) → serial (coded code) ≡ wire 64 code
serial-coded code =
    rw (bits-mod 32 (code / 2 ^ 32), bits-mod 32 code)
      (sym (reverse-append (bits 32 code) (bits 32 (code / 2 ^ 32)))
        ∙ ap reverse (sym (bits-split 32 32 64 code refl)))

-- A coded sample `c` sends the subframe `s` behind the preamble `p`, carrying the sample `x`.
pub record Sends (p : Preamble) (depth : SampleDepth) (x : ℕ) (s : Subframe) (c : CodedSample)
    : Type 0 where
  -- The preamble, then every field in biphase-mark cells from a low line.
  pub cells : serial c ≡ wire 8 (preamble_code p) ++ biphase false (payload s)
  -- A receiver gets the sample, left-justified in 24 bits.
  pub audio : received_audio (drop 8 (serial c)) ≡ some (left_justified depth x)
  -- The last half cell is low, as the next preamble assumes.
  pub ends_low : odd c.lsb ≡ false

build-Sends :
    {s : Subframe} (p : Preamble) (depth : SampleDepth) (x : ℕ)
    → IsSlotReady s
    → x < 2 ^ 32
    → let (s', code) = build_subframe s p depth x in Sends p depth x s' (coded code)
build-Sends {s} p depth x v h =
    let code = (build_subframe s p depth x).1 in
    record {
      cells = serial-coded code ∙ build_subframe-wire p depth x v.in_range;
      audio =
          ap (λ t. received_audio (drop 8 t)) (serial-coded code)
          ∙ received_audio-build_subframe p depth x v.in_range h;
      ends_low =
          odd_of_mod (u32 code) code (omega arith)
          ∙ build_subframe_level p depth x v.in_range v.no_preamble;
    }

-- The preamble of the left subframe in a frame: B in the first one of a block, M in the others.
abbrev pub due_preamble : ℕ → Preamble
due_preamble zero = preamble_b
due_preamble (suc k) = preamble_m

first_preamble_lem : (k : ℕ) → first_preamble k ≡ due_preamble k
first_preamble_lem zero = refl
first_preamble_lem (suc k) = rw (==-false (suc k) 0 (omega arith)) refl

-- For counters in step with `n` calls, a well-formed block and buffer, and 32-bit samples: call
-- number `n` fills slot `n % 2048`: its left half sends the updated left subframe of frame
-- `n % 192` behind preamble B at the start of a block and M elsewhere, its right half the updated
-- right subframe behind preamble W, and a receiver gets both samples and a line that ends low.
pub buffer_samples-Sends :
    (pos : Position) (n : ℕ) (buffer : Buffer) (block : Block) (format : Format) (x y : ℕ)
    → IsPosition pos n
    → IsBlock block
    → IsBuffer buffer
    → x < 2 ^ 32
    → y < 2 ^ 32
    → let r = buffer_samples pos buffer block format x y in
      let frame = get_or r.block (n % spdif_frame_count) zero_frame in
      let pair = get_or r.buffer (n % buffer_size) zero_pair in
      Sends (due_preamble (n % spdif_frame_count)) (bit_depth format) x frame.a pair.a
      × Sends preamble_w (bit_depth format) y frame.b pair.b
buffer_samples-Sends pos n buffer block format x y h v w hx hy =
    let f = current-IsFrame h v in
    rw
      (
        ← h.in_block,
        ← first_preamble_lem pos.frame_index,
        block-buffer_samples pos n buffer block format x y h v w,
        (buffer-buffer_samples pos n buffer block format x y h v w).0,
      )
      (
        build-Sends (first_preamble pos.frame_index) (bit_depth format) x f.left hx,
        build-Sends preamble_w (bit_depth format) y f.right hy,
      )

-- ===== src/Buffers/Store.antt =====
-- One call of `raspdif_buffer_samples`: the counters, the invariants, and what the slot sends.
use raspdif.Prelude.{ℕ, ◌+◌, ◌%◌, ◌^◌, ◌<◌, ◌≡◌, ◌≢◌, sym, ap, ◌∙◌, arith}
use raspdif.Prelude.{◌==◌}
use raspdif.Prelude.{get_or, modify, length, All, All-get_or, All-modify, length-modify, u32}
use raspdif.Prelude.{get_or-modify_self, get_or-modify_ne}
use raspdif.Spdif.{Preamble, preamble_w, SampleDepth}
use raspdif.Spdif.{Subframe, Frame, Block, zero_frame, spdif_frame_count, build_subframe}
use raspdif.Spdif.Build.{IsSubframe, update_subframe-IsSubframe}
use raspdif.Spdif.Build.Parity.{preamble-update_subframe}
use raspdif.Samples.{Format, bit_depth}
use raspdif.Buffers.{buffer_size, CodedPair, Buffer, Position, Buffered, coded}
use raspdif.Buffers.{first_preamble, buffer_samples, zero_pair}

-- The counters after `n` calls: one runs round the frames of a block, the other round 32 bits.
pub record IsPosition (pos : Position) (n : ℕ) : Type 0 where
  pub in_block : pos.frame_index ≡ n % spdif_frame_count
  pub in_count : pos.sample_count ≡ n % 2 ^ 32

pub record IsSlotReady (s : Subframe) : Type 0 where
  pub in_range : IsSubframe s
  pub no_preamble : s.preamble ≡ 0

pub record IsFrame (f : Frame) : Type 0 where
  pub left : IsSlotReady f.a
  pub right : IsSlotReady f.b

pub record IsBlock (block : Block) : Type 0 where
  pub size : length block ≡ spdif_frame_count
  pub frames : All IsFrame block

abbrev pub IsBuffer : Buffer → Type 0
IsBuffer buffer = length buffer ≡ buffer_size

count_wraps :
    (count n : ℕ) → count ≡ n % 2 ^ 32 → u32 (count + 1) % buffer_size ≡ (n + 1) % buffer_size
count_wraps count n h = omega arith

-- From counters in step with `n` calls, one more call keeps them in step, also where the 32-bit count wraps, and the call reports a full
-- buffer exactly when the number of calls so far is a multiple of the buffer's size.
pub buffer_samples-IsPosition :
    {pos : Position} {n : ℕ} (buffer : Buffer) (block : Block) (format : Format) (x y : ℕ)
    → IsPosition pos n
    → let r = buffer_samples pos buffer block format x y in
      IsPosition r.position (n + 1) × (r.full ≡ ((n + 1) % buffer_size == 0))
unfolding buffer_samples
buffer_samples-IsPosition {pos} {n} buffer block format x y h = (
  record { in_block = omega arith; in_count = omega arith },
  ap (λ t. t == 0) (count_wraps pos.sample_count n h.in_count),
)

build-IsSlotReady :
    {s : Subframe} (p : Preamble) (depth : SampleDepth) (x : ℕ)
    → IsSlotReady s
    → IsSlotReady (build_subframe s p depth x).0
unfolding build_subframe
build-IsSlotReady {s} p depth x h = record {
  in_range = update_subframe-IsSubframe depth x h.in_range;
  no_preamble = preamble-update_subframe s depth x ∙ h.no_preamble;
}

-- The frame that the call uses.
abbrev pub current : Position → Block → Frame
current pos block = get_or block pos.frame_index zero_frame

pub current-IsFrame :
    {pos : Position} {n : ℕ} {block : Block}
    → IsPosition pos n
    → IsBlock block
    → IsFrame (current pos block)
current-IsFrame {pos} {n} {block} h v =
    let inside : pos.frame_index < length block = omega (arith, h.in_block, v.size) in
    All-get_or IsFrame block pos.frame_index zero_frame v.frames inside

module _ (pos : Position) (n : ℕ) (buffer : Buffer) (block : Block) (format : Format) (x y : ℕ)
    (h : IsPosition pos n) (v : IsBlock block) (w : IsBuffer buffer) where
  abbrev after : Buffered
  after = buffer_samples pos buffer block format x y

  abbrev built_a : Subframe × ℕ
  built_a =
      build_subframe (current pos block).a (first_preamble pos.frame_index) (bit_depth format) x

  abbrev built_b : Subframe × ℕ
  built_b = build_subframe (current pos block).b preamble_w (bit_depth format) y

  -- The block keeps its frames, their fields stay in range and their preamble fields empty, and
  -- the buffer keeps its size.
  pub buffer_samples-IsBlock : IsBlock after.block × IsBuffer after.buffer
  unfolding buffer_samples
  buffer_samples-IsBlock =
      let f = current-IsFrame h v in
      let stored : IsFrame (record { a = built_a.0; b = built_b.0 }) = record {
        left = build-IsSlotReady (first_preamble pos.frame_index) (bit_depth format) x f.left;
        right = build-IsSlotReady preamble_w (bit_depth format) y f.right;
      } in
      (
        record {
          size =
              length-modify block pos.frame_index (λ _. record { a = built_a.0; b = built_b.0 })
              ∙ v.size;
          frames =
              All-modify IsFrame block pos.frame_index
                (λ _. record { a = built_a.0; b = built_b.0 }) (λ _ _. stored) v.frames;
        },
        length-modify _ _ _ ∙ length-modify _ _ _ ∙ w,
      )

  -- The frame of the block that the call leaves behind: each subframe updated with its sample.
  pub block-buffer_samples :
      get_or after.block pos.frame_index zero_frame ≡ record { a = built_a.0; b = built_b.0 }
  unfolding buffer_samples
  block-buffer_samples =
      get_or-modify_self block pos.frame_index (λ _. record { a = built_a.0; b = built_b.0 })
        zero_frame (omega (arith, h.in_block, v.size))

  abbrev slot : ℕ
  slot = n % buffer_size

  -- The slot of the call holds both codes, and every other slot is as before.
  pub buffer-buffer_samples :
      (get_or after.buffer slot zero_pair ≡ record { a = coded built_a.1; b = coded built_b.1 })
      × ((j : ℕ) → j ≢ slot → get_or after.buffer j zero_pair ≡ get_or buffer j zero_pair)
  unfolding buffer_samples
  buffer-buffer_samples =
      let same : pos.sample_count % buffer_size ≡ slot = omega (arith, h.in_count) in
      let set_a : CodedPair → CodedPair = λ s. record s { a = coded built_a.1 } in
      let set_b : CodedPair → CodedPair = λ s. record s { b = coded built_b.1 } in
      rw same (
        get_or-modify_self (modify buffer slot set_a) slot set_b zero_pair
              (rw length-modify (omega arith))
            ∙ ap set_b (get_or-modify_self buffer slot set_a zero_pair (omega arith)),
        λ j ne.
            get_or-modify_ne (modify buffer slot set_a) slot j set_b zero_pair (λ e. ne (sym e))
            ∙ get_or-modify_ne buffer slot j set_a zero_pair (λ e. ne (sym e)),
      )

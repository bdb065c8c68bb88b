-- ===== src/ControlBlocks/Ring.antt =====
-- The control blocks form a ring over the three buffers.
use raspdif.Prelude.{ℕ, zero, suc, ◌+◌, ◌*◌, ◌%◌, ◌^◌, ◌≤◌, ◌<◌, ◌≡◌, refl, ap, ◌∙◌, arith}
use raspdif.Prelude.{List, [], ◌∷◌, get_or, Option, some, none, if◌then◌else◌, ◌==◌}
use raspdif.Registers.{get}
use raspdif.Buffers.{buffer_count}
use raspdif.ControlBlocks.{ControlBlock, zero_control_block, block_address, buffer_bytes}
use raspdif.ControlBlocks.{control_bytes, dma_dreq_pcm_tx}
use raspdif.ControlBlocks.{wait_resp, dest_dreq, src_inc, permap, no_wide_bursts, xlength}
use raspdif.ControlBlocks.{configure_block, generate_dma_control_blocks}

-- The block that DMA reads at a bus address.
abbrev pub find_block : ℕ → List ControlBlock → ℕ → ℕ → Option ControlBlock
find_block base [] i address = none
find_block base (c ∷ cs) i address =
    if block_address base i == address then some c else find_block base cs (i + 1) address

-- The address at which DMA works after `k` completed transfers, if it starts at block 0.
abbrev pub next_of : Option ControlBlock → ℕ
next_of none = 0
next_of (some c) = c.next_control_block

unfoldable pub dma_position : ℕ → ℕ → ℕ
dma_position base zero = block_address base 0
dma_position base (suc k) =
    next_of (find_block base (generate_dma_control_blocks base) 0 (dma_position base k))

-- A structure that lies in the 32-bit bus address space, aligned for DMA.
pub record IsPlaced (base : ℕ) : Type 0 where
  pub fits : base + control_bytes ≤ 2 ^ 32
  pub aligned : base % 32 ≡ 0

-- What the block of buffer `i` has to be.
pub record Feeds (base i : ℕ) (c : ControlBlock) : Type 0 where
  pub source : c.source_address ≡ base + 96 + i * 32768
  pub destination : c.destination_address ≡ 0x7E203004
  pub whole_buffer : get xlength c.transfer_length ≡ buffer_bytes
  pub next : c.next_control_block ≡ base + (i + 1) % buffer_count * 32
  pub next_aligned : c.next_control_block % 32 ≡ 0
  pub paced_by_pcm :
      (get permap c.transfer_information ≡ dma_dreq_pcm_tx)
      × (get dest_dreq c.transfer_information ≡ 1)
  pub increments_source : get src_inc c.transfer_information ≡ 1
  pub waits :
      (get wait_resp c.transfer_information ≡ 1) × (get no_wide_bursts c.transfer_information ≡ 1)
  pub linear : c.stride ≡ 0

configure_block-Feeds :
    (base i : ℕ)
    → IsPlaced base
    → i < buffer_count
    → Feeds base i (configure_block base i zero_control_block)
unfolding configure_block
configure_block-Feeds base i h k = record {
  source = omega arith;
  destination = refl;
  whole_buffer = refl;
  next = omega arith;
  next_aligned = omega arith;
  paced_by_pcm = (refl, refl);
  increments_source = refl;
  waits = (refl, refl);
  linear = refl;
}

-- In a placed structure, each of the three blocks feeds its whole buffer to the PCM FIFO, paced by PCM, and leads to the next one.
pub generate_dma_control_blocks-Feeds :
    (base i : ℕ)
    → IsPlaced base
    → i < buffer_count
    → Feeds base i (get_or (generate_dma_control_blocks base) i zero_control_block)
unfolding generate_dma_control_blocks
generate_dma_control_blocks-Feeds base zero h k = configure_block-Feeds base 0 h k
generate_dma_control_blocks-Feeds base (suc zero) h k = configure_block-Feeds base 1 h k
generate_dma_control_blocks-Feeds base (suc (suc zero)) h k = configure_block-Feeds base 2 h k
generate_dma_control_blocks-Feeds base (suc (suc (suc i))) h k = absurd (omega arith)

next-find_block :
    (base i : ℕ)
    → IsPlaced base
    → i < buffer_count
    → next_of (find_block base (generate_dma_control_blocks base) 0 (block_address base i))
      ≡ block_address base ((i + 1) % buffer_count)
unfolding generate_dma_control_blocks
next-find_block base zero h k = ground arith
next-find_block base (suc zero) h k = ground arith
next-find_block base (suc (suc zero)) h k = ground arith
next-find_block base (suc (suc (suc i))) h k = absurd (omega arith)

-- In a placed structure, after any number of transfers DMA is at the block of the buffer whose turn it is.
pub dma_position_lem :
    (base k : ℕ) → IsPlaced base → dma_position base k ≡ block_address base (k % buffer_count)
unfolding dma_position
dma_position_lem base zero h = refl
dma_position_lem base (suc k) h = rw (dma_position_lem base k h) (
    next-find_block base (k % buffer_count) h (omega arith) ∙ ap (block_address base) (omega arith))

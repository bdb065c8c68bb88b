-- ===== src/ControlBlocks.antt =====
-- The DMA control blocks (include/bcm283x/bcm283x_dma.h) that `raspdif_generate_dma_control_blocks`
-- of source/main.c writes, with the addresses of the parts of a `raspdif_control_t`.
pub mod Ring
use raspdif.Prelude.{ℕ, zero, suc, ◌+◌, ◌*◌, ◌%◌, ◌^◌, List, replicate, modify, u32}
use raspdif.Registers.{Field, bit_at, put}
use raspdif.Buffers.{buffer_count, buffer_size}

-- `dma_transfer_information_t`, the fields that the program sets.
abbrev pub wait_resp : Field
wait_resp = bit_at 3

abbrev pub dest_dreq : Field
dest_dreq = bit_at 6

abbrev pub src_inc : Field
src_inc = bit_at 8

abbrev pub permap : Field
permap = record { lo = 16; width = 5 }

abbrev pub no_wide_bursts : Field
no_wide_bursts = bit_at 26

-- `dma_transfer_length_t`
abbrev pub xlength : Field
xlength = record { lo = 0; width = 16 }

abbrev pub dma_dreq_pcm_tx : ℕ
dma_dreq_pcm_tx = 2

-- `dma_control_block_t`, without its two reserved words.
pub record ControlBlock : Type 0 where
  pub transfer_information : ℕ
  pub source_address : ℕ
  pub destination_address : ℕ
  pub transfer_length : ℕ
  pub stride : ℕ
  pub next_control_block : ℕ

abbrev pub zero_control_block : ControlBlock
zero_control_block = record {
  transfer_information = 0;
  source_address = 0;
  destination_address = 0;
  transfer_length = 0;
  stride = 0;
  next_control_block = 0;
}

-- Sizes: a control block, a buffer of 2048 pairs of two 64-bit codes, the whole structure.
abbrev pub control_block_bytes : ℕ
control_block_bytes = 32

abbrev pub buffer_bytes : ℕ
buffer_bytes = buffer_size * 16

abbrev pub control_bytes : ℕ
control_bytes = buffer_count * control_block_bytes + buffer_count * buffer_bytes

-- `&control->control_blocks[i]` and `&control->buffers[i]` in a structure at `base`.
abbrev pub block_address : ℕ → ℕ → ℕ
block_address base i = u32 (base + i * control_block_bytes)

abbrev pub buffer_address : ℕ → ℕ → ℕ
buffer_address base i = u32 (base + buffer_count * control_block_bytes + i * buffer_bytes)

-- `&b_pcm->FIFO_A`: the bus address of the PCM block, and the second word in it.
abbrev pub pcm_fifo_address : ℕ
pcm_fifo_address = 0x7E000000 + 0x00203000 + 4

-- The loop body: the fields of the block for buffer `i`, in the order of the assignments.
unfoldable pub configure_block : ℕ → ℕ → ControlBlock → ControlBlock
configure_block base i c =
    let t1 = put no_wide_bursts 1 c.transfer_information in
    let t2 = put permap dma_dreq_pcm_tx t1 in
    let t3 = put dest_dreq 1 t2 in
    let t4 = put wait_resp 1 t3 in
    let t5 = put src_inc 1 t4 in
    record c {
      transfer_information = t5;
      source_address = buffer_address base i;
      destination_address = pcm_fifo_address;
      transfer_length = put xlength buffer_bytes c.transfer_length;
      next_control_block = block_address base ((i + 1) % buffer_count);
    }

unfoldable pub generate_from : ℕ → ℕ → ℕ → List ControlBlock → List ControlBlock
generate_from base zero i blocks = blocks
generate_from base (suc left) i blocks =
    generate_from base left (i + 1) (modify blocks i (configure_block base i))

-- `memset`, then the loop. `base` is the bus address of the structure.
unfoldable pub generate_dma_control_blocks : ℕ → List ControlBlock
unfolding generate_from configure_block
generate_dma_control_blocks base =
    generate_from base buffer_count 0 (replicate buffer_count zero_control_block)

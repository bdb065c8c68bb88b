-- ===== src/Examples/Blocks.antt =====
-- The control blocks and a call of `raspdif_buffer_samples` at concrete inputs.
use raspdif.Prelude.{ℕ, ◌+◌, ◌%◌, ◌≡◌, refl, arith, ◌==◌, get_or, replicate, length-replicate}
use raspdif.Spdif.{spdif_frame_count, zero_frame, Block, preamble_w}
use raspdif.Samples.{s16le, bit_depth}
use raspdif.Buffers.{Buffer, Position, start, buffer_size, zero_pair, buffer_samples}
use raspdif.Buffers.Store.{IsPosition, buffer_samples-IsPosition}
use raspdif.Buffers.Slots.{Sends, due_preamble, buffer_samples-Sends}
use raspdif.Play.Start.{zero_frames-IsBlock}
use raspdif.ControlBlocks.{generate_dma_control_blocks, block_address}
use raspdif.ControlBlocks.{zero_control_block}
use raspdif.ControlBlocks.Ring.{IsPlaced, Feeds, dma_position, generate_dma_control_blocks-Feeds}
use raspdif.ControlBlocks.Ring.{dma_position_lem}

abbrev pub bus_base : ℕ
bus_base = 0xC000_0000

pub bus_base-IsPlaced : IsPlaced bus_base
bus_base-IsPlaced = omega arith

last_next :
    (get_or (generate_dma_control_blocks bus_base) 2 zero_control_block).next_control_block
    ≡ bus_base
unfolding generate_dma_control_blocks
last_next = refl

generate_dma_control_blocks-Feeds_example :
    Feeds bus_base 2 (get_or (generate_dma_control_blocks bus_base) 2 zero_control_block)
generate_dma_control_blocks-Feeds_example =
    generate_dma_control_blocks-Feeds bus_base 2 bus_base-IsPlaced (omega arith)

dma_position_lem_example : dma_position bus_base 5 ≡ block_address bus_base 2
dma_position_lem_example = dma_position_lem bus_base 5 bus_base-IsPlaced

abbrev empty_block : Block
empty_block = replicate spdif_frame_count zero_frame

abbrev empty_buffer : Buffer
empty_buffer = replicate buffer_size zero_pair

-- The counters after 2^32 + 2047 calls: the 32-bit one has wrapped.
abbrev wrapped : Position
wrapped = record { frame_index = 191; sample_count = 2047 }

wrapped-IsPosition : IsPosition wrapped 4294969343
wrapped-IsPosition = omega arith

buffer_samples-IsPosition_example :
    let r = buffer_samples wrapped empty_buffer empty_block s16le 1 2 in
    IsPosition r.position (4294969343 + 1) × (r.full ≡ ((4294969343 + 1) % buffer_size == 0))
buffer_samples-IsPosition_example =
    buffer_samples-IsPosition empty_buffer empty_block s16le 1 2 wrapped-IsPosition

buffer_samples-Sends_example :
    let r = buffer_samples start empty_buffer empty_block s16le 1 0xffff_fffe in
    let frame = get_or r.block (0 % spdif_frame_count) zero_frame in
    let pair = get_or r.buffer (0 % buffer_size) zero_pair in
    Sends (due_preamble (0 % spdif_frame_count)) (bit_depth s16le) 1 frame.a pair.a
    × Sends preamble_w (bit_depth s16le) 0xffff_fffe frame.b pair.b
buffer_samples-Sends_example =
    buffer_samples-Sends start 0 empty_buffer empty_block s16le 1 0xffff_fffe
      (record { in_block = refl; in_count = refl }) zero_frames-IsBlock
      (length-replicate buffer_size zero_pair) (omega arith) (omega arith)

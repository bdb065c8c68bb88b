-- ===== src/Play/Start.antt =====
-- The state in which `main` starts to play.
pub mod Whole
use raspdif.Prelude.{ℕ, zero, suc, ◌+◌, ◌<◌, ◌≡◌, refl, ap, ◌∙◌, arith, ltb, u8}
use raspdif.Prelude.{
  Bool, true, false, ◌&&◌, Bool-cases, inl, inr, if◌then◌else◌, List, [], ◌∷◌, ◌++◌, length, drop,
}
use raspdif.Prelude.{
  replicate, length-replicate, modify, length-modify, All, All-modify, All-replicate,
}
use raspdif.Spdif.{Subframe, zero_subframe, Frame, Block, zero_frame, spdif_frame_count}
use raspdif.Spdif.ChannelStatus.{
  PcmChannelStatus, channel_status_a, channel_status_b, mark_frame, status_bit, populate_from,
  populate_channel_status,
}
use raspdif.Samples.{Format}
use raspdif.Samples.Value.{IsByte}
use raspdif.Buffers.{Buffer, buffer_count, buffer_size, zero_pair, start}
use raspdif.Buffers.Store.{IsPosition, IsBlock, IsFrame, IsBuffer, IsSlotReady}
use raspdif.Spdif.ChannelStatus.Populate.{length-populate_from}
use raspdif.Play.{
  Player, Read, items, fread, store_samples, preload, start_transmit, play, Config, Tick,
}
use raspdif.Play.Invariant.{IsPlaying}
use raspdif.Play.Preload.{IsLoading}

-- `spdif_block_t block` after `memset`, the buffers in cleared memory, and the zeroed `samples`.
unfoldable pub start_player : Player
start_player = record {
  position = start;
  block = populate_channel_status (replicate spdif_frame_count zero_frame);
  buffers = replicate buffer_count (replicate buffer_size zero_pair);
  buffer_index = 0;
  samples = replicate 8 0;
  trace = [];
}

status_bit-lt : (c : PcmChannelStatus) (i : ℕ) → status_bit c i < 2
unfolding status_bit
status_bit-lt c i = omega arith

-- A channel status bit fits its field.
marked-IsSlotReady :
    (s : Subframe) (bit : ℕ)
    → bit < 2
    → IsSlotReady s
    → IsSlotReady (record s { channel_status = bit })
marked-IsSlotReady s bit small h =
    let v = h.in_range in record { in_range = omega arith; no_preamble = h.no_preamble }

mark_frame-IsFrame : (i : ℕ) (f : Frame) → IsFrame f → IsFrame (mark_frame i f)
unfolding mark_frame
mark_frame-IsFrame i f h = record {
  left = marked-IsSlotReady f.a _ (status_bit-lt channel_status_a i) h.left;
  right = marked-IsSlotReady f.b _ (status_bit-lt channel_status_b i) h.right;
}

populate_from-IsFrame :
    (left i : ℕ) (block : Block) → All IsFrame block → All IsFrame (populate_from left i block)
unfolding populate_from
populate_from-IsFrame zero i block h = h
populate_from-IsFrame (suc left) i block h =
    populate_from-IsFrame left (i + 1) (modify block i (mark_frame i))
      (All-modify IsFrame block i (mark_frame i) (mark_frame-IsFrame i) h)

zero_subframe-IsSlotReady : IsSlotReady zero_subframe
zero_subframe-IsSlotReady = record { in_range = omega arith; no_preamble = refl }

-- The loop keeps a well-formed block well-formed.
pub populate-IsBlock : (block : Block) → IsBlock block → IsBlock (populate_channel_status block)
unfolding populate_channel_status
populate-IsBlock block h = record {
  size = length-populate_from 192 0 block ∙ h.size;
  frames = populate_from-IsFrame 192 0 block h.frames;
}

pub zero_frames-IsBlock : IsBlock (replicate spdif_frame_count zero_frame)
zero_frames-IsBlock = record {
  size = length-replicate spdif_frame_count zero_frame;
  frames =
      All-replicate IsFrame spdif_frame_count zero_frame
        (record { left = zero_subframe-IsSlotReady; right = zero_subframe-IsSlotReady });
}

pub start-IsLoading : IsLoading start_player 0 × All IsByte start_player.samples
unfolding start_player
start-IsLoading = (
  record {
    playing = record {
      position = record { in_block = refl; in_count = refl };
      block = populate-IsBlock (replicate spdif_frame_count zero_frame) zero_frames-IsBlock;
      count = length-replicate buffer_count (replicate buffer_size zero_pair);
      sizes =
          All-replicate IsBuffer buffer_count (replicate buffer_size zero_pair)
            (length-replicate buffer_size zero_pair);
    };
    index = refl;
  },
  All-replicate IsByte 8 0 (omega arith),
)

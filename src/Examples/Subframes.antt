-- ===== src/Examples/Subframes.antt =====
-- source/spdif.c at concrete inputs.
use raspdif.Prelude.{ℕ, ◌≡◌, refl, arith, false, List, [], ◌∷◌, ◌++◌, some, drop}
use raspdif.Prelude.{get_or, length, replicate, length-replicate}
use raspdif.Bits.{popcount, odd}
use raspdif.Spdif.{
  Subframe, zero_subframe, zero_frame, spdif_frame_count, preamble_code, preamble_b,
}
use raspdif.Spdif.{preamble_m, preamble_w, depth_16, depth_24, encode_biphase_mark, build_subframe}
use raspdif.Spdif.{update_subframe, nibble, next_code, store_sample}
use raspdif.Spdif.Line.{wire, biphase, receive}
use raspdif.Spdif.Encode.Wire.{encode_wire}
use raspdif.Spdif.Build.{IsSubframe, payload, build_subframe-wire}
use raspdif.Spdif.Build.Parity.{receive-build_subframe, build_subframe_level}
use raspdif.Spdif.Build.Audio.{received_audio, left_justified, received_audio-build_subframe}
use raspdif.Spdif.ChannelStatus.{populate_channel_status}
use raspdif.Spdif.ChannelStatus.Populate.{with_status, get_or-populate_channel_status}
use raspdif.Samples.{s16le, parse_sample}
use raspdif.Samples.Value.{signed32, signed_bytes, signed32-parse_sample}

-- The first subframe in the comment of the encoder: validity and parity set, all else 0.
commented_subframe : encode_biphase_mark preamble_b 0x9 ≡ 0xE8CCCCCCCCCCCCB2
unfolding encode_biphase_mark nibble next_code
commented_subframe = refl

-- A subframe with a channel status bit set, for a sample of 0x1234.
abbrev marked : Subframe
marked = record zero_subframe { channel_status = 1 }

marked_16 : update_subframe marked depth_16 0x1234 ≡ record marked { sample = 0x12340; parity = 0 }
unfolding update_subframe store_sample popcount
marked_16 = refl

marked-IsSubframe : IsSubframe marked
marked-IsSubframe = omega arith

encode_wire_example :
    wire 64 (encode_biphase_mark preamble_w 0x0123_4567)
    ≡ wire 8 (preamble_code preamble_w) ++ biphase false (wire 28 0x0123_4567)
encode_wire_example = encode_wire preamble_w 0x0123_4567

build_subframe-wire_example :
    let (s', code) = build_subframe marked preamble_m depth_16 0x1234 in
    wire 64 code ≡ wire 8 (preamble_code preamble_m) ++ biphase false (payload s')
build_subframe-wire_example = build_subframe-wire preamble_m depth_16 0x1234 marked-IsSubframe

receive-build_subframe_example :
    let (s', code) = build_subframe marked preamble_m depth_24 0xffff_fffe in
    receive false (drop 8 (wire 64 code)) ≡ some (payload s')
receive-build_subframe_example =
    receive-build_subframe preamble_m depth_24 0xffff_fffe marked-IsSubframe

received_audio-build_subframe_example :
    received_audio (drop 8 (wire 64 (build_subframe marked preamble_m depth_24 0xffff_fffe).1))
    ≡ some (left_justified depth_24 0xffff_fffe)
received_audio-build_subframe_example =
    received_audio-build_subframe preamble_m depth_24 0xffff_fffe marked-IsSubframe (omega arith)

build_subframe_level_example : odd (build_subframe marked preamble_m depth_16 0x1234).1 ≡ false
build_subframe_level_example =
    build_subframe_level preamble_m depth_16 0x1234 marked-IsSubframe refl

get_or-populate_channel_status_example :
    let block = replicate spdif_frame_count zero_frame in
    (get_or (populate_channel_status block) 20 zero_frame
      ≡ with_status 20 (get_or block 20 zero_frame))
    × (length (populate_channel_status block) ≡ spdif_frame_count)
get_or-populate_channel_status_example =
    get_or-populate_channel_status (replicate spdif_frame_count zero_frame) 20
      (length-replicate spdif_frame_count zero_frame) (omega arith)

-- Two samples of 16 bits, the second of them -2.
abbrev two_samples : List ℕ
two_samples = 0x34 ∷ 0x12 ∷ 0xfe ∷ 0xff ∷ []

parsed : parse_sample s16le two_samples 2 ≡ 0xffff_fffe
unfolding parse_sample
parsed = refl

signed32-parse_sample_example :
    signed32 (parse_sample s16le two_samples 2) ≡ signed_bytes s16le two_samples 2
signed32-parse_sample_example = signed32-parse_sample s16le two_samples 2 (omega arith)

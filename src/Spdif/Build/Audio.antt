-- ===== src/Spdif/Build/Audio.antt =====
-- The audio word that a receiver gets out of `spdif_build_subframe`, for every sample depth.
use mathlib.Core.List.{append_assoc}
use mathlib.Core.Option
use raspdif.Prelude.{ℕ, ◌+◌, ◌*◌, ◌%◌, ◌^◌, ◌<◌, ◌≡◌, refl, ap, ◌∙◌, arith}
use raspdif.Prelude.{Bool, false, List, [], ◌∷◌, Option, some, drop, take, take-append}
use raspdif.Bits.{bits, odd, val, val-bits, bits_fields, length-bits, bit_and_mask}
use raspdif.Spdif.{Subframe, SampleDepth, depth_16, depth_20, depth_24, Preamble}
use raspdif.Spdif.{update_subframe, store_sample, build_subframe}
use raspdif.Spdif.Line.{wire, receive}
use raspdif.Spdif.Build.{IsSubframe, payload, update_subframe-IsSubframe}
use raspdif.Spdif.Build.Parity.{receive-build_subframe}

-- The 24 audio bits of the time slots 4 to 27, as the standard has them: the sample lies at the
-- upper end, and what is below it is 0.
abbrev pub left_justified : SampleDepth → ℕ → ℕ
left_justified depth_16 x = x % 2 ^ 16 * 2 ^ 8
left_justified depth_20 x = x % 2 ^ 20 * 2 ^ 4
left_justified depth_24 x = x % 2 ^ 24

-- What a receiver makes of the cells behind a preamble.
abbrev pub received_audio : List Bool → Option ℕ
received_audio cells = Option.map (λ bs. val (take 24 bs)) (receive false cells)

audio_fields :
    (s : Subframe) (depth : SampleDepth) (x : ℕ)
    → x < 2 ^ 32
    → let s' = update_subframe s depth x in s'.sample * 2 ^ 4 + s'.aux ≡ left_justified depth x
unfolding update_subframe store_sample
audio_fields s depth_16 x h = omega arith
audio_fields s depth_20 x h = omega arith
audio_fields s depth_24 x h = ground (arith, bit_and_mask 4 x)

val-take-payload :
    {s : Subframe} → IsSubframe s → val (take 24 (payload s)) ≡ s.sample * 2 ^ 4 + s.aux
val-take-payload {s} v =
    let tail : List Bool =
      odd s.validity ∷ odd s.user_data ∷ odd s.channel_status ∷ odd s.parity ∷ [] in
    let word : ℕ = s.sample * 2 ^ 4 + s.aux in
    rw
      (
        ← append_assoc (bits 4 s.aux) (bits 20 s.sample) tail,
        ← bits_fields 4 20 24 s.aux s.sample refl v.aux_fits,
        take-append 24 (bits 24 word) tail (length-bits 24 word),
      )
      (val-bits 24 word (omega arith))

-- The audio word received is the sample left-justified in 24 bits, at each depth, for a subframe
-- whose fields are in range and a sample pattern of 32 bits.
pub received_audio-build_subframe :
    {s : Subframe} (p : Preamble) (depth : SampleDepth) (x : ℕ)
    → IsSubframe s
    → x < 2 ^ 32
    → received_audio (drop 8 (wire 64 (build_subframe s p depth x).1))
      ≡ some (left_justified depth x)
received_audio-build_subframe {s} p depth x v h =
    ap (Option.map (λ bs. val (take 24 bs))) (receive-build_subframe p depth x v)
    ∙ ap some (updated ∙ audio_fields s depth x h)
  where
    updated :
        let s' = update_subframe s depth x in
        val (take 24 (payload (build_subframe s p depth x).0)) ≡ s'.sample * 2 ^ 4 + s'.aux
    updated = unfold build_subframe in val-take-payload (update_subframe-IsSubframe depth x v)

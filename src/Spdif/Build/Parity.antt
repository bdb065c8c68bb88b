-- ===== src/Spdif/Build/Parity.antt =====
-- The parity bit of `spdif_build_subframe`, and why a preamble never has to be inverted: the code
-- word of a subframe leaves the line low.
use raspdif.Prelude.{ℕ, ◌+◌, ◌%◌, ◌≡◌, refl, ap, ◌∙◌, arith}
use raspdif.Prelude.{Bool, true, false, List, [], ◌∷◌, ◌++◌, length, length-append, some}
use raspdif.Prelude.{drop, drop-append}
use raspdif.Bits.{bits, odd, digit, digit-odd, length-bits, length-reverse, ones, popcount, rbit}
use raspdif.Spdif.{
  Subframe, raw, SampleDepth, Preamble, preamble_code, update_subframe, build_subframe,
}
use raspdif.Spdif.{store_sample}
use raspdif.Spdif.Line.{wire, biphase, level_after, receive, receive-biphase}
use raspdif.Spdif.Encode.Wire.{odd-encode}
use raspdif.Spdif.Build.{IsSubframe, payload, bits-raw, wire-rbit-raw, update_subframe-IsSubframe}
use raspdif.Spdif.Build.{store_sample-IsSubframe}
use raspdif.Spdif.{depth_16, depth_20, depth_24}
use raspdif.Bits.{popcount_lem}
use raspdif.Spdif.Build.{build_subframe-wire}

ones-append : (xs ys : List Bool) → ones (xs ++ ys) ≡ ones xs + ones ys
unfolding ones
ones-append [] ys = omega arith
ones-append (x ∷ xs) ys = omega (arith, ones-append xs ys)

-- The ones of all fields but the parity bit.
abbrev ones_before : Subframe → ℕ
ones_before s =
    ones (bits 4 s.aux) + (ones (bits 20 s.sample) + (s.validity + s.user_data + s.channel_status))

ones-payload : {s : Subframe} → IsSubframe s → ones (payload s) ≡ ones_before s + s.parity
unfolding ones
ones-payload {s} v = omega (
  arith,
  ones-append (bits 4 s.aux) (
      bits 20 s.sample
      ++ (odd s.validity ∷ odd s.user_data ∷ odd s.channel_status ∷ odd s.parity ∷ [])),
  ones-append (bits 20 s.sample)
      (odd s.validity ∷ odd s.user_data ∷ odd s.channel_status ∷ odd s.parity ∷ []),
  digit-odd s.validity,
  digit-odd s.user_data,
  digit-odd s.channel_status,
  digit-odd s.parity,
)

popcount-raw :
    {s : Subframe}
    → IsSubframe s
    → popcount (raw s) ≡ ones (bits 4 s.preamble) + (ones_before s + s.parity)
popcount-raw {s} v = omega (
  arith,
  popcount_lem (raw s),
  ap ones (bits-raw v),
  ones-append (bits 4 s.preamble) (payload s),
  ones-payload v,
)

cleared :
    {s : Subframe} (depth : SampleDepth) (x : ℕ)
    → IsSubframe s
    → IsSubframe (record (store_sample s depth x) { validity = 0; parity = 0 })
cleared depth x v = let w = store_sample-IsSubframe depth x v in omega arith

pub preamble-update_subframe :
    (s : Subframe) (depth : SampleDepth) (x : ℕ) → (update_subframe s depth x).preamble ≡ s.preamble
unfolding update_subframe store_sample
preamble-update_subframe s depth_16 x = refl
preamble-update_subframe s depth_20 x = refl
preamble-update_subframe s depth_24 x = refl

ones-nothing : ones (bits 4 0) ≡ 0
unfolding ones bits odd
ones-nothing = refl

-- The word that is stored has an even number of ones, for a subframe whose fields are in range.
pub popcount-update_subframe :
    {s : Subframe} (depth : SampleDepth) (x : ℕ)
    → IsSubframe s
    → popcount (raw (update_subframe s depth x)) % 2 ≡ 0
unfolding update_subframe
popcount-update_subframe {s} depth x v =
    let t : Subframe = record (store_sample s depth x) { validity = 0; parity = 0 } in
    let w : IsSubframe t = cleared depth x v in
    let w' : IsSubframe (record t { parity = popcount (raw t) % 2 }) =
      update_subframe-IsSubframe depth x v in
    omega (arith, popcount-raw w, popcount-raw w')

-- Every cell of a 0 toggles the line, every cell of a 1 leaves it as it was.
level_after-ones :
    (l : Bool) (bs : List Bool) → (digit (level_after l bs) + digit l + length bs + ones bs) % 2 ≡ 0
unfolding level_after ones
level_after-ones true [] = refl
level_after-ones false [] = refl
level_after-ones true (true ∷ bs) = omega (arith, level_after-ones true bs)
level_after-ones true (false ∷ bs) = omega (arith, level_after-ones false bs)
level_after-ones false (true ∷ bs) = omega (arith, level_after-ones false bs)
level_after-ones false (false ∷ bs) = omega (arith, level_after-ones true bs)

length-payload : (s : Subframe) → length (payload s) ≡ 28
length-payload s = omega (
  arith,
  length-append (bits 4 s.aux) (
      bits 20 s.sample
      ++ (odd s.validity ∷ odd s.user_data ∷ odd s.channel_status ∷ odd s.parity ∷ [])),
  length-append (bits 20 s.sample)
      (odd s.validity ∷ odd s.user_data ∷ odd s.channel_status ∷ odd s.parity ∷ []),
  length-bits 4 s.aux,
  length-bits 20 s.sample,
)

-- The preamble field is left alone; where it is 0 the payload alone has an even number of ones.
ones-payload-update :
    {s : Subframe} (depth : SampleDepth) (x : ℕ)
    → IsSubframe s
    → s.preamble ≡ 0
    → ones (payload (update_subframe s depth x)) % 2 ≡ 0
ones-payload-update {s} depth x v h =
    let w = update_subframe-IsSubframe depth x v in
    omega (
      arith,
      popcount-raw w,
      popcount-update_subframe depth x v,
      ones-payload w,
      ap (λ t. ones (bits 4 t)) (preamble-update_subframe s depth x ∙ h),
      ones-nothing,
    )

digit-zero : (b : Bool) → digit b % 2 ≡ 0 → b ≡ false
digit-zero b h = ground arith

-- The code word of a subframe with fields in range and an empty preamble field ends low, whatever
-- the sample is:
-- the next preamble starts from the level that its code assumes.
pub build_subframe_level :
    {s : Subframe} (p : Preamble) (depth : SampleDepth) (x : ℕ)
    → IsSubframe s
    → s.preamble ≡ 0
    → odd (build_subframe s p depth x).1 ≡ false
unfolding build_subframe
build_subframe_level {s} p depth x v h =
    let s' = update_subframe s depth x in
    rw (odd-encode p (rbit (raw s')), wire-rbit-raw (update_subframe-IsSubframe depth x v))
      (digit-zero (level_after false (payload s')) (
        omega (
          arith,
          level_after-ones false (payload s'),
          length-payload s',
          ones-payload-update depth x v h,
        )))

-- A receiver that skips the preamble and reads biphase-mark cells gets the fields of the updated
-- subframe, for a subframe whose fields are in range.
pub receive-build_subframe :
    {s : Subframe} (p : Preamble) (depth : SampleDepth) (x : ℕ)
    → IsSubframe s
    → let (s', code) = build_subframe s p depth x in
      receive false (drop 8 (wire 64 code)) ≡ some (payload s')
receive-build_subframe {s} p depth x v =
    let s' = (build_subframe s p depth x).0 in
    rw
      (
        build_subframe-wire p depth x v,
        drop-append 8 (wire 8 (preamble_code p)) (biphase false (payload s'))
            (length-reverse (bits 8 (preamble_code p)) ∙ length-bits 8 (preamble_code p)),
      )
      (receive-biphase false (payload s'))

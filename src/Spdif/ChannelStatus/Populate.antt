-- ===== src/Spdif/ChannelStatus/Populate.antt =====
-- What `spdif_populate_channel_status` leaves in the frames of a block.
use raspdif.Prelude.{ℕ, zero, suc, ◌+◌, ◌<◌, ◌≤◌, ◌≡◌, ◌≢◌, ◌⊎◌, inl, inr, refl, ap, ◌∙◌, arith}
use raspdif.Prelude.{true, ◌==◌, ==_iff, if◌then◌else◌, List, [], ◌∷◌, get_or, length}
use raspdif.Prelude.{modify, length-modify, get_or-modify_self, get_or-modify_ne, Bool-cases}
use raspdif.Bits.{every_below, every_below_at}
use raspdif.Spdif.{Frame, Block, zero_frame, spdif_frame_count}
use raspdif.Spdif.ChannelStatus.{status_bit, channel_status_a, channel_status_b, mark_frame}
use raspdif.Spdif.ChannelStatus.{populate_from, populate_channel_status}

-- Frames outside `[i, i + left)` are not touched.
get_or-populate_from_outside :
    (left i j : ℕ) (block : Block)
    → (j < i) ⊎ (i + left ≤ j)
    → get_or (populate_from left i block) j zero_frame ≡ get_or block j zero_frame
unfolding populate_from
get_or-populate_from_outside zero i j block h = refl
get_or-populate_from_outside (suc left) i j block h =
    get_or-populate_from_outside left (i + 1) j (modify block i (mark_frame i)) (ground arith)
    ∙ get_or-modify_ne block i j (mark_frame i) zero_frame (ground arith)

-- A frame inside is marked once, by its own index.
get_or-populate_from :
    (left i j : ℕ) (block : Block)
    → i ≤ j
    → j < i + left
    → j < length block
    → get_or (populate_from left i block) j zero_frame ≡ mark_frame j (get_or block j zero_frame)
unfolding populate_from
get_or-populate_from zero i j block h k l = absurd (omega arith)
get_or-populate_from (suc left) i j block h k l = elim (Bool-cases (i == j)) [
  | inl e ↦
      let here : i ≡ j = ground arith in
      get_or-populate_from_outside left (i + 1) j (modify block i (mark_frame i))
        (inl (omega arith))
      ∙ rw here (get_or-modify_self block j (mark_frame j) zero_frame l)
  | inr e ↦
      let apart : i ≢ j = ground arith in
      get_or-populate_from left (i + 1) j (modify block i (mark_frame i)) (omega arith)
        (omega arith) (rw length-modify l)
      ∙ ap (mark_frame j) (get_or-modify_ne block i j (mark_frame i) zero_frame apart)
]

pub length-populate_from :
    (left i : ℕ) (block : Block) → length (populate_from left i block) ≡ length block
unfolding populate_from
length-populate_from zero i block = refl
length-populate_from (suc left) i block =
    length-populate_from left (i + 1) (modify block i (mark_frame i))
    ∙ length-modify block i (mark_frame i)

-- A channel status as the standard lists it: the positions of its ones.
abbrev pub one_at : List ℕ → ℕ → ℕ
one_at [] i = 0
one_at (k ∷ ks) i = if i == k then 1 else one_at ks i

-- Consumer PCM with copying permitted (bit 2), the channel number 1 or 2 in the four bits from 20
-- on, and the sampling frequency "not indicated" (bit 24).
abbrev pub left_status : List ℕ
left_status = 2 ∷ 20 ∷ 24 ∷ []

abbrev pub right_status : List ℕ
right_status = 2 ∷ 21 ∷ 24 ∷ []

table_left : every_below 192 (λ i. status_bit channel_status_a i == one_at left_status i) ≡ true
unfolding every_below status_bit channel_status_a
table_left = refl

table_right : every_below 192 (λ i. status_bit channel_status_b i == one_at right_status i) ≡ true
unfolding every_below status_bit channel_status_b
table_right = refl

abbrev pub with_status : ℕ → Frame → Frame
with_status i f = record f {
  a = record f.a { channel_status = one_at left_status i };
  b = record f.b { channel_status = one_at right_status i };
}

mark_frame_lem : (i : ℕ) (f : Frame) → i < 192 → mark_frame i f ≡ with_status i f
unfolding mark_frame
mark_frame_lem i f h =
    rw
      (
        (==_iff (status_bit channel_status_a i) (one_at left_status i)).0
            (every_below_at 192 _ i table_left h),
        (==_iff (status_bit channel_status_b i) (one_at right_status i)).0
            (every_below_at 192 _ i table_right h),
      )
      refl

-- In a block of 192 frames, frame `i` carries bit `i` of the two channel statuses, which differ in
-- the channel number only; no other field of any subframe changes, and no frame is added or lost.
pub get_or-populate_channel_status :
    (block : Block) (i : ℕ)
    → length block ≡ spdif_frame_count
    → i < spdif_frame_count
    → (get_or (populate_channel_status block) i zero_frame
        ≡ with_status i (get_or block i zero_frame))
      × (length (populate_channel_status block) ≡ spdif_frame_count)
unfolding populate_channel_status
get_or-populate_channel_status block i size h = (
  get_or-populate_from 192 0 i block (omega arith) (omega arith) (omega arith)
      ∙ mark_frame_lem i (get_or block i zero_frame) h,
  length-populate_from 192 0 block ∙ size,
)

-- ===== src/Spdif/Build.antt =====
-- `spdif_build_subframe`: what is on the wire, read field by field, its parity, and the level at
-- which it leaves the line.
pub mod Parity
pub mod Audio
use mathlib.Core.List.{append-nil, append_assoc, reverse-append}
use mathlib.Core.Path.{◌≡⟨◌⟩◌, ◌∎}
use raspdif.Prelude.{ℕ, suc, ◌+◌, ◌-◌, ◌*◌, ◌/◌, ◌%◌, ◌^◌, ◌<◌, ◌≡◌, refl, sym, ap, ◌∙◌, arith}
use raspdif.Prelude.{
  Bool, true, false, List, [], ◌∷◌, ◌++◌, length, drop, drop-append, reverse, ltb, if◌then◌else◌,
  asr32,
}
use raspdif.Bits.{bits, odd, bits-split, bits_fields, bit_and_mask, length-bits, length-reverse}
use raspdif.Bits.{rbit, reverse-bits-rbit, popcount}
use raspdif.Spdif.{
  Subframe, raw, SampleDepth, depth_16, depth_20, depth_24, Preamble, preamble_code,
}
use raspdif.Spdif.{store_sample, update_subframe, build_subframe, encode_biphase_mark}
use raspdif.Spdif.Line.{wire, biphase}
use raspdif.Spdif.Encode.Wire.{encode_wire}

-- The range of each bit field.
pub record IsSubframe (s : Subframe) : Type 0 where
  pub preamble_fits : s.preamble < 2 ^ 4
  pub aux_fits : s.aux < 2 ^ 4
  pub sample_fits : s.sample < 2 ^ 20
  pub validity_fits : s.validity < 2
  pub user_data_fits : s.user_data < 2
  pub channel_status_fits : s.channel_status < 2
  pub parity_fits : s.parity < 2

-- The 28 time slots after the preamble, in the order of transmission: every field is sent with
-- its lowest bit first.
abbrev pub payload : Subframe → List Bool
payload s =
    bits 4 s.aux
    ++ (bits 20 s.sample
        ++ (odd s.validity ∷ odd s.user_data ∷ odd s.channel_status ∷ odd s.parity ∷ []))

-- The word above the preamble field, and its four last bits.
abbrev flags : Subframe → ℕ
flags s = ((s.parity * 2 ^ 1 + s.channel_status) * 2 ^ 1 + s.user_data) * 2 ^ 1 + s.validity

abbrev slots : Subframe → ℕ
slots s = (flags s * 2 ^ 20 + s.sample) * 2 ^ 4 + s.aux

bits-flags :
    (v u c p : ℕ)
    → v < 2
    → u < 2
    → c < 2
    → bits 4 (((p * 2 ^ 1 + c) * 2 ^ 1 + u) * 2 ^ 1 + v) ≡ odd v ∷ odd u ∷ odd c ∷ odd p ∷ []
unfolding bits
bits-flags v u c p hv hu hc =
    bits_fields 1 3 4 v ((p * 2 ^ 1 + c) * 2 ^ 1 + u) refl hv
    ∙ ap (λ t. odd v ∷ t)
        (bits_fields 1 2 3 u (p * 2 ^ 1 + c) refl hu
          ∙ ap (λ t. odd u ∷ t) (bits_fields 1 1 2 c p refl hc))

bits-slots : {s : Subframe} → IsSubframe s → bits 28 (slots s) ≡ payload s
bits-slots {s} v =
    rw
      (
        bits_fields 4 24 28 s.aux (flags s * 2 ^ 20 + s.sample) refl v.aux_fits,
        bits_fields 20 4 24 s.sample (flags s) refl v.sample_fits,
        bits-flags s.validity s.user_data s.channel_status s.parity v.validity_fits v.user_data_fits
            v.channel_status_fits,
      )
      refl

-- The bits of the word are the preamble field and the payload.
pub bits-raw : {s : Subframe} → IsSubframe s → bits 32 (raw s) ≡ bits 4 s.preamble ++ payload s
bits-raw {s} v =
    bits 32 (raw s)
    ≡⟨ ap (bits 32) (omega arith) ⟩ bits 32 (slots s * 2 ^ 4 + s.preamble)
    ≡⟨ bits_fields 4 28 32 s.preamble (slots s) refl v.preamble_fits ⟩
      bits 4 s.preamble ++ bits 28 (slots s)
    ≡⟨ ap (λ t. bits 4 s.preamble ++ t) (bits-slots v) ⟩ bits 4 s.preamble ++ payload s ∎

-- `__rbit` turns the word round, so that its lowest bit is sent first.
wire-rbit : (x : ℕ) → wire 28 (rbit x) ≡ drop 4 (bits 32 x)
wire-rbit x =
    wire 28 (rbit x)
    ≡⟨ sym (drop-append 4 (wire 4 (rbit x / 2 ^ 28)) (wire 28 (rbit x)) four) ⟩
      drop 4 (wire 4 (rbit x / 2 ^ 28) ++ wire 28 (rbit x))
    ≡⟨ ap (drop 4) (sym (reverse-append (bits 28 (rbit x)) (bits 4 (rbit x / 2 ^ 28)))) ⟩
      drop 4 (reverse (bits 28 (rbit x) ++ bits 4 (rbit x / 2 ^ 28)))
    ≡⟨ ap (λ t. drop 4 (reverse t)) (sym (bits-split 28 4 32 (rbit x) refl)) ⟩
      drop 4 (wire 32 (rbit x))
    ≡⟨ ap (drop 4) (reverse-bits-rbit x) ⟩ drop 4 (bits 32 x) ∎
  where
    four : length (wire 4 (rbit x / 2 ^ 28)) ≡ 4
    four = length-reverse (bits 4 (rbit x / 2 ^ 28)) ∙ length-bits 4 (rbit x / 2 ^ 28)

-- The bits that `spdif_encode_biphase_mark` is given, in the order in which it codes them.
pub wire-rbit-raw : {s : Subframe} → IsSubframe s → wire 28 (rbit (raw s)) ≡ payload s
wire-rbit-raw {s} v =
    rw (wire-rbit (raw s), bits-raw v)
      (drop-append 4 (bits 4 s.preamble) (payload s) (length-bits 4 s.preamble))

store_sample-IsSubframe :
    {s : Subframe} (depth : SampleDepth) (x : ℕ)
    → IsSubframe s
    → IsSubframe (store_sample s depth x)
unfolding store_sample
store_sample-IsSubframe depth_16 x v = omega arith
store_sample-IsSubframe depth_20 x v = omega arith
store_sample-IsSubframe depth_24 x v = omega arith

-- Every store keeps the fields in range.
pub update_subframe-IsSubframe :
    {s : Subframe} (depth : SampleDepth) (x : ℕ)
    → IsSubframe s
    → IsSubframe (update_subframe s depth x)
unfolding update_subframe
update_subframe-IsSubframe {s} depth x v = let w = store_sample-IsSubframe depth x v in omega arith

-- The returned code, sent from its highest bit on, is the preamble followed by the biphase-mark
-- cells of the updated subframe's fields, each field with its lowest bit first, for a subframe
-- whose fields are in range.
pub build_subframe-wire :
    {s : Subframe} (p : Preamble) (depth : SampleDepth) (x : ℕ)
    → IsSubframe s
    → let (s', code) = build_subframe s p depth x in
      wire 64 code ≡ wire 8 (preamble_code p) ++ biphase false (payload s')
unfolding build_subframe
build_subframe-wire {s} p depth x v =
    rw
      (
        encode_wire p (rbit (raw (update_subframe s depth x))),
        wire-rbit-raw (update_subframe-IsSubframe depth x v),
      )
      refl

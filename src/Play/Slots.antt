-- ===== src/Play/Slots.antt =====
-- Storing a pair changes one slot of one buffer.
use raspdif.Prelude.{ℕ, ◌%◌, ◌<◌, ◌≡◌, ◌≢◌, ◌⊎◌, inl, inr, sym, ap, arith}
use raspdif.Prelude.{[], get_or, modify, get_or-modify_self, get_or-modify_ne, eq_or_ne}
use raspdif.Samples.{Format}
use raspdif.Buffers.{buffer_count, buffer_size, buffer_samples, CodedPair, zero_pair}
use raspdif.Buffers.Store.{buffer-buffer_samples}
use raspdif.Play.{Player, store_pair}
use raspdif.Play.Invariant.{IsPlaying, IsBuffer-at}

-- Slot `s` of buffer `i`.
abbrev pub slot_at : Player → ℕ → ℕ → CodedPair
slot_at p i s = get_or (get_or p.buffers i []) s zero_pair

module _ {p : Player} {n : ℕ} (format : Format) (index x y i s : ℕ) (h : IsPlaying p n)
    (k : index < buffer_count) where
  other_buffer : i ≢ index → slot_at (store_pair format index x y p).0 i s ≡ slot_at p i s
  unfolding store_pair
  other_buffer other =
      let r = buffer_samples p.position (get_or p.buffers index []) p.block format x y in
      ap (λ b. get_or b s zero_pair)
        (get_or-modify_ne p.buffers index i (λ _. r.buffer) [] (λ e. other (sym e)))

  other_slot :
      i ≡ index
      → s ≢ n % buffer_size
      → slot_at (store_pair format index x y p).0 i s ≡ slot_at p i s
  unfolding store_pair
  other_slot same other =
      let buffer = get_or p.buffers index [] in
      let r = buffer_samples p.position buffer p.block format x y in
      let here : get_or (modify p.buffers index (λ _. r.buffer)) index [] ≡ r.buffer =
        get_or-modify_self p.buffers index (λ _. r.buffer) [] (omega (arith, h.count)) in
      rw (same, here)
        ((buffer-buffer_samples p.position n buffer p.block format x y h.position h.block
            (IsBuffer-at format index x y h k)).1
          s other)

  -- After `n` pairs the next one goes to slot `n % 2048` of the buffer of the index, and every other
  -- slot of every buffer stays.
  pub slot_at-store_pair :
      (i ≢ index) ⊎ (s ≢ n % buffer_size)
      → slot_at (store_pair format index x y p).0 i s ≡ slot_at p i s
  slot_at-store_pair (inl other) = other_buffer other
  slot_at-store_pair (inr other) = elim (eq_or_ne i index) [
    | inl same ↦ other_slot same other
    | inr apart ↦ other_buffer apart
  ]

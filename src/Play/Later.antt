-- ===== src/Play/Later.antt =====
-- What `raspdif_fill_buffers` keeps, also while it waits for DMA.
use raspdif.Prelude.{ℕ, zero, suc, ◌+◌, ◌<◌, ◌≤◌, ◌≡◌, inl, inr, refl, ◌∙◌, arith}
use raspdif.Prelude.{Bool, ◌==◌, Bool-cases}
use raspdif.Prelude.{List, [], ◌∷◌}
use raspdif.Samples.{Format}
use raspdif.Buffers.{buffer_count, buffer_size}
use raspdif.ControlBlocks.{block_address}
use raspdif.Play.{next_draw, Player, Action, Noise, fill_sample, store_pair, fill_buffer, fill_all}
use raspdif.Play.{fill_buffers, next_index, note, polled, slept}
use raspdif.Play.Invariant.{IsPlaying, note-IsPlaying, store_pair-IsPlaying}

-- A later state: at least as many pairs are stored, and what only `main` changes is as before.
pub record Later (p : Player) (n : ℕ) (q : Player) : Type 0 where
  pub pairs : ℕ
  pub playing : IsPlaying q pairs
  pub more : n ≤ pairs
  pub index : q.buffer_index ≡ p.buffer_index
  pub samples : q.samples ≡ p.samples

pub Later-trans : {p q r : Player} {n : ℕ} (h : Later p n q) → Later q h.pairs r → Later p n r
Later-trans h k = record {
  pairs = k.pairs;
  playing = k.playing;
  more = omega (arith, h.more, k.more);
  index = k.index ∙ h.index;
  samples = k.samples ∙ h.samples;
}

pub Later-note : {p : Player} {n : ℕ} (a : Action) → IsPlaying p n → Later p n (note a p)
Later-note {n = n} a h = record {
  pairs = n;
  playing = note-IsPlaying a h;
  more = omega arith;
  index = refl;
  samples = refl;
}

Later-store_pair :
    {p : Player} {n : ℕ} (format : Format) (index x y : ℕ)
    → IsPlaying p n
    → index < buffer_count
    → Later p n (store_pair format index x y p).0
unfolding store_pair
Later-store_pair {n = n} format index x y h k = record {
  pairs = n + 1;
  playing = (store_pair-IsPlaying format index x y h k).0;
  more = omega arith;
  index = refl;
  samples = refl;
}

module _ (base : ℕ) (format : Format) (keep_alive : Bool) (noise : Noise) where
  Later-fill_buffer :
      (fuel index k : ℕ) {p : Player} {n : ℕ}
      → IsPlaying p n
      → index < buffer_count
      → Later p n (fill_buffer base format keep_alive noise fuel index k p).player
  unfolding fill_buffer
  Later-fill_buffer zero index k {n = n} h i = record {
    pairs = n;
    playing = h;
    more = omega arith;
    index = refl;
    samples = refl;
  }
  Later-fill_buffer (suc fuel) index k {p} h i =
      let x = fill_sample keep_alive (noise k).0 in
      let y = fill_sample keep_alive (noise k).1 in
      let one = Later-store_pair format index x y h i in
      elim (Bool-cases (store_pair format index x y p).1) [
        | inl e ↦ rw e one
        | inr e ↦
            rw e (
              Later-trans one (Later-fill_buffer fuel index (next_draw keep_alive k) one.playing i))
      ]

  Later-fill_all :
      (polls : List ℕ) (left index k : ℕ) {p : Player} {n : ℕ}
      → IsPlaying p n
      → index < buffer_count
      → Later p n (fill_all base format keep_alive noise polls left index k p).player
  unfolding fill_all
  Later-fill_all polls zero index k {n = n} h i = record {
    pairs = n;
    playing = h;
    more = omega arith;
    index = refl;
    samples = refl;
  }
  Later-fill_all [] (suc left) index k {n = n} h i = record {
    pairs = n;
    playing = h;
    more = omega arith;
    index = refl;
    samples = refl;
  }
  Later-fill_all (conblk ∷ polls) (suc left) index k {p} h i =
      let p' = note (polled conblk) p in
      let seen = Later-note (polled conblk) h in
      let asleep = Later-trans seen (Later-note slept seen.playing) in
      let one = Later-trans seen (Later-fill_buffer buffer_size index k seen.playing i) in
      let r = fill_buffer base format keep_alive noise buffer_size index k p' in
      elim (Bool-cases (conblk == block_address base index)) [
        | inl e ↦
            rw e (Later-trans asleep (Later-fill_all polls (suc left) index k asleep.playing i))
        | inr e ↦ elim (Bool-cases r.finished) [
          | inl f ↦
              rw (e, f)
                (Later-trans one
                  (Later-fill_all polls left (next_index index) r.drawn one.playing (omega arith)))
          | inr f ↦ rw (e, f) one
        ]
      ]

  pub Later-fill_buffers :
      (polls : List ℕ) (index : ℕ) {p : Player} {n : ℕ}
      → IsPlaying p n
      → index < buffer_count
      → Later p n (fill_buffers base format keep_alive noise polls index p).player
  unfolding fill_buffers
  Later-fill_buffers polls index {p} h i =
      let r = fill_buffer base format keep_alive noise buffer_size index 0 p in
      let one = Later-fill_buffer buffer_size index 0 h i in
      elim (Bool-cases r.finished) [
        | inl f ↦ rw f (
            Later-trans one (
              Later-fill_all polls buffer_count (next_index index) r.drawn one.playing
                (omega arith)))
        | inr f ↦ rw f one
      ]

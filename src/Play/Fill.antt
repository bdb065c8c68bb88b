-- ===== src/Play/Fill.antt =====
-- `raspdif_fill_buffers` ends, and where it leaves the counters.
use raspdif.Prelude.{ℕ, zero, suc, ◌+◌, ◌-◌, ◌*◌, ◌/◌, ◌%◌, ◌≤◌, ◌<◌, ◌≡◌, ◌≢◌, refl, arith}
use mathlib.Core.Path.{subst}
use raspdif.Prelude.{ap, ◌∙◌}
use raspdif.Play.{Action, next_draw}
use raspdif.Prelude.{Bool, true, ◌==◌, Bool-cases, ==-true, ==-false, List, [], ◌∷◌, ◌⊎◌, inl, inr}
use raspdif.Buffers.{buffer_count, buffer_size}
use raspdif.Samples.{Format}
use raspdif.ControlBlocks.{block_address}
use raspdif.Play.{
  Player, Noise, Filled, fill_buffer, fill_all, fill_buffers, fill_sample, store_pair,
}
use raspdif.Play.{next_index, note, polled, slept, stored, waited, dma_enable, pcm_enable}
use raspdif.Play.Invariant.{IsPlaying, note-IsPlaying, store_pair-IsPlaying}

-- The next multiple of the buffer size above `n`.
abbrev pub next_full : ℕ → ℕ
next_full n = (n / buffer_size + 1) * buffer_size

-- The buffers of the stored pairs, the latest first.
unfoldable pub stored_of : List Action → List ℕ
stored_of [] = []
stored_of (polled a ∷ trace) = stored_of trace
stored_of (slept ∷ trace) = stored_of trace
stored_of (stored index ∷ trace) = index ∷ stored_of trace
stored_of (dma_enable b ∷ trace) = stored_of trace
stored_of (pcm_enable b ∷ trace) = stored_of trace
stored_of (waited ∷ trace) = stored_of trace

-- `count` more pairs into the buffer of the index.
unfoldable pub times : ℕ → ℕ → List ℕ → List ℕ
times zero index before = before
times (suc count) index before = times count index (index ∷ before)

-- `left` whole buffers in the order of the ring, from the index on.
unfoldable pub whole : ℕ → ℕ → List ℕ → List ℕ
whole zero index before = before
whole (suc left) index before = whole left (next_index index) (times buffer_size index before)

-- What a fill of an underrun stores with `n` pairs before it: the rest of the current buffer, then
-- all buffers from the next one on.
abbrev pub refilled : ℕ → ℕ → List ℕ → List ℕ
refilled n index before =
    whole buffer_count (next_index index) (times (next_full n - n) index before)

-- A finished fill: the count of pairs that it ends at, and the buffers that it stored them in.
pub record Ends (m : ℕ) (into : List ℕ) (r : Filled) : Type 0 where
  pub done : r.finished ≡ true
  pub playing : IsPlaying r.player m
  pub fills : stored_of r.player.trace ≡ into

module _ (base : ℕ) (format : Format) (keep_alive : Bool) (noise : Noise) where
  pub fill_buffer-Ends :
      (fuel index k n : ℕ) (p : Player)
      → IsPlaying p n
      → index < buffer_count
      → next_full n ≤ n + fuel
      → Ends
          (next_full n)
          (times (next_full n - n) index (stored_of p.trace))
          (fill_buffer base format keep_alive noise fuel index k p)
  unfolding fill_buffer store_pair stored_of times
  fill_buffer-Ends zero index k n p h i room = absurd (omega arith)
  fill_buffer-Ends (suc fuel) index k n p h i room =
      let x = fill_sample keep_alive (noise k).0 in
      let y = fill_sample keep_alive (noise k).1 in
      let s = store_pair-IsPlaying format index x y h i in
      elim (Bool-cases ((n + 1) % buffer_size == 0)) [
        | inl e ↦
            let last : n + 1 ≡ next_full n = ground arith in
            let one_left : 1 ≡ next_full n - n = omega (arith, last) in
            rw (s.1, e)
              (record {
                done = refl;
                playing = subst (IsPlaying (store_pair format index x y p).0) last s.0;
                fills = ap (λ c. times c index (stored_of p.trace)) one_left;
              })
        | inr e ↦
            let same : next_full (n + 1) ≡ next_full n = ground arith in
            let one_more : suc (next_full (n + 1) - (n + 1)) ≡ next_full n - n =
              omega (arith, same) in
            let later =
              fill_buffer-Ends fuel index (next_draw keep_alive k) (n + 1)
                (store_pair format index x y p).0 s.0 i (omega arith) in
            rw (s.1, e)
              (record {
                done = later.done;
                playing = subst (IsPlaying _) same later.playing;
                fills = later.fills ∙ ap (λ c. times c index (stored_of p.trace)) one_more;
              })
      ]

  -- Readings of the DMA register that show `left` times, in turn, another buffer than the next.
  abbrev pub Lets : List ℕ → ℕ → ℕ → Type 0
  Lets polls zero index = Unit
  Lets [] (suc left) index = ⊥
  Lets (conblk ∷ polls) (suc left) index =
      ((conblk ≡ block_address base index) × Lets polls (suc left) index)
      ⊎ ((conblk ≢ block_address base index) × Lets polls left (next_index index))

  fill_all-Ends :
      (polls : List ℕ) (left index k n : ℕ) (p : Player)
      → IsPlaying p n
      → n % buffer_size ≡ 0
      → index < buffer_count
      → Lets polls left index
      → Ends
          (n + left * buffer_size)
          (whole left index (stored_of p.trace))
          (fill_all base format keep_alive noise polls left index k p)
  unfolding fill_all stored_of whole
  fill_all-Ends polls zero index k n p h full i lets = record {
    done = refl;
    playing = subst (IsPlaying p) (omega arith) h;
    fills = refl;
  }
  fill_all-Ends [] (suc left) index k n p h full i lets = absurd lets
  fill_all-Ends (conblk ∷ polls) (suc left) index k n p h full i (inl busy) =
      rw (==-true conblk (block_address base index) busy.0) (
        fill_all-Ends polls (suc left) index k n (note slept (note (polled conblk) p))
          (note-IsPlaying slept (note-IsPlaying (polled conblk) h)) full i busy.1)
  fill_all-Ends (conblk ∷ polls) (suc left) index k n p h full i (inr free) =
      let p' = note (polled conblk) p in
      let one =
        fill_buffer-Ends buffer_size index k n p' (note-IsPlaying (polled conblk) h) i
          (omega arith) in
      let all_of_it : next_full n - n ≡ buffer_size = omega arith in
      let r = fill_buffer base format keep_alive noise buffer_size index k p' in
      let rest =
        fill_all-Ends polls left (next_index index) r.drawn (next_full n) r.player one.playing
          (omega arith) (omega arith) free.1 in
      rw (==-false conblk (block_address base index) free.0, one.done)
        (record {
          done = rest.done;
          playing = subst (IsPlaying _) (omega arith) rest.playing;
          fills =
              rest.fills
              ∙ ap (whole left (next_index index))
                  (one.fills ∙ ap (λ c. times c index (stored_of p.trace)) all_of_it);
        })

  -- In a well-formed state with an index in range, if the DMA register in turn leaves each of
  -- the three buffers, raspdif_fill_buffers ends. From n pairs on it completes the current
  -- buffer and then fills the three buffers from the next one on, each whole and in the order
  -- of the ring: the pairs are stored in exactly these buffers, and their count is then a
  -- multiple of the buffer size.
  pub fill_buffers-Ends :
      (polls : List ℕ) (index n : ℕ) (p : Player)
      → IsPlaying p n
      → index < buffer_count
      → Lets polls buffer_count (next_index index)
      → Ends
          ((n / buffer_size + 4) * buffer_size)
          (refilled n index (stored_of p.trace))
          (fill_buffers base format keep_alive noise polls index p)
  unfolding fill_buffers
  fill_buffers-Ends polls index n p h i lets =
      let one = fill_buffer-Ends buffer_size index 0 n p h i (omega arith) in
      let r = fill_buffer base format keep_alive noise buffer_size index 0 p in
      let rest =
        fill_all-Ends polls buffer_count (next_index index) r.drawn (next_full n) r.player
          one.playing (omega arith) (omega arith) lets in
      rw one.done (record {
        done = rest.done;
        playing = subst (IsPlaying _) (omega arith) rest.playing;
        fills = rest.fills ∙ ap (whole buffer_count (next_index index)) one.fills;
      })

-- ===== src/Play/Guard.antt =====
-- The order of register readings and stores: no pair is stored into a buffer that the last reading
-- of the DMA register showed in use.
pub mod Rounds
use raspdif.Prelude.{ℕ, zero, suc, ◌+◌, ◌≡◌, ◌≢◌, arith}
use raspdif.Prelude.{Bool, false, ◌==◌, Bool-cases, inl, inr}
use raspdif.Prelude.{List, [], ◌∷◌, Option, none, some}
use raspdif.Buffers.{buffer_count, buffer_size}
use raspdif.Samples.{Format}
use raspdif.ControlBlocks.{block_address}
use raspdif.Play.{
  next_draw, Action, polled, slept, stored, dma_enable, pcm_enable, waited, Player, note,
}
use raspdif.Play.{Noise, fill_sample, next_index, store_pair, fill_buffer, fill_all, fill_buffers}

-- The address that the register had when it was last read.
abbrev pub last_poll : List Action → Option ℕ
last_poll [] = none
last_poll (polled conblk ∷ trace) = some conblk
last_poll (slept ∷ trace) = last_poll trace
last_poll (stored i ∷ trace) = last_poll trace
last_poll (dma_enable b ∷ trace) = last_poll trace
last_poll (pcm_enable b ∷ trace) = last_poll trace
last_poll (waited ∷ trace) = last_poll trace

module _ (base : ℕ) where
  abbrev pub Guarded : List Action → Type 0
  Guarded [] = Unit
  Guarded (stored i ∷ trace) = (last_poll trace ≢ some (block_address base i)) × Guarded trace
  Guarded (polled conblk ∷ trace) = Guarded trace
  Guarded (slept ∷ trace) = Guarded trace
  Guarded (dma_enable b ∷ trace) = Guarded trace
  Guarded (pcm_enable b ∷ trace) = Guarded trace
  Guarded (waited ∷ trace) = Guarded trace

  -- The buffer of an index may be stored to.
  abbrev Free : ℕ → Player → Type 0
  Free index p = (last_poll p.trace ≢ some (block_address base index)) × Guarded p.trace

  Free-store_pair :
      (format : Format) (index x y : ℕ) (p : Player)
      → Free index p
      → Free index (store_pair format index x y p).0
  unfolding store_pair
  Free-store_pair format index x y p h = (h.0, h)

  Free-fill_buffer :
      (format : Format) (keep_alive : Bool) (noise : Noise) (fuel index k : ℕ) (p : Player)
      → Free index p
      → Guarded (fill_buffer base format keep_alive noise fuel index k p).player.trace
  unfolding fill_buffer
  Free-fill_buffer format keep_alive noise zero index k p h = h.1
  Free-fill_buffer format keep_alive noise (suc fuel) index k p h =
      let x = fill_sample keep_alive (noise k).0 in
      let y = fill_sample keep_alive (noise k).1 in
      let s = Free-store_pair format index x y p h in
      elim (Bool-cases (store_pair format index x y p).1) [
        | inl e ↦ rw e s.1
        | inr e ↦ rw e (
            Free-fill_buffer format keep_alive noise fuel index (next_draw keep_alive k)
              (store_pair format index x y p).0 s)
      ]

  Free-of_poll :
      (conblk index : ℕ) (p : Player)
      → (conblk == block_address base index) ≡ false
      → Guarded p.trace
      → Free index (note (polled conblk) p)
  Free-of_poll conblk index p e h = (λ same. ground arith, h)

  Guarded-fill_all :
      (format : Format) (keep_alive : Bool) (noise : Noise) (polls : List ℕ) (left index k : ℕ)
      (p : Player)
      → Guarded p.trace
      → Guarded (fill_all base format keep_alive noise polls left index k p).player.trace
  unfolding fill_all
  Guarded-fill_all format keep_alive noise polls zero index k p h = h
  Guarded-fill_all format keep_alive noise [] (suc left) index k p h = h
  Guarded-fill_all format keep_alive noise (conblk ∷ polls) (suc left) index k p h =
      let p' = note (polled conblk) p in
      let r = fill_buffer base format keep_alive noise buffer_size index k p' in
      elim (Bool-cases (conblk == block_address base index)) [
        | inl busy ↦
            rw busy
              (Guarded-fill_all format keep_alive noise polls (suc left) index k (note slept p') h)
        | inr free ↦
            let one =
              Free-fill_buffer format keep_alive noise buffer_size index k p'
                (Free-of_poll conblk index p free h) in
            elim (Bool-cases r.finished) [
              | inl e ↦
                  rw (free, e)
                    (Guarded-fill_all format keep_alive noise polls left (next_index index) r.drawn
                      r.player one)
              | inr e ↦ rw (free, e) one
            ]
      ]

  Guarded-fill_buffers :
      (format : Format) (keep_alive : Bool) (noise : Noise) (polls : List ℕ) (index : ℕ)
      (p : Player)
      → Free index p
      → Guarded (fill_buffers base format keep_alive noise polls index p).player.trace
  unfolding fill_buffers
  Guarded-fill_buffers format keep_alive noise polls index p h =
      let r = fill_buffer base format keep_alive noise buffer_size index 0 p in
      let one = Free-fill_buffer format keep_alive noise buffer_size index 0 p h in
      elim (Bool-cases r.finished) [
        | inl e ↦ rw e (
            Guarded-fill_all format keep_alive noise polls buffer_count (next_index index) r.drawn
              r.player one)
        | inr e ↦ rw e one
      ]

-- ===== src/Live/Made.antt =====
-- How the actions that the player records are tied to the calls of main: a state of the device that was
-- made by exactly these actions and reads, in their order.
use raspdif.Prelude.{ℕ, zero, suc, ◌≡◌, refl, sym, inl, inr, Bool, true, false, ◌==◌, Bool-cases}
use raspdif.Prelude.{◌*◌, if◌then◌else◌, List, [], ◌∷◌}
use mathlib.Core.Path.{subst}
use raspdif.Registers.{assign, assign_all}
use raspdif.Dma.{active, flag}
use raspdif.Samples.{sample_size}
use raspdif.ControlBlocks.{block_address}
use raspdif.Play.{Action, polled, slept, stored, dma_enable, pcm_enable, waited}
use raspdif.Play.{Player, Read, Noise, Config, Tick, fill_buffer, fill_sample, next_draw}
use raspdif.Play.{store_pair, store_samples, round, preload, start_transmit}
use raspdif.Program.{Machine}
use raspdif.Setup.{Board}
use raspdif.Live.{Calls}
use raspdif.Live.Device.{channel_registers, conblk_register, enabling}

-- The reads of the preload, of a round, of some rounds and of all the playing, before those from earlier,
-- the latest first.
unfoldable pub preload_reads : List Read → List Read → List Read
preload_reads [] reads = reads
preload_reads (r ∷ rest) reads = preload_reads rest (r ∷ reads)

module _ (c : Config) where
  abbrev pub round_reads : Tick → Player → List Read → List Read
  round_reads t p reads =
      if t.conblk == block_address c.base p.buffer_index then reads else t.read ∷ reads

  unfoldable pub ticks_reads : List Tick → Player → List Read → List Read
  ticks_reads [] p reads = reads
  ticks_reads (t ∷ ticks) p reads = ticks_reads ticks (round c t p).player (round_reads t p reads)

  abbrev pub all_reads : List Read → List Tick → Player → List Read
  all_reads reads ticks p =
      ticks_reads ticks (start_transmit (preload c.format reads p).player) (preload_reads reads [])

module _ {S : Type 0} (board : Board S) (calls : Calls S) (m : Machine S) (c : Config)
    (delay : ℕ) where
  -- What an action does to the device; a reading of the register gives the address recorded.
  abbrev pub Effect : Action → S → S → Type 0
  Effect (polled a) s s' = (a, s') ≡ board.bus.read (conblk_register m) s
  Effect slept s s' = s' ≡ calls.sleeps (delay * 1000) s
  Effect (stored index) s s' = s' ≡ s
  Effect (dma_enable b) s s' = s' ≡ assign board.bus (channel_registers m) active (flag b) s
  Effect (pcm_enable b) s s' = s' ≡ assign_all board.bus m.drivers.pcm (enabling b) s
  Effect waited s s' = s' ≡ calls.waits s

  -- From the record `before` and the device `s0` on, these actions and these reads, the latest first, led
  -- to this device. Besides them there is only the call that makes the file non-blocking.
  pub data Made (before : List Action) (s0 : S) : List Action → List Read → S → Type 0 where
    begins : Made before s0 before [] s0
    acts :
        {trace : List Action} {reads : List Read} {s s' : S} (a : Action)
        → Made before s0 trace reads s
        → Effect a s s'
        → Made before s0 (a ∷ trace) reads s'
    freads :
        {trace : List Action} {reads : List Read} {s s' : S} (r : Read)
        → Made before s0 trace reads s
        → (r, s') ≡ calls.reads (sample_size c.format) s
        → Made before s0 trace (r ∷ reads) s'
    unblocks :
        {trace : List Action} {reads : List Read} {s : S}
        → Made before s0 trace reads s
        → Made before s0 trace reads (calls.unblocks s)

  module _ (before : List Action) (s0 : S) where
    -- A piece of the program that reads nothing from the file goes from one record to the other.
    abbrev pub Goes : List Action → List Action → S → S → Type 0
    Goes trace trace' s s' =
        (reads : List Read) → Made before s0 trace reads s → Made before s0 trace' reads s'

    pub fill_buffer-Goes :
        (noise : Noise) (fuel index k : ℕ) (p : Player) (s : S)
        → Goes p.trace
            (fill_buffer c.base c.format c.keep_alive noise fuel index k p).player.trace
            s
            s
    unfolding fill_buffer store_pair
    fill_buffer-Goes noise zero index k p s reads made = made
    fill_buffer-Goes noise (suc fuel) index k p s reads made =
        let x = fill_sample c.keep_alive (noise k).0 in
        let y = fill_sample c.keep_alive (noise k).1 in
        let (p', full) = store_pair c.format index x y p in
        let one = acts (stored index) made refl in
        elim (Bool-cases full) [
          | inl e ↦ rw e one
          | inr e ↦
              rw e (fill_buffer-Goes noise fuel index (next_draw c.keep_alive k) p' s reads one)
        ]

    moved-trace :
        (b : Bool) (index : ℕ) (p : Player)
        → (if b then record p { buffer_index = index } else p).trace ≡ p.trace
    moved-trace true index p = refl
    moved-trace false index p = refl

    -- A pair is stored, and the index may move on.
    pub store_samples-Goes :
        (p : Player) (index : ℕ) (s : S)
        → let (p', full) = store_samples c.format p in
          Goes p.trace (if full then record p' { buffer_index = index } else p').trace s s
    unfolding store_samples store_pair
    store_samples-Goes p index s reads made =
        let (p', full) = store_samples c.format p in
        subst (λ t. Made before s0 t reads s) (sym (moved-trace full index p'))
          (acts (stored p.buffer_index) made refl)

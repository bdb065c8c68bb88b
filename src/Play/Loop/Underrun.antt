-- ===== src/Play/Loop/Underrun.antt =====
-- The underrun branch of a round, and the invariant of the whole transmission loop.
use mathlib.Core.Path.{subst, ◌∙◌}
use raspdif.Prelude.{ℕ, ◌+◌, ◌*◌, ◌/◌, ◌<◌, ◌≡◌, ◌≢◌, inl, inr, refl, sym, arith}
use raspdif.Prelude.{Bool, true, false, not, ◌&&◌, ◌==◌, Bool-cases, ==-false, if◌then◌else◌}
use raspdif.Prelude.{List, ◌∷◌, All}
use raspdif.Samples.Value.{IsByte}
use raspdif.Buffers.{buffer_count, buffer_size}
use raspdif.ControlBlocks.{block_address}
use raspdif.Play.{Player, Action, Filled, items, fill_buffers, next_index, note, note_if}
use raspdif.Play.{waited, pcm_enable, Tick, Config, Round, underrun, round}
use raspdif.Play.Invariant.{IsPlaying, IsPlaying-of_same, note-IsPlaying}
use raspdif.Play.Fill.{Lets, stored_of, refilled, fill_buffers-Ends}
use raspdif.Play.Later.{Later, Later-fill_buffers}
use raspdif.Play.Loop.{IsReady, taken, taken-IsReady}

-- A round that may use the buffer, finds less than a pair and not the end of the file.
pub record RunsDry (c : Config) (t : Tick) (p : Player) : Type 0 where
  pub free : t.conblk ≢ block_address c.base p.buffer_index
  pub short : items c.format t.read ≢ 2
  pub open_ended : t.read.eof ≡ false
  pub bytes : All IsByte t.read.bytes

-- What the program does after the fill: PCM off if that is asked for, the wait, and PCM on again.
abbrev pub pause : Bool → List Action → List Action
pause pcm_disable trace =
    if pcm_disable then pcm_enable true ∷ waited ∷ pcm_enable false ∷ trace else waited ∷ trace

module _ (c : Config) (t : Tick) (p : Player) where
  -- The fill of an underrun.
  abbrev pub filled : Filled
  filled = fill_buffers c.base c.format c.keep_alive t.noise t.polls p.buffer_index (taken c t p)

  abbrev after_fill : Round
  after_fill = record {
    player =
        note_if c.pcm_disable (pcm_enable true)
          (note waited (note_if c.pcm_disable (pcm_enable false) filled.player));
    eof = false;
    finished = true;
  }

  dry_test :
      items c.format t.read ≢ 2
      → t.read.eof ≡ false
      → (not (items c.format t.read == 2) && not t.read.eof) ≡ true
  dry_test h k = ground arith

  round-dry : RunsDry c t p → round c t p ≡ underrun c t (taken c t p)
  unfolding round
  round-dry h = rw (
    ==-false t.conblk (block_address c.base p.buffer_index) h.free,
    dry_test h.short h.open_ended,
  )

  noted-IsPlaying :
      (b : Bool) (a : Action) {q : Player} {m : ℕ} → IsPlaying q m → IsPlaying (note_if b a q) m
  noted-IsPlaying true a h = note-IsPlaying a h
  noted-IsPlaying false a h = h

  -- The fill and the pause leave the index and the sample buffer alone.
  paused-IsReady :
      (m : ℕ)
      → p.buffer_index < buffer_count
      → All IsByte (taken c t p).samples
      → filled.player.buffer_index ≡ p.buffer_index
      → filled.player.samples ≡ (taken c t p).samples
      → IsPlaying filled.player m
      → IsReady after_fill.player m
        × (after_fill.player.buffer_index ≡ p.buffer_index)
        × (after_fill.player.trace ≡ pause c.pcm_disable filled.player.trace)
  paused-IsReady m i b same_index same_samples h = elim (Bool-cases c.pcm_disable) [
    | inl e ↦ rw e (
      record {
        playing = IsPlaying-of_same refl refl refl h;
        index = omega (arith, same_index);
        bytes = subst (All IsByte) (sym same_samples) b;
      },
      same_index,
      refl,
    )
    | inr e ↦ rw e (
      record {
        playing = IsPlaying-of_same refl refl refl h;
        index = omega (arith, same_index);
        bytes = subst (All IsByte) (sym same_samples) b;
      },
      same_index,
      refl,
    )
  ]

  stored_of-pause : stored_of after_fill.player.trace ≡ stored_of filled.player.trace
  unfolding stored_of
  stored_of-pause = elim (Bool-cases c.pcm_disable) [ inl e ↦ rw e refl | inr e ↦ rw e refl ]

  module _ (n : ℕ) (h : IsReady p n) (dry : RunsDry c t p) where
    ready : IsReady (taken c t p) n
    ready = taken-IsReady c t p n h dry.bytes

    later : Later (taken c t p) n filled.player
    later =
        Later-fill_buffers c.base c.format c.keep_alive t.noise t.polls p.buffer_index ready.playing
          h.index

    -- From a well-formed state with n pairs, if DMA in turn leaves the three buffers, a round
    -- that may use the buffer but reads bytes of less than a pair before the end of the file
    -- stores into the rest of the current buffer and then into the three buffers from the next
    -- one on, each whole and in the order of the ring; then it pauses, with PCM off if that is
    -- asked for, and the loop goes on at the same index.
    pub round-underrun :
        Lets c.base c.format c.keep_alive t.noise t.polls buffer_count (next_index p.buffer_index)
        → let q = round c t p in
          (q.finished ≡ true)
          × (q.eof ≡ false)
          × IsReady q.player ((n / buffer_size + 4) * buffer_size)
          × (q.player.buffer_index ≡ p.buffer_index)
          × (q.player.trace ≡ pause c.pcm_disable filled.player.trace)
          × (stored_of q.player.trace ≡ refilled n p.buffer_index (stored_of p.trace))
    unfolding underrun stored_of
    round-underrun lets =
        let ends =
          fill_buffers-Ends c.base c.format c.keep_alive t.noise t.polls p.buffer_index n
            (taken c t p) ready.playing h.index lets in
        let done =
          paused-IsReady ((n / buffer_size + 4) * buffer_size) h.index ready.bytes later.index
            later.samples ends.playing in
        rw (round-dry dry, ends.done)
          (refl, refl, done.0, done.1, done.2, stored_of-pause ∙ ends.fills)

    -- The invariant holds also where the fill still waits.
    pub dry-IsReady : (m : ℕ) × IsReady (round c t p).player m
    unfolding underrun
    dry-IsReady =
        let done =
          paused-IsReady later.pairs h.index ready.bytes later.index later.samples later.playing in
        elim (Bool-cases filled.finished) [
          | inl e ↦ (later.pairs, rw (round-dry dry, e) done.0)
          | inr e ↦ (
            later.pairs,
            rw (round-dry dry, e)
                (record {
                  playing = later.playing;
                  index = omega (arith, later.index, h.index);
                  bytes = subst (All IsByte) (sym later.samples) ready.bytes;
                }),
          )
        ]

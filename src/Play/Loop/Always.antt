-- ===== src/Play/Loop/Always.antt =====
-- The invariant over all rounds of the transmission loop.
use raspdif.Prelude.{ℕ, ◌+◌, ◌≡◌, ◌≢◌, ◌⊎◌, inl, inr, arith, ==-true}
use raspdif.Prelude.{true, false, not, ◌&&◌, ◌==◌, Bool-cases, List, [], ◌∷◌, All}
use raspdif.Samples.Value.{IsByte}
use raspdif.ControlBlocks.{block_address}
use raspdif.Play.{Player, items, note, polled, slept, Tick, Config, round, transmit}
use raspdif.Play.Invariant.{note-IsPlaying}
use raspdif.Play.Loop.{IsReady, Loads, round-Loaded}
use raspdif.Play.Loop.Underrun.{RunsDry, dry-IsReady}

-- What `fread` delivers are bytes.
abbrev pub ReadsBytes : Tick → Type 0
ReadsBytes t = All IsByte t.read.bytes

module _ (c : Config) (t : Tick) (p : Player) where
  -- DMA is at the buffer of the index: the round sleeps and changes nothing else.
  pub round-busy :
      t.conblk ≡ block_address c.base p.buffer_index
      → round c t p
        ≡ record { player = note slept (note (polled t.conblk) p); eof = false; finished = true }
  unfolding round
  round-busy h = rw (==-true t.conblk (block_address c.base p.buffer_index) h)

  ne_of_test :
      (t.conblk == block_address c.base p.buffer_index) ≡ false
      → t.conblk ≢ block_address c.base p.buffer_index
  ne_of_test h = ground arith

  Loads-of_test :
      (t.conblk == block_address c.base p.buffer_index) ≡ false
      → (not (items c.format t.read == 2) && not t.read.eof) ≡ false
      → ReadsBytes t
      → Loads c t p
  Loads-of_test free enough b = record {
    free = ne_of_test free;
    enough = some_test enough;
    bytes = b;
  }
    where
      some_test :
          (not (items c.format t.read == 2) && not t.read.eof) ≡ false
          → (items c.format t.read ≡ 2) ⊎ (t.read.eof ≡ true)
      some_test e = elim (Bool-cases t.read.eof) [
        | inl at_end ↦ inr at_end
        | inr more ↦ inl (ground arith)
      ]

  RunsDry-of_test :
      (t.conblk == block_address c.base p.buffer_index) ≡ false
      → (not (items c.format t.read == 2) && not t.read.eof) ≡ true
      → ReadsBytes t
      → RunsDry c t p
  RunsDry-of_test free dry b = record {
    free = ne_of_test free;
    short = ground arith;
    open_ended = ground arith;
    bytes = b;
  }

  pub round-IsReady :
      (n : ℕ) → IsReady p n → ReadsBytes t → (m : ℕ) × IsReady (round c t p).player m
  round-IsReady n h b = elim (Bool-cases (t.conblk == block_address c.base p.buffer_index)) [
    | inl busy ↦ (
      n,
      rw (round-busy (ground arith)) (record {
        playing = note-IsPlaying slept (note-IsPlaying (polled t.conblk) h.playing);
        index = h.index;
        bytes = h.bytes;
      }),
    )
    | inr free ↦ elim (Bool-cases (not (items c.format t.read == 2) && not t.read.eof)) [
      | inl dry ↦ dry-IsReady c t p n h (RunsDry-of_test free dry b)
      | inr enough ↦ (n + 1, (round-Loaded c t p n h (Loads-of_test free enough b)).ready)
    ]
  ]

-- Over any rounds the state stays well-formed: every index in range, the counters in step with the
-- number of pairs stored, block and buffers of their sizes.
pub transmit-IsReady :
    (c : Config) (ticks : List Tick) (p : Player) (n : ℕ)
    → IsReady p n
    → All ReadsBytes ticks
    → (m : ℕ) × IsReady (transmit c ticks p) m
unfolding transmit
transmit-IsReady c [] p n h b = (n, h)
transmit-IsReady c (t ∷ ticks) p n h b =
    let r = round c t p in
    let one = round-IsReady c t p n h b.0 in
    elim (Bool-cases (r.finished && not r.eof)) [
      | inl e ↦
          let rest = transmit-IsReady c ticks r.player one.0 one.1 b.1 in (rest.0, rw e rest.1)
      | inr e ↦ (one.0, rw e one.1)
    ]

-- ===== src/Live/Progress.antt =====
-- `raspdif_fill_buffers` and the underrun of `main` on a system where time passes: a rank of the device, such as
-- the work that is left until the end of the file, that the calls do not raise.
use raspdif.Prelude.{
  ℕ, zero, suc, ◌+◌, ◌*◌, ◌≤◌, ◌<◌, ◌≢◌, ◌≡◌, ◌⊎◌, inl, inr, refl, sym, ap, arith,
}
use raspdif.Prelude.{Bool, true, false, ◌==◌, Bool-cases, List, [], ◌∷◌}
use raspdif.Prelude.{◌∙◌}
use mathlib.Core.Path.{subst}
use raspdif.Registers.{Field, assign, assign_all}
use raspdif.Buffers.{buffer_count, buffer_size}
use raspdif.ControlBlocks.{block_address}
use raspdif.Play.{Player, Filled, Noise, Config, Round, note, polled, slept}
use raspdif.Play.{next_index, fill_buffer}
use raspdif.Play.Invariant.{IsPlaying, note-IsPlaying}
use raspdif.Play.Fill.{fill_buffer-Ends, next_full}
use raspdif.Program.{Machine, give, system_call, ◌>>◌}
use raspdif.Setup.{Board}
use raspdif.Setup.Harmless.{Untouched}
use raspdif.Live.{Calls, enable_pcm_if, random_pairs}
use raspdif.Live.{live_fill_all, live_fill_buffers, live_underrun}
use raspdif.Live.Device.{conblk_register, channel_registers, enabling}
use raspdif.Registers.{get, put}
use raspdif.Registers.Fields.{get-put_self}
use raspdif.Dma.{active}
use raspdif.Live.Yields.{Yields, then-Yields, after-Yields, map-Yields, give-Yields}
use raspdif.Live.Device.{IsDriven, IsKept}
use raspdif.Live.Yields.{call-Yields}
use raspdif.Live.Device.{poll-Yields, pcm-Yields, sleep-Yields}

-- The rank of the device, such as the bytes that the file still has, and more than `top` while DMA
-- stands still: to set ACTIVE brings it to `top` at most, and that and the other calls do not raise
-- it; a read lowers it or meets the end of the file. DMA that goes and is seen at a buffer has
-- moved on from there after a sleep of the duration of a buffer.
pub record IsProgress {S : Type 0} (board : Board S) (calls : Calls S) (m : Machine S) (c : Config)
    (delay : ℕ) (rank : S → ℕ) (top : ℕ) : Type 0 where
  pub by_read : (a : ℕ) (s : S) → rank (board.bus.read a s).1 ≤ rank s
  pub by_pcm : (v : ℕ) (s : S) → rank (board.bus.write m.drivers.pcm v s) ≤ rank s
  pub starts :
      (v : ℕ) (s : S)
      → get active v ≡ 1
      → let s' = board.bus.write (channel_registers m) v s in (rank s' ≤ top) × (rank s' ≤ rank s)
  pub by_unblock : (s : S) → rank (calls.unblocks s) ≤ rank s
  pub by_wait : (s : S) → rank (calls.waits s) ≤ rank s
  pub by_fread : (size : ℕ) (s : S) → rank (calls.reads size s).1 ≤ rank s
  pub ends :
      (size : ℕ) (s : S) → let (r, s') = calls.reads size s in (r.eof ≡ true) ⊎ (rank s' < rank s)
  pub by_sleep : (time : ℕ) (s : S) → rank (calls.sleeps time s) ≤ rank s
  pub moves :
      (index : ℕ) (s : S)
      → let (conblk, s') = board.bus.read (conblk_register m) s in
        rank s ≤ top
        → conblk ≡ block_address c.base index
        → (board.bus.read (conblk_register m) (calls.sleeps (delay * 1000) s')).0
          ≢ block_address c.base index

module _ {S : Type 0} {H : Type 0} (board : Board S) (calls : Calls S) (held : S → H)
    (m : Machine S) (u : Untouched held board.bus board.pcm_delay board.gpio_delay) (d : IsDriven m)
    (kept : IsKept calls held) (c : Config) (delay : ℕ) (short : delay < 1_000_000) (rank : S → ℕ)
    (top : ℕ) (goes : IsProgress board calls m c delay rank top) where
  pub enable_pcm-rank :
      (fields : List (Field × ℕ)) (s : S)
      → rank (assign_all board.bus m.drivers.pcm fields s) ≤ rank s
  enable_pcm-rank [] s = omega arith
  enable_pcm-rank ((f, v) ∷ rest) s =
      let (word, s1) = board.bus.read m.drivers.pcm s in
      omega (
        arith,
        enable_pcm-rank rest (assign board.bus m.drivers.pcm f v s),
        goes.by_pcm (put f v word) s1,
        goes.by_read m.drivers.pcm s,
      )

  -- DMA goes.
  pub enable_dma-rank :
      (s : S)
      → let s' = assign board.bus (channel_registers m) active 1 s in
        (rank s' ≤ top) × (rank s' ≤ rank s)
  enable_dma-rank s =
      let (word, s1) = board.bus.read (channel_registers m) s in
      let on = goes.starts (put active 1 word) s1 (get-put_self active 1 word ∙ omega arith) in
      (on.0, omega (arith, on.1, goes.by_read (channel_registers m) s))

  pub poll-rank :
      (conblk : ℕ) (s s1 : S)
      → (conblk, s1) ≡ board.bus.read (conblk_register m) s
      → rank s1 ≤ rank s
  poll-rank conblk s s1 seen = subst (λ x. rank x.1 ≤ rank s) (sym seen) (goes.by_read _ s)

  eq_of_test : (a b : ℕ) → (a == b) ≡ true → a ≡ b
  eq_of_test a b h = ground arith

  -- DMA is read to be elsewhere.
  abbrev pub Free : ℕ → S → Type 0
  Free index s = (board.bus.read (conblk_register m) s).0 ≢ block_address c.base index

  -- A test that fails shows that it is not.
  pub seen_there :
      (index conblk : ℕ) (s s1 : S)
      → (conblk, s1) ≡ board.bus.read (conblk_register m) s
      → (conblk == block_address c.base index) ≡ true
      → (board.bus.read (conblk_register m) s).0 ≡ block_address c.base index
  seen_there index conblk s s1 seen busy =
      ap (λ x. x.0) (sym seen) ∙ eq_of_test conblk (block_address c.base index) busy

  pub sleep-Free :
      (index conblk : ℕ) (s s1 s2 : S)
      → (conblk, s1) ≡ board.bus.read (conblk_register m) s
      → (conblk == block_address c.base index) ≡ true
      → s2 ≡ calls.sleeps (delay * 1000) s1
      → rank s ≤ top
      → Free index s2
  sleep-Free index conblk s s1 s2 seen busy slow low =
      subst (λ t. Free index t) (sym (slow ∙ ap (λ x. calls.sleeps (delay * 1000) x.1) seen))
        (goes.moves index s low (seen_there index conblk s s1 seen busy))

  pub sleep-rank :
      (s s1 s2 : S) → rank s1 ≤ rank s → s2 ≡ calls.sleeps (delay * 1000) s1 → rank s2 ≤ rank s
  sleep-rank s s1 s2 below slow =
      subst (λ t. rank t ≤ rank s) (sym slow)
        (omega (arith, goes.by_sleep (delay * 1000) s1, below))

  -- Enough for `left` buffers, each of which DMA may be at once.
  abbrev HasFuel : ℕ → ℕ → ℕ → S → Type 0
  HasFuel fuel left index s = (left * 2 ≤ fuel) ⊎ (Free index s × (left * 2 ≤ fuel + 1))

  live_fill_all-Ends :
      (noise : Noise) (fuel left index k n : ℕ) (p : Player) (s : S)
      → IsPlaying p n
      → index < buffer_count
      → HasFuel fuel left index s
      → rank s ≤ top
      → Yields held m
          (live_fill_all board calls c delay noise fuel left index k p)
          s
          (λ r s'. (r.finished ≡ true) × (rank s' ≤ rank s))
  unfolding live_fill_all
  live_fill_all-Ends noise zero zero index k n p s h i room low =
      give-Yields held m _ (refl, omega arith)
  live_fill_all-Ends noise (suc fuel) zero index k n p s h i room low =
      give-Yields held m _ (refl, omega arith)
  live_fill_all-Ends noise zero (suc left) index k n p s h i (inl room) low =
      absurd (omega (arith, room))
  live_fill_all-Ends noise zero (suc left) index k n p s h i (inr room) low =
      absurd (omega (arith, room.1))
  live_fill_all-Ends noise (suc fuel) (suc left) index k n p s h i room low =
      then-Yields held m (poll-Yields held m board calls u d s) λ conblk s1 seen.
        let p' = note (polled conblk) p in
        let one =
          fill_buffer-Ends c.base c.format c.keep_alive noise buffer_size index k n p'
            (note-IsPlaying (polled conblk) h) i (omega arith) in
        let r = fill_buffer c.base c.format c.keep_alive noise buffer_size index k p' in
        let below = poll-rank conblk s s1 seen in
        elim (Bool-cases (conblk == block_address c.base index)) [
          | inl busy ↦ rw busy (
              after-Yields held m (sleep-Yields held m board calls u d kept delay s1 short)
                λ s2 slow.
                  let down = sleep-rank s s1 s2 below slow in
                  let gone = sleep-Free index conblk s s1 s2 seen busy slow low in
                  let more : suc left * 2 ≤ fuel + 1 = elim room [
                    | inl much ↦ omega (arith, much)
                    | inr free ↦ absurd (free.0 (seen_there index conblk s s1 seen busy))
                  ] in
                  map-Yields held m (λ r s3 known. (known.0, omega (arith, known.1, down)))
                    (live_fill_all-Ends noise fuel (suc left) index k n (note slept p') s2
                      (note-IsPlaying slept (note-IsPlaying (polled conblk) h)) i (inr (gone, more))
                      (omega (arith, down, low))))
          | inr free ↦
              let more : left * 2 ≤ fuel = elim room [
                | inl much ↦ omega (arith, much)
                | inr known ↦ omega (arith, known.1)
              ] in
              rw (free, one.done)
                (map-Yields held m (λ r s2 known. (known.0, omega (arith, known.1, below)))
                  (live_fill_all-Ends noise fuel left (next_index index) r.drawn (next_full n)
                    r.player s1 one.playing (omega arith) (inl more) (omega (arith, below, low))))
        ]

  abbrev FillEnds : ℕ → Filled → S → Type 0
  FillEnds bound r s' = (r.finished ≡ true) × (rank s' ≤ bound)

  live_fill_buffers-Ends :
      (noise : Noise) (fuel index n : ℕ) (p : Player) (s : S)
      → IsPlaying p n
      → index < buffer_count
      → 6 ≤ fuel
      → rank s ≤ top
      → Yields held m
          (live_fill_buffers board calls c delay noise fuel index p)
          s
          (FillEnds (rank s))
  unfolding live_fill_buffers
  live_fill_buffers-Ends noise fuel index n p s h i room low =
      let one =
        fill_buffer-Ends c.base c.format c.keep_alive noise buffer_size index 0 n p h i
          (omega arith) in
      let r = fill_buffer c.base c.format c.keep_alive noise buffer_size index 0 p in
      rw one.done (
        live_fill_all-Ends noise fuel buffer_count (next_index index) r.drawn (next_full n) r.player
          s one.playing (omega arith) (inl room) low)

  abbrev Lowers : ℕ → {A : Type 0} → A → S → Type 0
  Lowers bound a s' = rank s' ≤ bound

  enable_if-Lowers :
      (wanted b : Bool) (s : S)
      → Yields held m (enable_pcm_if board calls wanted b) s (Lowers (rank s))
  enable_if-Lowers true b s =
      map-Yields held m
        (λ r s1 e. subst (λ t. rank t ≤ rank s) (sym e) (enable_pcm-rank (enabling b) s))
        (pcm-Yields held m board calls u d b s)
  enable_if-Lowers false b s = give-Yields held m tt (omega arith)

  pause-Lowers :
      (r : Round) (s : S)
      → Yields held m
          (enable_pcm_if board calls c.pcm_disable false
            >> system_call calls.waits
            >> enable_pcm_if board calls c.pcm_disable true
            >> give r)
          s
          (λ q s'. (r ≡ q) × (rank s' ≤ rank s))
  pause-Lowers r s =
      after-Yields held m
        (after-Yields held m {Q = Lowers (rank s)}
          (after-Yields held m {Q = Lowers (rank s)} (enable_if-Lowers c.pcm_disable false s)
            (λ s1 off.
              map-Yields held m
                (λ a s2 e.
                  let down = goes.by_wait s1 in
                  subst (λ t. rank t ≤ rank s) (sym e) (omega (arith, down, off)))
                (call-Yields held m calls.waits kept.waits s1)))
          (λ s2 waited.
            map-Yields held m (λ a s3 on. omega (arith, on, waited))
              (enable_if-Lowers c.pcm_disable true s2)))
        (λ s3 on. give-Yields held m r (refl, on))

  -- The underrun ends, and the loop goes on.
  abbrev Pauses : ℕ → Round → S → Type 0
  Pauses bound r s' = (r.finished ≡ true) × (rank s' ≤ bound)

  pub live_underrun-Ends :
      (fuel n : ℕ) (p : Player) (s : S)
      → IsPlaying p n
      → p.buffer_index < buffer_count
      → 6 ≤ fuel
      → rank s ≤ top
      → Yields held m (live_underrun board calls c delay fuel p) s (Pauses (rank s))
  unfolding live_underrun
  live_underrun-Ends fuel n p s h i room low =
      let noise = random_pairs board calls (calls.time s) in
      let y =
        then-Yields held m {Q = Pauses (rank s)}
          (live_fill_buffers-Ends noise fuel p.buffer_index n p s h i room low)
          λ r s1 (full, down). rw full (
            map-Yields held m
              (λ q s2 (e, lower). (ap (λ q. q.finished) (sym e), omega (arith, lower, down)))
              (pause-Lowers _ s1)) in
      record { result = y.result; known = y.known; device = y.device; ran = y.ran; same = y.same }

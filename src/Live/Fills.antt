-- ===== src/Live/Fills.antt =====
-- The fills and the underrun of `main` on the machine, compared with those of Play for the readings that they
-- are given.
use raspdif.Prelude.{ℕ, zero, suc, ◌<◌, ◌≡◌, refl, inl, inr}
use raspdif.Prelude.{Bool, true, false, ◌==◌, Bool-cases, List, [], ◌∷◌}
use raspdif.Buffers.{buffer_count, buffer_size}
use raspdif.ControlBlocks.{block_address}
use raspdif.Play.{Player, Read, Filled, Noise, Config, Round, note, polled, slept}
use raspdif.Play.{next_index, fill_buffer, fill_all, fill_buffers}
use raspdif.Play.{Action, underrun, note_if, pcm_enable, waited}
use mathlib.Core.Path.{subst}
use raspdif.Live.Made.{Made, Goes, acts, fill_buffer-Goes}
use raspdif.Program.{Machine, give, system_call, ◌>>◌}
use raspdif.Setup.{Board}
use raspdif.Setup.Harmless.{Untouched}
use raspdif.Live.{Calls, enable_pcm_if, random_pairs}
use raspdif.Live.{live_fill_all, live_fill_buffers, live_underrun}
use raspdif.Live.Yields.{Yields, then-Yields, after-Yields, map-Yields, give-Yields}
use raspdif.Live.Device.{IsDriven, IsKept}
use raspdif.Live.Yields.{call-Yields}
use raspdif.Live.Device.{poll-Yields, pcm-Yields, sleep-Yields}

module _ {S : Type 0} {H : Type 0} (board : Board S) (calls : Calls S) (held : S → H)
    (m : Machine S) (u : Untouched held board.bus board.pcm_delay board.gpio_delay) (d : IsDriven m)
    (kept : IsKept calls held) (c : Config) (delay : ℕ) (short : delay < 1_000_000)
    (before : List Action) (s0 : S) where
  -- From one record of actions and device to another, without a read.
  abbrev pub Passes : List Action → List Action → S → S → Type 0
  Passes trace trace' s s' = Goes board calls m c delay before s0 trace trace' s s'

  -- The fill of the model for some readings of the register.
  abbrev pub FilledSo : Noise → ℕ → ℕ → ℕ → Player → S → Filled → S → Type 0
  FilledSo noise left index k p s r s' =
      (polls : List ℕ) × (fill_all c.base c.format c.keep_alive noise polls left index k p ≡ r)
      × Passes p.trace r.player.trace s s'

  fills-Passes :
      (noise : Noise) (fuel index k : ℕ) (p : Player) (s : S)
      → Passes p.trace
          (fill_buffer c.base c.format c.keep_alive noise fuel index k p).player.trace
          s
          s
  fills-Passes = fill_buffer-Goes board calls m c delay before s0

  live_fill_all-Yields :
      (noise : Noise) (fuel left index k : ℕ) (p : Player) (s : S)
      → Yields held m
          (live_fill_all board calls c delay noise fuel left index k p)
          s
          (FilledSo noise left index k p s)
  unfolding live_fill_all fill_all
  live_fill_all-Yields noise zero zero index k p s = give-Yields held m _ ([], refl, λ R made. made)
  live_fill_all-Yields noise (suc fuel) zero index k p s =
      give-Yields held m _ ([], refl, λ R made. made)
  live_fill_all-Yields noise zero (suc left) index k p s =
      give-Yields held m _ ([], refl, λ R made. made)
  live_fill_all-Yields noise (suc fuel) (suc left) index k p s =
      then-Yields held m (poll-Yields held m board calls u d s) λ conblk s1 known.
        let p' = note (polled conblk) p in
        let r = fill_buffer c.base c.format c.keep_alive noise buffer_size index k p' in
        elim (Bool-cases (conblk == block_address c.base index)) [
          | inl busy ↦ rw busy (
              after-Yields held m (sleep-Yields held m board calls u d kept delay s1 short)
                λ s2 slow.
                  map-Yields held m
                    (λ r s3 (polls, e, go). (
                      conblk ∷ polls,
                      rw busy e,
                      λ R made. go R (acts slept (acts (polled conblk) made known) slow),
                    ))
                    (live_fill_all-Yields noise fuel (suc left) index k (note slept p') s2))
          | inr free ↦ elim (Bool-cases r.finished) [
            | inl full ↦
                rw (free, full)
                  (map-Yields held m
                    (λ r s3 (polls, e, go). (
                      conblk ∷ polls,
                      rw (free, full) e,
                      λ R made. go R (
                          fills-Passes noise buffer_size index k p' s1 R
                            (acts (polled conblk) made known)),
                    ))
                    (live_fill_all-Yields noise fuel left (next_index index) r.drawn r.player s1))
            | inr stuck ↦
                rw (free, stuck)
                  (give-Yields held m _ (
                    conblk ∷ [],
                    rw (free, stuck) refl,
                    λ R made.
                        fills-Passes noise buffer_size index k p' s1 R
                          (acts (polled conblk) made known),
                  ))
          ]
        ]

  live_fill_buffers-Yields :
      (noise : Noise) (fuel index : ℕ) (p : Player) (s : S)
      → Yields held m (live_fill_buffers board calls c delay noise fuel index p) s (λ r s'.
        (polls : List ℕ) × (fill_buffers c.base c.format c.keep_alive noise polls index p ≡ r)
        × Passes p.trace r.player.trace s s')
  unfolding live_fill_buffers fill_buffers
  live_fill_buffers-Yields noise fuel index p s =
      let r = fill_buffer c.base c.format c.keep_alive noise buffer_size index 0 p in
      elim (Bool-cases r.finished) [
        | inl full ↦ rw full (
            map-Yields held m
              (λ q s' (polls, e, go).
                (polls, e, λ R made. go R (fills-Passes noise buffer_size index 0 p s R made)))
              (live_fill_all-Yields noise fuel buffer_count (next_index index) r.drawn r.player s))
        | inr stuck ↦ rw stuck (
            give-Yields held m _
              ([], refl, λ R made. fills-Passes noise buffer_size index 0 p s R made))
      ]

  enable_if-Yields :
      (wanted b : Bool) (p : Player) (s : S)
      → Yields held m
          (enable_pcm_if board calls wanted b)
          s
          (λ _ s'. Passes p.trace (note_if wanted (pcm_enable b) p).trace s s')
  enable_if-Yields true b p s =
      map-Yields held m (λ a s' e. λ R made. acts (pcm_enable b) made e)
        (pcm-Yields held m board calls u d b s)
  enable_if-Yields false b p s = give-Yields held m tt (λ R made. made)

  -- The waiting for the file, with PCM off on request.
  abbrev still : Player → Player
  still p = note waited (note_if c.pcm_disable (pcm_enable false) p)

  abbrev paused : Player → Player
  paused p = note_if c.pcm_disable (pcm_enable true) (still p)

  pause-Yields :
      (r : Round) (p : Player) (s : S)
      → Yields held m
          (enable_pcm_if board calls c.pcm_disable false
            >> system_call calls.waits
            >> enable_pcm_if board calls c.pcm_disable true
            >> give r)
          s
          (λ q s'. (r ≡ q) × Passes p.trace (paused p).trace s s')
  pause-Yields r p s =
      after-Yields held m {P = λ _ s3. Passes p.trace (paused p).trace s s3}
        (after-Yields held m {P = λ _ s2. Passes p.trace (still p).trace s s2}
          (after-Yields held m (enable_if-Yields c.pcm_disable false p s) (λ s1 off.
            map-Yields held m (λ a s2 e. λ R made. acts waited (off R made) e)
              (call-Yields held m calls.waits kept.waits s1)))
          (λ s2 waits.
            map-Yields held m (λ a s3 on. λ R made. on R (waits R made))
              (enable_if-Yields c.pcm_disable true (still p) s2)))
        (λ s' on. give-Yields held m r (refl, on))

  -- An underrun of the model with this reading of the register and this read.
  abbrev pub UnderrunSo : ℕ → Read → Player → S → Round → S → Type 0
  UnderrunSo conblk read p s r s' =
      (polls : List ℕ) × (noise : Noise) × (underrun c
          (record { conblk = conblk; read = read; polls = polls; noise = noise }) p
        ≡ r)
      × Passes p.trace r.player.trace s s'

  pub live_underrun-Yields :
      (fuel conblk : ℕ) (read : Read) (p : Player) (s : S)
      → Yields held m (live_underrun board calls c delay fuel p) s (UnderrunSo conblk read p s)
  unfolding live_underrun underrun
  live_underrun-Yields fuel conblk read p s =
      let noise = random_pairs board calls (calls.time s) in
      let y =
        then-Yields held m {Q = UnderrunSo conblk read p s}
          (live_fill_buffers-Yields noise fuel p.buffer_index p s)
          λ r s1 (polls, e, go). elim (Bool-cases r.finished) [
            | inl full ↦ rw full (
                map-Yields held m
                  (λ q s2 (e', on). (
                    polls,
                    noise,
                    rw (e, full) e',
                    λ R made.
                        subst (λ q. Made board calls m c delay before s0 q.player.trace R s2) e'
                          (on R (go R made)),
                  ))
                  (pause-Yields (record { player = paused r.player; eof = false; finished = true })
                    r.player s1))
            | inr stuck ↦
                rw stuck
                  (give-Yields held m _ (polls, noise, rw (e, stuck) refl, λ R made. go R made))
          ] in
      record { result = y.result; known = y.known; device = y.device; ran = y.ran; same = y.same }

-- ===== src/Live/Rounds.antt =====
-- A round of the transmission on the machine, and the rounds one after the other, compared with those of
-- Play for the readings that they are given.
use raspdif.Prelude.{ℕ, zero, suc, ◌<◌, ◌≡◌, refl, inl, inr}
use raspdif.Prelude.{Bool, false, not, ◌&&◌, ◌==◌, Bool-cases, if◌then◌else◌, List, [], ◌∷◌, All}
use raspdif.ControlBlocks.{block_address}
use raspdif.Play.{Player, Read, Noise, Config, Round, Tick, note, polled}
use raspdif.Play.{fread, items}
use raspdif.Play.{round, transmit}
use raspdif.Program.{Machine}
use raspdif.Setup.{Board}
use raspdif.Setup.Harmless.{Untouched}
use raspdif.Live.{Calls, Played}
use raspdif.Live.{live_read, live_round}
use raspdif.Live.{live_transmit}
use raspdif.Live.Yields.{Yields, then-Yields, after-Yields, map-Yields, give-Yields}
use raspdif.Live.Device.{IsDriven, IsKept}
use raspdif.Samples.Value.{IsByte}
use raspdif.Play.Loop.Always.{ReadsBytes}
use raspdif.Live.Fills.{live_underrun-Yields}
use raspdif.Play.{Action, slept, next_index, store_samples}
use mathlib.Core.Path.{subst}
use raspdif.Prelude.{sym}
use raspdif.Live.Made.{Made, acts, freads, store_samples-Goes, round_reads, ticks_reads}
use raspdif.Live.Device.{read-Yields, poll-Yields, sleep-Yields}

-- Whether the loop of the transmission came to the end of the file.
abbrev pub meets_end : Config → List Tick → Player → Bool
meets_end c [] p = false
meets_end c (t ∷ ticks) p =
    let r = round c t p in
    let rest = meets_end c ticks r.player in if r.finished && not r.eof then rest else r.eof

module _ {S : Type 0} {H : Type 0} (board : Board S) (calls : Calls S) (held : S → H)
    (m : Machine S) (u : Untouched held board.bus board.pcm_delay board.gpio_delay) (d : IsDriven m)
    (kept : IsKept calls held) (c : Config) (delay : ℕ) (short : delay < 1_000_000)
    (before : List Action) (s0 : S) where
  -- These actions and these reads led to the device.
  abbrev MadeBy : List Action → List Read → S → Type 0
  MadeBy = Made board calls m c delay before s0

  -- A tick that had these.
  abbrev tick : ℕ → Read → List ℕ → Noise → Tick
  tick conblk read polls noise = record {
    conblk = conblk;
    read = read;
    polls = polls;
    noise = noise;
  }

  abbrev silence : Noise
  silence k = (0, 0)

  abbrev RoundSo : ℕ → Player → S → Round → S → Type 0
  RoundSo conblk p s r s' =
      (read : Read) × All IsByte read.bytes
      × (polls : List ℕ) × (noise : Noise) × (round c (tick conblk read polls noise) p ≡ r)
      × ((R : List Read)
          → MadeBy (polled conblk ∷ p.trace) R s
          → MadeBy r.player.trace (read ∷ R) s')

  live_read-Yields :
      (fuel conblk : ℕ) (p : Player) (s : S)
      → (conblk == block_address c.base p.buffer_index) ≡ false
      → Yields held m
          (live_read board calls c delay fuel (note (polled conblk) p))
          s
          (RoundSo conblk p s)
  unfolding live_read round
  live_read-Yields fuel conblk p s free =
      then-Yields held m (read-Yields held m board calls u d kept c.format s)
        λ read s1 (from, bytes).
          let p1 = fread read (note (polled conblk) p) in
          elim (Bool-cases (not (items c.format read == 2) && not read.eof)) [
            | inl short_read ↦ rw short_read (
                map-Yields held m
                  (λ r s2 (polls, noise, e, go). (
                    read,
                    bytes,
                    polls,
                    noise,
                    rw (free, short_read) e,
                    λ R made. go (read ∷ R) (freads read made from),
                  ))
                  (live_underrun-Yields board calls held m u d kept c delay short before s0 fuel
                    conblk read p1 s1))
            | inr enough ↦ rw enough (
                give-Yields held m _ (
                  read,
                  bytes,
                  [],
                  silence,
                  rw (free, enough) refl,
                  λ R made.
                      store_samples-Goes board calls m c delay before s0 p1
                        (next_index (store_samples c.format p1).0.buffer_index) s1 (read ∷ R)
                        (freads read made from),
                ))
          ]

  pub live_round-Yields :
      (fuel : ℕ) (p : Player) (s : S)
      → Yields held m (live_round board calls c delay fuel p) s (λ r s'.
        (t : Tick) × ReadsBytes t
        × (round c t p ≡ r)
        × ((R : List Read) → MadeBy p.trace R s → MadeBy r.player.trace (round_reads c t p R) s'))
  unfolding live_round round
  live_round-Yields fuel p s =
      then-Yields held m (poll-Yields held m board calls u d s) λ conblk s1 known.
        elim (Bool-cases (conblk == block_address c.base p.buffer_index)) [
          | inl busy ↦ rw busy (
              after-Yields held m (sleep-Yields held m board calls u d kept delay s1 short)
                λ s2 done. give-Yields held m _ (
                  tick conblk (record { bytes = []; eof = false }) [] silence,
                  tt,
                  rw busy refl,
                  λ R made. rw busy (acts slept (acts (polled conblk) made known) done),
                ))
          | inr free ↦ rw free (
              map-Yields held m
                (λ r s2 (read, bytes, polls, noise, e, go). (
                  tick conblk read polls noise,
                  bytes,
                  e,
                  λ R made. rw free (go R (acts (polled conblk) made known)),
                ))
                (live_read-Yields fuel conblk p s1 free))
        ]

  -- The transmission of the model for some rounds.
  abbrev pub PlayedSo : Player → S → Played → S → Type 0
  PlayedSo p s r s' =
      (ticks : List Tick) × All ReadsBytes ticks
      × (transmit c ticks p ≡ r.player)
      × (meets_end c ticks p ≡ r.over)
      × ((R : List Read) → MadeBy p.trace R s → MadeBy r.player.trace (ticks_reads c ticks p R) s')

  pub live_transmit-Yields :
      (fuel rounds : ℕ) (p : Player) (s : S)
      → Yields held m (live_transmit board calls c delay fuel rounds p) s (PlayedSo p s)
  unfolding live_transmit transmit ticks_reads
  live_transmit-Yields fuel zero p s = give-Yields held m _ ([], tt, refl, refl, λ R made. made)
  live_transmit-Yields fuel (suc rounds) p s =
      then-Yields held m (live_round-Yields fuel p s) λ r s1 (t, bytes, e, go).
        elim (Bool-cases (r.finished && not r.eof)) [
          | inl on ↦ rw on (
              map-Yields held m
                (λ q s2 (ticks, more, f, g, next). (
                  t ∷ ticks,
                  (bytes, more),
                  rw (e, on) f,
                  rw (e, on) g,
                  λ R made.
                      subst
                        (λ x.
                          MadeBy q.player.trace (ticks_reads c ticks x.player (round_reads c t p R))
                            s2)
                        (sym e) (next _ (go R made)),
                ))
                (live_transmit-Yields fuel rounds r.player s1))
          | inr off ↦
              rw off
                (give-Yields held m _ (t ∷ [], (bytes, tt), rw (e, off) refl, rw (e, off) refl, go))
        ]

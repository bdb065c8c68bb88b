-- ===== src/Live/Safety.antt =====
-- What holds of the player while the loops of `main` run on the machine.
use raspdif.Prelude.{ℕ, ◌<◌, ◌≡◌, refl, []}
use mathlib.Core.Path.{subst}
use raspdif.Play.{Player, Config}
use raspdif.Play.Invariant.{IsPlaying}
use raspdif.Play.Guard.{Guarded}
use raspdif.Play.Guard.Rounds.{play-Guarded}
use raspdif.Play.Start.{start_player}
use raspdif.Play.Start.Whole.{play-IsPlaying}
use raspdif.Program.{Machine}
use raspdif.Setup.{Board}
use raspdif.Setup.Harmless.{Untouched}
use raspdif.Live.{Calls, live_play}
use raspdif.Live.Yields.{Yields, map-Yields}
use raspdif.Live.Device.{IsDriven, IsKept}
use raspdif.Live.Follows.{live_play-Plays}

-- Every pair went to a buffer that DMA was not seen at, and the state is well-formed after `n` pairs.
pub record IsSafe (base : ℕ) (p : Player) : Type 0 where
  pub guarded : Guarded base p.trace
  pub pairs : ℕ
  pub playing : IsPlaying p pairs

module _ {S : Type 0} {H : Type 0} (board : Board S) (calls : Calls S) (held : S → H)
    (m : Machine S) (u : Untouched held board.bus board.pcm_delay board.gpio_delay) (d : IsDriven m)
    (kept : IsKept calls held) (c : Config) (delay : ℕ) (short : delay < 1_000_000) where
  start-trace : start_player.trace ≡ []
  unfolding start_player
  start-trace = refl

  -- On drivers that are initialised and a system whose calls keep what is held and whose reads bring
  -- bytes, with a delay below a second: after any number of rounds of the loops of `main`, no pair of
  -- samples was stored into a buffer that the last reading of the DMA register showed in use, and
  -- the counters, the block and the buffers are well-formed.
  pub live_play-IsSafe :
      (fuel rounds : ℕ) (s : S)
      → Yields held m
          (live_play board calls c delay fuel rounds start_player)
          s
          (λ r _. IsSafe c.base r.player)
  live_play-IsSafe fuel rounds s =
      map-Yields held m
        (λ r s' (reads, ticks, bytes, more, same, over, made).
          let (n, playing) = play-IsPlaying c reads ticks bytes more in
          record {
            guarded =
                subst (λ p. Guarded c.base p.trace) same
                  (play-Guarded c reads ticks start_player start-trace);
            pairs = n;
            playing = subst (λ p. IsPlaying p n) same playing;
          })
        (live_play-Plays board calls held m u d kept c delay short fuel rounds start_player s)

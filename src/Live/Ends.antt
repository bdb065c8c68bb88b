-- ===== src/Live/Ends.antt =====
-- The loops of `main`, from the preload on, on a system where time passes.
use raspdif.Prelude.{◌*◌}
use raspdif.Prelude.{ℕ, ◌+◌, ◌≤◌, ◌<◌, ◌≡◌, ◌⊎◌}
use raspdif.Prelude.{true}
use raspdif.Play.{Config, Round}
use raspdif.Program.{Machine}
use raspdif.Setup.{Board}
use raspdif.Setup.Harmless.{Untouched}
use raspdif.Live.{Calls}
use raspdif.Live.Progress.{IsProgress, Free}
use raspdif.Live.Yields.{Yields}
use raspdif.Live.Device.{IsDriven, IsKept}

module _ {S : Type 0} {H : Type 0} (board : Board S) (calls : Calls S) (held : S → H)
    (m : Machine S) (u : Untouched held board.bus board.pcm_delay board.gpio_delay) (d : IsDriven m)
    (kept : IsKept calls held) (c : Config) (delay : ℕ) (short : delay < 1_000_000) (rank : S → ℕ)
    (top : ℕ) (goes : IsProgress board calls m c delay rank top) where
  -- A round met the end of the file or lowered the rank.
  abbrev ReadEnds : ℕ → Round → S → Type 0
  ReadEnds bound r s' = (r.finished ≡ true) × ((r.eof ≡ true) ⊎ (rank s' < bound))

  abbrev IsFree : ℕ → S → Type 0
  IsFree index s = Free board calls held m u d kept c delay short rank top goes index s

  -- Or it found DMA at its buffer, and left it when DMA had moved on.
  abbrev RoundEnds : ℕ → S → Round → S → Type 0
  RoundEnds index s r s' =
      (r.finished ≡ true)
      × ((r.eof ≡ true)
          ⊎ ((rank s' < rank s)
              ⊎ ((IsFree index s → ⊥) × IsFree r.player.buffer_index s' × (rank s' ≤ rank s))))

  -- Enough rounds: each read may come after a round that finds DMA at the buffer.
  abbrev HasRounds : ℕ → ℕ → S → Type 0
  HasRounds rounds index s =
      (2 * rank s + 2 ≤ rounds) ⊎ (IsFree index s × (2 * rank s + 1 ≤ rounds))

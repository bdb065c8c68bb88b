-- ===== src/Main/Interrupted.antt =====
-- `main` of source/main.c, ended or interrupted by a signal between two rounds of its loops.
use raspdif.Prelude.{ℕ, ◌≡◌, List}
use raspdif.Program.{Machine, Ended, done, exits, hangs}
use raspdif.Setup.{Board}
use raspdif.Setup.Working.{IsWorking}
use raspdif.Live.{Calls}
use raspdif.Main.{signal_handler}

module _ {S : Type 0} (board : Board S) (held : S → List ℕ) (peripherals : ℕ)
    (w : IsWorking board held peripherals) where
  -- The program ended with the memory released, or it still runs, and a signal ends it so.
  pub data ReleasesAnyway (before : List ℕ) (r : Ended Unit × Machine S) : Type 0 where
    has_ended : r.0 ≡ done tt → held r.1.host.device ≡ before → ReleasesAnyway before r
    interrupted :
        r.0 ≡ hangs
        → (m' : Machine S) → signal_handler board r.1 ≡ (exits, m')
        → held m'.host.device ≡ before
        → ReleasesAnyway before r

-- ===== src/Main.antt =====
-- `main` of source/main.c, from the arguments to the shutdown, and its signal handler.
pub mod Lifecycle
pub mod Signals
pub mod Interrupted
use raspdif.Prelude.{ℕ, ◌+◌, Bool, true, false, if◌then◌else◌, List, [], ◌∷◌, Option}
use raspdif.Host.{Outcome, ok, exited}
use raspdif.Log.{LogLevel}
use raspdif.Buffers.{buffer_size}
use raspdif.Arguments.{Text, Call, Arguments, Parsing, read_arguments, choose_channel}
use raspdif.Play.{Config}
use raspdif.Play.Start.{start_player}
use raspdif.Program.{
  Machine, Program, Ended, Signal, exits, asserts, hangs, done, give, ◌>>=◌, ◌>>◌,
}
use raspdif.Program.{system_query, log_line, fatal_line}
use raspdif.Setup.{Board, Doubles}
use raspdif.Setup.Raspdif.{raspdif_init, raspdif_shutdown}
use raspdif.Live.{Calls, Played, live_play}

-- The signals in the order of their registration.
abbrev pub all_signals : List Signal
all_signals =
    Signal.sighup ∷ Signal.sigint ∷ Signal.sigquit ∷ Signal.sigill ∷ Signal.sigabrt ∷ Signal.sigfpe
    ∷ Signal.sigsegv ∷ Signal.sigpipe ∷ Signal.sigalrm ∷ Signal.sigterm ∷ Signal.sigbus ∷ []

-- Whether SIGABRT, which an assertion that fails raises, has the handler.
abbrev pub handles_abort : List Signal → Bool
handles_abort [] = false
handles_abort (Signal.sigabrt ∷ others) = true
handles_abort (_ ∷ others) = handles_abort others

module _ {S : Type 0} (board : Board S) where
  -- The line, the shutdown, `exit`.
  pub signal_handler : Program S Unit
  signal_handler m = (log_line LogLevel.warn >> raspdif_shutdown board >> (λ m'. (exits, m'))) m

  pub register_signal_handler : Program S Unit
  register_signal_handler m = (done tt, record m { handled = all_signals })

  -- An assertion that fails in the handler itself ends the program.
  abbrev pub on_abort : Ended Unit × Machine S → Ended Unit × Machine S
  on_abort (done a, m) = (done a, m)
  on_abort (exits, m) = (exits, m)
  on_abort (hangs, m) = (hangs, m)
  on_abort (asserts, m) = if handles_abort m.handled then signal_handler m else (asserts, m)

  module _ {R : Type 0} (doubles : Doubles R) (calls : Calls S) where
    -- `1e6 * (RASPDIF_BUFFER_SIZE / sample_rate)`; the quotient is one of doubles.
    unfoldable pub buffer_delay : R → ℕ
    buffer_delay sample_rate = doubles.to_u32 (
        doubles.times (doubles.literal 1_000_000)
          (doubles.over (doubles.literal buffer_size) sample_rate))

    -- `parse_opt` writes its fatal line to the log.
    abbrev pub keep_logger : Outcome Unit × Parsing R → Program S (Arguments R)
    keep_logger (ok x, p) m = (done p.arguments, record m { logger = p.logger })
    keep_logger (exited, p) m = (exits, record m { logger = p.logger })

    -- The file or the standard input.
    abbrev pub open_file : Option Text → Program S Unit
    open_file file =
        system_query (calls.opens file) >>= λ opened. if opened then give tt else fatal_line

    -- At the end of the loops, the shutdown; while they run, nothing.
    abbrev pub finish : Played → Program S Unit
    finish r m = if r.over then raspdif_shutdown board m else (hangs, m)

    -- The structure of the arguments, as the loops use it.
    abbrev pub config_of : Arguments R → Machine S → Config
    config_of a m = record {
      base = m.raspdif.bus;
      format = a.format;
      keep_alive = a.keep_alive;
      pcm_disable = a.pcm_disable;
    }

    -- `main` after the arguments. Fuel bounds the rounds of the loops, and `fuel` those of the fills.
    pub run : ℕ → ℕ → Arguments R → Program S Unit
    run fuel rounds a =
        register_signal_handler
        >> raspdif_init board doubles (choose_channel board.is_pi4) a.sample_rate
        >> open_file a.file
        >> (λ m.
            live_play board calls (config_of a m) (buffer_delay a.sample_rate) fuel rounds
              start_player m)
        >>= finish

    -- The handler runs when an assertion fails.
    pub raspdif_main : (Text → R) → R → List Call → ℕ → ℕ → Program S Unit
    raspdif_main strtod default_rate line fuel rounds m =
        on_abort
          ((keep_logger (read_arguments strtod default_rate line m.logger) >>= run fuel rounds) m)

-- ===== src/Examples/Options.antt =====
-- A command line: `-f s24le -k -r 48 -v -f s16le`.
use raspdif.Prelude.{ℕ, ◌≡◌, true, false, List, [], ◌∷◌, length, none}
use raspdif.Log.{debug, start_logger, log_set_level}
use raspdif.Samples.{s16le}
use raspdif.Arguments.{
  Key, Call, Arguments, text_s16le, text_s24le, default_arguments, read_arguments,
}
use raspdif.Arguments.Meaning.{finished, read_arguments-described}

abbrev line : List Call
line =
    record { key = Key.format_key; argument = text_s24le }
    ∷ record { key = Key.no_keep_alive_key; argument = [] }
    ∷ record { key = Key.rate_key; argument = 52 ∷ 56 ∷ [] }
    ∷ record { key = Key.verbose_key; argument = [] }
    ∷ record { key = Key.format_key; argument = text_s16le }
    ∷ []

-- A number by the length of its text.
read_arguments-described_example :
    (b : Arguments ℕ) × (read_arguments length 44100 line start_logger
      ≡ finished length
          (record {
            file = none;
            verbose = true;
            keep_alive = false;
            pcm_disable = false;
            sample_rate = 2;
            format = s16le;
          })
          (log_set_level debug start_logger))
unfolding default_arguments
read_arguments-described_example = read_arguments-described length 44100 line start_logger

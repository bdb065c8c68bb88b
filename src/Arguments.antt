-- ===== src/Arguments.antt =====
-- The command line of source/main.c: `raspdif_arguments_t`, `parse_opt`, and what `main` makes of the
-- arguments before it initialises the hardware.
pub mod Last
pub mod Meaning
use raspdif.Prelude.{
  ℕ, Bool, true, false, ◌&&◌, ◌==◌, if◌then◌else◌, List, [], ◌∷◌, Option, none, some,
}
use raspdif.Host.{Outcome, ok, exited}
use raspdif.Log.{LogLevel, debug, fatal, Logger, log_print, log_set_level}
use raspdif.Samples.{Format, s16le, s24le}

-- A string: its bytes, without the 0 that ends it.
abbrev pub Text : Type 0
Text = List ℕ

-- `strcmp(a, b) == 0`
abbrev pub same_text : Text → Text → Bool
same_text [] [] = true
same_text [] (y ∷ ys) = false
same_text (x ∷ xs) [] = false
same_text (x ∷ xs) (y ∷ ys) = (x == y) && same_text xs ys

-- "s16le" and "s24le"
abbrev pub text_s16le : Text
text_s16le = 115 ∷ 49 ∷ 54 ∷ 108 ∷ 101 ∷ []

abbrev pub text_s24le : Text
text_s24le = 115 ∷ 50 ∷ 52 ∷ 108 ∷ 101 ∷ []

-- The keys of the options: 'i', 'r', 'f', 'k', 'd' and 'v', and any other that argp calls with.
pub data Key : Type 0 where
  input_key rate_key format_key no_keep_alive_key disable_pcm_key verbose_key other_key : Key

-- A call of `parse_opt`; `argument` is used for an option that takes one.
pub record Call : Type 0 where
  pub key : Key
  pub argument : Text

-- `raspdif_arguments_t`. `R` is the type of a `double`.
pub record Arguments (R : Type 0) : Type 0 where
  pub file : Option Text
  pub verbose : Bool
  pub keep_alive : Bool
  pub pcm_disable : Bool
  pub sample_rate : R
  pub format : Format

-- `error_t`
pub data ErrorCode : Type 0 where
  success invalid_argument unknown_key : ErrorCode

-- The arguments and the log, which `parse_opt` changes.
pub record Parsing (R : Type 0) : Type 0 where
  pub arguments : Arguments R
  pub logger : Logger

-- `strtod` of the C library.
module _ {R : Type 0} (strtod : Text → R) where
  abbrev pub answer : ErrorCode → Arguments R → Logger → Outcome ErrorCode × Parsing R
  answer code a l = (ok code, record { arguments = a; logger = l })

  -- After the fatal line: what follows it, if that is reached.
  abbrev pub after_line : Outcome Unit × Logger → Arguments R → Outcome ErrorCode × Parsing R
  after_line (ok x, l) a = answer invalid_argument a l
  after_line (exited, l) a = (exited, record { arguments = a; logger = l })

  -- The argument of the option for the format.
  unfoldable pub parse_format : Text → Arguments R → Logger → Outcome ErrorCode × Parsing R
  parse_format text a l =
      if same_text text_s16le text
      then answer success (record a { format = s16le }) l
      else (if same_text text_s24le text
          then answer success (record a { format = s24le }) l
          else after_line (log_print fatal l) a)

  unfoldable pub parse_opt : Call → Arguments R → Logger → Outcome ErrorCode × Parsing R
  parse_opt c a l = elim c.key [
    | Key.format_key ↦ parse_format c.argument a l
    | Key.input_key ↦ answer success (record a { file = some c.argument }) l
    | Key.rate_key ↦ answer success (record a { sample_rate = strtod c.argument }) l
    | Key.verbose_key ↦ answer success (record a { verbose = true }) l
    | Key.no_keep_alive_key ↦ answer success (record a { keep_alive = false }) l
    | Key.disable_pcm_key ↦ answer success (record a { pcm_disable = true }) l
    | Key.other_key ↦ answer unknown_key a l
  ]

  -- The calls that `argp_parse` makes, one after another on the same arguments.
  abbrev pub and_then :
      Outcome ErrorCode × Parsing R
      → (Arguments R → Logger → Outcome Unit × Parsing R)
      → Outcome Unit × Parsing R
  and_then (ok code, p) next = next p.arguments p.logger
  and_then (exited, p) next = (exited, p)

  unfoldable pub parse_calls : List Call → Arguments R → Logger → Outcome Unit × Parsing R
  parse_calls [] a l = (ok tt, record { arguments = a; logger = l })
  parse_calls (c ∷ calls) a l = and_then (parse_opt c a l) (parse_calls calls)

  -- The defaults of `main`: `default_rate` is the `double` 44.1e3.
  unfoldable pub default_arguments : R → Arguments R
  default_arguments default_rate = record {
    file = none;
    verbose = false;
    keep_alive = true;
    pcm_disable = false;
    sample_rate = default_rate;
    format = s16le;
  }

  -- `main` up to the initialisation: the arguments, and the log at the level asked for.
  abbrev pub log_level : Parsing R → Parsing R
  log_level p =
      if p.arguments.verbose then record p { logger = log_set_level debug p.logger } else p

  abbrev pub parsed_level : Outcome Unit × Parsing R → Outcome Unit × Parsing R
  parsed_level (ok x, p) = (ok x, log_level p)
  parsed_level (exited, p) = (exited, p)

  unfoldable pub read_arguments : R → List Call → Logger → Outcome Unit × Parsing R
  read_arguments default_rate calls l =
      parsed_level (parse_calls calls (default_arguments default_rate) l)

-- `dma_channel_5` on a Pi 4, `dma_channel_13` on others.
unfoldable pub choose_channel : Bool → ℕ
choose_channel is_pi4 = if is_pi4 then 5 else 13

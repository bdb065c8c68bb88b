-- ===== src/Log.antt =====
-- The log: source/log.c and include/log.h. What is printed is the C library's; a line counts by its
-- level.
use raspdif.Prelude.{ℕ, ltb, ◌==◌, if◌then◌else◌, List, [], ◌∷◌}
use raspdif.Prelude.{◌≡◌, refl}
use raspdif.Host.{Outcome, ok, exited}

-- `log_level_t`
pub data LogLevel : Type 0 where
  debug info warn error fatal : LogLevel

abbrev pub level_code : LogLevel → ℕ
level_code debug = 0
level_code info = 1
level_code warn = 2
level_code error = 3
level_code fatal = 4

-- The static variable `min_level`, and the levels of the lines that were printed, the latest first;
-- the program does not keep `lines`.
pub record Logger : Type 0 where
  pub min_level : LogLevel
  pub lines : List LogLevel

abbrev pub start_logger : Logger
start_logger = record { min_level = info; lines = [] }

unfoldable pub log_set_level : LogLevel → Logger → Logger
log_set_level level l = record l { min_level = level }

-- A line below the minimum is dropped; after a fatal one the program exits.
unfoldable pub log_print : LogLevel → Logger → Outcome Unit × Logger
log_print level l =
    let printed = record l { lines = level ∷ l.lines } in
    if ltb (level_code level) (level_code l.min_level)
    then (ok tt, l)
    else (if level_code level == 4 then (exited, printed) else (ok tt, printed))

abbrev pub printed_line : Logger → Outcome Unit × Logger
printed_line l = (exited, record l { lines = fatal ∷ l.lines })

-- No minimum holds a fatal line back.
pub log_print-fatal : (l : Logger) → log_print fatal l ≡ printed_line l
unfolding log_print
log_print-fatal l = go l.min_level
  where
    go :
        (m : LogLevel)
        → (if ltb 4 (level_code m) then (ok tt, l) else printed_line l) ≡ printed_line l
    go debug = refl
    go info = refl
    go warn = refl
    go error = refl
    go fatal = refl

-- ===== src/Arguments/Meaning.antt =====
-- `parse_opt` over a whole command line against the meaning of the options.
use raspdif.Prelude.{
  ◌≡◌, refl, sym, ◌∙◌, ap, Bool, true, false, not, ◌||◌, if◌then◌else◌, Bool-cases, inl, inr,
}
use raspdif.Prelude.{List, [], ◌∷◌, and_left, and_right, arith}
use raspdif.Host.{Outcome, ok, exited}
use raspdif.Log.{debug, Logger, log_print-fatal, log_set_level, printed_line}
use raspdif.Arguments.{Text, same_text, text_s16le, text_s24le, Key, Call, Arguments, Parsing}
use raspdif.Arguments.{parse_format, parse_opt, parse_calls, default_arguments, read_arguments}
use raspdif.Arguments.{ErrorCode, success, answer, parsed_level}
use raspdif.Arguments.Last.{
  same_key, format_named, known, formats_known, described, given, after_one, described-step,
}

abbrev acceptable : Key → Text → Bool
acceptable k t = not (same_key k Key.format_key) || known (format_named t)

module _ {R : Type 0} (strtod : Text → R) where
  abbrev stopped : Arguments R → Logger → Outcome ErrorCode × Parsing R
  stopped a l = (exited, record { arguments = a; logger = (printed_line l).1 })

  abbrev pub finished : Arguments R → Logger → Outcome Unit × Parsing R
  finished a l = (ok tt, record { arguments = a; logger = l })

  abbrev pub ended : Arguments R → Logger → Outcome Unit × Parsing R
  ended a l = (exited, record { arguments = a; logger = (printed_line l).1 })

  parse_format-known :
      (t : Text) (a : Arguments R) (l : Logger)
      → known (format_named t) ≡ true
      → parse_format strtod t a l ≡ answer strtod success (after_one strtod Key.format_key t a) l
  unfolding parse_format after_one
  parse_format-known t a l h = elim (Bool-cases (same_text text_s16le t)) [
    | inl yes_16 ↦ rw yes_16 refl
    | inr no_16 ↦ elim (Bool-cases (same_text text_s24le t)) [
      | inl yes_24 ↦ rw (no_16, yes_24) refl
      | inr no_24 ↦ absurd (ground arith)
    ]
  ]

  parse_format-unknown :
      (t : Text) (a : Arguments R) (l : Logger)
      → known (format_named t) ≡ false
      → parse_format strtod t a l ≡ stopped a l
  unfolding parse_format
  parse_format-unknown t a l h = elim (Bool-cases (same_text text_s16le t)) [
    | inl yes_16 ↦ absurd (ground arith)
    | inr no_16 ↦ elim (Bool-cases (same_text text_s24le t)) [
      | inl yes_24 ↦ absurd (ground arith)
      | inr no_24 ↦ rw (no_16, no_24, log_print-fatal l) refl
    ]
  ]

  parse_opt-goes_on :
      (k : Key) (t : Text) (a : Arguments R) (l : Logger)
      → acceptable k t ≡ true
      → (code : ErrorCode) × (parse_opt strtod (record { key = k; argument = t }) a l
          ≡ answer strtod code (after_one strtod k t a) l)
  unfolding parse_opt after_one
  parse_opt-goes_on Key.input_key t a l h = (_, refl)
  parse_opt-goes_on Key.rate_key t a l h = (_, refl)
  parse_opt-goes_on Key.format_key t a l h =
      (success, unfold after_one in parse_format-known t a l h)
  parse_opt-goes_on Key.no_keep_alive_key t a l h = (_, refl)
  parse_opt-goes_on Key.disable_pcm_key t a l h = (_, refl)
  parse_opt-goes_on Key.verbose_key t a l h = (_, refl)
  parse_opt-goes_on Key.other_key t a l h = (_, refl)

  parse_opt-stops :
      (k : Key) (t : Text) (a : Arguments R) (l : Logger)
      → acceptable k t ≡ false
      → parse_opt strtod (record { key = k; argument = t }) a l ≡ stopped a l
  unfolding parse_opt
  parse_opt-stops Key.input_key t a l h = absurd (ground arith)
  parse_opt-stops Key.rate_key t a l h = absurd (ground arith)
  parse_opt-stops Key.format_key t a l h = parse_format-unknown t a l h
  parse_opt-stops Key.no_keep_alive_key t a l h = absurd (ground arith)
  parse_opt-stops Key.disable_pcm_key t a l h = absurd (ground arith)
  parse_opt-stops Key.verbose_key t a l h = absurd (ground arith)
  parse_opt-stops Key.other_key t a l h = absurd (ground arith)

  parse_calls-next :
      (c : Call) (calls : List Call) (a b : Arguments R) (l : Logger) (code : ErrorCode)
      → parse_opt strtod c a l ≡ answer strtod code b l
      → parse_calls strtod (c ∷ calls) a l ≡ parse_calls strtod calls b l
  unfolding parse_calls
  parse_calls-next c calls a b l code e = rw e refl

  parse_calls-described :
      (calls : List Call) (a : Arguments R) (l : Logger)
      → formats_known calls ≡ true
      → parse_calls strtod calls a l ≡ finished (described strtod calls a) l
  parse_calls-described [] a l h = unfold parse_calls in refl
  parse_calls-described (c ∷ calls) a l h =
      let (code, e) = parse_opt-goes_on c.key c.argument a l (and_left _ _ h) in
      let next = after_one strtod c.key c.argument a in
      parse_calls-next c calls a next l code e
      ∙ parse_calls-described calls next l (and_right _ _ h)
      ∙ ap (λ b. finished b l) (sym (described-step strtod c.key c.argument calls a))

  parse_calls-stops :
      (calls : List Call) (a : Arguments R) (l : Logger)
      → formats_known calls ≡ false
      → (b : Arguments R) × (parse_calls strtod calls a l ≡ ended b l)
  parse_calls-stops [] a l h = absurd (ground arith)
  parse_calls-stops (c ∷ calls) a l h = elim (Bool-cases (acceptable c.key c.argument)) [
    | inl here ↦
        let (code, e) = parse_opt-goes_on c.key c.argument a l here in
        let next = after_one strtod c.key c.argument a in
        let later : formats_known calls ≡ false = ground arith in
        let (b, stops) = parse_calls-stops calls next l later in
        (b, parse_calls-next c calls a next l code e ∙ stops)
    | inr here ↦ (a, unfold parse_calls in rw (parse_opt-stops c.key c.argument a l here) refl)
  ]

  abbrev pub asked_level : List Call → Logger → Logger
  asked_level calls l = if given Key.verbose_key calls then log_set_level debug l else l

  level :
      (default_rate : R) (calls : List Call) (l : Logger)
      → let a = described strtod calls (default_arguments strtod default_rate) in
        parsed_level strtod (finished a l) ≡ finished a (asked_level calls l)
  unfolding default_arguments
  level default_rate calls l = elim (Bool-cases (given Key.verbose_key calls)) [
    | inl verbose ↦ rw verbose refl
    | inr quiet ↦ rw quiet refl
  ]

  -- For every sequence of options: if each format has a name, the arguments are what the last of each
  -- option says, over the defaults, and the log is at the level for debugging exactly if `-v` is
  -- among them; if some format has no name, the program exits after one fatal line.
  pub read_arguments-described :
      (default_rate : R) (calls : List Call) (l : Logger)
      → (b : Arguments R) × (read_arguments strtod default_rate calls l ≡ (
          if formats_known calls
          then finished
              (described strtod calls (default_arguments strtod default_rate))
              (asked_level calls l)
          else ended b l))
  unfolding read_arguments
  read_arguments-described default_rate calls l =
      let defaults = default_arguments strtod default_rate in
      elim (Bool-cases (formats_known calls)) [
        | inl h ↦ (
          defaults,
          rw (parse_calls-described calls defaults l h, h) (level default_rate calls l),
        )
        | inr h ↦ let (b, stops) = parse_calls-stops calls defaults l h in (b, rw (stops, h) refl)
      ]

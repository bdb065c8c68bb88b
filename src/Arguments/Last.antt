-- ===== src/Arguments/Last.antt =====
-- What the command line means: of each option the last one counts.
use raspdif.Prelude.{◌≡◌, refl, sym, ap, Bool, true, false, not, ◌&&◌, ◌||◌, if◌then◌else◌}
use raspdif.Prelude.{List, [], ◌∷◌, Option, none, some}
use raspdif.Samples.{Format, s16le, s24le}
use raspdif.Arguments.{Text, same_text, text_s16le, text_s24le, Key, Call, Arguments}

-- The keys are distinct.
abbrev pub same_key : Key → Key → Bool
same_key Key.input_key Key.input_key = true
same_key Key.rate_key Key.rate_key = true
same_key Key.format_key Key.format_key = true
same_key Key.no_keep_alive_key Key.no_keep_alive_key = true
same_key Key.disable_pcm_key Key.disable_pcm_key = true
same_key Key.verbose_key Key.verbose_key = true
same_key Key.other_key Key.other_key = true
same_key k l = false

-- Whether an option is given, and its argument where it is given last.
abbrev pub given : Key → List Call → Bool
given k [] = false
given k (c ∷ calls) = same_key c.key k || given k calls

abbrev pub or_earlier : Option Text → Option Text → Option Text
or_earlier (some t) o = some t
or_earlier none o = o

abbrev pub last_argument : Key → List Call → Option Text
last_argument k [] = none
last_argument k (c ∷ calls) =
    or_earlier (last_argument k calls) (if same_key c.key k then some c.argument else none)

-- The formats that have a name.
abbrev pub format_named : Text → Option Format
format_named text =
    if same_text text_s16le text
    then some s16le
    else (if same_text text_s24le text then some s24le else none)

-- Every argument of the option for the format is such a name.
abbrev pub known : Option Format → Bool
known none = false
known (some f) = true

abbrev pub formats_known : List Call → Bool
formats_known [] = true
formats_known (c ∷ calls) =
    (not (same_key c.key Key.format_key) || known (format_named c.argument)) && formats_known calls

abbrev pub or_format : Option Format → Format
or_format none = s16le
or_format (some f) = f

abbrev pub last_format : Option Text → Format → Format
last_format none f = f
last_format (some text) f = or_format (format_named text)

module _ {R : Type 0} (strtod : Text → R) where
  abbrev pub last_rate : Option Text → R → R
  last_rate none r = r
  last_rate (some text) r = strtod text

  -- What the options make of the arguments `a`.
  abbrev pub described : List Call → Arguments R → Arguments R
  described calls a = record {
    file = or_earlier (last_argument Key.input_key calls) a.file;
    verbose = given Key.verbose_key calls || a.verbose;
    keep_alive = not (given Key.no_keep_alive_key calls) && a.keep_alive;
    pcm_disable = given Key.disable_pcm_key calls || a.pcm_disable;
    sample_rate = last_rate (last_argument Key.rate_key calls) a.sample_rate;
    format = last_format (last_argument Key.format_key calls) a.format;
  }

or_earlier-none : (o : Option Text) → or_earlier o none ≡ o
or_earlier-none none = refl
or_earlier-none (some t) = refl

or_earlier-some :
    (o : Option Text) (t : Text) (p : Option Text)
    → or_earlier (or_earlier o (some t)) p ≡ or_earlier o (some t)
or_earlier-some none t p = refl
or_earlier-some (some u) t p = refl

last_format-some :
    (o : Option Text) (t : Text) (f : Format)
    → last_format (or_earlier o (some t)) f ≡ last_format o (or_format (format_named t))
last_format-some none t f = refl
last_format-some (some u) t f = refl

or_true : (b : Bool) → (b || true) ≡ true
or_true true = refl
or_true false = refl

and_false : (b : Bool) → (b && false) ≡ false
and_false true = refl
and_false false = refl

module _ {R : Type 0} (strtod : Text → R) where
  last_rate-some :
      (o : Option Text) (t : Text) (r : R)
      → last_rate strtod (or_earlier o (some t)) r ≡ last_rate strtod o (strtod t)
  last_rate-some none t r = refl
  last_rate-some (some u) t r = refl

  -- What one call leaves for the next ones, if its format has a name.
  unfoldable pub after_one : Key → Text → Arguments R → Arguments R
  after_one Key.input_key t a = record a { file = some t }
  after_one Key.rate_key t a = record a { sample_rate = strtod t }
  after_one Key.format_key t a = record a { format = or_format (format_named t) }
  after_one Key.no_keep_alive_key t a = record a { keep_alive = false }
  after_one Key.disable_pcm_key t a = record a { pcm_disable = true }
  after_one Key.verbose_key t a = record a { verbose = true }
  after_one Key.other_key t a = a

  -- Arguments with the same fields.
  same_arguments :
      {f f' : Option Text} {v v' k k' d d' : Bool} {r r' : R} {m m' : Format}
      → f ≡ f'
      → v ≡ v'
      → k ≡ k'
      → d ≡ d'
      → r ≡ r'
      → m ≡ m'
      → ◌≡◌ {A = Arguments R}
          (record {
            file = f;
            verbose = v;
            keep_alive = k;
            pcm_disable = d;
            sample_rate = r;
            format = m;
          })
          (record {
            file = f';
            verbose = v';
            keep_alive = k';
            pcm_disable = d';
            sample_rate = r';
            format = m';
          })
  same_arguments ef ev ek ed er em = rw (ef, ev, ek, ed, er, em) refl

  -- The fields that an option leaves alone.
  module _ (calls : List Call) (a : Arguments R) where
    same_file :
        or_earlier (or_earlier (last_argument Key.input_key calls) none) a.file
        ≡ or_earlier (last_argument Key.input_key calls) a.file
    same_file = ap (λ o. or_earlier o a.file) (or_earlier-none (last_argument Key.input_key calls))

    same_rate :
        last_rate strtod (or_earlier (last_argument Key.rate_key calls) none) a.sample_rate
        ≡ last_rate strtod (last_argument Key.rate_key calls) a.sample_rate
    same_rate =
        ap (λ o. last_rate strtod o a.sample_rate)
          (or_earlier-none (last_argument Key.rate_key calls))

    same_format :
        last_format (or_earlier (last_argument Key.format_key calls) none) a.format
        ≡ last_format (last_argument Key.format_key calls) a.format
    same_format =
        ap (λ o. last_format o a.format) (or_earlier-none (last_argument Key.format_key calls))

  pub described-step :
      (k : Key) (t : Text) (calls : List Call) (a : Arguments R)
      → described strtod (record { key = k; argument = t } ∷ calls) a
        ≡ described strtod calls (after_one k t a)
  unfolding after_one
  described-step Key.input_key t calls a =
      same_arguments (or_earlier-some (last_argument Key.input_key calls) t a.file) refl refl refl
        (same_rate calls a) (same_format calls a)
  described-step Key.rate_key t calls a =
      same_arguments (same_file calls a) refl refl refl
        (last_rate-some (last_argument Key.rate_key calls) t a.sample_rate) (same_format calls a)
  described-step Key.format_key t calls a =
      same_arguments (same_file calls a) refl refl refl (same_rate calls a)
        (last_format-some (last_argument Key.format_key calls) t a.format)
  described-step Key.no_keep_alive_key t calls a =
      same_arguments (same_file calls a) refl
        (sym (and_false (not (given Key.no_keep_alive_key calls)))) refl (same_rate calls a)
        (same_format calls a)
  described-step Key.disable_pcm_key t calls a =
      same_arguments (same_file calls a) refl refl (sym (or_true (given Key.disable_pcm_key calls)))
        (same_rate calls a) (same_format calls a)
  described-step Key.verbose_key t calls a =
      same_arguments (same_file calls a) (sym (or_true (given Key.verbose_key calls))) refl refl
        (same_rate calls a) (same_format calls a)
  described-step Key.other_key t calls a =
      same_arguments (same_file calls a) refl refl refl (same_rate calls a) (same_format calls a)

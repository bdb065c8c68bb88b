-- ===== src/Gpio/Configure.antt =====
-- `bcm283x_gpio_configure` against what a configuration is to do.
use raspdif.Prelude.{
  ℕ, ◌+◌, ◌*◌, ◌/◌, ◌%◌, ◌^◌, ◌<◌, ◌≤◌, ◌≡◌, ◌≢◌, refl, sym, ap, ◌∙◌, arith, inl, inr,
}
use raspdif.Prelude.{
  Bool, true, false, ◌==◌, ==_iff, ==-true, ==-false, eq_or_ne, Bool-cases, ltb, lt→ltb,
  if◌then◌else◌,
}
use mathlib.Core.Path.{subst}
use raspdif.Prelude.{bit_and, bit_or, bit_xor}
use raspdif.Bits.{every_below, every_below_at, bit_of, bit_of-set, bit_of-clear}
use raspdif.Registers.{Bus, get, put, returned}
use raspdif.Registers.Fields.{get-put_self, get-put_above, get-put_below}
use raspdif.Gpio.{GpioFunction, GpioConfiguration, function_code, fsel, pin_mask, gppud, gpren}
use raspdif.Gpio.{bcm283x_gpio_set_function, clear_events, set_events, set_pull}
use raspdif.Gpio.{bcm283x_gpio_configure}
use raspdif.Gpio.Registers.{value-clear_events, value-set_events}
use raspdif.Gpio.Registers.Kept.{
  low-clear_events, low-set_events, kept-set_pull, value-set_function,
}
use raspdif.Gpio.Spec.{
  IsMemory, EventKind, register, kinds_of, takes, function_of, event_of, Configured,
}

function_code-lt : (f : GpioFunction) → function_code f < 8
function_code-lt GpioFunction.input = omega arith
function_code-lt GpioFunction.output = omega arith
function_code-lt GpioFunction.af0 = omega arith
function_code-lt GpioFunction.af1 = omega arith
function_code-lt GpioFunction.af2 = omega arith
function_code-lt GpioFunction.af3 = omega arith
function_code-lt GpioFunction.af4 = omega arith
function_code-lt GpioFunction.af5 = omega arith

register-lt : (e : EventKind) → (gpren ≤ register e) × (register e < gppud)
register-lt EventKind.ren = omega arith
register-lt EventKind.fen = omega arith
register-lt EventKind.hen = omega arith
register-lt EventKind.len = omega arith
register-lt EventKind.aren = omega arith
register-lt EventKind.afen = omega arith

pin_mask_table : every_below 32 (λ k. pin_mask k == 2 ^ k) ≡ true
unfolding every_below
pin_mask_table = refl

pin_mask_lem : (pin : ℕ) → pin < 32 → pin_mask pin ≡ 2 ^ pin
pin_mask_lem pin h = (==_iff _ _).0 (every_below_at 32 _ pin pin_mask_table h)

-- The fields of two pins in one register lie apart.
other_field :
    (pin j v word : ℕ)
    → pin / 10 ≡ j / 10
    → pin ≢ j
    → get (fsel j) (put (fsel pin) v word) ≡ get (fsel j) word
other_field pin j v word bank ne = elim (Bool-cases (ltb (pin % 10) (j % 10))) [
  | inl less ↦ get-put_above (fsel pin) v word (fsel j) (ground arith)
  | inr more ↦ get-put_below (fsel pin) v word (fsel j) (ground arith)
]

-- A word in which the bit of a pin was cleared and then perhaps set.
marked_bit :
    (pin j : ℕ) (t : Bool) (cleared word : ℕ)
    → pin < 32
    → j < 32
    → cleared ≡ bit_and word (bit_xor (2 ^ pin) 0xFFFF_FFFF)
    → bit_of j (if t then bit_or cleared (pin_mask pin) else cleared)
      ≡ (if pin == j then (if t then 1 else 0) else bit_of j word)
marked_bit pin j true cleared word hp hj e = elim (eq_or_ne pin j) [
  | inl same ↦ rw (pin_mask_lem pin hp, bit_of-set pin j cleared hp hj, same, ==-true j j refl) refl
  | inr apart ↦
      rw
        (
          pin_mask_lem pin hp,
          bit_of-set pin j cleared hp hj,
          e,
          bit_of-clear pin j word hp hj,
          ==-false pin j apart,
          ==-false j pin (λ d. apart (sym d)),
        )
        refl
]
marked_bit pin j false cleared word hp hj e = elim (eq_or_ne pin j) [
  | inl same ↦ rw (e, bit_of-clear pin j word hp hj, same, ==-true j j refl) refl
  | inr apart ↦
      rw
        (
          e,
          bit_of-clear pin j word hp hj,
          ==-false pin j apart,
          ==-false j pin (λ d. apart (sym d)),
        )
        refl
]

module _ {S : Type 0} (bus : Bus S) (base : ℕ) (delay : S → S) (memory : IsMemory bus delay)
    (pin : ℕ) (small : pin < 32) (config : GpioConfiguration) (s : S) where
  abbrev s1 : S
  s1 = bcm283x_gpio_set_function bus base delay pin config.function s

  abbrev s2 : S
  s2 = clear_events bus base delay pin s1

  abbrev s3 : S
  s3 = set_events bus base delay pin config.event_detect s2

  abbrev done : S
  done = set_pull bus base delay pin config.pull s3

  function_done :
      (j : ℕ)
      → j < 32
      → function_of bus base j done
        ≡ (if pin == j then function_code config.function else function_of bus base j s)
  function_done j hj =
      let b = base + j / 10 * 4 in
      let word : (bus.read b done).0 ≡ (bus.read b s1).0 =
        kept-set_pull bus base delay memory pin config.pull (j / 10 * 4) s3 (omega arith)
        ∙ low-set_events bus base delay memory pin config.event_detect (j / 10 * 4) s2 (omega arith)
        ∙ low-clear_events bus base delay memory pin (j / 10 * 4) s1 (omega arith) in
      let changed = value-set_function bus base delay memory pin config.function b s in
      ap (get (fsel j)) (word ∙ changed) ∙ elim (eq_or_ne pin j) [
        | inl same ↦
            rw (same, ==-true b b refl, ==-true j j refl)
              (get-put_self (fsel j) (function_code config.function) (bus.read b s).0
                ∙ omega (arith, function_code-lt config.function))
        | inr apart ↦ elim (eq_or_ne (pin / 10) (j / 10)) [
          | inl bank ↦
              rw (bank, ==-true b b refl, ==-false pin j apart)
                (other_field pin j (function_code config.function) (bus.read b s).0 bank apart)
          | inr banks ↦
              rw (==-false (base + pin / 10 * 4) b (omega (arith, banks)), ==-false pin j apart)
                refl
        ]
      ]

  event_done :
      (e : EventKind) (j : ℕ)
      → j < 32
      → event_of bus base e j done ≡ (
          if pin == j
          then (if takes (kinds_of config.event_detect) e then 1 else 0)
          else event_of bus base e j s)
  event_done e j hj =
      let b = base + register e in
      let here : base + register e + pin / 32 % 2 ^ 8 * 4 ≡ b = omega arith in
      let low = base + pin / 10 * 4 in
      let apart : low ≢ b = omega (arith, register-lt e) in
      let unchanged : (bus.read b s1).0 ≡ (bus.read b s).0 =
        value-set_function bus base delay memory pin config.function b s
        ∙ ap
            (λ t.
              if t
              then put (fsel pin) (function_code config.function) (bus.read b s).0
              else (bus.read b s).0)
            (==-false low b apart) in
      let cleared_word : (bus.read b s2).0
          ≡ bit_and (bus.read b s).0 (bit_xor (2 ^ pin) 0xFFFF_FFFF) =
        subst
          (λ a. (bus.read a s2).0 ≡ bit_and (bus.read a s1).0 (bit_xor (pin_mask pin) 0xFFFF_FFFF))
          here (value-clear_events bus base delay memory pin e s1)
        ∙ ap (λ m. bit_and (bus.read b s1).0 (bit_xor m 0xFFFF_FFFF)) (pin_mask_lem pin small)
        ∙ ap (λ w. bit_and w (bit_xor (2 ^ pin) 0xFFFF_FFFF)) unchanged in
      let set_word =
        kept-set_pull bus base delay memory pin config.pull (register e) s3 (register-lt e).1
        ∙ subst
            (λ a. (bus.read a s3).0 ≡ (
              if takes (kinds_of config.event_detect) e
              then bit_or (bus.read a s2).0 (pin_mask pin)
              else (bus.read a s2).0))
            here (value-set_events bus base delay memory pin config.event_detect e s2) in
      ap (bit_of j) set_word
      ∙ marked_bit pin j (takes (kinds_of config.event_detect) e) (bus.read b s2).0 (bus.read b s).0
          small hj cleared_word

  -- On registers that keep what is written, configuring a pin below 32 returns, and gives the pin the
  -- function and exactly the events of the configuration; every other pin keeps its own.
  pub gpio_configure-Configured :
      (s' : S) × (bcm283x_gpio_configure bus base delay pin config s ≡ returned s')
      × Configured bus base (λ j. pin == j) config s s'
  unfolding bcm283x_gpio_configure
  gpio_configure-Configured = (
    done,
    rw (lt→ltb pin 32 small) refl,
    record { functions = function_done; events = event_done },
  )

-- ===== src/Gpio/Registers/Kept.antt =====
-- What the steps leave as it was: registers below and above those that they are about.
use raspdif.Prelude.{ℕ, ◌+◌, ◌*◌, ◌/◌, ◌<◌, ◌≡◌, ◌≢◌, refl, ◌∙◌, arith, inl, inr}
use raspdif.Prelude.{◌==◌, ==-true, ==-false, eq_or_ne, if◌then◌else◌}
use raspdif.Gpio.Spec.{IsMemory, EventKind, ren, fen, hen, len, aren, afen}
use raspdif.Registers.{Bus, put, assign}
use raspdif.Gpio.{GpioFunction, GpioPull, EventDetect, function_code, fsel, pin_mask}
use raspdif.Gpio.{pull_none, pull_down, pull_up, pull_no_change, pud, gppud, gppudclk}
use raspdif.Gpio.{gpren, set_bits, banked}
use raspdif.Gpio.{bcm283x_gpio_set_function, clear_events, set_events, clock_pull, set_pull}
use raspdif.Gpio.Registers.{
  value, value-update, value-update_ne, events_at, clear_one, cleared, marked,
}

module _ {S : Type 0} (bus : Bus S) (base : ℕ) (delay : S → S) (memory : IsMemory bus delay) where
  module _ (pin : ℕ) where
    -- The function registers lie below those of the events.
    abbrev BelowEvents : ℕ → Type 0
    BelowEvents q = q < gpren

    apart_of_low :
        (k : EventKind) (q : ℕ) → BelowEvents q → events_at bus base delay memory pin k ≢ base + q
    apart_of_low ren q h = omega arith
    apart_of_low fen q h = omega arith
    apart_of_low hen q h = omega arith
    apart_of_low len q h = omega arith
    apart_of_low aren q h = omega arith
    apart_of_low afen q h = omega arith

    low_update :
        (k : EventKind) (q : ℕ) (f : ℕ → ℕ) (s : S)
        → BelowEvents q
        → value bus base delay memory (base + q) (
            bus.write
              (events_at bus base delay memory pin k)
              (f (bus.read (events_at bus base delay memory pin k) s).0)
              (bus.read (events_at bus base delay memory pin k) s).1)
          ≡ value bus base delay memory (base + q) s
    low_update k q f s h =
        value-update_ne bus base delay memory (events_at bus base delay memory pin k) (base + q) f s
          (apart_of_low k q h)

    pub low-clear_events :
        (q : ℕ) (s : S)
        → BelowEvents q
        → value bus base delay memory (base + q) (clear_events bus base delay pin s)
          ≡ value bus base delay memory (base + q) s
    unfolding clear_events
    low-clear_events q s h =
        let s1 = clear_one bus base delay memory pin ren s in
        let s2 = clear_one bus base delay memory pin fen s1 in
        let s3 = clear_one bus base delay memory pin hen s2 in
        let s4 = clear_one bus base delay memory pin len s3 in
        let s5 = clear_one bus base delay memory pin aren s4 in
        low_update afen q (cleared bus base delay memory pin) s5 h
        ∙ low_update aren q (cleared bus base delay memory pin) s4 h
        ∙ low_update len q (cleared bus base delay memory pin) s3 h
        ∙ low_update hen q (cleared bus base delay memory pin) s2 h
        ∙ low_update fen q (cleared bus base delay memory pin) s1 h
        ∙ low_update ren q (cleared bus base delay memory pin) s h

    pub low-set_events :
        (d : EventDetect) (q : ℕ) (s : S)
        → BelowEvents q
        → value bus base delay memory (base + q) (set_events bus base delay pin d s)
          ≡ value bus base delay memory (base + q) s
    unfolding set_events
    low-set_events EventDetect.detect_none q s h = refl
    low-set_events EventDetect.rising_edge q s h =
        low_update ren q (marked bus base delay memory pin) s h
    low-set_events EventDetect.falling_edge q s h =
        low_update fen q (marked bus base delay memory pin) s h
    low-set_events EventDetect.any_edge q s h =
        low_update fen q (marked bus base delay memory pin)
          (set_bits bus base delay (events_at bus base delay memory pin ren) (pin_mask pin) s) h
        ∙ low_update ren q (marked bus base delay memory pin) s h
    low-set_events EventDetect.high_level q s h =
        low_update hen q (marked bus base delay memory pin) s h
    low-set_events EventDetect.low_level q s h =
        low_update len q (marked bus base delay memory pin) s h
    low-set_events EventDetect.rising_edge_async q s h =
        low_update aren q (marked bus base delay memory pin) s h
    low-set_events EventDetect.falling_edge_async q s h =
        low_update afen q (marked bus base delay memory pin) s h

    -- The pull is set in registers above.
    kept-clock_pull :
        (code q : ℕ) (s : S)
        → q < gppud
        → value bus base delay memory (base + q) (clock_pull bus base delay pin code s)
          ≡ value bus base delay memory (base + q) s
    unfolding clock_pull
    kept-clock_pull code q s h =
        let clk = banked bus base delay gppudclk pin in
        let s1 = assign bus (base + gppud) pud code s in
        let s2 = set_bits bus base delay clk (pin_mask pin) (delay s1) in
        value-update_ne bus base delay memory clk (base + q) (cleared bus base delay memory pin)
          (delay s2) (omega arith)
        ∙ memory.read-delay (base + q) s2
        ∙ value-update_ne bus base delay memory clk (base + q) (marked bus base delay memory pin)
            (delay s1) (omega arith)
        ∙ memory.read-delay (base + q) s1
        ∙ value-update_ne bus base delay memory (base + gppud) (base + q) (put pud code) s
            (omega arith)

    pub kept-set_pull :
        (pull : GpioPull) (q : ℕ) (s : S)
        → q < gppud
        → value bus base delay memory (base + q) (set_pull bus base delay pin pull s)
          ≡ value bus base delay memory (base + q) s
    unfolding set_pull
    kept-set_pull pull_none q s h = kept-clock_pull 0 q s h
    kept-set_pull pull_down q s h = kept-clock_pull 1 q s h
    kept-set_pull pull_up q s h = kept-clock_pull 2 q s h
    kept-set_pull pull_no_change q s h = refl

    -- Setting the function changes one register below the events.
    pub value-set_function :
        (function : GpioFunction) (b : ℕ) (s : S)
        → value bus base delay memory b (bcm283x_gpio_set_function bus base delay pin function s)
          ≡ (if base + pin / 10 * 4 == b
              then put (fsel pin) (function_code function) (value bus base delay memory b s)
              else value bus base delay memory b s)
    unfolding bcm283x_gpio_set_function
    value-set_function function b s =
        value-update bus base delay memory (base + pin / 10 * 4) b
          (put (fsel pin) (function_code function)) s
        ∙ elim (eq_or_ne (base + pin / 10 * 4) b) [
          | inl same ↦ rw (same, ==-true b b refl) refl
          | inr apart ↦ rw (==-false (base + pin / 10 * 4) b apart) refl
        ]

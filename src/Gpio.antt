-- ===== src/Gpio.antt =====
-- The GPIO pins: source/bcm283x/bcm283x_gpio.c and include/bcm283x/bcm283x_gpio.h, after
-- `bcm283x_gpio_init` with the address `base`, in the build with 32 pins (`BCM283X_EXTENDED_GPIO` is
-- not defined).
pub mod Spec
pub mod Registers
pub mod Configure
pub mod Mask
use raspdif.Prelude.{ℕ, zero, suc, ◌+◌, ◌*◌, ◌/◌, ◌%◌, ◌^◌, Bool, ◌==◌, ltb, not, if◌then◌else◌}
use raspdif.Prelude.{bit_and, bit_or, bit_xor, u8, u32, shl}
use raspdif.Registers.{Field, Bus, assign, Driven, returned, aborted, looping, ◌>>=◌}

abbrev pub gpio_pin_count : ℕ
gpio_pin_count = 32

-- `gpio_function_t`
pub data GpioFunction : Type 0 where
  input output af0 af1 af2 af3 af4 af5 : GpioFunction

abbrev pub function_code : GpioFunction → ℕ
function_code input = 0
function_code output = 1
function_code af0 = 4
function_code af1 = 5
function_code af2 = 6
function_code af3 = 7
function_code af4 = 3
function_code af5 = 2

-- `gpio_pull_t`
pub data GpioPull : Type 0 where
  pull_none pull_down pull_up pull_no_change : GpioPull

-- `gpio_event_detect_t`
pub data EventDetect : Type 0 where
  detect_none rising_edge falling_edge any_edge high_level low_level : EventDetect
  rising_edge_async falling_edge_async : EventDetect

-- `gpio_configuration_t`
pub record GpioConfiguration : Type 0 where
  pub function : GpioFunction
  pub pull : GpioPull
  pub event_detect : EventDetect

-- `bcm283x_gpio_t`: the offsets of the arrays of registers.
abbrev pub gpset : ℕ
gpset = 28

abbrev pub gpclr : ℕ
gpclr = 40

abbrev pub gpren : ℕ
gpren = 76

abbrev pub gpfen : ℕ
gpfen = 88

abbrev pub gphen : ℕ
gphen = 100

abbrev pub gplen : ℕ
gplen = 112

abbrev pub gparen : ℕ
gparen = 124

abbrev pub gpafen : ℕ
gpafen = 136

abbrev pub gppud : ℕ
gppud = 148

abbrev pub gppudclk : ℕ
gppudclk = 152

-- `gpio_pull_up_down_t`
abbrev pub pud : Field
pud = record { lo = 0; width = 2 }

-- `gpio_function_select_x_t`: the field of a pin in its register, as the switch on `pin % 10` picks it.
abbrev pub fsel : ℕ → Field
fsel pin = record { lo = 3 * (pin % 10); width = 3 }

-- `1 << (pin % 32)`
abbrev pub pin_mask : ℕ → ℕ
pin_mask pin = u32 (shl 1 (pin % 32))

module _ {S : Type 0} (bus : Bus S) (base : ℕ) (delay : S → S) where
  -- `register |= mask` and `register &= ~mask`
  abbrev pub set_bits : ℕ → ℕ → S → S
  set_bits address mask s =
      let (word, s1) = bus.read address s in bus.write address (bit_or word mask) s1

  abbrev pub clear_bits : ℕ → ℕ → S → S
  clear_bits address mask s =
      let (word, s1) = bus.read address s in
      bus.write address (bit_and word (bit_xor mask 0xFFFF_FFFF)) s1

  unfoldable pub bcm283x_gpio_set_function : ℕ → GpioFunction → S → S
  bcm283x_gpio_set_function pin function s =
      assign bus (base + pin / 10 * 4) (fsel pin) (function_code function) s

  -- The register of a pin's bank.
  abbrev pub banked : ℕ → ℕ → ℕ
  banked offset pin = base + offset + u8 (pin / 32) * 4

  unfoldable pub clear_events : ℕ → S → S
  clear_events pin s =
      let s1 = clear_bits (banked gpren pin) (pin_mask pin) s in
      let s2 = clear_bits (banked gpfen pin) (pin_mask pin) s1 in
      let s3 = clear_bits (banked gphen pin) (pin_mask pin) s2 in
      let s4 = clear_bits (banked gplen pin) (pin_mask pin) s3 in
      let s5 = clear_bits (banked gparen pin) (pin_mask pin) s4 in
      clear_bits (banked gpafen pin) (pin_mask pin) s5

  unfoldable pub set_events : ℕ → EventDetect → S → S
  set_events pin detect_none s = s
  set_events pin rising_edge s = set_bits (banked gpren pin) (pin_mask pin) s
  set_events pin falling_edge s = set_bits (banked gpfen pin) (pin_mask pin) s
  set_events pin any_edge s =
      set_bits (banked gpfen pin) (pin_mask pin) (set_bits (banked gpren pin) (pin_mask pin) s)
  set_events pin high_level s = set_bits (banked gphen pin) (pin_mask pin) s
  set_events pin low_level s = set_bits (banked gplen pin) (pin_mask pin) s
  set_events pin rising_edge_async s = set_bits (banked gparen pin) (pin_mask pin) s
  set_events pin falling_edge_async s = set_bits (banked gpafen pin) (pin_mask pin) s

  -- The pull is set up, clocked into the pin, and the clock removed, with a delay after each step.
  unfoldable pub clock_pull : ℕ → ℕ → S → S
  clock_pull pin code s =
      let s1 = delay (assign bus (base + gppud) pud code s) in
      let s2 = delay (set_bits (banked gppudclk pin) (pin_mask pin) s1) in
      clear_bits (banked gppudclk pin) (pin_mask pin) s2

  unfoldable pub set_pull : ℕ → GpioPull → S → S
  set_pull pin pull_none s = clock_pull pin 0 s
  set_pull pin pull_down s = clock_pull pin 1 s
  set_pull pin pull_up s = clock_pull pin 2 s
  set_pull pin pull_no_change s = s

  unfoldable pub bcm283x_gpio_configure : ℕ → GpioConfiguration → S → Driven S
  bcm283x_gpio_configure pin config s =
      let s1 = bcm283x_gpio_set_function pin config.function s in
      let s2 = set_events pin config.event_detect (clear_events pin s1) in
      if ltb pin gpio_pin_count then returned (set_pull pin config.pull s2) else aborted

  -- `while (mask)`, with fuel for the shifts.
  unfoldable pub configure_from : ℕ → ℕ → ℕ → GpioConfiguration → S → Driven S
  configure_from zero pin mask config s = if mask == 0 then returned s else looping
  configure_from (suc fuel) pin mask config s =
      let here = if bit_and mask 1 == 0 then returned s else bcm283x_gpio_configure pin config s in
      let rest = here >>= configure_from fuel (u32 (pin + 1)) (mask / 2) config in
      if mask == 0 then returned s else rest

  unfoldable pub bcm283x_gpio_configure_mask : ℕ → GpioConfiguration → S → Driven S
  bcm283x_gpio_configure_mask mask config s = configure_from 32 0 mask config s

  unfoldable pub bcm283x_gpio_set : ℕ → S → Driven S
  bcm283x_gpio_set pin s =
      if ltb pin gpio_pin_count
      then returned (bus.write (banked gpset pin) (pin_mask pin) s)
      else aborted

  unfoldable pub bcm283x_gpio_set_mask : ℕ → S → S
  bcm283x_gpio_set_mask mask s = bus.write (base + gpset) mask s

  unfoldable pub bcm283x_gpio_clear : ℕ → S → Driven S
  bcm283x_gpio_clear pin s =
      if ltb pin gpio_pin_count
      then returned (bus.write (banked gpclr pin) (pin_mask pin) s)
      else aborted

  unfoldable pub bcm283x_gpio_clear_mask : ℕ → S → S
  bcm283x_gpio_clear_mask mask s = bus.write (base + gpclr) mask s

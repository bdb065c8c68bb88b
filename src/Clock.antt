-- ===== src/Clock.antt =====
-- The clock manager: source/bcm283x/bcm283x_clock.c and include/bcm283x/bcm283x_clock.h, after
-- `bcm283x_clock_init` with the address `base`.
pub mod Configure
use raspdif.Prelude.{
  ℕ, zero, suc, ◌+◌, Bool, true, false, ◌&&◌, ◌==◌, ltb, if◌then◌else◌, Option, none, some,
}
use raspdif.Registers.{Field, bit_at, get, put, Bus, Driven, returned, aborted, looping}

-- `clock_control_t`
abbrev pub src : Field
src = record { lo = 0; width = 4 }

abbrev pub enab : Field
enab = bit_at 4

abbrev pub busy : Field
busy = bit_at 7

abbrev pub flip : Field
flip = bit_at 8

abbrev pub mash : Field
mash = record { lo = 9; width = 2 }

abbrev pub passwd : Field
passwd = record { lo = 24; width = 8 }

-- `clock_divisor_t`
abbrev pub divf : Field
divf = record { lo = 0; width = 12 }

abbrev pub divi : Field
divi = record { lo = 12; width = 12 }

abbrev pub clock_manager_password : ℕ
clock_manager_password = 0x5A

-- `clock_peripheral_t`
pub data ClockPeripheral : Type 0 where
  gp0 gp1 gp2 pcm pwm peripheral_max : ClockPeripheral

-- The offsets of the switch; the assertion before it refuses the last enumerator.
abbrev pub clock_offset : ClockPeripheral → Option ℕ
clock_offset gp0 = some 0x70
clock_offset gp1 = some 0x78
clock_offset gp2 = some 0x80
clock_offset pcm = some 0x98
clock_offset pwm = some 0xA0
clock_offset peripheral_max = none

-- `clock_configuration_t`
pub record ClockConfiguration : Type 0 where
  pub source : ℕ
  pub mash_filter : ℕ
  pub invert : Bool
  pub integer : ℕ
  pub fraction : ℕ

abbrev pub bit : Bool → ℕ
bit true = 1
bit false = 0

abbrev pub at_offset : {S : Type 0} → ℕ → Option ℕ → (ℕ → Driven S) → Driven S
at_offset base none f = aborted
at_offset base (some offset) f = f (base + offset)

-- The control and the divisor word that a configuration becomes.
unfoldable pub control_word : ClockConfiguration → ℕ
control_word config =
    let c1 = put passwd clock_manager_password 0 in
    let c2 = put src config.source c1 in
    let c3 = put mash config.mash_filter c2 in put flip (bit config.invert) c3

unfoldable pub divisor_word : ClockConfiguration → ℕ
divisor_word config =
    let d1 = put passwd clock_manager_password 0 in
    let d2 = put divi config.integer d1 in put divf config.fraction d2

module _ {S : Type 0} (bus : Bus S) (base : ℕ) where
  unfoldable pub bcm283x_clock_enable : ClockPeripheral → Bool → S → Driven S
  bcm283x_clock_enable peripheral enable s = at_offset base (clock_offset peripheral) λ ctl.
      let (word, s1) = bus.read ctl s in
      let control = put enab (bit enable) (put passwd clock_manager_password word) in
      returned (bus.write ctl control s1)

  -- `while (clock->CTL.BUSY)`, with fuel for the readings.
  unfoldable pub wait_idle : ℕ → ℕ → S → (S → Driven S) → Driven S
  wait_idle zero ctl s next = looping
  wait_idle (suc fuel) ctl s next =
      let (word, s1) = bus.read ctl s in
      let again = wait_idle fuel ctl s1 next in if get busy word == 0 then next s1 else again

  -- `bcm283x_clock_wait_busy`
  unfoldable pub bcm283x_clock_wait_busy : ℕ → ClockPeripheral → S → Driven S
  bcm283x_clock_wait_busy fuel peripheral s =
      at_offset base (clock_offset peripheral) λ ctl. wait_idle fuel ctl s returned

  -- The clock is disabled, and only when it is idle the new words are written.
  unfoldable pub bcm283x_clock_configure : ℕ → ClockPeripheral → ClockConfiguration → S → Driven S
  bcm283x_clock_configure fuel peripheral config s =
      let configured = at_offset base (clock_offset peripheral) λ ctl.
        let (word, s1) = bus.read ctl s in
        let control = put enab 0 (put passwd clock_manager_password word) in
        wait_idle fuel ctl (bus.write ctl control s1) λ idle.
          returned (
            bus.write (ctl + 4) (divisor_word config) (bus.write ctl (control_word config) idle)) in
      if ltb 0 config.integer && ltb config.integer 4096 && ltb config.fraction 4096
      then configured
      else aborted

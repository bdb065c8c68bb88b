-- ===== src/Clock/Configure.antt =====
-- What the clock functions write, on any bus.
use raspdif.Prelude.{ℕ, zero, suc, ◌+◌, ◌<◌, ◌≡◌, ◌≢◌, refl, arith}
use raspdif.Prelude.{Bool, true, false, ◌&&◌, ltb, lt→ltb, ==-true, ==-false, some}
use raspdif.Registers.{get, put, Bus, Driven, returned}
use raspdif.Clock.{ClockPeripheral, ClockConfiguration, clock_offset, bit}
use raspdif.Clock.{src, enab, busy, flip, mash, passwd, divf, divi, clock_manager_password}
use raspdif.Clock.{wait_idle, bcm283x_clock_enable}

-- What a control word asks of the clock. Hardware ignores a write without the password.
pub record Asks (config : ClockConfiguration) (control divisor : ℕ) : Type 0 where
  pub control_password : get passwd control ≡ 0x5A
  pub divisor_password : get passwd divisor ≡ 0x5A
  pub source : get src control ≡ config.source
  pub mash_filter : get mash control ≡ config.mash_filter
  pub invert : get flip control ≡ bit config.invert
  pub disabled : get enab control ≡ 0
  pub integer : get divi divisor ≡ config.integer
  pub fraction : get divf divisor ≡ config.fraction

bit-lt : (b : Bool) → bit b < 2
bit-lt true = omega arith
bit-lt false = omega arith

-- The word that is written to stop or start a clock, after `word` was read.
pub record Switches (enable : Bool) (word control : ℕ) : Type 0 where
  pub password : get passwd control ≡ 0x5A
  pub enabled : get enab control ≡ bit enable
  pub source_kept : get src control ≡ get src word
  pub mash_kept : get mash control ≡ get mash word
  pub invert_kept : get flip control ≡ get flip word

switch_word : Bool → ℕ → ℕ
switch_word enable word = put enab (bit enable) (put passwd clock_manager_password word)

switch_word-Switches : (enable : Bool) (word : ℕ) → Switches enable word (switch_word enable word)
unfolding switch_word
switch_word-Switches enable word = record {
  password = omega (arith, bit-lt enable);
  enabled = omega (arith, bit-lt enable);
  source_kept = omega (arith, bit-lt enable);
  mash_kept = omega (arith, bit-lt enable);
  invert_kept = omega (arith, bit-lt enable);
}

module _ {S : Type 0} (bus : Bus S) (base : ℕ) where
  -- Switching a clock that has registers on or off is one read and one write of its control register: the write has
  -- the password and the wanted enable bit, and leaves source, filter and inversion as they were.
  pub bcm283x_clock_enable-Switches :
      (peripheral : ClockPeripheral) (offset : ℕ) (enable : Bool) (s : S)
      → clock_offset peripheral ≡ some offset
      → let (word, s1) = bus.read (base + offset) s in
        (control : ℕ) × (bcm283x_clock_enable bus base peripheral enable s
          ≡ returned (bus.write (base + offset) control s1))
        × Switches enable word control
  unfolding bcm283x_clock_enable switch_word
  bcm283x_clock_enable-Switches peripheral offset enable s e =
      let word = (bus.read (base + offset) s).0 in
      (switch_word enable word, rw e refl, switch_word-Switches enable word)

  -- The register is read as busy `n` times and then as idle.
  abbrev pub Idles : ℕ → ℕ → S → Type 0
  Idles ctl zero s = get busy (bus.read ctl s).0 ≡ 0
  Idles ctl (suc n) s = (get busy (bus.read ctl s).0 ≢ 0) × Idles ctl n (bus.read ctl s).1

  -- The state after `n` readings.
  abbrev pub after_reads : ℕ → ℕ → S → S
  after_reads ctl zero s = s
  after_reads ctl (suc n) s = after_reads ctl n (bus.read ctl s).1

  pub wait_idle-returns :
      (fuel n ctl : ℕ) (s : S) (next : S → Driven S)
      → n < fuel
      → Idles ctl n s
      → wait_idle bus base fuel ctl s next ≡ next (after_reads ctl (suc n) s)
  unfolding wait_idle
  wait_idle-returns zero n ctl s next room h = absurd (omega arith)
  wait_idle-returns (suc fuel) zero ctl s next room h =
      rw (==-true (get busy (bus.read ctl s).0) 0 h) refl
  wait_idle-returns (suc fuel) (suc n) ctl s next room h =
      rw (==-false (get busy (bus.read ctl s).0) 0 h.0)
        (wait_idle-returns fuel n ctl (bus.read ctl s).1 next (omega arith) h.1)

  pub configurable :
      (config : ClockConfiguration)
      → 0 < config.integer
      → config.integer < 4096
      → config.fraction < 4096
      → (ltb 0 config.integer && ltb config.integer 4096 && ltb config.fraction 4096) ≡ true
  configurable config p i f =
      rw (lt→ltb 0 config.integer p, lt→ltb config.integer 4096 i, lt→ltb config.fraction 4096 f)
        refl

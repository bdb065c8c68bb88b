-- ===== src/Setup/Calls.antt =====
-- The driver calls of `raspdif_init` in their order, on hardware and firmware that do what they document.
use raspdif.Prelude.{ℕ, ◌+◌, ◌<◌, ◌≡◌, refl, sym, ap, ◌∙◌, arith, List, ◌∷◌, some, none}
use raspdif.Prelude.{true, ==-false}
use raspdif.Registers.{Driven, returned}
use raspdif.ControlBlocks.{generate_dma_control_blocks}
use raspdif.ControlBlocks.Ring.{IsPlaced}
use raspdif.Dma.{dma_channel_max}
use raspdif.Program.{Drivers, Machine, Program, done, then_do, ◌>>◌, driver, on_device}
use raspdif.Setup.{Board, Doubles}
use raspdif.Setup.Raspdif.{prepare_dma, prepare_clock, prepare_pcm, prepare_gpio, clock_divisor}
use raspdif.Setup.Raspdif.{pcm_config, dma_config, tx_config, gpio_config, clock_config}
use raspdif.Setup.Harmless.{Untouched, Untouched-pcm, PcmUntouched, Harmless, ClockIdles}
use raspdif.Registers.{assign}
use raspdif.Pcm.{sync}
use raspdif.Pcm.Configure.{Echoes}
use raspdif.Clock.Configure.{bcm283x_clock_enable-Switches}
use raspdif.Prelude.{Bool}
use raspdif.Setup.Harmless.{dma_reset-Harmless, dma_set_control_block-Harmless}
use raspdif.Setup.Harmless.{clock_configure-Harmless, pcm_reset-Harmless, pcm_configure-Harmless}
use raspdif.Setup.Harmless.{
  pcm_channels-Harmless, pcm_configure_dma-Harmless, pcm_clear_fifos-Harmless,
}
use raspdif.Setup.Harmless.{gpio_configure_mask-Harmless}
use mathlib.Core.Path.{subst}
use raspdif.ControlBlocks.{block_address}
use raspdif.Clock.{ClockPeripheral, bcm283x_clock_configure, bcm283x_clock_enable}
use raspdif.Dma.{bcm283x_dma_reset, bcm283x_dma_set_control_block}
use raspdif.Pcm.{bcm283x_pcm_reset, bcm283x_pcm_configure, bcm283x_pcm_configure_dma}
use raspdif.Pcm.{bcm283x_pcm_configure_transmit_channels, bcm283x_pcm_clear_fifos}
use raspdif.Gpio.{bcm283x_gpio_configure_mask}
use raspdif.Setup.Working.{IsWorking, initialised}

module _ {S : Type 0} {A : Type 0} (held : S → A) where
  -- From `m` on, the program changes nothing but the device, and holds `x`.
  pub record Stays (x : A) (m : Machine S) (p : Program S Unit) : Type 0 where
    pub runs :
        (s : S)
        → held s ≡ x
        → (s' : S) × (p (on_device s m) ≡ (done tt, on_device s' m)) × (held s' ≡ x)

  pub then-Stays :
      {x : A} {m : Machine S} {p q : Program S Unit}
      → Stays x m p
      → Stays x m q
      → Stays x m (p >> q)
  then-Stays {q = q} f g = record {
    runs = λ s h.
        let (s1, e1, h1) = f.runs s h in
        let (s2, e2, h2) = g.runs s1 h1 in (s2, ap (λ r. then_do r (λ _. q)) e1 ∙ e2, h2);
  }

  driver-Stays :
      {x : A} {m : Machine S} (base : Drivers → ℕ) (f : ℕ → S → Driven S)
      → 0 < base m.drivers
      → ((s : S) → held s ≡ x → Harmless held (f (base m.drivers) s) s)
      → Stays x m (driver base f)
  driver-Stays {m = m} base f h harmless = record {
    runs = λ s k.
        let (s', e, kept) = harmless s k in
        (s', rw (==-false (base m.drivers) 0 (omega (arith, h)), e) refl, kept ∙ k);
  }

module _ {S : Type 0} (board : Board S) (held : S → List ℕ) (peripherals : ℕ)
    (w : IsWorking board held peripherals) where
  -- What `raspdif_init` is to leave: the channel, the structure at a place that DMA can read, with the
  -- ring of control blocks, in memory that is held; and the drivers have their registers.
  pub record Initialised (channel : ℕ) (before : List ℕ) (m : Machine S) : Type 0 where
    pub dma_channel : m.raspdif.dma_channel ≡ channel
    pub bus : m.raspdif.bus ≡ m.raspdif.memory.address
    pub placed : IsPlaced m.raspdif.bus
    pub ring : m.blocks ≡ generate_dma_control_blocks m.raspdif.bus
    pub memory : held m.host.device ≡ m.raspdif.memory.handle ∷ before
    pub drivers : m.drivers ≡ initialised peripherals

  abbrev u : Untouched held board.bus board.pcm_delay board.gpio_delay
  u = w.untouched

  module _ (channel : ℕ) (in_range : channel < dma_channel_max) {x : List ℕ} {m : Machine S}
      (ready : Initialised channel x m) where
    abbrev pub now : List ℕ
    now = m.raspdif.memory.handle ∷ x

    pub on_channel : m.raspdif.dma_channel < dma_channel_max
    on_channel = omega (arith, ready.dma_channel, in_range)

    has_clock : 0 < m.drivers.clock
    has_clock = omega (arith, ap (λ d. d.clock) ready.drivers)

    has_gpio : 0 < m.drivers.gpio
    has_gpio = omega (arith, ap (λ d. d.gpio) ready.drivers)

    pub has_dma : 0 < m.drivers.dma
    has_dma = omega (arith, ap (λ d. d.dma) ready.drivers)

    has_pcm : 0 < m.drivers.pcm
    has_pcm = omega (arith, ap (λ d. d.pcm) ready.drivers)

    -- A call of each driver.
    pub dma_call :
        (f : ℕ → S → Driven S)
        → ((s : S) → Harmless held (f m.drivers.dma s) s)
        → Stays held now m (driver (λ d. d.dma) f)
    dma_call f harmless = driver-Stays held (λ d. d.dma) f has_dma (λ s k. harmless s)

    pub clock_call :
        (f : ℕ → S → Driven S)
        → ((s : S) → Harmless held (f m.drivers.clock s) s)
        → Stays held now m (driver (λ d. d.clock) f)
    clock_call f harmless = driver-Stays held (λ d. d.clock) f has_clock (λ s k. harmless s)

    pub prepare_dma-Stays : Stays held now m (prepare_dma board)
    prepare_dma-Stays = record {
      runs =
          (then-Stays held
            (dma_call (λ base. bcm283x_dma_reset board.bus base m.raspdif.dma_channel)
              (λ s.
                dma_reset-Harmless held board u m.drivers.dma m.raspdif.dma_channel s on_channel))
            (dma_call
              (λ base.
                bcm283x_dma_set_control_block board.bus base m.raspdif.dma_channel
                  (block_address m.raspdif.bus 0))
              (λ s.
                dma_set_control_block-Harmless held board u m.drivers.dma m.raspdif.dma_channel
                  m.raspdif.bus s on_channel ready.placed))).runs;
    }

    -- What is held, and whether the clock of PCM runs.
    abbrev pub both : S → List ℕ × Bool
    both s = (held s, w.ticking s)

    abbrev pub running : List ℕ × Bool
    running = (now, true)

    pub prepare_clock-runs :
        {R : Type 0} (doubles : Doubles R) (rate : R)
        → (let (divi, divf) = clock_divisor board doubles rate in
            (0 < divi) × (divi < 4096) × (divf < 4096))
        → (s : S) → held s ≡ now
        → (s' : S) × (prepare_clock board doubles rate (on_device s m) ≡ (done tt, on_device s' m))
          × (both s' ≡ running)
    prepare_clock-runs doubles rate divisor s h =
        let config = clock_config board doubles rate in
        let idles =
          subst (λ d. ClockIdles held board u board.fuel (d.clock + 0x98)) (sym ready.drivers)
            w.clock_idles in
        let (s1, configured, k1) =
          clock_configure-Harmless held board u m.drivers.clock board.fuel config s divisor.0
            divisor.1 divisor.2 idles in
        let (control, enabled, switches) =
          bcm283x_clock_enable-Switches board.bus m.drivers.clock ClockPeripheral.pcm 0x98 true s1
            refl in
        let ctl = m.drivers.clock + 0x98 in
        let (word, s2) = board.bus.read ctl s1 in
        let runs =
          subst (λ d. w.ticking (board.bus.write (d.clock + 0x98) control s2) ≡ true)
            (sym ready.drivers) (w.starts control s2 switches.enabled switches.password) in
        let kept = u.by_write ctl control s2 ∙ u.by_read ctl s1 ∙ k1 ∙ h in
        let there = ==-false m.drivers.clock 0 (omega (arith, has_clock)) in
        let s3 = board.bus.write ctl control s2 in
        let switch : Program S Unit =
          driver (λ d. d.clock)
            (λ base s. bcm283x_clock_enable board.bus base ClockPeripheral.pcm true s) in
        let one : driver (λ d. d.clock)
              (λ base s.
                bcm283x_clock_configure board.bus base board.fuel ClockPeripheral.pcm config s)
              (on_device s m)
            ≡ (done tt, on_device s1 m) =
          rw (there, configured) refl in
        let two : switch (on_device s1 m) ≡ (done tt, on_device s3 m) = rw (there, enabled) refl in
        (s3, ap (λ r. then_do r (λ _. switch)) one ∙ two, rw (kept, runs) refl)

    pub pcm_reset-Stays : Stays held now m (
        driver
          (λ d. d.pcm)
          (λ base s. returned (bcm283x_pcm_reset board.bus base board.pcm_delay s)))
    pcm_reset-Stays =
        driver-Stays held (λ d. d.pcm)
          (λ base s. returned (bcm283x_pcm_reset board.bus base board.pcm_delay s)) has_pcm
          (λ s k.
            pcm_reset-Harmless held board m.drivers.pcm (Untouched-pcm held board m.drivers.pcm u)
              s)

    -- The registers of PCM keep both.
    quiet_pcm : PcmUntouched both board m.drivers.pcm
    quiet_pcm =
        let here = ap (λ d. d.pcm) ready.drivers in
        record {
          by_read = λ a s. rw (u.by_read a s, w.ticks_by_read a s) refl;
          by_first = λ v s.
              rw
                (
                  u.by_write m.drivers.pcm v s,
                  w.ticks_by_write m.drivers.pcm v s (λ e. omega (arith, e, here)),
                )
                refl;
          by_other = λ o v s small.
              rw
                (
                  u.by_write (m.drivers.pcm + o) v s,
                  w.ticks_by_write (m.drivers.pcm + o) v s (λ e. omega (arith, e, here)),
                )
                refl;
          by_delay = λ s. rw (u.by_pcm_delay s, w.ticks_by_delay s) refl;
        }

    pub prepare_pcm-Stays : Stays both running m (prepare_pcm board)
    prepare_pcm-Stays =
        let pcm_base = m.drivers.pcm in
        let echoes =
          subst
            (λ d.
              (v : ℕ) (t : S)
              → v < 2
              → w.ticking t ≡ true
              → (n : ℕ) × (n < board.fuel)
                × Echoes board.bus d.pcm board.pcm_delay v n (assign board.bus d.pcm sync v t))
            (sym ready.drivers) w.sync_echoes in
        let call : (f : ℕ → S → Driven S)
            → ((s : S) → both s ≡ running → Harmless both (f pcm_base s) s)
            → Stays both running m (driver (λ d. d.pcm) f) =
          λ f harmless. driver-Stays both (λ d. d.pcm) f has_pcm harmless in
        let cleared =
          call (λ base. bcm283x_pcm_clear_fifos board.bus base board.pcm_delay board.fuel)
            (λ s k.
              pcm_clear_fifos-Harmless both board pcm_base quiet_pcm board.fuel s w.ticking
                (λ t same. ap (λ x. x.1) (same ∙ k)) echoes) in
        then-Stays both
          (then-Stays both
            (then-Stays both
              (then-Stays both
                (call (λ base s. returned (bcm283x_pcm_reset board.bus base board.pcm_delay s))
                  (λ s k. pcm_reset-Harmless both board pcm_base quiet_pcm s))
                (call
                  (λ base s.
                    returned
                      (bcm283x_pcm_configure board.bus base board.pcm_delay (pcm_config board) s))
                  (λ s k.
                    pcm_configure-Harmless both board pcm_base quiet_pcm (pcm_config board) s)))
              (call
                (λ base.
                  bcm283x_pcm_configure_dma board.bus base board.pcm_delay true (dma_config board))
                (λ s k. pcm_configure_dma-Harmless both board pcm_base quiet_pcm s)))
            (call
              (λ base s. returned (
                bcm283x_pcm_configure_transmit_channels board.bus base board.pcm_delay
                  (some (tx_config board)) none s))
              (λ s k. pcm_channels-Harmless both board pcm_base quiet_pcm s)))
          cleared

    pub prepare_gpio-Stays : Stays held now m (prepare_gpio board)
    prepare_gpio-Stays =
        driver-Stays held (λ d. d.gpio)
          (λ base.
            bcm283x_gpio_configure_mask board.bus base board.gpio_delay 0x20_0000
              (gpio_config board))
          has_gpio (λ s k. gpio_configure_mask-Harmless held board u m.drivers.gpio s)

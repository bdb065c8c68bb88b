-- ===== src/Setup/Harmless.antt =====
-- The driver calls of `raspdif_init` and `raspdif_shutdown`, seen from what reading and writing registers
-- does not touch.
use raspdif.Prelude.{ℕ, zero, suc, ◌+◌, ◌<◌, ◌≡◌, refl, ◌∙◌, arith, List, [], ◌∷◌, some, none}
use raspdif.Prelude.{Bool, true, ltb, lt→ltb}
use raspdif.Registers.{Bus, Field, bit_at, get, put, assign, assign_all, Driven, returned}
use raspdif.Clock.{
  ClockPeripheral, ClockConfiguration, bcm283x_clock_enable, bcm283x_clock_configure,
}
use raspdif.Clock.{enab, passwd, clock_manager_password, control_word, divisor_word}
use raspdif.Clock.Configure.{Idles, after_reads, wait_idle-returns, configurable}
use raspdif.Dma.{bcm283x_dma_reset, bcm283x_dma_set_control_block, dma_channel_max}
use raspdif.Dma.Channel.{aligned}
use raspdif.ControlBlocks.{block_address}
use raspdif.ControlBlocks.Ring.{IsPlaced}
use raspdif.Pcm.{
  bcm283x_pcm_reset, bcm283x_pcm_configure, bcm283x_pcm_configure_mode, bcm283x_pcm_configure_dma,
}
use raspdif.Pcm.{
  bcm283x_pcm_configure_channels, bcm283x_pcm_configure_transmit_channels, bcm283x_pcm_clear_fifos,
}
use raspdif.Pcm.{sync, PcmConfiguration}
use raspdif.Pcm.Configure.{Echoes, echoed, pcm_sync-returns}
use raspdif.Setup.{Board}
use raspdif.Gpio.{
  bcm283x_gpio_configure_mask, configure_from, bcm283x_gpio_configure, bcm283x_gpio_set_function,
}
use raspdif.Gpio.{GpioFunction, GpioPull, EventDetect, clear_events, set_events, set_pull}

-- What the registers do not touch.
module _ {S : Type 0} {A : Type 0} (held : S → A) where
  pub record Untouched (bus : Bus S) (pcm_delay gpio_delay : S → S) : Type 0 where
    pub by_read : (a : ℕ) (s : S) → held (bus.read a s).1 ≡ held s
    pub by_write : (a v : ℕ) (s : S) → held (bus.write a v s) ≡ held s
    pub by_pcm_delay : (s : S) → held (pcm_delay s) ≡ held s
    pub by_gpio_delay : (s : S) → held (gpio_delay s) ≡ held s

  -- The call returns and leaves it alone.
  abbrev pub Harmless : Driven S → S → Type 0
  Harmless d s = (s' : S) × (d ≡ returned s') × (held s' ≡ held s)

  module _ (board : Board S) (u : Untouched board.bus board.pcm_delay board.gpio_delay) where
    pub assign-kept : (a : ℕ) (f : Field) (v : ℕ) (s : S) → held (assign board.bus a f v s) ≡ held s
    assign-kept a f v s = u.by_write a _ (board.bus.read a s).1 ∙ u.by_read a s

    pub assign_all-kept :
        (a : ℕ) (fields : List (Field × ℕ)) (s : S)
        → held (assign_all board.bus a fields s) ≡ held s
    assign_all-kept a [] s = refl
    assign_all-kept a ((f, v) ∷ rest) s =
        assign_all-kept a rest (assign board.bus a f v s) ∙ assign-kept a f v s

    after_reads-kept : (base a n : ℕ) (s : S) → held (after_reads board.bus base a n s) ≡ held s
    after_reads-kept base a zero s = refl
    after_reads-kept base a (suc n) s =
        after_reads-kept base a n (board.bus.read a s).1 ∙ u.by_read a s

    pub dma_reset-Harmless :
        (base channel : ℕ) (s : S)
        → channel < dma_channel_max
        → Harmless (bcm283x_dma_reset board.bus base channel s) s
    unfolding bcm283x_dma_reset
    dma_reset-Harmless base channel s h =
        rw (lt→ltb channel dma_channel_max h) (_, refl, simp (u.by_write, u.by_read) refl)

    pub dma_set_control_block-Harmless :
        (base channel ring : ℕ) (s : S)
        → channel < dma_channel_max
        → IsPlaced ring
        → Harmless (bcm283x_dma_set_control_block board.bus base channel (block_address ring 0) s) s
    unfolding bcm283x_dma_set_control_block
    dma_set_control_block-Harmless base channel ring s h placed =
        rw
          (
            aligned board.bus base channel ring 0 placed (omega arith),
            lt→ltb channel dma_channel_max h,
          )
          (_, refl, u.by_write _ _ s)

    pub clock_enable-Harmless :
        (base : ℕ) (b : Bool) (s : S)
        → Harmless (bcm283x_clock_enable board.bus base ClockPeripheral.pcm b s) s
    unfolding bcm283x_clock_enable
    clock_enable-Harmless base b s = (_, refl, simp (u.by_write, u.by_read) refl)

    -- The clock's control register after a write that stops the clock: idle after fewer readings than
    -- there is fuel.
    abbrev pub ClockIdles : ℕ → ℕ → Type 0
    ClockIdles fuel ctl =
        (v : ℕ) (t : S)
        → get enab v ≡ 0
        → get passwd v ≡ 0x5A
        → (n : ℕ) × (n < fuel) × Idles board.bus ctl ctl n (board.bus.write ctl v t)

    pub clock_configure-Harmless :
        (base fuel : ℕ) (config : ClockConfiguration) (s : S)
        → 0 < config.integer
        → config.integer < 4096
        → config.fraction < 4096
        → ClockIdles fuel (base + 0x98)
        → Harmless (bcm283x_clock_configure board.bus base fuel ClockPeripheral.pcm config s) s
    unfolding bcm283x_clock_configure
    clock_configure-Harmless base fuel config s hp hi hf idles =
        let ctl = base + 0x98 in
        let (word, s1) = board.bus.read ctl s in
        let stop = put enab 0 (put passwd clock_manager_password word) in
        let (n, room, idle) = idles stop s1 (omega arith) (omega arith) in
        let stopped : S = board.bus.write ctl stop s1 in
        let next : S → Driven S = λ t. returned (
          board.bus.write (ctl + 4) (divisor_word config)
            (board.bus.write ctl (control_word config) t)) in
        rw (configurable board.bus base config hp hi hf) (
          _,
          wait_idle-returns board.bus base fuel n ctl stopped next room idle,
          simp (u.by_write, after_reads-kept, u.by_read) refl,
        )

    pub gpio_configure_mask-Harmless :
        (base : ℕ) (s : S)
        → Harmless
            (bcm283x_gpio_configure_mask board.bus base board.gpio_delay 0x20_0000
              (record {
                function = GpioFunction.af0;
                pull = GpioPull.pull_no_change;
                event_detect = EventDetect.detect_none;
              })
              s)
            s
    unfolding bcm283x_gpio_configure_mask configure_from bcm283x_gpio_configure
        bcm283x_gpio_set_function clear_events set_events set_pull
    gpio_configure_mask-Harmless base s = (_, refl, simp (u.by_write, u.by_read) refl)

-- The same for the registers of PCM from `base` on.
module _ {S : Type 0} {A : Type 0} (held : S → A) (board : Board S) (base : ℕ) where
  pub record PcmUntouched : Type 0 where
    pub by_read : (a : ℕ) (s : S) → held (board.bus.read a s).1 ≡ held s
    pub by_first : (v : ℕ) (s : S) → held (board.bus.write base v s) ≡ held s
    pub by_other :
        (o v : ℕ) (s : S) → ltb o 64 ≡ true → held (board.bus.write (base + o) v s) ≡ held s
    pub by_delay : (s : S) → held (board.pcm_delay s) ≡ held s

  pub Untouched-pcm : Untouched held board.bus board.pcm_delay board.gpio_delay → PcmUntouched
  Untouched-pcm u = record {
    by_read = u.by_read;
    by_first = u.by_write base;
    by_other = λ o v s small. u.by_write (base + o) v s;
    by_delay = u.by_pcm_delay;
  }

  module _ (q : PcmUntouched) where
    pub pcm_reset-Harmless :
        (s : S) → Harmless held (returned (bcm283x_pcm_reset board.bus base board.pcm_delay s)) s
    unfolding bcm283x_pcm_reset
    pcm_reset-Harmless s = (_, refl, simp (q.by_other, q.by_first, q.by_read, q.by_delay) refl)

    pub pcm_configure-Harmless :
        (config : PcmConfiguration) (s : S)
        → Harmless held (returned (bcm283x_pcm_configure board.bus base board.pcm_delay config s)) s
    unfolding bcm283x_pcm_configure bcm283x_pcm_configure_mode
    pcm_configure-Harmless config s =
        (_, refl, simp (q.by_other, q.by_first, q.by_read, q.by_delay) refl)

    pub pcm_channels-Harmless :
        (s : S)
        → Harmless held
            (returned (
              bcm283x_pcm_configure_transmit_channels board.bus base board.pcm_delay
                (some (record { width = 32; position = 0 }))
                none
                s))
            s
    unfolding bcm283x_pcm_configure_transmit_channels bcm283x_pcm_configure_channels
    pcm_channels-Harmless s = (_, refl, simp (q.by_other, q.by_read) refl)

    pub pcm_configure_dma-Harmless :
        (s : S)
        → Harmless held
            (bcm283x_pcm_configure_dma board.bus base board.pcm_delay true
              (record { tx_threshold = 32; rx_threshold = 0; tx_panic = 16; rx_panic = 0 })
              s)
            s
    unfolding bcm283x_pcm_configure_dma
    pcm_configure_dma-Harmless s = (_, refl, simp (q.by_other, q.by_first, q.by_read) refl)

    -- The bit of the serialiser's handshake while its clock runs: echoed after fewer readings than there is fuel.
    abbrev pub SyncEchoes : (S → Bool) → ℕ → Type 0
    SyncEchoes ticking fuel =
        (v : ℕ) (t : S)
        → v < 2
        → ticking t ≡ true
        → (n : ℕ) × (n < fuel)
          × Echoes board.bus base board.pcm_delay v n (assign board.bus base sync v t)

    echoed-kept : (n : ℕ) (s : S) → held (echoed board.bus base board.pcm_delay n s) ≡ held s
    echoed-kept zero s = q.by_read base s
    echoed-kept (suc n) s = echoed-kept n (board.bus.read base s).1 ∙ q.by_read base s

    pub pcm_clear_fifos-Harmless :
        (fuel : ℕ) (s : S)
        → (ticking : S → Bool) → ((t : S) → held t ≡ held s → ticking t ≡ true)
        → SyncEchoes ticking fuel
        → Harmless held (bcm283x_pcm_clear_fifos board.bus base board.pcm_delay fuel s) s
    unfolding bcm283x_pcm_clear_fifos
    pcm_clear_fifos-Harmless fuel s ticking ticks echoes =
        let cleared = assign_all board.bus base ((bit_at 3, 1) ∷ (bit_at 4, 1) ∷ []) s in
        let (n, room, zero_seen) =
          echoes 0 cleared (omega arith) (ticks cleared (simp (q.by_first, q.by_read) refl)) in
        let seen = echoed board.bus base board.pcm_delay n (assign board.bus base sync 0 cleared) in
        let (m, room', one_seen) =
          echoes 1 seen (omega arith)
            (ticks seen (simp (q.by_first, echoed-kept, q.by_read) refl)) in
        (
          _,
          pcm_sync-returns board.bus base board.pcm_delay fuel n m cleared room room' zero_seen
              one_seen,
          simp (q.by_first, echoed-kept, q.by_read) refl,
        )

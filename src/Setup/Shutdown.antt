-- ===== src/Setup/Shutdown.antt =====
-- `raspdif_shutdown` on hardware and firmware that do what they document.
use raspdif.Prelude.{ℕ, ◌+◌, ◌*◌, ◌<◌, ◌≡◌, refl, ap, ◌∙◌, arith, List, false, ==-false}
use raspdif.Registers.{get, returned}
use raspdif.Host.{Host}
use raspdif.Memory.{memory_release_physical}
use raspdif.Memory.Firmware.{release_latest}
use raspdif.Clock.{ClockPeripheral, bcm283x_clock_enable}
use raspdif.Pcm.{bcm283x_pcm_reset}
use raspdif.Dma.{active, dma_channel_max, dma_channel_offset, bcm283x_dma_active}
use raspdif.Dma.Channel.{dma_active-enable}
use raspdif.Program.{Machine, done, ◌>>◌, driver}
use raspdif.Setup.{Board}
use raspdif.Setup.Raspdif.{raspdif_shutdown}
use raspdif.Setup.Harmless.{clock_enable-Harmless}
use raspdif.Setup.Working.{IsWorking}
use raspdif.Setup.Calls.{
  Initialised, Stays, now, then-Stays, clock_call, pcm_reset-Stays, on_channel, has_dma,
}

module _ {S : Type 0} (board : Board S) (held : S → List ℕ) (peripherals : ℕ)
    (w : IsWorking board held peripherals) (channel : ℕ) (in_range : channel < dma_channel_max)
    (before : List ℕ) (m : Machine S)
    (ready : Initialised board held peripherals w channel before m) where
  -- The calls before DMA is stopped.
  quiet-Stays : Stays held (now board held peripherals w channel in_range ready) m (
      driver (λ d. d.pcm) (λ base s. returned (bcm283x_pcm_reset board.bus base board.pcm_delay s))
      >> driver
          (λ d. d.clock)
          (λ base s. bcm283x_clock_enable board.bus base ClockPeripheral.pcm false s))
  quiet-Stays = then-Stays held (pcm_reset-Stays board held peripherals w channel in_range ready) (
      clock_call board held peripherals w channel in_range ready
        (λ base. bcm283x_clock_enable board.bus base ClockPeripheral.pcm false)
        (clock_enable-Harmless held board w.untouched m.drivers.clock false))

  -- On hardware and firmware that do what they document, where /dev/mem opens and maps the
  -- peripherals, with ACTIVE bits that are read as 0 after they were written as 0,
  -- raspdif_shutdown after an initialisation on a channel up to 14 comes to its end. The memory
  -- is released, and in the state in which its release begins, the channel is not active.
  pub raspdif_shutdown-releases :
      ((v : ℕ) (t : S)
        → let cs = m.drivers.dma + m.raspdif.dma_channel * dma_channel_offset in
          get active v ≡ 0 → get active (board.bus.read cs (board.bus.write cs v t)).0 ≡ 0)
      → (s : S) × (s' : S) × (let (result, h) =
            memory_release_physical board.vcio m.raspdif.memory (record m.host { device = s }) in
          (raspdif_shutdown board m ≡ (done tt, record m { host = h })) × (held h.device ≡ before))
        × (bcm283x_dma_active board.bus m.drivers.dma m.raspdif.dma_channel s
            ≡ returned (false, s'))
  unfolding raspdif_shutdown
  raspdif_shutdown-releases kept =
      let (s, quiet, same) = quiet-Stays.runs m.host.device ready.memory in
      let here = on_channel board held peripherals w channel in_range ready in
      let (control, s1, s2, stopped, written, starts, asked) =
        dma_active-enable board.bus m.drivers.dma m.raspdif.dma_channel false s here kept in
      let h : Host S = record m.host { device = s1 } in
      let holding =
        ap held written ∙ w.untouched.by_write _ control _ ∙ w.untouched.by_read _ s ∙ same in
      let (released, left) =
        release_latest board.vcio held w.firmware m.raspdif.memory before h holding in
      let not_null =
        ==-false m.drivers.dma 0
          (omega (arith, has_dma board held peripherals w channel in_range ready)) in
      (s1, s2, (rw (quiet, not_null, stopped, released) refl, left), asked)

-- ===== src/Setup/Raspdif.antt =====
-- `raspdif_init` and `raspdif_shutdown` of source/main.c, with the sizes and settings that they give
-- the drivers.
use raspdif.Prelude.{ℕ, ◌+◌, ◌-◌, ◌^◌, true, false, if◌then◌else◌, none, some, u32}
use raspdif.Registers.{Driven, returned}
use raspdif.Memory.{PhysicalMemory, memory_allocate_physical, memory_release_physical}
use raspdif.Clock.{
  ClockConfiguration, ClockPeripheral, bcm283x_clock_configure, bcm283x_clock_enable,
}
use raspdif.Dma.{bcm283x_dma_reset, bcm283x_dma_set_control_block, bcm283x_dma_enable}
use raspdif.Pcm.{
  PcmConfiguration, PcmDmaConfig, PcmChannelConfig, bcm283x_pcm_reset, bcm283x_pcm_configure,
}
use raspdif.Pcm.{
  bcm283x_pcm_configure_dma, bcm283x_pcm_configure_transmit_channels, bcm283x_pcm_clear_fifos,
}
use raspdif.Gpio.{
  GpioConfiguration, GpioFunction, GpioPull, EventDetect, bcm283x_gpio_configure_mask,
}
use raspdif.ControlBlocks.{generate_dma_control_blocks, block_address, control_bytes}
use raspdif.Program.{Program, give, ◌>>=◌, ◌>>◌, firmware, driver, fatal_line}
use raspdif.Setup.{Board, Doubles, is_null, bcm283x_init, memory_map_physical}
use raspdif.Setup.{set_raspdif_channel, set_raspdif_memory, set_raspdif_control, set_blocks}

module _ {S : Type 0} (board : Board S) where
  -- The calls of the drivers, each with its registers.
  abbrev pub clock_driver : (ℕ → S → Driven S) → Program S Unit
  clock_driver f = driver (λ d. d.clock) f

  abbrev pub dma_driver : (ℕ → S → Driven S) → Program S Unit
  dma_driver f = driver (λ d. d.dma) f

  abbrev pub pcm_driver : (ℕ → S → Driven S) → Program S Unit
  pcm_driver f = driver (λ d. d.pcm) f

  -- PCM is reset, its clock is stopped, DMA is stopped, and then the memory is released.
  unfoldable pub raspdif_shutdown : Program S Unit
  raspdif_shutdown m =
      (pcm_driver (λ base s. returned (bcm283x_pcm_reset board.bus base board.pcm_delay s))
          >> clock_driver
              (λ base s. bcm283x_clock_enable board.bus base ClockPeripheral.pcm false s)
          >> dma_driver (λ base s. bcm283x_dma_enable board.bus base m.raspdif.dma_channel false s)
          >> (firmware (memory_release_physical board.vcio m.raspdif.memory) >>= λ result. give tt))
        m

  -- The memory for the control structure; a null address ends the program.
  abbrev pub allocate_control : Program S PhysicalMemory
  allocate_control =
      firmware (memory_allocate_physical board.vcio board.page_size control_bytes) >>= λ memory.
      (if is_null memory.address then fatal_line else give tt) >> give memory

  -- `bus_base - bcm_host_get_sdram_address()`
  abbrev pub physical_base : ℕ → ℕ
  physical_base address = u32 (2 ^ 32 + address - board.sdram_address)

  -- It is mapped; if that gives NULL, the memory is released before the program ends.
  abbrev pub map_control : PhysicalMemory → Program S ℕ
  map_control memory =
      memory_map_physical board (physical_base memory.address) control_bytes >>= λ virtual.
      (if is_null virtual
        then (firmware (memory_release_physical board.vcio memory) >>= λ result. fatal_line)
        else give tt)
      >> give virtual

  -- The memory of the control structure, with the control blocks in it.
  abbrev pub prepare_control : Program S Unit
  prepare_control = allocate_control >>= λ memory.
      set_raspdif_memory memory
      >> (map_control memory >>= λ virtual.
          set_blocks (generate_dma_control_blocks memory.address)
          >> set_raspdif_control memory.address virtual)

  -- The channel starts at the first control block.
  abbrev pub prepare_dma : Program S Unit
  prepare_dma m =
      (dma_driver (λ base s. bcm283x_dma_reset board.bus base m.raspdif.dma_channel s)
          >> dma_driver (λ base s.
            bcm283x_dma_set_control_block board.bus base m.raspdif.dma_channel
              (block_address m.raspdif.bus 0) s))
        m

  abbrev pub pcm_config : PcmConfiguration
  pcm_config = record {
    sync_length = 1;
    sync_invert = false;
    sync_slave = false;
    clock_invert = false;
    clock_slave = false;
    tx_packed = false;
    rx_packed = false;
    frame_length = 32;
    tx_fifo_threshold = 0;
    rx_fifo_threshold = 0;
  }

  abbrev pub dma_config : PcmDmaConfig
  dma_config = record { tx_threshold = 32; rx_threshold = 0; tx_panic = 16; rx_panic = 0 }

  abbrev pub tx_config : PcmChannelConfig
  tx_config = record { width = 32; position = 0 }

  abbrev pub prepare_pcm : Program S Unit
  prepare_pcm =
      pcm_driver (λ base s. returned (bcm283x_pcm_reset board.bus base board.pcm_delay s))
      >> pcm_driver
          (λ base s. returned (bcm283x_pcm_configure board.bus base board.pcm_delay pcm_config s))
      >> pcm_driver
          (λ base s. bcm283x_pcm_configure_dma board.bus base board.pcm_delay true dma_config s)
      >> pcm_driver (λ base s. returned (
          bcm283x_pcm_configure_transmit_channels board.bus base board.pcm_delay (some tx_config)
            none s))
      >> pcm_driver (λ base s. bcm283x_pcm_clear_fifos board.bus base board.pcm_delay board.fuel s)

  -- GPIO 21 becomes the output of PCM.
  abbrev pub gpio_config : GpioConfiguration
  gpio_config = record {
    function = GpioFunction.af0;
    pull = GpioPull.pull_no_change;
    event_detect = EventDetect.detect_none;
  }

  abbrev pub prepare_gpio : Program S Unit
  prepare_gpio =
      driver (λ d. d.gpio)
        (λ base s.
          bcm283x_gpio_configure_mask board.bus base board.gpio_delay 0x20_0000 gpio_config s)

  module _ {R : Type 0} (doubles : Doubles R) where
    -- The clock of 128 times the sample rate, out of 750 or 500 MHz.
    unfoldable pub clock_divisor : R → ℕ × ℕ
    clock_divisor sample_rate =
        let spdif_clock =
          doubles.times (doubles.times sample_rate (doubles.literal 64)) (doubles.literal 2) in
        let pll = doubles.literal (if board.is_pi4 then 750_000_000 else 500_000_000) in
        let (whole, fraction) = doubles.modf (doubles.over pll spdif_clock) in
        (
          doubles.to_u16 whole,
          doubles.to_u16 (doubles.round (doubles.times (doubles.literal 4096) fraction)),
        )

    -- PLLD, with a filter of one stage.
    abbrev pub clock_config : R → ClockConfiguration
    clock_config sample_rate =
        let (divi, divf) = clock_divisor sample_rate in
        record { source = 6; mash_filter = 1; invert = false; integer = divi; fraction = divf }

    abbrev pub prepare_clock : R → Program S Unit
    prepare_clock sample_rate =
        clock_driver (λ base s.
          bcm283x_clock_configure board.bus base board.fuel ClockPeripheral.pcm
            (clock_config sample_rate) s)
        >> clock_driver (λ base s. bcm283x_clock_enable board.bus base ClockPeripheral.pcm true s)

    unfoldable pub raspdif_init : ℕ → R → Program S Unit
    raspdif_init dma_channel sample_rate =
        bcm283x_init board
        >> set_raspdif_channel dma_channel
        >> prepare_control
        >> prepare_dma
        >> prepare_clock sample_rate
        >> prepare_pcm
        >> prepare_gpio

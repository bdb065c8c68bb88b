-- ===== src/Setup.antt =====
-- Initialisation and shutdown: `bcm283x_init` of source/bcm283x/bcm283x.c with the `init` functions of
-- the drivers, `memory_map_physical` and `memory_allocate_virtual` of source/memory.c, and
-- what `raspdif_init` of source/main.c keeps, in a build with 32-bit pointers. Only the
-- fatal lines of the log are written out.
pub mod Raspdif
pub mod Harmless
pub mod Working
pub mod Calls
pub mod Lifecycle
pub mod Shutdown
use raspdif.Prelude.{
  ℕ, ◌+◌, ◌-◌, ◌^◌, Bool, true, false, not, ◌&&◌, ◌==◌, if◌then◌else◌, List, Option, none, some,
  u32,
}
use raspdif.Registers.{Bus, Driven, returned}
use raspdif.Mailbox.{Vcio}
use raspdif.Memory.{PhysicalMemory, memory_allocate_physical, memory_release_physical}
use raspdif.ControlBlocks.{ControlBlock, generate_dma_control_blocks, block_address, control_bytes}
use raspdif.Program.{
  Machine, Program, done, asserts, give, ◌>>=◌, ◌>>◌, firmware, driver, on_device, fatal_line,
}

-- /dev/mem: `open`, `mmap` with an offset and a length, which gives an address or `MAP_FAILED`, and
-- `close`; and anonymous memory.
pub record Mapping (S : Type 0) : Type 0 where
  pub opens : S → Bool × S
  pub maps : ℕ → ℕ → S → Option ℕ × S
  pub closes : S → S
  pub maps_anonymous : ℕ → S → Option ℕ × S

-- The arithmetic of `double` that the program uses; `to_u16` and `to_u32` are the
-- conversions to `uint16_t` and `uint32_t`.
pub record Doubles (R : Type 0) : Type 0 where
  pub literal : ℕ → R
  pub times : R → R → R
  pub over : R → R → R
  pub modf : R → R × R
  pub round : R → R
  pub to_u16 : R → ℕ
  pub to_u32 : R → ℕ

-- What the program runs on: the registers, the delay of the PCM and of the GPIO driver, the two
-- devices, the page size, what `bcm_host` tells, and the fuel for the loops that wait for hardware.
pub record Board (S : Type 0) : Type 0 where
  pub bus : Bus S
  pub pcm_delay : S → S
  pub gpio_delay : S → S
  pub vcio : Vcio S
  pub mapping : Mapping S
  pub page_size : ℕ
  pub peripheral_address : ℕ
  pub peripheral_size : ℕ
  pub sdram_address : ℕ
  pub is_pi4 : Bool
  pub fuel : ℕ

abbrev pub clock_base_offset : ℕ
clock_base_offset = 0x0010_1000

abbrev pub gpio_base_offset : ℕ
gpio_base_offset = 0x0020_0000

abbrev pub dma_base_offset : ℕ
dma_base_offset = 0x7000

abbrev pub pcm_base_offset : ℕ
pcm_base_offset = 0x0020_3000

abbrev pub is_null : ℕ → Bool
is_null pointer = pointer == 0

module _ {S : Type 0} where
  -- The assertions: a base that is not NULL, and a driver that is not initialised.
  abbrev pub init_driver : ℕ → ℕ → Machine S → Program S Unit
  init_driver base current m' m =
      if not (is_null base) && is_null current then (done tt, m') else (asserts, m)

  unfoldable pub bcm283x_clock_init : ℕ → Program S Unit
  bcm283x_clock_init base m =
      init_driver base m.drivers.clock (record m { drivers = record m.drivers { clock = base } }) m

  unfoldable pub bcm283x_gpio_init : ℕ → Program S Unit
  bcm283x_gpio_init base m =
      init_driver base m.drivers.gpio (record m { drivers = record m.drivers { gpio = base } }) m

  unfoldable pub bcm283x_dma_init : ℕ → Program S Unit
  bcm283x_dma_init base m =
      init_driver base m.drivers.dma (record m { drivers = record m.drivers { dma = base } }) m

  unfoldable pub bcm283x_pcm_init : ℕ → Program S Unit
  bcm283x_pcm_init base m =
      init_driver base m.drivers.pcm (record m { drivers = record m.drivers { pcm = base } }) m

  abbrev pub set_raspdif_channel : ℕ → Program S Unit
  set_raspdif_channel channel m =
      (done tt, record m { raspdif = record m.raspdif { dma_channel = channel } })

  abbrev pub set_raspdif_memory : PhysicalMemory → Program S Unit
  set_raspdif_memory memory m =
      (done tt, record m { raspdif = record m.raspdif { memory = memory } })

  abbrev pub set_raspdif_control : ℕ → ℕ → Program S Unit
  set_raspdif_control bus virtual m =
      (done tt, record m { raspdif = record m.raspdif { bus = bus; virtual = virtual } })

  abbrev pub set_blocks : List ControlBlock → Program S Unit
  set_blocks blocks m = (done tt, record m { blocks = blocks })

module _ {S : Type 0} (board : Board S) where
  -- `mmap` gave an address: /dev/mem is closed again.
  abbrev pub close_mapped : Option ℕ × S → Program S ℕ
  close_mapped (none, s) m = (fatal_line >> give 0) (on_device s m)
  close_mapped (some address, s) m = (done address, on_device (board.mapping.closes s) m)

  unfoldable pub memory_map_physical : ℕ → ℕ → Program S ℕ
  memory_map_physical offset length m =
      let (opened, s) = board.mapping.opens m.host.device in
      if opened
      then close_mapped (board.mapping.maps offset length s) (on_device s m)
      else (fatal_line >> give 0) (on_device s m)

  abbrev pub allocated : Option ℕ × S → Program S ℕ
  allocated (none, s) m = (done 0, on_device s m)
  allocated (some address, s) m = (done address, on_device s m)

  unfoldable pub memory_allocate_virtual : ℕ → Program S ℕ
  memory_allocate_virtual length m = allocated (board.mapping.maps_anonymous length m.host.device) m

  -- The static pointer is set by the call, and the drivers get their parts of the mapping.
  abbrev pub init_drivers : ℕ → Program S Unit
  init_drivers base =
      bcm283x_clock_init (base + clock_base_offset)
      >> bcm283x_gpio_init (base + gpio_base_offset)
      >> bcm283x_dma_init (base + dma_base_offset)
      >> bcm283x_pcm_init (base + pcm_base_offset)

  abbrev pub set_mapped : ℕ → Program S Unit
  set_mapped base m = (done tt, record m { drivers = record m.drivers { mapped = base } })

  abbrev pub map_peripherals : Program S Unit
  map_peripherals = memory_map_physical board.peripheral_address board.peripheral_size >>= λ base.
      set_mapped base >> (if is_null base then fatal_line else init_drivers base)

  unfoldable pub bcm283x_init : Program S Unit
  bcm283x_init m = if is_null m.drivers.mapped then map_peripherals m else (done tt, m)

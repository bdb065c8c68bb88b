-- ===== src/Setup/Working.antt =====
-- Hardware and firmware that do what they document, and the first calls of `raspdif_init` on it.
use raspdif.Prelude.{ℕ, ◌+◌, ◌^◌, ◌<◌, ◌≡◌, refl, ◌∙◌, arith, List, ◌∷◌, some, none}
use raspdif.Prelude.{Bool, true, ==-false, ◌≢◌}
use raspdif.Host.{Host}
use raspdif.Log.{log_print-fatal, printed_line}
use raspdif.Mailbox.{allocate_request, one_value_request, lock_memory}
use raspdif.Memory.{PhysicalMemory}
use raspdif.Memory.Firmware.{IsFirmware, Answers, allocate_granted}
use raspdif.ControlBlocks.{control_bytes, generate_dma_control_blocks}
use raspdif.ControlBlocks.Ring.{IsPlaced}
use raspdif.Program.{Drivers, Machine, done, exits, on_device}
use raspdif.Setup.{Board, memory_map_physical, bcm283x_init}
use raspdif.Setup.{bcm283x_clock_init, bcm283x_gpio_init, bcm283x_dma_init, bcm283x_pcm_init}
use raspdif.Setup.{clock_base_offset, gpio_base_offset, dma_base_offset, pcm_base_offset}
use raspdif.Setup.Raspdif.{allocate_control, map_control, physical_base, prepare_control}
use raspdif.Setup.Harmless.{Untouched, Untouched-pcm, ClockIdles, SyncEchoes}
use raspdif.Registers.{get}
use raspdif.Clock.{enab, passwd}

-- The drivers after `bcm283x_init`, and before.
abbrev pub initialised : ℕ → Drivers
initialised peripherals = record {
  mapped = peripherals;
  clock = peripherals + clock_base_offset;
  gpio = peripherals + gpio_base_offset;
  dma = peripherals + dma_base_offset;
  pcm = peripherals + pcm_base_offset;
}

abbrev pub fresh : {S : Type 0} → Machine S → Machine S
fresh m = record m { drivers = record { mapped = 0; clock = 0; gpio = 0; dma = 0; pcm = 0 } }

-- Hardware and firmware that do what they document, where /dev/mem opens and gives the peripherals. `held` are
-- the blocks of memory that are allocated, `peripherals` is the address at which the peripherals are
-- mapped, and `ticking` tells whether the clock of PCM runs: enabling it makes it run, and what is
-- not a write to its control register does not stop it. The busy bit falls after a write that
-- stops the clock, and PCM echoes its SYNC bit while the clock runs.
pub record IsWorking {S : Type 0} (board : Board S) (held : S → List ℕ) (peripherals : ℕ)
    : Type 0 where
  pub firmware : IsFirmware board.vcio held
  pub opens : (s : S) → let r = board.mapping.opens s in (r.0 ≡ true) × (held r.1 ≡ held s)
  pub mapped : 0 < peripherals
  pub maps_peripherals :
      (s : S)
      → let r = board.mapping.maps board.peripheral_address board.peripheral_size s in
        (r.0 ≡ some peripherals) × (held r.1 ≡ held s)
  pub closes : (s : S) → held (board.mapping.closes s) ≡ held s
  pub untouched : Untouched held board.bus board.pcm_delay board.gpio_delay
  pub clock_idles :
      ClockIdles held board untouched board.fuel (peripherals + clock_base_offset + 0x98)
  pub ticking : S → Bool
  pub starts :
      (v : ℕ) (s : S)
      → get enab v ≡ 1
      → get passwd v ≡ 0x5A
      → ticking (board.bus.write (peripherals + clock_base_offset + 0x98) v s) ≡ true
  pub ticks_by_read : (a : ℕ) (s : S) → ticking (board.bus.read a s).1 ≡ ticking s
  pub ticks_by_write :
      (a v : ℕ) (s : S)
      → a ≢ peripherals + clock_base_offset + 0x98
      → ticking (board.bus.write a v s) ≡ ticking s
  pub ticks_by_delay : (s : S) → ticking (board.pcm_delay s) ≡ ticking s
  pub sync_echoes :
      SyncEchoes held board
        (peripherals + pcm_base_offset)
        (Untouched-pcm held board (peripherals + pcm_base_offset) untouched)
        ticking
        board.fuel

-- The firmware has room for one control structure beside the blocks `before`: it grants that block, and
-- locks it at a place that DMA can read.
pub record HasRoom {S : Type 0} (board : Board S) (held : S → List ℕ) (before : List ℕ)
    : Type 0 where
  pub grants :
      (s : S)
      → held s ≡ before
      → let r = board.vcio.ioctl (allocate_request control_bytes board.page_size 20) s in
        (handle : ℕ) × Answers handle r × (handle < 2 ^ 31) × (held r.device ≡ handle ∷ before)
  pub locks :
      (handle : ℕ) (s : S)
      → held s ≡ handle ∷ before
      → (address : ℕ) × Answers address (board.vcio.ioctl (one_value_request lock_memory handle) s)
        × (0 < address)
        × IsPlaced address

-- The control structure is mapped, at an address that is not NULL; or it is not mapped.
module _ {S : Type 0} (board : Board S) (held : S → List ℕ) where
  abbrev pub MapsControl : Type 0
  MapsControl =
      (offset : ℕ) (s : S)
      → let r = board.mapping.maps offset control_bytes s in
        (virtual : ℕ) × (r.0 ≡ some virtual) × (0 < virtual) × (held r.1 ≡ held s)

  abbrev pub RefusesControl : Type 0
  RefusesControl =
      (offset : ℕ) (s : S)
      → let r = board.mapping.maps offset control_bytes s in (r.0 ≡ none) × (held r.1 ≡ held s)

module _ {S : Type 0} (board : Board S) (held : S → List ℕ) (peripherals : ℕ)
    (w : IsWorking board held peripherals) where
  -- A mapping that is granted: the address, and nothing held changes.
  map-done :
      (offset length address : ℕ) (m : Machine S)
      → ((s : S)
          → let r = board.mapping.maps offset length s in
            (r.0 ≡ some address) × (held r.1 ≡ held s))
      → (s : S) × (memory_map_physical board offset length m ≡ (done address, on_device s m))
        × (held s ≡ held m.host.device)
  unfolding memory_map_physical
  map-done offset length address m grants =
      let s1 = (board.mapping.opens m.host.device).1 in
      let s2 = (board.mapping.maps offset length s1).1 in
      (
        board.mapping.closes s2,
        rw ((w.opens m.host.device).0, (grants s1).0) refl,
        w.closes s2 ∙ (grants s1).1 ∙ (w.opens m.host.device).1,
      )

  pub bcm283x_init-done :
      (m : Machine S)
      → (s : S) × (bcm283x_init board (fresh m)
          ≡ (done tt, on_device s (record m { drivers = initialised peripherals })))
        × (held s ≡ held m.host.device)
  unfolding bcm283x_init bcm283x_clock_init bcm283x_gpio_init bcm283x_dma_init bcm283x_pcm_init
  bcm283x_init-done m =
      let (s, e, k) =
        map-done board.peripheral_address board.peripheral_size peripherals (fresh m)
          w.maps_peripherals in
      (
        s,
        rw
            (
              e,
              ==-false peripherals 0 (omega (arith, w.mapped)),
              ==-false (peripherals + clock_base_offset) 0 (omega arith),
              ==-false (peripherals + gpio_base_offset) 0 (omega arith),
              ==-false (peripherals + dma_base_offset) 0 (omega arith),
              ==-false (peripherals + pcm_base_offset) 0 (omega arith),
            )
            refl,
        k,
      )

  -- The memory for the control structure.
  pub allocate_control-done :
      (m : Machine S)
      → HasRoom board held (held m.host.device)
      → (h : Host S) × (memory : PhysicalMemory) × (allocate_control board m
          ≡ (done memory, record m { host = h }))
        × (held h.device ≡ memory.handle ∷ held m.host.device)
        × IsPlaced memory.address
  allocate_control-done m room =
      let (handle, granted, small, more) = room.grants m.host.device refl in
      let d1 =
        (board.vcio.ioctl (allocate_request control_bytes board.page_size 20)
          m.host.device).device in
      let (address, locked, something, placed) = room.locks handle d1 more in
      let memory : PhysicalMemory = record { handle = handle; address = address } in
      let (h2, allocated, kept) =
        allocate_granted board.vcio held w.firmware board.page_size control_bytes handle address
          m.host granted small more locked in
      (h2, memory, rw (allocated, ==-false address 0 (omega (arith, something))) refl, kept, placed)

  module _ (maps : MapsControl board held) where
    map_control-done :
        (memory : PhysicalMemory) (m : Machine S)
        → (s : S) × (virtual : ℕ) × (map_control board memory m ≡ (done virtual, on_device s m))
          × (held s ≡ held m.host.device)
    unfolding memory_map_physical
    map_control-done memory m =
        let (opened, k1) = w.opens m.host.device in
        let s1 = (board.mapping.opens m.host.device).1 in
        let (virtual, e, something, k2) = maps (physical_base board memory.address) s1 in
        let s2 = (board.mapping.maps (physical_base board memory.address) control_bytes s1).1 in
        (
          board.mapping.closes s2,
          virtual,
          rw (opened, e, ==-false virtual 0 (omega (arith, something))) refl,
          w.closes s2 ∙ k2 ∙ k1,
        )

    -- The memory and the control blocks.
    pub prepare_control-done :
        (m : Machine S)
        → HasRoom board held (held m.host.device)
        → (h : Host S) × (memory : PhysicalMemory) × (virtual : ℕ) × (prepare_control board m ≡ (
          done tt,
          record m {
            host = h;
            raspdif = record m.raspdif { memory = memory; bus = memory.address; virtual = virtual };
            blocks = generate_dma_control_blocks memory.address;
          },
        ))
          × (held h.device ≡ memory.handle ∷ held m.host.device)
          × IsPlaced memory.address
    prepare_control-done m room =
        let (h, memory, allocated, kept, placed) = allocate_control-done m room in
        let m1 : Machine S = record m {
          host = h;
          raspdif = record m.raspdif { memory = memory };
        } in
        let (s, virtual, mapped, same) = map_control-done memory m1 in
        (record h { device = s }, memory, virtual, rw (allocated, mapped) refl, same ∙ kept, placed)

  module _ (refuses : RefusesControl board held) where
    -- The program exits with the memory still held.
    pub prepare_control-exits :
        (m : Machine S)
        → HasRoom board held (held m.host.device)
        → (handle : ℕ) × (m' : Machine S) × (prepare_control board m ≡ (exits, m'))
          × (held m'.host.device ≡ handle ∷ held m.host.device)
    unfolding memory_map_physical
    prepare_control-exits m room =
        let (h, memory, allocated, kept, placed) = allocate_control-done m room in
        let (opened, k1) = w.opens h.device in
        let s1 = (board.mapping.opens h.device).1 in
        let (e, k2) = refuses (physical_base board memory.address) s1 in
        let s2 = (board.mapping.maps (physical_base board memory.address) control_bytes s1).1 in
        let m1 : Machine S = record m {
          host = record h { device = s2 };
          raspdif = record m.raspdif { memory = memory };
        } in
        (
          memory.handle,
          record m1 { logger = (printed_line m.logger).1 },
          rw (allocated, opened, e, log_print-fatal m.logger) refl,
          k2 ∙ k1 ∙ kept,
        )

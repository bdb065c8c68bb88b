-- ===== src/Examples/Machines.antt =====
-- Initialisation and shutdown on the small machine.
use raspdif.Prelude.{ℕ, ◌+◌, ◌*◌, ◌/◌, ◌%◌, ◌^◌, ◌≡◌, refl, arith, true, false}
use raspdif.Prelude.{[], ◌∷◌}
use raspdif.Registers.{returned}
use raspdif.Dma.{bcm283x_dma_active}
use raspdif.Memory.{memory_release_physical}
use raspdif.Log.{start_logger}
use raspdif.ControlBlocks.{generate_dma_control_blocks}
use raspdif.Program.{Machine, done, exits}
use raspdif.Setup.{Doubles}
use raspdif.Setup.Raspdif.{raspdif_init, raspdif_shutdown, clock_divisor}
use raspdif.Setup.Working.{MapsControl, RefusesControl, initialised}
use raspdif.Setup.Calls.{Initialised}
use raspdif.Setup.Lifecycle.{map_failure_holds}
use raspdif.Setup.Shutdown.{raspdif_shutdown-releases}
use raspdif.Examples.Blocks.{bus_base-IsPlaced}
use raspdif.Examples.Board.{
  Device, device_blocks, device_bus, device_vcio, board, board-IsWorking, board-HasRoom,
}

-- Numbers with 20 binary digits after the point.
abbrev pub fixed : Doubles ℕ
fixed = record {
  literal = λ n. n * 2 ^ 20;
  times = λ a b. a * b / 2 ^ 20;
  over = λ a b. a * 2 ^ 20 / b;
  modf = λ a. (a / 2 ^ 20 * 2 ^ 20, a % 2 ^ 20);
  round = λ a. (a + 2 ^ 19) / 2 ^ 20 * 2 ^ 20;
  to_u16 = λ a. a / 2 ^ 20 % 2 ^ 16;
  to_u32 = λ a. a / 2 ^ 20 % 2 ^ 32;
}

-- 44.1 kHz
abbrev pub rate : ℕ
rate = 44100 * 2 ^ 20

pub divisor :
    let (divi, divf) = clock_divisor (board true) fixed rate in (divi ≡ 88) × (divf ≡ 2364)
unfolding clock_divisor
divisor = (refl, refl)

pub control_maps : MapsControl (board true) device_blocks
control_maps = λ offset d. (0x7000_0000, refl, omega arith, refl)

control_refused : RefusesControl (board false) device_blocks
control_refused = λ offset d. (refl, refl)

-- The block 5 is not the program's.
abbrev pub machine : Machine Device
machine = record {
  host = record {
    device = record {
      blocks = 5 ∷ [];
      clock = false;
      control = 0;
      status = 0;
      pending = 7000;
      steps = 0;
    };
    sent = [];
  };
  logger = start_logger;
  drivers = record { mapped = 0; clock = 0; gpio = 0; dma = 0; pcm = 0 };
  raspdif = record {
    memory = record { handle = 0; address = 0 };
    dma_channel = 0;
    bus = 0;
    virtual = 0;
  };
  blocks = [];
  handled = [];
}

map_failure_holds_example :
    (handle : ℕ) × (m' : Machine Device) × (raspdif_init (board false) fixed 13 rate machine
      ≡ (exits, m'))
    × (m'.host.device.blocks ≡ handle ∷ 5 ∷ [])
map_failure_holds_example =
    map_failure_holds (board false) device_blocks 0x6000_0000 (board-IsWorking false) fixed rate 13
      machine (board-HasRoom false _) control_refused

abbrev pub playing : Machine Device
playing = record machine {
  host = record {
    device = record {
      blocks = 7 ∷ 5 ∷ [];
      clock = true;
      control = 0x200_0007;
      status = 1;
      pending = 7000;
      steps = 0;
    };
    sent = [];
  };
  drivers = initialised 0x6000_0000;
  raspdif = record {
    memory = record { handle = 7; address = 0xC000_0000 };
    dma_channel = 13;
    bus = 0xC000_0000;
    virtual = 0x7000_0000;
  };
  blocks = generate_dma_control_blocks 0xC000_0000;
}

pub playing-Initialised :
    Initialised (board true) device_blocks 0x6000_0000 (board-IsWorking true) 13 (5 ∷ []) playing
playing-Initialised = record {
  dma_channel = refl;
  bus = refl;
  placed = bus_base-IsPlaced;
  ring = refl;
  memory = refl;
  drivers = refl;
}

raspdif_shutdown-releases_example :
    (s : Device) × (s' : Device) × (let (result, h) =
        memory_release_physical device_vcio playing.raspdif.memory
          (record playing.host { device = s }) in
      (raspdif_shutdown (board true) playing ≡ (done tt, record playing { host = h }))
      × (h.device.blocks ≡ 5 ∷ []))
    × (bcm283x_dma_active device_bus 0x6000_7000 13 s ≡ returned (false, s'))
raspdif_shutdown-releases_example =
    raspdif_shutdown-releases (board true) device_blocks 0x6000_0000 (board-IsWorking true) 13
      (omega arith) (5 ∷ []) playing playing-Initialised (λ v d off. off)

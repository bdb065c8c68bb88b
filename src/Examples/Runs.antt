-- ===== src/Examples/Runs.antt =====
-- `main` and its loops on the small machine.
use raspdif.Prelude.{ℕ, ◌+◌, ◌*◌, ◌^◌, ◌<◌, ◌≡◌, refl, sym, ap, arith}
use raspdif.Prelude.{true, false, List, [], ◌∷◌, none}
use mathlib.Core.Path.{subst}
use raspdif.Host.{ok}
use raspdif.Log.{log_set_level, log_print, LogLevel, debug}
use raspdif.Registers.{get}
use raspdif.Dma.{active}
use raspdif.Samples.{s24le}
use raspdif.Arguments.{
  choose_channel, Call, Key, Parsing, read_arguments, parse_calls, parse_opt, parse_format,
  default_arguments, text_s24le,
}
use raspdif.Play.Start.{start_player}
use raspdif.Program.{Machine, exits}
use raspdif.Setup.Raspdif.{clock_divisor}
use raspdif.Setup.Calls.{Initialised}
use raspdif.Live.{live_play}
use raspdif.Live.Yields.{Yields}
use raspdif.Live.Device.{IsDriven}
use raspdif.Live.Follows.{PlaysSo, live_play-Plays}
use raspdif.Main.{raspdif_main, signal_handler}
use raspdif.Live.Safety.{IsSafe, live_play-IsSafe}
use raspdif.Program.{asserts}
use raspdif.Main.Lifecycle.{Pauses, open_failure_holds}
use raspdif.Main.Signals.{
  Reaches, begins, reads, freads, logs, signal-releases, bad_rate_releases, early_signal_asserts,
}
use raspdif.Examples.Board.{
  channel_registers, Device, device_bus, device_blocks, board, conblk_register,
}
use raspdif.Examples.Machines.{fixed, rate, machine, playing}
use raspdif.Examples.Board.{board-IsWorking, board-HasRoom}
use raspdif.Examples.Machines.{divisor, control_maps, playing-Initialised}
use raspdif.Examples.Files.{calls, calls-IsKept, file_config}

playing-IsDriven : IsDriven playing
playing-IsDriven = record { dma = omega arith; channel = omega arith }

live_play-Plays_example :
    Yields device_blocks playing
      (live_play (board true) (calls true) file_config 46439 10 7000 start_player)
      playing.host.device
      (PlaysSo
        (board true)
        (calls true)
        device_blocks
        playing
        (board-IsWorking true).untouched
        playing-IsDriven
        (calls-IsKept true)
        file_config
        46439
        (omega arith)
        start_player
        playing.host.device)
live_play-Plays_example =
    live_play-Plays (board true) (calls true) device_blocks playing (board-IsWorking true).untouched
      playing-IsDriven (calls-IsKept true) file_config 46439 (omega arith) 10 7000 start_player
      playing.host.device

live_play-IsSafe_example :
    Yields device_blocks playing
      (live_play (board true) (calls true) file_config 46439 10 7000 start_player)
      playing.host.device
      (λ r _. IsSafe 0xC000_0000 r.player)
live_play-IsSafe_example =
    live_play-IsSafe (board true) (calls true) device_blocks playing
      (board-IsWorking true).untouched playing-IsDriven (calls-IsKept true) file_config 46439
      (omega arith) 10 7000 playing.host.device

-- `-f s24le -v`
abbrev line : List Call
line =
    record { key = Key.format_key; argument = text_s24le }
    ∷ record { key = Key.verbose_key; argument = [] }
    ∷ []

abbrev parsing : ℕ → Parsing ℕ
parsing sample_rate = record {
  arguments = record {
    file = none;
    verbose = true;
    keep_alive = true;
    pcm_disable = false;
    sample_rate = sample_rate;
    format = s24le;
  };
  logger = log_set_level debug machine.logger;
}

line-parsed :
    (default_rate : ℕ)
    → read_arguments (λ text. 0) default_rate line machine.logger ≡ (ok tt, parsing default_rate)
unfolding read_arguments parse_calls parse_opt parse_format default_arguments
line-parsed default_rate = refl

in_range :
    let (divi, divf) = clock_divisor (board true) fixed rate in
    (0 < divi) × (divi < 4096) × (divf < 4096)
in_range = (omega (arith, divisor.0), omega (arith, divisor.0), omega (arith, divisor.1))

active_at :
    (cs v : ℕ) (t : Device)
    → cs ≡ channel_registers
    → get active v ≡ 0
    → get active (device_bus.read cs (device_bus.write cs v t)).0 ≡ 0
active_at cs v t here =
    subst (λ a. get active v ≡ 0 → get active (device_bus.read a (device_bus.write a v t)).0 ≡ 0)
      (sym here) (λ off. off)

pauses :
    (before : List ℕ) (m : Machine Device)
    → Initialised (board true) device_blocks 0x6000_0000 (board-IsWorking true) 13 before m
    → Pauses (board true) m
pauses before m ready v t off =
    let here : m.drivers.dma + m.raspdif.dma_channel * 256 ≡ channel_registers =
      omega (arith, ap (λ d. d.dma) ready.drivers, ready.dma_channel) in
    active_at _ v t here off

open_failure_holds_example :
    (handle : ℕ) × (m' : Machine Device) × (raspdif_main
        (board true)
        fixed
        (calls false)
        (λ text. 0)
        rate
        line
        1
        1
        machine
      ≡ (exits, m'))
    × (m'.host.device.blocks ≡ handle ∷ 5 ∷ [])
open_failure_holds_example =
    open_failure_holds (board true) device_blocks 0x6000_0000 (board-IsWorking true) fixed
      (calls false) (λ text. 0) rate line (parsing rate) machine (line-parsed rate) in_range
      control_maps (board-HasRoom true _) (λ d. (refl, refl)) 1 1

-- A register is read, a line is logged, and a pair is read.
abbrev on_the_way : Machine Device
on_the_way = record playing {
  host = record playing.host { device = record playing.host.device { pending = 6999 } };
  logger = (log_print LogLevel.debug playing.logger).1;
}

way : Reaches (board true) (calls true) playing on_the_way
way = freads (logs (reads begins conblk_register) debug) 2

signal-releases_example :
    (m' : Machine Device) × (signal_handler (board true) on_the_way ≡ (exits, m'))
    × (m'.host.device.blocks ≡ 5 ∷ [])
signal-releases_example =
    signal-releases (board true) device_blocks 0x6000_0000 (board-IsWorking true) (calls true)
      (calls-IsKept true) 13 (omega arith) (5 ∷ []) playing on_the_way playing-Initialised
      (λ v d off. off) way

-- 100 Hz
abbrev slow : ℕ
slow = 100 * 2 ^ 20

slow_divisor : (clock_divisor (board true) fixed slow).0 ≡ 39062
unfolding clock_divisor
slow_divisor = refl

bad_rate_releases_example :
    (m' : Machine Device) × (raspdif_main
        (board true)
        fixed
        (calls true)
        (λ text. 0)
        slow
        line
        1
        1
        machine
      ≡ (exits, m'))
    × (m'.host.device.blocks ≡ 5 ∷ [])
unfolding choose_channel
bad_rate_releases_example =
    bad_rate_releases (board true) device_blocks 0x6000_0000 (board-IsWorking true) fixed
      (calls true) (λ text. 0) slow line (parsing slow) machine (line-parsed slow)
      (λ h. absurd (omega (arith, h.1, slow_divisor))) control_maps (board-HasRoom true _)
      (λ n ready. pauses _ n ready) 1 1

early_signal_asserts_example :
    (m' : Machine Device) × (signal_handler (board true) machine ≡ (asserts, m'))
    × (m'.host.device ≡ machine.host.device)
early_signal_asserts_example = early_signal_asserts (board true) machine

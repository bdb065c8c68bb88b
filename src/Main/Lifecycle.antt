-- ===== src/Main/Lifecycle.antt =====
-- `main` on hardware and firmware that do what they document, from the arguments to the shutdown.
use raspdif.Prelude.{ℕ, ◌<◌, ◌≡◌, refl, ap, ◌∙◌, arith, Bool, true, false, List, ◌∷◌}
use raspdif.Host.{Host, ok}
use raspdif.Log.{log_print-fatal, printed_line}
use raspdif.Registers.{get}
use raspdif.Dma.{active, dma_channel_max}
use raspdif.Arguments.{Text, Call, Arguments, Parsing, read_arguments, choose_channel}
use raspdif.Program.{Machine, exits, on_device}
use raspdif.Setup.{Board, Doubles}
use raspdif.Setup.Raspdif.{clock_divisor}
use raspdif.Setup.Working.{IsWorking, HasRoom, MapsControl, fresh}
use raspdif.Setup.Calls.{Initialised}
use raspdif.Setup.Lifecycle.{raspdif_init-Initialised}
use raspdif.Live.{Calls}
use raspdif.Live.Device.{IsDriven, channel_registers}
use raspdif.Main.{raspdif_main, run, register_signal_handler, all_signals, buffer_delay}

-- The channel's ACTIVE bit is read as 0 after it was written as 0.
abbrev pub Pauses : {S : Type 0} → Board S → Machine S → Type 0
Pauses {S} board m =
    (v : ℕ) (t : S)
    → let cs = channel_registers m in
      get active v ≡ 0 → get active (board.bus.read cs (board.bus.write cs v t)).0 ≡ 0

pub choose_channel-lt : (is_pi4 : Bool) → choose_channel is_pi4 < dma_channel_max
unfolding choose_channel
choose_channel-lt true = omega arith
choose_channel-lt false = omega arith

module _ {S : Type 0} (board : Board S) (held : S → List ℕ) (peripherals : ℕ)
    (w : IsWorking board held peripherals) where
  pub Initialised-IsDriven :
      {channel : ℕ} {before : List ℕ} {m : Machine S}
      → channel < dma_channel_max
      → Initialised board held peripherals w channel before m
      → IsDriven m
  Initialised-IsDriven h ready = record {
    dma = omega (arith, ap (λ d. d.dma) ready.drivers);
    channel = omega (arith, ready.dma_channel, h);
  }

  -- What was initialised stays so while the device holds the memory.
  pub Initialised-on_device :
      {channel : ℕ} {before : List ℕ} {m : Machine S} (s : S)
      → Initialised board held peripherals w channel before m
      → held s ≡ held m.host.device
      → Initialised board held peripherals w channel before (on_device s m)
  Initialised-on_device s ready same = record {
    dma_channel = ready.dma_channel;
    bus = ready.bus;
    placed = ready.placed;
    ring = ready.ring;
    memory = same ∙ ready.memory;
    drivers = ready.drivers;
  }

  module _ {R : Type 0} (doubles : Doubles R) (calls : Calls S) (strtod : Text → R)
      (default_rate : R) (line : List Call) (parsing : Parsing R) (m : Machine S)
      (parsed : read_arguments strtod default_rate line m.logger ≡ (ok tt, parsing))
      (divisor : let (divi, divf) = clock_divisor board doubles parsing.arguments.sample_rate in
        (0 < divi) × (divi < 4096) × (divf < 4096))
      (maps : MapsControl board held) (room : HasRoom board held (held m.host.device)) where
    abbrev arguments : Arguments R
    arguments = parsing.arguments

    abbrev channel : ℕ
    channel = choose_channel board.is_pi4

    abbrev delay : ℕ
    delay = buffer_delay board doubles calls arguments.sample_rate

    abbrev start : Machine S
    start = record m { logger = parsing.logger; handled = all_signals }

    -- On hardware and firmware that do what they document, where /dev/mem opens and maps the
    -- peripherals, with room for the control structure, which is mapped, where no driver is
    -- initialised, with arguments that are accepted, a rate whose divisor is in range and a
    -- file that does not open: main exits, and the block of memory that it was granted is still
    -- held.
    pub open_failure_holds :
        ((s : S) → let r = calls.opens arguments.file s in (r.0 ≡ false) × (held r.1 ≡ held s))
        → (fuel rounds : ℕ)
        → (handle : ℕ) × (m' : Machine S) × (raspdif_main board doubles calls strtod default_rate
              line fuel rounds
              (fresh m)
            ≡ (exits, m'))
          × (held m'.host.device ≡ handle ∷ held m.host.device)
    unfolding raspdif_main run register_signal_handler
    open_failure_holds refused fuel rounds =
        let (m1, started, ready) =
          raspdif_init-Initialised board held peripherals w doubles arguments.sample_rate channel
            (choose_channel-lt board.is_pi4) divisor maps start room in
        let (no_file, same) = refused m1.host.device in
        let m2 : Machine S = on_device (calls.opens arguments.file m1.host.device).1 m1 in
        (
          m1.raspdif.memory.handle,
          record m2 { logger = (printed_line m2.logger).1 },
          rw (parsed, started, no_file, log_print-fatal m1.logger) refl,
          same ∙ ready.memory,
        )

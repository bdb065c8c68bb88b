-- ===== src/Main/Signals.antt =====
-- The signal handler of source/main.c on hardware and firmware that do what they document: a signal while `main` plays, and
-- the signal that a failed assertion raises.
use raspdif.Prelude.{ℕ, ◌<◌, ◌≡◌, refl, ap, arith, inl, inr, List, ◌∷◌}
use raspdif.Prelude.{true, ◌&&◌, Bool-cases, ltb, ==-false, if◌then◌else◌}
use raspdif.Host.{Outcome, Host, ok}
use raspdif.Log.{LogLevel, Logger, level_code, log_print}
use raspdif.Memory.{memory_release_physical}
use raspdif.Registers.{aborted}
use raspdif.Clock.{ClockPeripheral, bcm283x_clock_configure}
use raspdif.Dma.{dma_channel_max}
use raspdif.Arguments.{Text, Call, Parsing, read_arguments, choose_channel}
use raspdif.Program.{Machine, exits, asserts, on_device}
use raspdif.Setup.{Board, Doubles}
use raspdif.Setup.Raspdif.{raspdif_init, raspdif_shutdown, clock_divisor, clock_config}
use raspdif.Setup.Working.{IsWorking, HasRoom, MapsControl, fresh}
use raspdif.Setup.Calls.{Initialised}
use raspdif.Setup.Lifecycle.{prepare-Initialised}
use raspdif.Setup.Shutdown.{raspdif_shutdown-releases}
use raspdif.Live.{Calls}
use raspdif.Live.Device.{IsKept}
use raspdif.Main.{raspdif_main, run, register_signal_handler, signal_handler, all_signals}
use raspdif.Main.Lifecycle.{Pauses, Initialised-on_device, choose_channel-lt}

module _ {S : Type 0} (board : Board S) (calls : Calls S) where
  -- The machines on the way of `main` while it plays: what its loops and the drivers that they call do
  -- to the machine is to read and write registers, to call the system and to write lines to the log. A signal
  -- may come after any of it.
  pub data Reaches (m : Machine S) : Machine S → Type 0 where
    begins : Reaches m m
    reads :
        {n : Machine S}
        → Reaches m n
        → (a : ℕ) → Reaches m (on_device (board.bus.read a n.host.device).1 n)
    writes :
        {n : Machine S}
        → Reaches m n
        → (a v : ℕ) → Reaches m (on_device (board.bus.write a v n.host.device) n)
    freads :
        {n : Machine S}
        → Reaches m n
        → (size : ℕ) → Reaches m (on_device (calls.reads size n.host.device).1 n)
    unblocks :
        {n : Machine S} → Reaches m n → Reaches m (on_device (calls.unblocks n.host.device) n)
    waits : {n : Machine S} → Reaches m n → Reaches m (on_device (calls.waits n.host.device) n)
    sleeps :
        {n : Machine S}
        → Reaches m n
        → (time : ℕ) → Reaches m (on_device (calls.sleeps time n.host.device) n)
    logs :
        {n : Machine S}
        → Reaches m n
        → (level : LogLevel) → Reaches m (record n { logger = (log_print level n.logger).1 })

warn_line : (l : Logger) → (log_print LogLevel.warn l).0 ≡ ok tt
unfolding log_print
warn_line l = go l.min_level
  where
    go :
        (m : LogLevel)
        → (if◌then◌else◌ {A = Outcome Unit × Logger}
            (ltb 2 (level_code m))
            (ok tt, l)
            (ok tt, record l { lines = LogLevel.warn ∷ l.lines })).0
          ≡ ok tt
    go LogLevel.debug = refl
    go LogLevel.info = refl
    go LogLevel.warn = refl
    go LogLevel.error = refl
    go LogLevel.fatal = refl

module _ {S : Type 0} (board : Board S) where
  -- Whatever the machine is, before the drivers are initialised a signal does not end the program by `exit`: the
  -- assertion of `bcm283x_pcm_reset` fails in the handler, and the device is left as it was.
  pub early_signal_asserts :
      (m : Machine S)
      → (m' : Machine S) × (signal_handler board (fresh m) ≡ (asserts, m'))
        × (m'.host.device ≡ m.host.device)
  unfolding signal_handler raspdif_shutdown
  early_signal_asserts m = (
    record (fresh m) { logger = (log_print LogLevel.warn m.logger).1 },
    rw (warn_line m.logger) refl,
    refl,
  )

module _ {S : Type 0} (board : Board S) (held : S → List ℕ) (peripherals : ℕ)
    (w : IsWorking board held peripherals) where
  module _ (calls : Calls S) (kept : IsKept calls held) where
    Initialised-Reaches :
        {channel : ℕ} {others : List ℕ} {m n : Machine S}
        → Initialised board held peripherals w channel others m
        → Reaches board calls m n
        → Initialised board held peripherals w channel others n
    Initialised-Reaches ready begins = ready
    Initialised-Reaches ready (reads before a) =
        Initialised-on_device board held peripherals w _ (Initialised-Reaches ready before)
          (w.untouched.by_read a _)
    Initialised-Reaches ready (writes before a v) =
        Initialised-on_device board held peripherals w _ (Initialised-Reaches ready before)
          (w.untouched.by_write a v _)
    Initialised-Reaches ready (freads before size) =
        Initialised-on_device board held peripherals w _ (Initialised-Reaches ready before)
          (kept.reads size _)
    Initialised-Reaches ready (unblocks before) =
        Initialised-on_device board held peripherals w _ (Initialised-Reaches ready before)
          (kept.unblocks _)
    Initialised-Reaches ready (waits before) =
        Initialised-on_device board held peripherals w _ (Initialised-Reaches ready before)
          (kept.waits _)
    Initialised-Reaches ready (sleeps before time) =
        Initialised-on_device board held peripherals w _ (Initialised-Reaches ready before)
          (kept.sleeps time _)
    Initialised-Reaches ready (logs before level) =
        let here = Initialised-Reaches ready before in
        record {
          dma_channel = here.dma_channel;
          bus = here.bus;
          placed = here.placed;
          ring = here.ring;
          memory = here.memory;
          drivers = here.drivers;
        }

  -- The handler ends the program, with the memory released.
  pub handler-releases :
      {channel : ℕ} {before : List ℕ} {m : Machine S}
      → channel < dma_channel_max
      → Initialised board held peripherals w channel before m
      → Pauses board m
      → (m' : Machine S) × (signal_handler board m ≡ (exits, m')) × (held m'.host.device ≡ before)
  unfolding signal_handler
  handler-releases {m = m} in_range ready active =
      let warned : Machine S = record m { logger = (log_print LogLevel.warn m.logger).1 } in
      let ready' : Initialised board held peripherals w _ _ warned = record {
        dma_channel = ready.dma_channel;
        bus = ready.bus;
        placed = ready.placed;
        ring = ready.ring;
        memory = ready.memory;
        drivers = ready.drivers;
      } in
      let (s, s', ended, inactive) =
        raspdif_shutdown-releases board held peripherals w _ in_range _ warned ready' active in
      let released : Outcome ℕ × Host S =
        memory_release_physical board.vcio m.raspdif.memory (record m.host { device = s }) in
      (record warned { host = released.1 }, rw (warn_line m.logger, ended.0) refl, ended.1)

  -- On hardware and firmware that do what they document, where /dev/mem opens and maps the
  -- peripherals, when the program has been initialised on a channel up to 14: after any
  -- sequence of register accesses, calls of the system and lines of the log, a signal ends the
  -- program by exit, with the block of memory released, if then ACTIVE bits are read as 0 after
  -- they were written as 0.
  pub signal-releases :
      (calls : Calls S)
      → IsKept calls held
      → (channel : ℕ) → channel < dma_channel_max
      → (others : List ℕ) (m n : Machine S) → Initialised board held peripherals w channel others m
      → Pauses board n
      → Reaches board calls m n
      → (m' : Machine S) × (signal_handler board n ≡ (exits, m')) × (held m'.host.device ≡ others)
  signal-releases calls kept channel in_range others m n ready active before =
      handler-releases in_range (Initialised-Reaches calls kept ready before) active

  inside :
      (a b : ℕ) → (ltb 0 a && ltb a 4096 && ltb b 4096) ≡ true → (0 < a) × (a < 4096) × (b < 4096)
  inside a b h = (ground arith, ground arith, ground arith)

  out_of_range :
      {R : Type 0} (doubles : Doubles R) (rate : R) (base : ℕ) (s : S)
      → (let (divi, divf) = clock_divisor board doubles rate in
          (0 < divi) × (divi < 4096) × (divf < 4096) → ⊥)
      → bcm283x_clock_configure board.bus base board.fuel ClockPeripheral.pcm
          (clock_config board doubles rate)
          s
        ≡ aborted
  unfolding bcm283x_clock_configure
  out_of_range doubles rate base s outside =
      let (divi, divf) = clock_divisor board doubles rate in
      elim (Bool-cases (ltb 0 divi && ltb divi 4096 && ltb divf 4096)) [
        | inl holds ↦ absurd (outside (inside divi divf holds))
        | inr fails ↦ rw fails refl
      ]

  -- On hardware and firmware that do what they document, where /dev/mem opens and maps the
  -- peripherals, with room for the control structure, which is mapped, where no driver is
  -- initialised, with arguments that are accepted and a rate whose divisor is not in the range
  -- that the clock driver asserts: the assertion's signal runs the handler, and the program
  -- exits with the block of memory released, if after the initialisation ACTIVE bits are read
  -- as 0 after they were written as 0.
  pub bad_rate_releases :
      {R : Type 0} (doubles : Doubles R) (calls : Calls S) (strtod : Text → R) (default_rate : R)
      (line : List Call) (parsing : Parsing R) (m : Machine S)
      → read_arguments strtod default_rate line m.logger ≡ (ok tt, parsing)
      → (let (divi, divf) = clock_divisor board doubles parsing.arguments.sample_rate in
          (0 < divi) × (divi < 4096) × (divf < 4096) → ⊥)
      → MapsControl board held
      → HasRoom board held (held m.host.device)
      → ((n : Machine S)
          → Initialised board held peripherals w
              (choose_channel board.is_pi4)
              (held m.host.device)
              n
          → Pauses board n)
      → (fuel rounds : ℕ)
      → (m' : Machine S) × (raspdif_main board doubles calls strtod default_rate line fuel rounds
            (fresh m)
          ≡ (exits, m'))
        × (held m'.host.device ≡ held m.host.device)
  unfolding raspdif_main run register_signal_handler raspdif_init
  bad_rate_releases doubles calls strtod default_rate line parsing m parsed outside maps room active
        fuel rounds =
      let rate = parsing.arguments.sample_rate in
      let start : Machine S = record m { logger = parsing.logger; handled = all_signals } in
      let in_range = choose_channel-lt board.is_pi4 in
      let (n, prepared, ready, handlers) =
        prepare-Initialised board held peripherals w doubles rate (choose_channel board.is_pi4)
          in_range maps start room in
      let (m', ended, left) = handler-releases in_range ready (active n ready) in
      let has_clock = ==-false n.drivers.clock 0 (omega (arith, ap (λ d. d.clock) ready.drivers)) in
      (
        m',
        rw
            (
              parsed,
              prepared,
              has_clock,
              out_of_range doubles rate n.drivers.clock n.host.device outside,
              handlers,
            )
            ended,
        left,
      )

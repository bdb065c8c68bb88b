-- ===== src/Program.antt =====
-- The program as a whole: the state of the machine and of the static variables, and how a call ends.
use raspdif.Prelude.{ℕ, ◌==◌, if◌then◌else◌, List}
use raspdif.Host.{Outcome, Action, Host, ok, exited}
use raspdif.Log.{LogLevel, Logger, log_print}
use raspdif.Registers.{Driven, returned, aborted, looping}
use raspdif.Memory.{PhysicalMemory}
use raspdif.ControlBlocks.{ControlBlock}

-- The static pointers of the drivers and of `bcm283x_init`; 0 is NULL.
pub record Drivers : Type 0 where
  pub mapped : ℕ
  pub clock : ℕ
  pub gpio : ℕ
  pub dma : ℕ
  pub pcm : ℕ

-- The static structure `raspdif` of source/main.c.
pub record Raspdif : Type 0 where
  pub memory : PhysicalMemory
  pub dma_channel : ℕ
  pub bus : ℕ
  pub virtual : ℕ

-- The signals that source/main.c gives a handler to.
pub data Signal : Type 0 where
  sighup sigint sigquit sigill sigabrt sigfpe sigsegv sigpipe sigalrm sigterm sigbus : Signal

-- `blocks` are the control blocks that lie at `virtual`, `handled` the signals that have the handler.
pub record Machine (S : Type 0) : Type 0 where
  pub host : Host S
  pub logger : Logger
  pub drivers : Drivers
  pub raspdif : Raspdif
  pub blocks : List ControlBlock
  pub handled : List Signal

-- A call is done, or the program exits, an assertion stops it, or it is still in a loop.
pub data Ended (A : Type 0) : Type 0 where
  done : A → Ended A
  exits : Ended A
  asserts : Ended A
  hangs : Ended A

abbrev pub Program : Type 0 → Type 0 → Type 0
Program S A = Machine S → Ended A × Machine S

abbrev pub end_of : {A : Type 0} → Outcome A → Ended A
end_of (ok a) = done a
end_of exited = exits

module _ {S : Type 0} where
  abbrev pub give : {A : Type 0} → A → Program S A
  give a m = (done a, m)

  abbrev pub then_do :
      {A B : Type 0} → Ended A × Machine S → (A → Program S B) → Ended B × Machine S
  then_do (done a, m) f = f a m
  then_do (exits, m) f = (exits, m)
  then_do (asserts, m) f = (asserts, m)
  then_do (hangs, m) f = (hangs, m)

  infixl 5 ◌>>=◌
  abbrev pub ◌>>=◌ : {A B : Type 0} → Program S A → (A → Program S B) → Program S B
  (p >>= f) m = then_do (p m) f

  -- `f` after `p`, whose result is not used.
  infixl 5 ◌>>◌
  abbrev pub ◌>>◌ : {A B : Type 0} → Program S A → Program S B → Program S B
  (p >> q) m = then_do (p m) (λ _. q)

  -- A call that messages the firmware.
  abbrev pub firmware : {A : Type 0} → Action S A → Program S A
  firmware act m = let (r, h) = act m.host in (end_of r, record m { host = h })

  abbrev pub on_device : S → Machine S → Machine S
  on_device s m = record m { host = record m.host { device = s } }

  abbrev pub driven : Driven S → Machine S → Ended Unit × Machine S
  driven (returned s) m = (done tt, on_device s m)
  driven aborted m = (asserts, m)
  driven looping m = (hangs, m)

  -- A call of a driver, which asserts that it was initialised with the address of its registers.
  abbrev pub driver : (Drivers → ℕ) → (ℕ → S → Driven S) → Program S Unit
  driver base f m =
      if base m.drivers == 0 then (asserts, m) else driven (f (base m.drivers) m.host.device) m

  -- A call of a driver that does not assert it.
  abbrev pub unchecked_driver : (Drivers → ℕ) → (ℕ → S → Driven S) → Program S Unit
  unchecked_driver base f m = driven (f (base m.drivers) m.host.device) m

  abbrev pub queried : {A : Type 0} → Driven (A × S) → Machine S → Ended A × Machine S
  queried (returned (a, s)) m = (done a, on_device s m)
  queried aborted m = (asserts, m)
  queried looping m = (hangs, m)

  -- A call of a driver that has a result.
  abbrev pub query : {A : Type 0} → (Drivers → ℕ) → (ℕ → S → Driven (A × S)) → Program S A
  query base f m =
      if base m.drivers == 0 then (asserts, m) else queried (f (base m.drivers) m.host.device) m

  -- A call of the system, which always returns.
  abbrev pub system_call : (S → S) → Program S Unit
  system_call f m = (done tt, on_device (f m.host.device) m)

  abbrev pub system_query : {A : Type 0} → (S → A × S) → Program S A
  system_query f m = let (a, s) = f m.host.device in (done a, on_device s m)

  -- A line of the log.
  abbrev pub log_line : LogLevel → Program S Unit
  log_line level m = let (r, l) = log_print level m.logger in (end_of r, record m { logger = l })

  -- `LOGF`: what follows it is reached if `log_print` returns.
  abbrev pub fatal_line : Program S Unit
  fatal_line = log_line LogLevel.fatal

-- ===== src/Gpio/Spec.antt =====
-- What a configuration is to do to the pins, independently of the driver's steps.
use raspdif.Prelude.{
  ℕ, ◌+◌, ◌*◌, ◌/◌, ◌<◌, ◌≡◌, Bool, true, false, ◌==◌, if◌then◌else◌, List, [], ◌∷◌,
}
use raspdif.Bits.{bit_of}
use raspdif.Registers.{Bus, get}
use raspdif.Gpio.{EventDetect, GpioConfiguration, function_code, fsel}
use raspdif.Gpio.{gpren, gpfen, gphen, gplen, gparen, gpafen}

-- Registers that read as they were written last, each for itself; reading and time change nothing.
pub record IsMemory {S : Type 0} (bus : Bus S) (delay : S → S) : Type 0 where
  pub read-write :
      (a b v : ℕ) (s : S)
      → (bus.read b (bus.write a v s)).0 ≡ (if a == b then v else (bus.read b s).0)
  pub read-read : (a b : ℕ) (s : S) → (bus.read b (bus.read a s).1).0 ≡ (bus.read b s).0
  pub read-delay : (a : ℕ) (s : S) → (bus.read a (delay s)).0 ≡ (bus.read a s).0

-- The six registers of events.
pub data EventKind : Type 0 where
  ren fen hen len aren afen : EventKind

abbrev pub register : EventKind → ℕ
register ren = gpren
register fen = gpfen
register hen = gphen
register len = gplen
register aren = gparen
register afen = gpafen

-- Which registers an event takes: the edges, the levels, and the edges without the clock.
abbrev pub kinds_of : EventDetect → List EventKind
kinds_of EventDetect.detect_none = []
kinds_of EventDetect.rising_edge = ren ∷ []
kinds_of EventDetect.falling_edge = fen ∷ []
kinds_of EventDetect.any_edge = ren ∷ fen ∷ []
kinds_of EventDetect.high_level = hen ∷ []
kinds_of EventDetect.low_level = len ∷ []
kinds_of EventDetect.rising_edge_async = aren ∷ []
kinds_of EventDetect.falling_edge_async = afen ∷ []

abbrev pub takes : List EventKind → EventKind → Bool
takes [] e = false
takes (k ∷ kinds) e = if register k == register e then true else takes kinds e

module _ {S : Type 0} (bus : Bus S) (base : ℕ) where
  -- The function of a pin, and its bit in a register of events.
  abbrev pub function_of : ℕ → S → ℕ
  function_of j s = get (fsel j) (bus.read (base + j / 10 * 4) s).0

  abbrev pub event_of : EventKind → ℕ → S → ℕ
  event_of e i s = bit_of i (bus.read (base + register e) s).0

  -- The pins that are selected have the function and exactly the events of the configuration, all
  -- others have what they had.
  pub record Configured (selected : ℕ → Bool) (config : GpioConfiguration) (s s' : S) : Type 0 where
    pub functions :
        (j : ℕ)
        → j < 32
        → function_of j s' ≡ (if selected j then function_code config.function else function_of j s)
    pub events :
        (e : EventKind) (j : ℕ)
        → j < 32
        → event_of e j s' ≡ (
            if selected j
            then (if takes (kinds_of config.event_detect) e then 1 else 0)
            else event_of e j s)

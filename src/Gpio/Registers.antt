-- ===== src/Gpio/Registers.antt =====
-- What the steps of `bcm283x_gpio_configure` do to each register, when registers keep what is written.
pub mod Kept
use raspdif.Prelude.{ℕ, ◌+◌, ◌*◌, ◌/◌, ◌<◌, ◌≡◌, ◌≢◌, refl, sym, ap, ◌∙◌, arith, inl, inr}
use raspdif.Prelude.{
  Bool, true, false, ◌==◌, ==-true, ==-false, eq_or_ne, List, [], ◌∷◌, if◌then◌else◌, bit_and,
  bit_or, bit_xor, u8,
}
use raspdif.Gpio.Spec.{
  IsMemory, EventKind, ren, fen, hen, len, aren, afen, register, kinds_of, takes,
}
use raspdif.Registers.{Bus, put, assign}
use raspdif.Gpio.{GpioFunction, GpioPull, EventDetect, function_code, fsel, pin_mask}
use raspdif.Gpio.{pull_none, pull_down, pull_up, pull_no_change, pud, gppud, gppudclk}
use raspdif.Gpio.{gpren, set_bits, clear_bits, banked}
use raspdif.Gpio.{bcm283x_gpio_set_function, clear_events, set_events, clock_pull, set_pull}

if_twice {ℓ} :
    {A : Type ℓ} (b : Bool) (x y : A)
    → (if (if b then true else false) then x else y) ≡ (if b then x else y)
if_twice true x y = refl
if_twice false x y = refl

same_base : (b x y u : ℕ) → (b + x + u == b + y + u) ≡ (x == y)
same_base b x y u = ground arith

module _ {S : Type 0} (bus : Bus S) (base : ℕ) (delay : S → S) (memory : IsMemory bus delay) where
  abbrev pub value : ℕ → S → ℕ
  value a s = (bus.read a s).0

  -- Reading, changing and writing back one register.
  value-update :
      (a b : ℕ) (f : ℕ → ℕ) (s : S)
      → value b (bus.write a (f (bus.read a s).0) (bus.read a s).1)
        ≡ (if a == b then f (value a s) else value b s)
  value-update a b f s =
      memory.read-write a b (f (bus.read a s).0) (bus.read a s).1
      ∙ ap (λ t. if a == b then f (value a s) else t) (memory.read-read a b s)

  value-update_ne :
      (a b : ℕ) (f : ℕ → ℕ) (s : S)
      → a ≢ b
      → value b (bus.write a (f (bus.read a s).0) (bus.read a s).1) ≡ value b s
  value-update_ne a b f s ne = rw (value-update a b f s, ==-false a b ne) refl

  module _ (pin : ℕ) where
    abbrev events_at : EventKind → ℕ
    events_at e = banked bus base delay (register e) pin

    -- The registers of events change one at a time.
    value-event :
        (k e : EventKind) (f : ℕ → ℕ) (s : S)
        → value
            (events_at e)
            (bus.write (events_at k) (f (bus.read (events_at k) s).0) (bus.read (events_at k) s).1)
          ≡ (if register k == register e then f (value (events_at e) s) else value (events_at e) s)
    value-event k e f s =
        value-update (events_at k) (events_at e) f s ∙ elim (eq_or_ne (register k) (register e)) [
          | inl same ↦
              rw
                (
                  same,
                  ==-true (events_at e) (events_at e) refl,
                  ==-true (register e) (register e) refl,
                )
                refl
          | inr apart ↦
              rw
                (
                  same_base base (register k) (register e) (u8 (pin / 32) * 4),
                  ==-false (register k) (register e) apart,
                )
                refl
        ]

    abbrev cleared : ℕ → ℕ
    cleared word = bit_and word (bit_xor (pin_mask pin) 0xFFFF_FFFF)

    abbrev marked : ℕ → ℕ
    marked word = bit_or word (pin_mask pin)

    abbrev clear_one : EventKind → S → S
    clear_one k s = clear_bits bus base delay (events_at k) (pin_mask pin) s

    abbrev Clears : EventKind → EventKind → ℕ → ℕ → Type 0
    Clears k e v w = w ≡ (if register k == register e then cleared v else v)

    -- Each kind is cleared once.
    clear_steps :
        (e : EventKind) (v0 v1 v2 v3 v4 v5 v6 : ℕ)
        → Clears ren e v0 v1
        → Clears fen e v1 v2
        → Clears hen e v2 v3
        → Clears len e v3 v4
        → Clears aren e v4 v5
        → Clears afen e v5 v6
        → v6 ≡ cleared v0
    clear_steps ren v0 v1 v2 v3 v4 v5 v6 a b c d e f = cc
    clear_steps fen v0 v1 v2 v3 v4 v5 v6 a b c d e f = cc
    clear_steps hen v0 v1 v2 v3 v4 v5 v6 a b c d e f = cc
    clear_steps len v0 v1 v2 v3 v4 v5 v6 a b c d e f = cc
    clear_steps aren v0 v1 v2 v3 v4 v5 v6 a b c d e f = cc
    clear_steps afen v0 v1 v2 v3 v4 v5 v6 a b c d e f = cc

    pub value-clear_events :
        (e : EventKind) (s : S)
        → value (events_at e) (clear_events bus base delay pin s) ≡ cleared (value (events_at e) s)
    unfolding clear_events
    value-clear_events e s =
        let s1 = clear_one ren s in
        let s2 = clear_one fen s1 in
        let s3 = clear_one hen s2 in
        let s4 = clear_one len s3 in
        let s5 = clear_one aren s4 in
        let at : S → ℕ = λ t. value (events_at e) t in
        clear_steps e (at s) (at s1) (at s2) (at s3) (at s4) (at s5) (at (clear_one afen s5))
          (value-event ren e cleared s) (value-event fen e cleared s1)
          (value-event hen e cleared s2) (value-event len e cleared s3)
          (value-event aren e cleared s4) (value-event afen e cleared s5)

    abbrev Sets : List EventKind → EventKind → ℕ → ℕ → Type 0
    Sets kinds e v w = w ≡ (if takes kinds e then marked v else v)

    set_once :
        (k e : EventKind) (s : S)
        → Sets
            (k ∷ [])
            e
            (value (events_at e) s)
            (value (events_at e) (set_bits bus base delay (events_at k) (pin_mask pin) s))
    set_once k e s = value-event k e marked s ∙ sym (if_twice (register k == register e) _ _)

    set_twice :
        (e : EventKind) (v0 v1 v2 : ℕ)
        → Sets (ren ∷ []) e v0 v1
        → Sets (fen ∷ []) e v1 v2
        → Sets (ren ∷ fen ∷ []) e v0 v2
    set_twice ren v0 v1 v2 a b = cc
    set_twice fen v0 v1 v2 a b = cc
    set_twice hen v0 v1 v2 a b = cc
    set_twice len v0 v1 v2 a b = cc
    set_twice aren v0 v1 v2 a b = cc
    set_twice afen v0 v1 v2 a b = cc

    pub value-set_events :
        (d : EventDetect) (e : EventKind) (s : S)
        → Sets
            (kinds_of d)
            e
            (value (events_at e) s)
            (value (events_at e) (set_events bus base delay pin d s))
    unfolding set_events
    value-set_events EventDetect.detect_none e s = refl
    value-set_events EventDetect.rising_edge e s = set_once ren e s
    value-set_events EventDetect.falling_edge e s = set_once fen e s
    value-set_events EventDetect.any_edge e s =
        let s1 = set_bits bus base delay (events_at ren) (pin_mask pin) s in
        let s2 = set_bits bus base delay (events_at fen) (pin_mask pin) s1 in
        set_twice e (value (events_at e) s) (value (events_at e) s1) (value (events_at e) s2)
          (set_once ren e s) (set_once fen e s1)
    value-set_events EventDetect.high_level e s = set_once hen e s
    value-set_events EventDetect.low_level e s = set_once len e s
    value-set_events EventDetect.rising_edge_async e s = set_once aren e s
    value-set_events EventDetect.falling_edge_async e s = set_once afen e s

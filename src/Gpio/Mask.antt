-- ===== src/Gpio/Mask.antt =====
-- `bcm283x_gpio_configure_mask`: the loop over the bits of a mask.
use native.Mathlib.Nat.{pow-suc, zero-div}
use raspdif.Prelude.{
  ℕ, zero, suc, ◌+◌, ◌-◌, ◌/◌, ◌%◌, ◌^◌, ◌<◌, ◌≤◌, ◌≡◌, ◌≢◌, refl, ap, ◌∙◌, arith, inl, inr, ◌⊎◌,
}
use raspdif.Prelude.{
  Bool, true, false, ◌&&◌, ◌||◌, ◌==◌, ==-true, ==-false, eq_or_ne, Bool-cases, leb, if◌then◌else◌,
}
use raspdif.Prelude.{bit_and, u32}
use raspdif.Bits.{bit_of, bit_of-suc, bit_and_mask}
use raspdif.Registers.{Bus, returned}
use raspdif.Gpio.{
  GpioConfiguration, configure_from, bcm283x_gpio_configure, bcm283x_gpio_configure_mask,
  function_code,
}
use raspdif.Gpio.Spec.{IsMemory, Configured, EventKind, kinds_of, takes, function_of, event_of}
use raspdif.Gpio.Configure.{gpio_configure-Configured}

-- Pin `j` is asked for, by a mask whose lowest bit is pin `pin`.
abbrev wanted : ℕ → ℕ → ℕ → Bool
wanted pin mask j = leb pin j && (bit_of (j - pin) mask == 1)

if_or {ℓ} :
    {A : Type ℓ} (b c : Bool) (x y : A)
    → (if c then x else (if b then x else y)) ≡ (if b || c then x else y)
if_or true true x y = refl
if_or true false x y = refl
if_or false true x y = refl
if_or false false x y = refl

digit_cases : (d : ℕ) → d < 2 → (d ≡ 0) ⊎ (d ≡ 1)
digit_cases zero small = inl refl
digit_cases (suc zero) small = inr refl
digit_cases (suc (suc d)) small = omega (arith, small)

-- The step of the loop: the pin of the lowest bit, and the pins of the bits above it.
wanted-step :
    (pin mask j : ℕ)
    → (((bit_of 0 mask == 1) && (pin == j)) || wanted (pin + 1) (mask / 2) j) ≡ wanted pin mask j
wanted-step pin mask j = elim (eq_or_ne pin j) [
  | inl same ↦
      let next : leb (pin + 1) j ≡ false = ground arith in
      let this : leb pin j ≡ true = ground arith in
      let distance : j - pin ≡ 0 = omega arith in
      rw (next, this, distance, ==-true pin j same)
        (elim (Bool-cases (bit_of 0 mask == 1)) [
          | inl set ↦ rw set refl
          | inr clear ↦ rw clear refl
        ])
  | inr apart ↦ elim (Bool-cases (leb (pin + 1) j)) [
    | inl above ↦
        let this : leb pin j ≡ true = ground arith in
        let distance : j - pin ≡ suc (j - (pin + 1)) = ground arith in
        rw (this, above, ==-false pin j apart, distance, bit_of-suc (j - (pin + 1)) mask)
          (elim (Bool-cases (bit_of 0 mask == 1)) [
            | inl set ↦ rw set refl
            | inr clear ↦ rw clear refl
          ])
    | inr below ↦
        let this : leb pin j ≡ false = ground arith in
        rw (this, below, ==-false pin j apart)
          (elim (Bool-cases (bit_of 0 mask == 1)) [
            | inl set ↦ rw set refl
            | inr clear ↦ rw clear refl
          ])
  ]
]

wanted-nothing : (pin mask j : ℕ) → mask ≡ 0 → false ≡ wanted pin mask j
wanted-nothing pin mask j e = rw e (
    rw (zero-div (2 ^ (j - pin)))
      (elim (Bool-cases (leb pin j)) [ inl set ↦ rw set refl | inr clear ↦ rw clear refl ]))

wanted-all : (mask j : ℕ) → wanted 0 mask j ≡ (bit_of j mask == 1)
wanted-all mask j =
    let here : leb 0 j ≡ true = ground arith in
    let same : j - 0 ≡ j = omega arith in rw (here, same) refl

module _ {S : Type 0} (bus : Bus S) (base : ℕ) (config : GpioConfiguration) where
  abbrev wanted_event : EventKind → ℕ
  wanted_event e = if takes (kinds_of config.event_detect) e then 1 else 0

  -- Twice the same configuration: the pins of either selection have it.
  Configured-trans :
      (f g : ℕ → Bool) {s t u : S}
      → Configured bus base f config s t
      → Configured bus base g config t u
      → Configured bus base (λ j. f j || g j) config s u
  Configured-trans f g {s} {t} {u} h k = record {
    functions = λ j hj.
        let code = function_code config.function in
        k.functions j hj
        ∙ ap (λ x. if g j then code else x) (h.functions j hj)
        ∙ if_or (f j) (g j) code (function_of bus base j s);
    events = λ e j hj.
        k.events e j hj
        ∙ ap (λ x. if g j then wanted_event e else x) (h.events e j hj)
        ∙ if_or (f j) (g j) (wanted_event e) (event_of bus base e j s);
  }

  Configured-of_same :
      (f g : ℕ → Bool) {s t : S}
      → ((j : ℕ) → f j ≡ g j)
      → Configured bus base f config s t
      → Configured bus base g config s t
  Configured-of_same f g {s} {t} same h = record {
    functions = λ j hj.
        h.functions j hj
        ∙ ap (λ b. if b then function_code config.function else function_of bus base j s) (same j);
    events = λ e j hj.
        h.events e j hj ∙ ap (λ b. if b then wanted_event e else event_of bus base e j s) (same j);
  }

  Configured-none : (s : S) → Configured bus base (λ j. false) config s s
  Configured-none s = record { functions = λ j hj. refl; events = λ e j hj. refl }

module _ {S : Type 0} (bus : Bus S) (base : ℕ) (delay : S → S) (memory : IsMemory bus delay)
    (config : GpioConfiguration) where
  -- The body of the loop, for the pin of the lowest bit.
  first_pin :
      (pin mask : ℕ)
      → pin < 32
      → (s : S)
      → (s' : S) × ((if bit_and mask 1 == 0
            then returned s
            else bcm283x_gpio_configure bus base delay pin config s)
          ≡ returned s')
        × Configured bus base (λ j. (bit_of 0 mask == 1) && (pin == j)) config s s'
  first_pin pin mask small s = elim (digit_cases (bit_of 0 mask) (omega arith)) [
    | inl clear ↦ (
      s,
      rw (bit_and_mask 1 mask, ==-true (mask % 2 ^ 1) 0 (omega (arith, clear))) refl,
      Configured-of_same bus base config (λ j. false) (λ j. (bit_of 0 mask == 1) && (pin == j))
          (λ j. rw clear refl) (Configured-none bus base config s),
    )
    | inr set ↦
        let (s', done, configured) =
          gpio_configure-Configured bus base delay memory pin small config s in
        (
          s',
          rw (bit_and_mask 1 mask, ==-false (mask % 2 ^ 1) 0 (omega (arith, set))) done,
          Configured-of_same bus base config (λ j. pin == j)
              (λ j. (bit_of 0 mask == 1) && (pin == j)) (λ j. rw set refl) configured,
        )
  ]

  next_round :
      (fuel pin mask : ℕ) (s t s' : S)
      → pin < 32
      → mask ≢ 0
      → (if bit_and mask 1 == 0
          then returned s
          else bcm283x_gpio_configure bus base delay pin config s)
        ≡ returned t
      → configure_from bus base delay fuel (pin + 1) (mask / 2) config t ≡ returned s'
      → configure_from bus base delay (suc fuel) pin mask config s ≡ returned s'
  unfolding configure_from
  next_round fuel pin mask s t s' small some_left here rest =
      let next : u32 (pin + 1) ≡ pin + 1 = omega (arith, small) in
      rw (==-false mask 0 some_left, here, next) rest

  configure_from-Configured :
      (fuel pin mask : ℕ)
      → mask < 2 ^ fuel
      → pin + fuel ≤ 32
      → (s : S)
      → (s' : S) × (configure_from bus base delay fuel pin mask config s ≡ returned s')
        × Configured bus base (wanted pin mask) config s s'
  unfolding configure_from
  configure_from-Configured zero pin mask bound room s = (
    s,
    rw (==-true mask 0 (omega (arith, bound))) refl,
    Configured-of_same bus base config (λ j. false) (wanted pin mask)
        (λ j. wanted-nothing pin mask j (omega (arith, bound))) (Configured-none bus base config s),
  )
  configure_from-Configured (suc fuel) pin mask bound room s = elim (eq_or_ne mask 0) [
    | inl nothing ↦ (
      s,
      rw (==-true mask 0 nothing) refl,
      Configured-of_same bus base config (λ j. false) (wanted pin mask)
          (λ j. wanted-nothing pin mask j nothing) (Configured-none bus base config s),
    )
    | inr some_left ↦
        let (t, here, one) = first_pin pin mask (omega (arith, room)) s in
        let half : mask / 2 < 2 ^ fuel = omega (arith, bound, pow-suc 2 fuel) in
        let (s', rest, others) =
          configure_from-Configured fuel (pin + 1) (mask / 2) half (omega (arith, room)) t in
        (
          s',
          next_round fuel pin mask s t s' (omega (arith, room)) some_left here rest,
          Configured-of_same bus base config
              (λ j. ((bit_of 0 mask == 1) && (pin == j)) || wanted (pin + 1) (mask / 2) j)
              (wanted pin mask) (wanted-step pin mask)
              (Configured-trans bus base config (λ j. (bit_of 0 mask == 1) && (pin == j))
                (wanted (pin + 1) (mask / 2)) one others),
        )
  ]

  -- On registers that keep what is written, configuring the pins of a mask of 32 bits returns (32
  -- rounds of the loop are enough), gives each pin whose bit is set the function and exactly the
  -- events of the configuration, and every other pin keeps its own.
  pub configure_mask-Configured :
      (mask : ℕ)
      → mask < 2 ^ 32
      → (s : S)
      → (s' : S) × (bcm283x_gpio_configure_mask bus base delay mask config s ≡ returned s')
        × Configured bus base (λ j. bit_of j mask == 1) config s s'
  unfolding bcm283x_gpio_configure_mask
  configure_mask-Configured mask bound s =
      let (s', done, configured) = configure_from-Configured 32 0 mask bound (omega arith) s in
      (
        s',
        done,
        Configured-of_same bus base config (wanted 0 mask) (λ j. bit_of j mask == 1)
            (wanted-all mask) configured,
      )

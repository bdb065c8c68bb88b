-- ===== src/Examples/Pins.antt =====
-- The GPIO driver on registers that keep what is written.
use raspdif.Prelude.{ℕ, ◌-◌, ◌^◌, ◌≡◌, refl, arith, ◌==◌, if◌then◌else◌}
use raspdif.Bits.{bit_of}
use raspdif.Registers.{Bus, returned}
use raspdif.Gpio.{GpioFunction, GpioPull, EventDetect, GpioConfiguration}
use raspdif.Gpio.{bcm283x_gpio_configure_mask}
use raspdif.Gpio.Spec.{IsMemory, Configured}
use raspdif.Gpio.Mask.{configure_mask-Configured}

abbrev Words : Type 0
Words = ℕ → ℕ

abbrev word_bus : Bus Words
word_bus = record {
  read = λ address words. (words address, words);
  write = λ address value words. λ other. if address == other then value else words other;
}

abbrev no_delay : Words → Words
no_delay words = words

word_bus-IsMemory : IsMemory word_bus no_delay
word_bus-IsMemory = record {
  read-write = λ a b v s. refl;
  read-read = λ a b s. refl;
  read-delay = λ a s. refl;
}

-- All pins are outputs that notice a rising edge.
abbrev words : Words
words address = if address == 0x2020_004C then 2 ^ 32 - 1 else 0x0924_9249

-- The output of PCM is the first alternative function of pin 21.
abbrev pcm_out : GpioConfiguration
pcm_out = record {
  function = GpioFunction.af0;
  pull = GpioPull.pull_no_change;
  event_detect = EventDetect.detect_none;
}

configure_mask-Configured_example :
    (words' : Words) × (bcm283x_gpio_configure_mask word_bus 0x2020_0000 no_delay 0x20_0000 pcm_out
        words
      ≡ returned words')
    × Configured word_bus 0x2020_0000 (λ j. bit_of j 0x20_0000 == 1) pcm_out words words'
configure_mask-Configured_example =
    configure_mask-Configured word_bus 0x2020_0000 no_delay word_bus-IsMemory pcm_out 0x20_0000
      (omega arith) words

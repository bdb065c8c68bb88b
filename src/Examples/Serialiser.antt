-- ===== src/Examples/Serialiser.antt =====
-- source/bcm283x/bcm283x_pcm.c at concrete inputs, on a bus of one register.
use raspdif.Prelude.{ℕ, ◌≡◌, refl, arith, true, false, some, none}
use raspdif.Registers.{Bus, bit_at, get}
use raspdif.Pcm.{PcmChannelConfig, PcmConfiguration, ftxp, frxp}
use raspdif.Pcm.{bcm283x_pcm_configure_transmit_channels, bcm283x_pcm_configure_mode}
use raspdif.Pcm.Configure.{Carries, pcm_configure_transmit_channels-Carries}
use raspdif.Pcm.Configure.{receive_packing_overwrites}

abbrev word_bus : Bus ℕ
word_bus = record { read = λ _ v. (v, v); write = λ _ v _. v }

abbrev no_delay : ℕ → ℕ
no_delay s = s

-- The channel of the program: 32 bits at position 0.
abbrev wide_channel : PcmChannelConfig
wide_channel = record { width = 32; position = 0 }

pcm_configure_transmit_channels-Carries_example :
    let word =
      bcm283x_pcm_configure_transmit_channels word_bus 0 no_delay (some wide_channel) none 0 in
    Carries 16 wide_channel word × (get (bit_at 14) word ≡ 0)
pcm_configure_transmit_channels-Carries_example =
    pcm_configure_transmit_channels-Carries word_bus 0 no_delay wide_channel 0 (λ v s. refl)
      (omega arith) (omega arith) (omega arith)

-- Packed for transmission and not for reception.
abbrev transmit_packed : PcmConfiguration
transmit_packed = record {
  sync_length = 1;
  sync_invert = false;
  sync_slave = false;
  clock_invert = false;
  clock_slave = false;
  tx_packed = true;
  rx_packed = false;
  frame_length = 32;
  tx_fifo_threshold = 0;
  rx_fifo_threshold = 0;
}

receive_packing_overwrites_example :
    let s1 = bcm283x_pcm_configure_mode word_bus 0 no_delay transmit_packed 0 in
    (get ftxp s1 ≡ 0) × (get frxp s1 ≡ get frxp 0)
receive_packing_overwrites_example =
    receive_packing_overwrites word_bus 0 no_delay transmit_packed 0 (λ v s. refl)

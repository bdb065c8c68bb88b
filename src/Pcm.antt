-- ===== src/Pcm.antt =====
-- The PCM serialiser: source/bcm283x/bcm283x_pcm.c and include/bcm283x/bcm283x_pcm.h, after
-- `bcm283x_pcm_init` with the address `base`.
pub mod Configure
use raspdif.Prelude.{ℕ, zero, suc, ◌+◌, ◌-◌, ◌^◌, Bool, true, false, ◌&&◌, ◌==◌, leb, if◌then◌else◌}
use raspdif.Prelude.{List, [], ◌∷◌, Option, none, some, bit_and, u32}
use raspdif.Registers.{
  Field, bit_at, get, Bus, assign, assign_all, Driven, returned, aborted, looping,
}

-- The registers of `bcm283x_pcm_t`, by their offsets.
abbrev pub mode_a : ℕ
mode_a = 8

abbrev pub rxc_a : ℕ
rxc_a = 12

abbrev pub txc_a : ℕ
txc_a = 16

abbrev pub dreq_a : ℕ
dreq_a = 20

abbrev pub inten_a : ℕ
inten_a = 24

abbrev pub intstc_a : ℕ
intstc_a = 28

abbrev pub gray : ℕ
gray = 32

-- A field by its lowest bit and its width.
abbrev pub bits_at : ℕ → ℕ → Field
bits_at low width = record { lo = low; width = width }

-- `pcm_control_status_t`: `EN`, `RXON`, `TXON`, `TXCLR`, `RXCLR`, `TXTHR`, `RXTHR`, `DMAEN`,
-- `TXERR`, `RXERR`, `SYNC` and `STBY`.
abbrev pub sync : Field
sync = bit_at 24

-- `pcm_mode_t`: the two packing fields.
abbrev pub ftxp : Field
ftxp = bit_at 24

abbrev pub frxp : Field
frxp = bit_at 25

-- `pcm_channel_config_t`, `pcm_dma_config_t` and `pcm_configuration_t`; a mode is whether it is not
-- the first enumerator: slave, or packed.
pub record PcmChannelConfig : Type 0 where
  pub width : ℕ
  pub position : ℕ

pub record PcmDmaConfig : Type 0 where
  pub tx_threshold : ℕ
  pub rx_threshold : ℕ
  pub tx_panic : ℕ
  pub rx_panic : ℕ

pub record PcmConfiguration : Type 0 where
  pub sync_length : ℕ
  pub sync_invert : Bool
  pub sync_slave : Bool
  pub clock_invert : Bool
  pub clock_slave : Bool
  pub tx_packed : Bool
  pub rx_packed : Bool
  pub frame_length : ℕ
  pub tx_fifo_threshold : ℕ
  pub rx_fifo_threshold : ℕ

abbrev pub one_if : Bool → ℕ
one_if true = 1
one_if false = 0

-- The assignments for one channel: position, width and enable field at the given bits. The width is
-- `(width - 8) & 0xF`, in 32 bits.
abbrev pub channel_fields : ℕ → Option PcmChannelConfig → List (Field × ℕ)
channel_fields low none = (bit_at (low + 14), 0) ∷ []
channel_fields low (some c) =
    (bit_at (low + 14), 1)
    ∷ (bits_at (low + 4) 10, c.position)
    ∷ (bits_at low 4, bit_and (u32 (2 ^ 32 + c.width - 8)) 0xF)
    ∷ (bit_at (low + 15), one_if (leb 24 c.width))
    ∷ []

abbrev pub mode_fields : PcmConfiguration → List (Field × ℕ)
mode_fields config =
    (bits_at 10 10, u32 (2 ^ 32 + config.frame_length - 1))
    ∷ (bits_at 0 10, config.sync_length)
    ∷ (bit_at 20, one_if config.sync_invert)
    ∷ (bit_at 21, one_if config.sync_slave)
    ∷ (bit_at 22, one_if config.clock_invert)
    ∷ (bit_at 23, one_if config.clock_slave)
    ∷ (ftxp, one_if config.tx_packed)
    ∷ (ftxp, one_if config.rx_packed)
    ∷ (bit_at 26, 0)
    ∷ (bit_at 27, 0)
    ∷ (bit_at 28, 0)
    ∷ []

-- `delay` is what `bcm283x_delay_microseconds(10)` lets the hardware do.
module _ {S : Type 0} (bus : Bus S) (base : ℕ) (delay : S → S) where
  -- `while (pcm->CS_A.SYNC != value)`, with fuel for the readings.
  unfoldable pub wait_sync : ℕ → ℕ → S → (S → Driven S) → Driven S
  wait_sync zero value s next = looping
  wait_sync (suc fuel) value s next =
      let (word, s1) = bus.read base s in
      let again = wait_sync fuel value s1 next in if get sync word == value then next s1 else again

  -- The bit is toggled, and each value is waited for.
  unfoldable pub bcm283x_pcm_sync : ℕ → S → Driven S
  bcm283x_pcm_sync fuel s =
      wait_sync fuel 0 (assign bus base sync 0 s)
        λ s1. wait_sync fuel 1 (assign bus base sync 1 s1) returned

  unfoldable pub bcm283x_pcm_reset : S → S
  bcm283x_pcm_reset s =
      let s1 = bus.write base 0 (delay (assign bus base (bit_at 0) 0 s)) in
      let s2 =
        assign_all bus base ((bit_at 3, 1) ∷ (bit_at 4, 1) ∷ (bit_at 15, 1) ∷ (bit_at 16, 1) ∷ [])
          s1 in
      let s3 =
        bus.write (base + txc_a) 0 (bus.write (base + rxc_a) 0 (bus.write (base + mode_a) 0 s2)) in
      let s4 =
        assign_all bus (base + dreq_a)
          ((bits_at 24 7, 0x10)
            ∷ (bits_at 16 7, 0x30)
            ∷ (bits_at 8 7, 0x30)
            ∷ (bits_at 0 7, 0x20)
            ∷ [])
          s3 in
      bus.write (base + gray) 0 (bus.write (base + intstc_a) 0 (bus.write (base + inten_a) 0 s4))

  unfoldable pub bcm283x_pcm_clear_fifos : ℕ → S → Driven S
  bcm283x_pcm_clear_fifos fuel s =
      bcm283x_pcm_sync fuel (assign_all bus base ((bit_at 3, 1) ∷ (bit_at 4, 1) ∷ []) s)

  unfoldable pub bcm283x_pcm_configure_dma : Bool → PcmDmaConfig → S → Driven S
  bcm283x_pcm_configure_dma enable config s =
      let s1 = assign bus base (bit_at 9) (one_if enable) s in
      let s2 =
        assign_all bus (base + dreq_a)
          ((bits_at 24 7, config.tx_panic)
            ∷ (bits_at 8 7, config.tx_threshold)
            ∷ (bits_at 16 7, config.rx_panic)
            ∷ (bits_at 0 7, config.rx_threshold)
            ∷ [])
          s1 in
      if leb config.tx_threshold 64
        && leb config.rx_threshold 64
        && leb config.tx_panic 64
        && leb config.rx_panic 64
      then returned s2
      else aborted

  -- Channel 1 lies in the upper half of the register.
  unfoldable pub bcm283x_pcm_configure_channels :
      ℕ → Option PcmChannelConfig → Option PcmChannelConfig → S → S
  bcm283x_pcm_configure_channels address channel1 channel2 s =
      assign_all bus address (channel_fields 0 channel2)
        (assign_all bus address (channel_fields 16 channel1) s)

  unfoldable pub bcm283x_pcm_configure_transmit_channels :
      Option PcmChannelConfig → Option PcmChannelConfig → S → S
  bcm283x_pcm_configure_transmit_channels = bcm283x_pcm_configure_channels (base + txc_a)

  unfoldable pub bcm283x_pcm_configure_receive_channels :
      Option PcmChannelConfig → Option PcmChannelConfig → S → S
  bcm283x_pcm_configure_receive_channels = bcm283x_pcm_configure_channels (base + rxc_a)

  unfoldable pub bcm283x_pcm_configure_mode : PcmConfiguration → S → S
  bcm283x_pcm_configure_mode config s = assign_all bus (base + mode_a) (mode_fields config) s

  unfoldable pub bcm283x_pcm_configure : PcmConfiguration → S → S
  bcm283x_pcm_configure config s =
      let s1 =
        assign_all bus base ((bit_at 0, 1) ∷ (bit_at 25, 1) ∷ (bit_at 2, 0) ∷ (bit_at 1, 0) ∷ [])
          s in
      let s2 = bcm283x_pcm_configure_mode config (delay s1) in
      delay (
        assign_all bus base
          ((bits_at 5 2, config.tx_fifo_threshold) ∷ (bits_at 7 2, config.rx_fifo_threshold) ∷ [])
          s2)

  unfoldable pub bcm283x_pcm_enable : Bool → Bool → S → S
  bcm283x_pcm_enable transmit receive s =
      assign_all bus base
        ((bit_at 0, 1) ∷ (bit_at 2, one_if transmit) ∷ (bit_at 1, one_if receive) ∷ []) s

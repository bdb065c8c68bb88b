-- ===== src/Dma.antt =====
-- A channel of the DMA controller: source/bcm283x/bcm283x_dma.c and the registers in
-- include/bcm283x/bcm283x_dma.h, after `bcm283x_dma_init` with the address `base`.
pub mod Channel
use raspdif.Prelude.{
  ℕ, ◌+◌, ◌*◌, ◌%◌, ◌^◌, Bool, true, false, ◌==◌, ltb, if◌then◌else◌, bit_and, u32,
}
use raspdif.Registers.{Field, bit_at, get, Bus, assign, Driven, returned, aborted}

-- `dma_control_status_t`, the fields that the driver uses.
abbrev pub active : Field
active = bit_at 0

abbrev pub end_flag : Field
end_flag = bit_at 1

abbrev pub int_flag : Field
int_flag = bit_at 2

abbrev pub reset : Field
reset = bit_at 31

-- `dma_debug_t`
abbrev pub read_last_not_set_error : Field
read_last_not_set_error = bit_at 0

abbrev pub fifo_error : Field
fifo_error = bit_at 1

abbrev pub read_error : Field
read_error = bit_at 2

abbrev pub dma_channel_offset : ℕ
dma_channel_offset = 0x100

abbrev pub dma_channel_max : ℕ
dma_channel_max = 15

-- `bcm283x_dma_channel_t`: the offsets of `CONBLK_AD` and `DEBUG`; `CS` comes first.
abbrev pub conblk_ad : ℕ
conblk_ad = 4

abbrev pub debug : ℕ
debug = 32

abbrev pub flag : Bool → ℕ
flag true = 1
flag false = 0

module _ {S : Type 0} (bus : Bus S) (base : ℕ) where
  -- `bcm283x_dma_get_channel`: the address of the channel's registers, if the assertion holds.
  abbrev pub with_channel : {A : Type 0} → ℕ → (ℕ → Driven A) → Driven A
  with_channel channel f =
      if ltb channel dma_channel_max then f (base + channel * dma_channel_offset) else aborted

  unfoldable pub bcm283x_dma_reset : ℕ → S → Driven S
  bcm283x_dma_reset channel s = with_channel channel λ cs.
      let s1 = assign bus cs reset 1 s in
      let s2 = assign bus cs int_flag 1 s1 in
      let s3 = assign bus cs end_flag 1 s2 in
      let s4 = assign bus (cs + debug) read_error 1 s3 in
      let s5 = assign bus (cs + debug) fifo_error 1 s4 in
      returned (assign bus (cs + debug) read_last_not_set_error 1 s5)

  -- The block must be 256-bit aligned; `PTR32_CAST` cuts the address to 32 bits.
  unfoldable pub bcm283x_dma_set_control_block : ℕ → ℕ → S → Driven S
  bcm283x_dma_set_control_block channel control s =
      if bit_and control 0x1F == 0
      then (with_channel channel λ cs. returned (bus.write (cs + conblk_ad) (u32 control) s))
      else aborted

  unfoldable pub bcm283x_dma_get_control_block : ℕ → S → Driven (ℕ × S)
  bcm283x_dma_get_control_block channel s =
      with_channel channel λ cs. returned (bus.read (cs + conblk_ad) s)

  unfoldable pub bcm283x_dma_enable : ℕ → Bool → S → Driven S
  bcm283x_dma_enable channel enable s =
      with_channel channel λ cs. returned (assign bus cs active (flag enable) s)

  unfoldable pub bcm283x_dma_active : ℕ → S → Driven (Bool × S)
  bcm283x_dma_active channel s =
      with_channel channel
        λ cs. let (word, s1) = bus.read cs s in returned (get active word == 1, s1)

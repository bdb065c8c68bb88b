-- ===== src/Dma/Channel.antt =====
-- What the driver calls do to a channel of the DMA controller.
use raspdif.Prelude.{ℕ, ◌+◌, ◌*◌, ◌<◌, ◌≡◌, refl, ap, ◌∙◌, arith}
use raspdif.Prelude.{Bool, true, false, ◌==◌, lt→ltb, ==-true, bit_and, u32}
use raspdif.Bits.{bit_and_mask}
use raspdif.Registers.{get, put, Bus, returned}
use raspdif.Buffers.{buffer_count}
use raspdif.ControlBlocks.{block_address}
use raspdif.ControlBlocks.Ring.{IsPlaced}
use raspdif.Dma.{
  active, int_flag, end_flag, reset, conblk_ad, flag, dma_channel_offset, dma_channel_max,
}
use raspdif.Dma.{bcm283x_dma_set_control_block, bcm283x_dma_get_control_block}
use raspdif.Dma.{bcm283x_dma_enable, bcm283x_dma_active}

flag-lt : (b : Bool) → flag b < 2
flag-lt true = omega arith
flag-lt false = omega arith

flag-eq : (b : Bool) → (flag b == 1) ≡ b
flag-eq true = refl
flag-eq false = refl

-- The control word that starts or stops a channel: only `ACTIVE` differs from the one that was read.
pub record Starts (enable : Bool) (word control : ℕ) : Type 0 where
  pub started : get active control ≡ flag enable
  pub end_kept : get end_flag control ≡ get end_flag word
  pub int_kept : get int_flag control ≡ get int_flag word
  pub reset_kept : get reset control ≡ get reset word

put-Starts : (b : Bool) (word : ℕ) → Starts b word (put active (flag b) word)
put-Starts b word = record {
  started = omega (arith, flag-lt b);
  end_kept = omega (arith, flag-lt b);
  int_kept = omega (arith, flag-lt b);
  reset_kept = omega (arith, flag-lt b);
}

module _ {S : Type 0} (bus : Bus S) (base channel : ℕ) where
  -- The channel's first register, `CS`.
  abbrev pub cs : ℕ
  cs = base + channel * dma_channel_offset

  -- If `ACTIVE` is read as it is written here, a channel up to 14 that was enabled is active and one
  -- that was disabled is not. The one write to `CS` leaves the end, interrupt and reset bits as read.
  pub dma_active-enable :
      (b : Bool) (s : S)
      → channel < dma_channel_max
      → ((v : ℕ) (t : S)
          → get active v ≡ flag b
          → get active (bus.read cs (bus.write cs v t)).0 ≡ flag b)
      → (control : ℕ) × (s1 : S) × (s2 : S) × (bcm283x_dma_enable bus base channel b s
          ≡ returned s1)
        × (s1 ≡ bus.write cs control (bus.read cs s).1)
        × Starts b (bus.read cs s).0 control
        × (bcm283x_dma_active bus base channel s1 ≡ returned (b, s2))
  unfolding bcm283x_dma_enable bcm283x_dma_active
  dma_active-enable b s in_range kept =
      let control = put active (flag b) (bus.read cs s).0 in
      let s1 = bus.write cs control (bus.read cs s).1 in
      let starts = put-Starts b (bus.read cs s).0 in
      let seen : (get active (bus.read cs s1).0 == 1) ≡ b =
        ap (λ v. v == 1) (kept control (bus.read cs s).1 starts.started) ∙ flag-eq b in
      (
        control,
        s1,
        (bus.read cs s1).1,
        rw (lt→ltb channel dma_channel_max in_range) refl,
        refl,
        starts,
        rw (lt→ltb channel dma_channel_max in_range, seen) refl,
      )

  pub aligned :
      (ring i : ℕ)
      → IsPlaced ring
      → i < buffer_count
      → (bit_and (block_address ring i) 0x1F == 0) ≡ true
  aligned ring i placed small = ==-true _ 0 (bit_and_mask 5 (block_address ring i) ∙ omega arith)

  -- If `CONBLK_AD` is read as it was written last, the address of a control block of a placed ring
  -- passes the assertion on its alignment and reads back as it was set, on a channel up to 14.
  pub dma_get-set_control_block :
      (ring i : ℕ) (s : S)
      → channel < dma_channel_max
      → ((v : ℕ) (t : S) → (bus.read (cs + conblk_ad) (bus.write (cs + conblk_ad) v t)).0 ≡ v)
      → IsPlaced ring
      → i < buffer_count
      → (s1 : S) × (s2 : S) × (bcm283x_dma_set_control_block bus base channel
            (block_address ring i)
            s
          ≡ returned s1)
        × (bcm283x_dma_get_control_block bus base channel s1 ≡ returned (block_address ring i, s2))
  unfolding bcm283x_dma_set_control_block bcm283x_dma_get_control_block
  dma_get-set_control_block ring i s in_range kept placed small =
      let a = block_address ring i in
      let s1 = bus.write (cs + conblk_ad) a s in
      let word : u32 a ≡ a = omega arith in
      (
        s1,
        (bus.read (cs + conblk_ad) s1).1,
        rw (aligned ring i placed small, lt→ltb channel dma_channel_max in_range, word) refl,
        rw (lt→ltb channel dma_channel_max in_range)
            (ap (λ v. returned (v, (bus.read (cs + conblk_ad) s1).1)) (kept a s)),
      )

-- ===== src/Live/Device.antt =====
-- The calls that the loops of `main` make, on initialised drivers and a system that keeps something.
use raspdif.Prelude.{
  ℕ, ◌+◌, ◌*◌, ◌<◌, ◌≡◌, refl, arith, Bool, false, List, [], ◌∷◌, All, sym, lt→ltb, ==-false,
}
use raspdif.Dma.{
  bcm283x_dma_get_control_block, dma_channel_max, dma_channel_offset, conblk_ad, active, flag,
  bcm283x_dma_enable,
}
use raspdif.Registers.{Field, bit_at, assign, assign_all}
use raspdif.Pcm.{bcm283x_pcm_enable, one_if}
use raspdif.Program.{Machine}
use mathlib.Core.Path.{subst}
use raspdif.Samples.Value.{IsByte}
use raspdif.Setup.{Board}
use raspdif.Setup.Harmless.{Untouched, assign-kept, assign_all-kept}
use raspdif.Live.{Calls, microsleep, poll_dma, enable_dma, enable_pcm, read_pair}
use raspdif.Samples.{Format, sample_size}
use raspdif.Live.Yields.{Yields, map-Yields, query-Yields}

-- The drivers have their registers, and the channel is one of the controller's.
pub record IsDriven {S : Type 0} (m : Machine S) : Type 0 where
  pub dma : 0 < m.drivers.dma
  pub channel : m.raspdif.dma_channel < dma_channel_max

-- The registers of the channel, and its `CONBLK_AD`.
abbrev pub channel_registers : {S : Type 0} → Machine S → ℕ
channel_registers m = m.drivers.dma + m.raspdif.dma_channel * dma_channel_offset

abbrev pub conblk_register : {S : Type 0} → Machine S → ℕ
conblk_register m = channel_registers m + conblk_ad

-- What a write to the control register of PCM sets.
abbrev pub enabling : Bool → List (Field × ℕ)
enabling transmit = (bit_at 0, 1) ∷ (bit_at 2, one_if transmit) ∷ (bit_at 1, one_if false) ∷ []

-- The calls of the system keep something, and a read brings bytes.
pub record IsKept {S : Type 0} {A : Type 0} (calls : Calls S) (held : S → A) : Type 0 where
  pub reads : (size : ℕ) (s : S) → held (calls.reads size s).1 ≡ held s
  pub bytes : (size : ℕ) (s : S) → All IsByte (calls.reads size s).0.bytes
  pub unblocks : (s : S) → held (calls.unblocks s) ≡ held s
  pub waits : (s : S) → held (calls.waits s) ≡ held s
  pub sleeps : (n : ℕ) (s : S) → held (calls.sleeps n s) ≡ held s

module _ {S : Type 0} {H : Type 0} (held : S → H) (m : Machine S) (board : Board S)
    (calls : Calls S) (u : Untouched held board.bus board.pcm_delay board.gpio_delay)
    (d : IsDriven m) where
  pub poll-Yields :
      (s : S)
      → Yields held m
          (poll_dma board calls)
          s
          (λ a s'. (a, s') ≡ board.bus.read (conblk_register m) s)
  unfolding poll_dma bcm283x_dma_get_control_block
  poll-Yields s =
      let address = conblk_register m in
      record {
        result = (board.bus.read address s).0;
        known = refl;
        device = (board.bus.read address s).1;
        ran =
            rw
              (
                ==-false m.drivers.dma 0 (omega (arith, d.dma)),
                lt→ltb m.raspdif.dma_channel dma_channel_max d.channel,
              )
              refl;
        same = u.by_read address s;
      }

  pub dma-Yields :
      (b : Bool) (s : S)
      → Yields held m
          (enable_dma board calls b)
          s
          (λ _ s'. s' ≡ assign board.bus (channel_registers m) active (flag b) s)
  unfolding enable_dma bcm283x_dma_enable
  dma-Yields b s = record {
    result = tt;
    device = assign board.bus (channel_registers m) active (flag b) s;
    known = refl;
    ran =
        rw
          (
            ==-false m.drivers.dma 0 (omega (arith, d.dma)),
            lt→ltb m.raspdif.dma_channel dma_channel_max d.channel,
          )
          refl;
    same = assign-kept held board u (channel_registers m) active (flag b) s;
  }

  pub pcm-Yields :
      (b : Bool) (s : S)
      → Yields held m
          (enable_pcm board calls b)
          s
          (λ _ s'. s' ≡ assign_all board.bus m.drivers.pcm (enabling b) s)
  unfolding enable_pcm bcm283x_pcm_enable
  pcm-Yields b s = record {
    result = tt;
    known = refl;
    device = assign_all board.bus m.drivers.pcm (enabling b) s;
    ran = refl;
    same = assign_all-kept held board u m.drivers.pcm (enabling b) s;
  }

  pub sleep-Yields :
      IsKept calls held
      → (delay : ℕ) (s : S) → delay < 1_000_000
      → Yields held m (microsleep board calls delay) s (λ _ s'. s' ≡ calls.sleeps (delay * 1000) s)
  unfolding microsleep
  sleep-Yields kept delay s short = record {
    result = tt;
    known = refl;
    device = calls.sleeps (delay * 1000) s;
    ran = rw (lt→ltb delay 1_000_000 short) refl;
    same = kept.sleeps (delay * 1000) s;
  }

  pub read-Yields :
      IsKept calls held
      → (format : Format) (s : S)
      → Yields held m
          (read_pair board calls format)
          s
          (λ r s'. ((r, s') ≡ calls.reads (sample_size format) s) × All IsByte r.bytes)
  unfolding read_pair
  read-Yields kept format s =
      map-Yields held m
        (λ r s' e.
          (e, subst (λ x. All IsByte x.0.bytes) (sym e) (kept.bytes (sample_size format) s)))
        (query-Yields held m (calls.reads (sample_size format)) (kept.reads (sample_size format)) s)

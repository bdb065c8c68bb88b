-- ===== src/Pcm/Configure.antt =====
-- What the settings of the PCM serialiser are, for registers that are read as they were written, and
-- that its handshake ends.
use raspdif.Prelude.{
  ℕ, zero, suc, ◌+◌, ◌-◌, ◌*◌, ◌^◌, ◌%◌, ◌<◌, ◌≤◌, ◌≡◌, ◌≢◌, refl, ap, ◌∙◌, arith,
}
use raspdif.Prelude.{
  Bool, true, false, leb, ==-true, ==-false, List, [], ◌∷◌, All, some, none, bit_and, u32,
}
use raspdif.Bits.{bit_and_mask}
use raspdif.Registers.{Field, bit_at, get, put, Bus, assign, assign_all, Driven, returned}
use raspdif.Pcm.{PcmChannelConfig, PcmConfiguration, bits_at, one_if, channel_fields, mode_fields}
use raspdif.Pcm.{sync, ftxp, frxp, mode_a, txc_a, wait_sync, bcm283x_pcm_sync}
use raspdif.Pcm.{bcm283x_pcm_configure_channels, bcm283x_pcm_configure_transmit_channels}
use raspdif.Pcm.{bcm283x_pcm_configure_mode}

one_if-lt : (b : Bool) → one_if b < 2
one_if-lt true = omega arith
one_if-lt false = omega arith

-- The assignments on a word.
abbrev put_all : List (Field × ℕ) → ℕ → ℕ
put_all [] word = word
put_all ((f, v) ∷ rest) word = put_all rest (put f v word)

-- The channel fields of a register half, at `low`: the coded width is 8 more than its five bits, whose
-- highest is apart.
pub record Carries (low : ℕ) (c : PcmChannelConfig) (word : ℕ) : Type 0 where
  pub enabled : get (bit_at (low + 14)) word ≡ 1
  pub position : get (bits_at (low + 4) 10) word ≡ c.position
  pub width : get (bits_at low 4) word + 16 * get (bit_at (low + 15)) word + 8 ≡ c.width

width_low : (w : ℕ) → 8 ≤ w → w < 40 → bit_and (u32 (2 ^ 32 + w - 8)) 0xF ≡ (w - 8) % 16
width_low w h k = bit_and_mask 4 (u32 (2 ^ 32 + w - 8)) ∙ omega arith

wide_lem : (w : ℕ) → 8 ≤ w → w < 40 → (w - 8) % 16 + 16 * one_if (leb 24 w) + 8 ≡ w
wide_lem w h k = ground arith

first_channel :
    (c : PcmChannelConfig) (word : ℕ)
    → c.position < 1024
    → 8 ≤ c.width
    → c.width < 40
    → let word' = put_all (channel_fields 0 none) (put_all (channel_fields 16 (some c)) word) in
      Carries 16 c word' × (get (bit_at 14) word' ≡ 0)
first_channel c word p l u = rw (width_low c.width l u) (
  record {
    enabled = omega (arith, one_if-lt (leb 24 c.width));
    position = omega (arith, one_if-lt (leb 24 c.width));
    width = omega (arith, one_if-lt (leb 24 c.width), wide_lem c.width l u);
  },
  omega arith,
)

-- An assignment to `f` leaves `g` alone, whatever is assigned.
abbrev Leaves : Field → Field × ℕ → Type 0
Leaves g (f, _) = (v word : ℕ) → get g (put f v word) ≡ get g word

put_all-Leaves :
    (g : Field) (fields : List (Field × ℕ)) (word : ℕ)
    → All (Leaves g) fields
    → get g (put_all fields word) ≡ get g word
put_all-Leaves g [] word h = refl
put_all-Leaves g ((f, v) ∷ rest) word h = put_all-Leaves g rest (put f v word) h.1 ∙ h.0 v word

mode_fields-Leaves : (config : PcmConfiguration) → All (Leaves frxp) (mode_fields config)
mode_fields-Leaves config = (
  λ v w. omega arith,
  (
    λ v w. omega arith,
    (
      λ v w. omega arith,
      (
        λ v w. omega arith,
        (
          λ v w. omega arith,
          (
            λ v w. omega arith,
            (
              λ v w. omega arith,
              (
                λ v w. omega arith,
                (λ v w. omega arith, (λ v w. omega arith, (λ v w. omega arith, tt))),
              ),
            ),
          ),
        ),
      ),
    ),
  ),
)

-- Both packing modes go to `FTXP`.
packing :
    (config : PcmConfiguration) (word : ℕ)
    → let word' = put_all (mode_fields config) word in
      (get ftxp word' ≡ one_if config.rx_packed) × (get frxp word' ≡ get frxp word)
packing config word = (
  omega (arith, one_if-lt config.rx_packed),
  put_all-Leaves frxp (mode_fields config) word (mode_fields-Leaves config),
)

module _ {S : Type 0} (bus : Bus S) where
  -- A register that is read as it was written last.
  abbrev pub Keeps : ℕ → Type 0
  Keeps address = (v : ℕ) (s : S) → (bus.read address (bus.write address v s)).0 ≡ v

  read-assign_all :
      (address : ℕ) (fields : List (Field × ℕ)) (s : S)
      → Keeps address
      → (bus.read address (assign_all bus address fields s)).0
        ≡ put_all fields (bus.read address s).0
  read-assign_all address [] s kept = refl
  read-assign_all address ((f, v) ∷ rest) s kept =
      read-assign_all address rest (assign bus address f v s) kept
      ∙ ap (put_all rest) (kept (put f v (bus.read address s).0) (bus.read address s).1)

  module _ (base : ℕ) (delay : S → S) where
    -- With a register that is read as written, configuring one transmit channel leaves it enabled at
    -- its position, with a width that the hardware reads as the one asked for, and the second channel
    -- off. Positions must be below 1024 and widths from 8 to 39.
    pub pcm_configure_transmit_channels-Carries :
        (c : PcmChannelConfig) (s : S)
        → Keeps (base + txc_a)
        → c.position < 1024
        → 8 ≤ c.width
        → c.width < 40
        → let word =
            (bus.read
              (base + txc_a)
              (bcm283x_pcm_configure_transmit_channels bus base delay (some c) none s)).0 in
          Carries 16 c word × (get (bit_at 14) word ≡ 0)
    unfolding bcm283x_pcm_configure_transmit_channels bcm283x_pcm_configure_channels
    pcm_configure_transmit_channels-Carries c s kept p l u =
        let first = assign_all bus (base + txc_a) (channel_fields 16 (some c)) s in
        rw
          (
            read-assign_all (base + txc_a) (channel_fields 0 none) first kept,
            read-assign_all (base + txc_a) (channel_fields 16 (some c)) s kept,
          )
          (first_channel c (bus.read (base + txc_a) s).0 p l u)

    -- With a mode register that is read as written, the transmit packing bit ends as the receive mode
    -- asks, whatever the transmit mode is, and the receive packing bit stays as it was.
    pub receive_packing_overwrites :
        (config : PcmConfiguration) (s : S)
        → Keeps (base + mode_a)
        → let s1 = bcm283x_pcm_configure_mode bus base delay config s in
          (get ftxp (bus.read (base + mode_a) s1).0 ≡ one_if config.rx_packed)
          × (get frxp (bus.read (base + mode_a) s1).0 ≡ get frxp (bus.read (base + mode_a) s).0)
    unfolding bcm283x_pcm_configure_mode
    receive_packing_overwrites config s kept =
        rw (read-assign_all (base + mode_a) (mode_fields config) s kept)
          (packing config (bus.read (base + mode_a) s).0)

    -- The bit is read `n` times with the other value and then with `value`.
    abbrev pub Echoes : ℕ → ℕ → S → Type 0
    Echoes value zero s = get sync (bus.read base s).0 ≡ value
    Echoes value (suc n) s =
        (get sync (bus.read base s).0 ≢ value) × Echoes value n (bus.read base s).1

    abbrev pub echoed : ℕ → S → S
    echoed zero s = (bus.read base s).1
    echoed (suc n) s = echoed n (bus.read base s).1

    wait_sync-returns :
        (fuel n value : ℕ) (s : S) (next : S → Driven S)
        → n < fuel
        → Echoes value n s
        → wait_sync bus base delay fuel value s next ≡ next (echoed n s)
    unfolding wait_sync
    wait_sync-returns zero n value s next room h = absurd (omega arith)
    wait_sync-returns (suc fuel) zero value s next room h =
        rw (==-true (get sync (bus.read base s).0) value h) refl
    wait_sync-returns (suc fuel) (suc n) value s next room h =
        rw (==-false (get sync (bus.read base s).0) value h.0)
          (wait_sync-returns fuel n value (bus.read base s).1 next (omega arith) h.1)

    -- If hardware echoes each value of the bit after at most so many readings as there is fuel, the
    -- handshake ends, after the bit was written as 0, seen as 0, written as 1 and seen as 1.
    pub pcm_sync-returns :
        (fuel n m : ℕ) (s : S)
        → n < fuel
        → m < fuel
        → Echoes 0 n (assign bus base sync 0 s)
        → Echoes 1 m (assign bus base sync 1 (echoed n (assign bus base sync 0 s)))
        → bcm283x_pcm_sync bus base delay fuel s
          ≡ returned (echoed m (assign bus base sync 1 (echoed n (assign bus base sync 0 s))))
    unfolding bcm283x_pcm_sync
    pcm_sync-returns fuel n m s hn hm zero_seen one_seen =
        wait_sync-returns fuel n 0 (assign bus base sync 0 s) _ hn zero_seen
        ∙ wait_sync-returns fuel m 1 (assign bus base sync 1 (echoed n (assign bus base sync 0 s)))
            returned hm one_seen

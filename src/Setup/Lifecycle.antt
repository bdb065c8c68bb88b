-- ===== src/Setup/Lifecycle.antt =====
-- `raspdif_init` on hardware and firmware that do what they document.
use raspdif.Prelude.{ℕ, ◌<◌, ◌≡◌, refl, ap, ◌∙◌, List, ◌∷◌}
use raspdif.ControlBlocks.{generate_dma_control_blocks}
use raspdif.Dma.{dma_channel_max}
use mathlib.Core.Path.{subst}
use raspdif.Prelude.{sym}
use raspdif.Program.{Machine, done, exits, on_device}
use raspdif.Program.{Program, ◌>>◌}
use raspdif.Setup.{Board, Doubles, bcm283x_init, set_raspdif_channel}
use raspdif.Setup.Raspdif.{clock_divisor, raspdif_init, prepare_control, prepare_dma}
use raspdif.Setup.Working.{IsWorking, MapsControl, RefusesControl, HasRoom, initialised, fresh}
use raspdif.Setup.Working.{bcm283x_init-done, prepare_control-done, prepare_control-exits}
use raspdif.Setup.Calls.{Initialised}
use raspdif.Setup.Calls.{
  prepare_dma-Stays, prepare_clock-runs, prepare_pcm-Stays, prepare_gpio-Stays,
}

module _ {S : Type 0} (board : Board S) (held : S → List ℕ) (peripherals : ℕ)
    (w : IsWorking board held peripherals) where
  roomy : {s t : S} → held s ≡ held t → HasRoom board held (held t) → HasRoom board held (held s)
  roomy same room = subst (HasRoom board held) (sym same) room

  module _ {R : Type 0} (doubles : Doubles R) (rate : R) where
    -- On hardware and firmware that do what they document, where /dev/mem opens and maps the
    -- peripherals, with room for the control structure, and where no driver is initialised: if
    -- the mapping of the control structure is refused, raspdif_init exits, and the block of
    -- memory that it was granted is still held.
    pub map_failure_holds :
        (channel : ℕ) (m : Machine S)
        → HasRoom board held (held m.host.device)
        → RefusesControl board held
        → (handle : ℕ) × (m' : Machine S) × (raspdif_init board doubles channel rate (fresh m)
            ≡ (exits, m'))
          × (held m'.host.device ≡ handle ∷ held m.host.device)
    unfolding raspdif_init
    map_failure_holds channel m room refuses =
        let (s1, started, same) = bcm283x_init-done board held peripherals w m in
        let m1 : Machine S = on_device s1 (record m { drivers = initialised peripherals }) in
        let m2 : Machine S = record m1 { raspdif = record m1.raspdif { dma_channel = channel } } in
        let (handle, m', exited, kept) =
          prepare_control-exits board held peripherals w refuses m2 (roomy same room) in
        (handle, m', rw (started, exited) refl, kept ∙ ap (λ l. handle ∷ l) same)

    -- The initialisation as far as DMA.
    abbrev pub prepare : ℕ → Program S Unit
    prepare channel =
        bcm283x_init board
        >> set_raspdif_channel channel
        >> prepare_control board
        >> prepare_dma board

    pub prepare-Initialised :
        (channel : ℕ)
        → channel < dma_channel_max
        → MapsControl board held
        → (m : Machine S) → HasRoom board held (held m.host.device)
        → (m' : Machine S) × (prepare channel (fresh m) ≡ (done tt, m'))
          × Initialised board held peripherals w channel (held m.host.device) m'
          × (m'.handled ≡ m.handled)
    prepare-Initialised channel in_range maps m room =
        let (s1, started, same) = bcm283x_init-done board held peripherals w m in
        let m1 : Machine S = on_device s1 (record m { drivers = initialised peripherals }) in
        let m2 : Machine S = record m1 { raspdif = record m1.raspdif { dma_channel = channel } } in
        let (h, memory, virtual, prepared, kept, placed) =
          prepare_control-done board held peripherals w maps m2 (roomy same room) in
        let m3 : Machine S = record m2 {
          host = h;
          raspdif = record m2.raspdif { memory = memory; bus = memory.address; virtual = virtual };
          blocks = generate_dma_control_blocks memory.address;
        } in
        let holding = kept ∙ ap (λ l. memory.handle ∷ l) same in
        let ready : Initialised board held peripherals w channel (held m.host.device) m3 = record {
          dma_channel = refl;
          bus = refl;
          placed = placed;
          ring = refl;
          memory = holding;
          drivers = refl;
        } in
        let (s4, dma, h4) =
          (prepare_dma-Stays board held peripherals w channel in_range ready).runs h.device
            holding in
        (
          on_device s4 m3,
          rw (started, prepared, dma) refl,
          record {
            dma_channel = refl;
            bus = refl;
            placed = placed;
            ring = refl;
            memory = h4;
            drivers = refl;
          },
          refl,
        )

    pub raspdif_init-Initialised :
        (channel : ℕ)
        → channel < dma_channel_max
        → (let (divi, divf) = clock_divisor board doubles rate in
            (0 < divi) × (divi < 4096) × (divf < 4096))
        → MapsControl board held
        → (m : Machine S) → HasRoom board held (held m.host.device)
        → (m' : Machine S) × (raspdif_init board doubles channel rate (fresh m) ≡ (done tt, m'))
          × Initialised board held peripherals w channel (held m.host.device) m'
    unfolding raspdif_init
    raspdif_init-Initialised channel in_range divisor maps m room =
        let (m4, prepared, ready, handlers) = prepare-Initialised channel in_range maps m room in
        let s4 = m4.host.device in
        let (s5, clock, h5) =
          prepare_clock-runs board held peripherals w channel in_range ready doubles rate divisor s4
            ready.memory in
        let (s6, pcm, h6) =
          (prepare_pcm-Stays board held peripherals w channel in_range ready).runs s5 h5 in
        let (s7, gpio, h7) =
          (prepare_gpio-Stays board held peripherals w channel in_range ready).runs s6
            (ap (λ x. x.0) h6) in
        (
          on_device s7 m4,
          rw (prepared, clock, pcm, gpio) refl,
          record {
            dma_channel = ready.dma_channel;
            bus = ready.bus;
            placed = ready.placed;
            ring = ready.ring;
            memory = h7;
            drivers = ready.drivers;
          },
        )

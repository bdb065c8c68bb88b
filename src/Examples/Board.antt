-- ===== src/Examples/Board.antt =====
-- A small machine: its registers, firmware and mappings, and that it does what it is asked to.
use raspdif.Prelude.{
  ℕ, ◌+◌, ◌*◌, ◌%◌, ◌≡◌, refl, ap, ◌∙◌, arith, inl, inr, Bool-cases, Bool, true, false,
}
use raspdif.Prelude.{◌==◌, if◌then◌else◌, List, ◌∷◌, drop, some, none}
use raspdif.Registers.{Bus, get}
use raspdif.Clock.{enab, passwd}
use raspdif.Prelude.{◌&&◌, ◌≢◌, ◌⊎◌}
use raspdif.Registers.Fields.{get-put_self}
use raspdif.Clock.{busy}
use raspdif.Clock.Configure.{Idles}
use raspdif.Pcm.{sync}
use raspdif.Mailbox.{Vcio}
use raspdif.Memory.Firmware.{IsFirmware}
use raspdif.ControlBlocks.{control_bytes}
use raspdif.Setup.{Board, Mapping}
use raspdif.Setup.Working.{IsWorking, HasRoom}
use raspdif.Examples.Devices.{small_ioctl}
use raspdif.Examples.Blocks.{bus_base-IsPlaced}

-- The blocks that are allocated, whether the clock of PCM runs, the control words of PCM and of DMA
-- channel 13, the pairs that the file still has, and the steps of DMA through the ring. All other
-- registers read as 0.
pub record Device : Type 0 where
  pub blocks : List ℕ
  pub clock : Bool
  pub control : ℕ
  pub status : ℕ
  pub pending : ℕ
  pub steps : ℕ

abbrev pub device_blocks : Device → List ℕ
device_blocks d = d.blocks

abbrev pub pcm_registers : ℕ
pcm_registers = 0x6020_3000

abbrev pub channel_registers : ℕ
channel_registers = 0x6000_7D00

abbrev pub conblk_register : ℕ
conblk_register = 0x6000_7D04

abbrev pub clock_register : ℕ
clock_register = 0x6010_1098

-- DMA goes round the three blocks.
abbrev pub conblk : ℕ → ℕ
conblk steps = 0xC000_0000 + steps % 3 * 32

-- A clock that runs is busy; a write with the password starts or stops it.
abbrev pub device_bus : Bus Device
device_bus = record {
  read = λ address d. (
    if address == pcm_registers
        then d.control
        else (if address == channel_registers
            then d.status
            else (if address == conblk_register
                then conblk d.steps
                else (if (address == clock_register) && d.clock then 0x80 else 0))),
    d,
  );
  write = λ address v d.
      if address == pcm_registers
      then record d { control = v }
      else if address == channel_registers
      then record d { status = v }
      else if (address == clock_register) && (get passwd v == 0x5A)
      then record d { clock = get enab v == 1 }
      else d;
}

abbrev pub device_vcio : Vcio Device
device_vcio = record {
  opens = λ d. true;
  ioctl = λ message d.
      let r = small_ioctl true message d.blocks in
      record { accepted = r.accepted; buffer = r.buffer; device = record d { blocks = r.device } };
}

-- The peripherals are mapped; the control structure is mapped or not.
abbrev device_maps : Bool → Mapping Device
device_maps granted = record {
  opens = λ d. (true, d);
  maps = λ offset length d. (
    if length == control_bytes
        then (if granted then some 0x7000_0000 else none)
        else some 0x6000_0000,
    d,
  );
  closes = λ d. d;
  maps_anonymous = λ length d. (none, d);
}

abbrev pub board : Bool → Board Device
board granted = record {
  bus = device_bus;
  pcm_delay = λ d. d;
  gpio_delay = λ d. d;
  vcio = device_vcio;
  mapping = device_maps granted;
  page_size = 4096;
  peripheral_address = 0x2000_0000;
  peripheral_size = 0x100_0000;
  sdram_address = 0xC000_0000;
  is_pi4 = false;
  fuel = 1;
}

device-IsFirmware : IsFirmware device_vcio device_blocks
device-IsFirmware = record {
  opens = λ d. refl;
  allocates = λ size alignment flags d. inr (
    7,
    record { accepted = refl; processed = refl; tag_processed = refl; value = refl },
    omega arith,
    refl,
  );
  locks = λ handle d. refl;
  unlocks = λ handle others d e.
      (record { accepted = refl; processed = refl; tag_processed = refl; value = refl }, refl);
  releases = λ handle others d e. (
    record { accepted = refl; processed = refl; tag_processed = refl; value = refl },
    ap (drop 1) e,
  );
}

-- What no register holds.
abbrev pub others : Device → List ℕ × ℕ × ℕ
others d = (d.blocks, d.pending, d.steps)

left_test : (a b : ℕ) (c : Bool) → ((a == b) && c) ≡ true → a ≡ b
left_test a b c h = ground arith

-- A write goes to one of the three registers, or nowhere.
module _ (granted : Bool) (a v : ℕ) (d : Device) where
  abbrev written : Device
  written = (board granted).bus.write a v d

  write-cases :
      (written ≡ record d { control = v })
      ⊎ ((written ≡ record d { status = v })
          ⊎ (((a ≡ clock_register) × (written ≡ record d { clock = get enab v == 1 }))
              ⊎ (written ≡ d)))
  write-cases = elim (Bool-cases (a == pcm_registers)) [
    | inl here ↦ inl (rw here refl)
    | inr elsewhere ↦ elim (Bool-cases (a == channel_registers)) [
      | inl there ↦ inr (inl (rw (elsewhere, there) refl))
      | inr nowhere ↦ elim (Bool-cases ((a == clock_register) && (get passwd v == 0x5A))) [
        | inl clocked ↦ inr (
            inr (inl (left_test a clock_register _ clocked, rw (elsewhere, nowhere, clocked) refl)))
        | inr none_of_them ↦ inr (inr (inr (rw (elsewhere, nowhere, none_of_them) refl)))
      ]
    ]
  ]

  pub others-write : others written ≡ others d
  others-write = elim write-cases [
    | inl e ↦ ap others e
    | inr (inl e) ↦ ap others e
    | inr (inr (inl (there, e))) ↦ ap others e
    | inr (inr (inr e)) ↦ ap others e
  ]

  clock-write : a ≢ clock_register → written.clock ≡ d.clock
  clock-write h = elim write-cases [
    | inl e ↦ ap (λ x. x.clock) e
    | inr (inl e) ↦ ap (λ x. x.clock) e
    | inr (inr (inl (there, e))) ↦ absurd (h there)
    | inr (inr (inr e)) ↦ ap (λ x. x.clock) e
  ]

-- The clock's register after a word with the password.
clock-switched :
    (v : ℕ) (d : Device)
    → get passwd v ≡ 0x5A
    → device_bus.write clock_register v d ≡ record d { clock = get enab v == 1 }
clock-switched v d h = rw h refl

clock-stopped :
    (v : ℕ) (d : Device)
    → get enab v ≡ 0
    → get passwd v ≡ 0x5A
    → (device_bus.read clock_register (device_bus.write clock_register v d)).0 ≡ 0
clock-stopped v d off h = rw (clock-switched v d h, off) refl

idle_at :
    (v : ℕ) (d : Device)
    → get enab v ≡ 0
    → get passwd v ≡ 0x5A
    → Idles device_bus clock_register clock_register 0 (device_bus.write clock_register v d)
idle_at v d off h = ap (get busy) (clock-stopped v d off h)

pub board-IsWorking : (granted : Bool) → IsWorking (board granted) device_blocks 0x6000_0000
board-IsWorking granted = record {
  firmware = device-IsFirmware;
  opens = λ d. (refl, refl);
  mapped = omega arith;
  maps_peripherals = λ d. (refl, refl);
  closes = λ d. refl;
  untouched = record {
    by_read = λ a d. refl;
    by_write = λ a v d. ap (λ x. x.0) (others-write granted a v d);
    by_pcm_delay = λ d. refl;
    by_gpio_delay = λ d. refl;
  };
  clock_idles = λ v d off h. (0, omega arith, idle_at v d off h);
  ticking = λ d. d.clock;
  starts = λ v d on h. ap (λ x. x.clock) (clock-switched v d h) ∙ ap (λ n. n == 1) on;
  ticks_by_read = λ a d. refl;
  ticks_by_write = λ a v d. clock-write granted a v d;
  ticks_by_delay = λ d. refl;
  sync_echoes = λ v d runs small. (0, omega arith, get-put_self sync v d.control ∙ omega arith);
}

pub board-HasRoom :
    (granted : Bool) (before : List ℕ) → HasRoom (board granted) device_blocks before
board-HasRoom granted before = record {
  grants = λ d e. (
    7,
    record { accepted = refl; processed = refl; tag_processed = refl; value = refl },
    omega arith,
    ap (λ l. 7 ∷ l) e,
  );
  locks = λ handle d e. (
    0xC000_0000,
    record { accepted = refl; processed = refl; tag_processed = refl; value = refl },
    omega arith,
    bus_base-IsPlaced,
  );
}

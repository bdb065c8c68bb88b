-- ===== src/Examples/Devices.antt =====
-- The mailbox, the memory and the register drivers at concrete inputs, with small devices.
use raspdif.Prelude.{ℕ, zero, suc, ◌≡◌, refl, ap, arith, inr, Bool, true, false}
use raspdif.Prelude.{◌==◌, if◌then◌else◌, List, [], ◌∷◌, drop, get_or, ◌⊎◌}
use raspdif.Registers.{Bus, get}
use raspdif.Clock.{enab}
use raspdif.Host.{Host, ok}
use raspdif.Mailbox.{Vcio, Ioctl, negative, mailbox_get_dma_channel_mask}
use raspdif.Mailbox.Messages.{IsLawful, physical-IsLawful}
use raspdif.Memory.{PhysicalMemory, memory_allocate_physical, memory_release_physical}
use raspdif.Memory.Firmware.{IsFirmware, release-allocate, lock_failure_holds}
use raspdif.Clock.{ClockConfiguration}

abbrev reply : ℕ → ℕ → List ℕ
reply code value = 28 ∷ 0x8000_0000 ∷ 0 ∷ 4 ∷ code ∷ value ∷ 0 ∷ []

-- Firmware that gives every block the handle 7, and locks at an address or not at all.
abbrev pub small_ioctl : Bool → List ℕ → List ℕ → Ioctl (List ℕ)
small_ioctl locking message held =
    let tag = get_or message 2 0 in
    if tag == 0x0003_000c
    then record { accepted = true; buffer = reply 0x8000_0004 7; device = 7 ∷ held }
    else if tag == 0x0003_000d
    then record {
      accepted = true;
      buffer = reply (if locking then 0x8000_0004 else 0) 0xC000_0000;
      device = held;
    }
    else if tag == 0x0003_000f
    then record { accepted = true; buffer = reply 0x8000_0004 0; device = drop 1 held }
    else record { accepted = true; buffer = reply 0x8000_0004 0; device = held }

abbrev small_vcio : Bool → Vcio (List ℕ)
small_vcio locking = record { opens = λ _. true; ioctl = small_ioctl locking }

small-IsFirmware : (locking : Bool) → IsFirmware (small_vcio locking) (λ held. held)
small-IsFirmware locking = record {
  opens = λ s. refl;
  allocates = λ size alignment flags s. inr (
    7,
    record { accepted = refl; processed = refl; tag_processed = refl; value = refl },
    omega arith,
    refl,
  );
  locks = λ handle s. refl;
  unlocks = λ handle others s e.
      (record { accepted = refl; processed = refl; tag_processed = refl; value = refl }, refl);
  releases = λ handle others s e. (
    record { accepted = refl; processed = refl; tag_processed = refl; value = refl },
    ap (drop 1) e,
  );
}

abbrev fresh_host : Host (List ℕ)
fresh_host = record { device = 5 ∷ []; sent = [] }

release-allocate_example :
    (memory : PhysicalMemory) × (h1 : Host (List ℕ)) × (memory_allocate_physical
        (small_vcio true)
        4096
        98400
        fresh_host
      ≡ (ok memory, h1))
    × (((negative memory.handle ≡ true) × (memory.address ≡ 0) × (h1.device ≡ 5 ∷ []))
        ⊎ (let (result, h2) = memory_release_physical (small_vcio true) memory h1 in
            (result ≡ ok 0) × (h2.device ≡ 5 ∷ [])))
release-allocate_example =
    release-allocate (small_vcio true) (λ held. held) (small-IsFirmware true) 4096 98400 fresh_host

lock_failure_holds_example :
    (h2 : Host (List ℕ)) × (memory_allocate_physical (small_vcio false) 4096 98400 fresh_host
      ≡ (ok (record { handle = 7; address = 0 }), h2))
    × (h2.device ≡ 7 ∷ 5 ∷ [])
lock_failure_holds_example =
    lock_failure_holds (small_vcio false) (λ held. held) (small-IsFirmware false) 4096 98400 7
      fresh_host (record { accepted = refl; processed = refl; tag_processed = refl; value = refl })
      (omega arith) refl (inr refl)

abbrev block_7 : PhysicalMemory
block_7 = record { handle = 7; address = 0xC000_0000 }

physical-IsLawful_example :
    IsLawful (memory_allocate_physical (small_vcio true) 4096 98400 fresh_host).1
    × IsLawful (memory_release_physical (small_vcio true) block_7 fresh_host).1
    × IsLawful (mailbox_get_dma_channel_mask (small_vcio true) fresh_host).1
physical-IsLawful_example = physical-IsLawful (small_vcio true) 4096 98400 block_7 fresh_host tt

-- A clock that is busy for two readings after a write that stops it, and for long after another.
abbrev busy_read : ℕ → ℕ × ℕ
busy_read zero = (0, zero)
busy_read (suc n) = (0x80, n)

abbrev clock_bus : Bus ℕ
clock_bus = record {
  read = λ _ n. busy_read n;
  write = λ _ v _. if get enab v == 0 then 2 else 100;
}

-- 44.1 kHz from 500 MHz: 88 and 2365 of 4096.
abbrev clock_config : ClockConfiguration
clock_config = record { source = 6; mash_filter = 1; invert = false; integer = 88; fraction = 2365 }

-- One register that keeps what is written.
abbrev cell_bus : Bus ℕ
cell_bus = record { read = λ _ v. (v, v); write = λ _ v _. v }

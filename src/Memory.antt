-- ===== src/Memory.antt =====
-- The memory that DMA reads: source/memory.c and include/memory.h.
pub mod Firmware
use raspdif.Prelude.{ℕ, if◌then◌else◌, bit_or}
use raspdif.Host.{Action, pure, ◌>>=◌}
use raspdif.Mailbox.{Vcio, minus_one, negative, mem_flag_direct, mem_flag_zero_init}
use raspdif.Mailbox.{mailbox_allocate_memory, mailbox_lock_memory, mailbox_unlock_memory}
use raspdif.Mailbox.{mailbox_release_memory}

-- `memory_physical_t`; the handle is the pattern of an `int32_t`.
pub record PhysicalMemory : Type 0 where
  pub handle : ℕ
  pub address : ℕ

module _ {S : Type 0} (vcio : Vcio S) where
  -- `page_size` is `sysconf(_SC_PAGE_SIZE)`.
  unfoldable pub memory_allocate_physical : ℕ → ℕ → Action S PhysicalMemory
  memory_allocate_physical page_size size =
      mailbox_allocate_memory vcio size page_size (bit_or mem_flag_direct mem_flag_zero_init)
      >>= λ handle.
          if negative handle
          then pure (record { handle = handle; address = 0 })
          else (mailbox_lock_memory vcio handle >>= λ address.
              pure (record { handle = handle; address = address }))

  unfoldable pub memory_release_physical : PhysicalMemory → Action S ℕ
  memory_release_physical memory = mailbox_unlock_memory vcio memory.handle >>= λ unlocked.
      if negative unlocked
      then pure unlocked
      else (mailbox_release_memory vcio memory.handle >>= λ released.
          pure (if negative released then released else 0))

-- ===== src/Mailbox/Messages.antt =====
-- The form that the firmware asks of a message, for all messages of source/mailbox.c and
-- source/memory.c.
use raspdif.Prelude.{ℕ, ◌+◌, ◌-◌, ◌*◌, ◌≡◌, refl, Bool-cases, inl, inr}
use raspdif.Prelude.{List, length, get_or, All}
use raspdif.Host.{Outcome, ok, exited, Host, Action, or_exit, pure}
use raspdif.Mailbox.{
  Vcio, allocate_request, one_value_request, TagId, mailbox_send, negative, minus_one, or_else,
  answered,
}
use raspdif.Mailbox.{get_dma_channels, lock_memory, unlock_memory, release_memory}
use raspdif.Mailbox.{mailbox_allocate_memory, mailbox_lock_memory, mailbox_unlock_memory}
use raspdif.Mailbox.{mailbox_release_memory, mailbox_get_dma_channel_mask}
use raspdif.Memory.{PhysicalMemory, memory_allocate_physical, memory_release_physical}

-- A request of one tag: the first word is the size in bytes, the tag's length that of its values
-- (all but six words), both codes are 0, and so is the last word.
pub record IsMessage (m : List ℕ) : Type 0 where
  pub size : get_or m 0 0 ≡ 4 * length m
  pub values : get_or m 3 0 + 24 ≡ 4 * length m
  pub requests : (get_or m 1 0 ≡ 0) × (get_or m 4 0 ≡ 0)
  pub ends : get_or m (length m - 1) 0 ≡ 0

allocate_request-IsMessage : (s a f : ℕ) → IsMessage (allocate_request s a f)
allocate_request-IsMessage s a f = record {
  size = refl;
  values = refl;
  requests = (refl, refl);
  ends = refl;
}

one_value_request-IsMessage : (t : TagId) (v : ℕ) → IsMessage (one_value_request t v)
one_value_request-IsMessage t v = record {
  size = refl;
  values = refl;
  requests = (refl, refl);
  ends = refl;
}

-- Every message sent so far is well-formed.
abbrev pub IsLawful : {S : Type 0} → Host S → Type 0
IsLawful h = All IsMessage h.sent

module _ {S : Type 0} {A B : Type 0} where
  or_exit-IsLawful :
      (x : Outcome A × Host S) (f : A → Action S B)
      → IsLawful x.1
      → ((a : A) (h : Host S) → IsLawful h → IsLawful (f a h).1)
      → IsLawful (or_exit x f).1
  or_exit-IsLawful (ok a, h) f lawful k = k a h lawful
  or_exit-IsLawful (exited, h) f lawful k = lawful

module _ {S : Type 0} (vcio : Vcio S) where
  send-IsLawful :
      (m : List ℕ) (h : Host S) → IsMessage m → IsLawful h → IsLawful (mailbox_send vcio m h).1
  unfolding mailbox_send
  send-IsLawful m h good lawful = elim (Bool-cases (vcio.opens h.device)) [
    | inl e ↦ rw e (good, lawful)
    | inr e ↦ rw e lawful
  ]

  -- One request and its answer.
  call-IsLawful :
      (d : ℕ) (m : List ℕ) (h : Host S)
      → IsMessage m
      → IsLawful h
      → IsLawful (or_exit (mailbox_send vcio m h) (λ r. pure (or_else d (answered vcio r)))).1
  call-IsLawful d m h good lawful =
      or_exit-IsLawful (mailbox_send vcio m h) (λ r. pure (or_else d (answered vcio r)))
        (send-IsLawful m h good lawful) (λ a h' l. l)

  allocate-IsLawful :
      (page_size size : ℕ) (h : Host S)
      → IsLawful h
      → IsLawful (memory_allocate_physical vcio page_size size h).1
  unfolding memory_allocate_physical mailbox_allocate_memory mailbox_lock_memory
  allocate-IsLawful page_size size h lawful =
      or_exit-IsLawful (mailbox_allocate_memory vcio size page_size 20 h) _
        (call-IsLawful minus_one (allocate_request size page_size 20) h
          (allocate_request-IsMessage size page_size 20) lawful)
        (λ handle h' l. elim (Bool-cases (negative handle)) [
          | inl e ↦ rw e l
          | inr e ↦ rw e (
              or_exit-IsLawful (mailbox_lock_memory vcio handle h') _
                (call-IsLawful 0 (one_value_request lock_memory handle) h'
                  (one_value_request-IsMessage lock_memory handle) l)
                (λ a h'' k. k))
        ])

  release-IsLawful :
      (memory : PhysicalMemory) (h : Host S)
      → IsLawful h
      → IsLawful (memory_release_physical vcio memory h).1
  unfolding memory_release_physical mailbox_unlock_memory mailbox_release_memory
  release-IsLawful memory h lawful =
      or_exit-IsLawful (mailbox_unlock_memory vcio memory.handle h) _
        (call-IsLawful minus_one (one_value_request unlock_memory memory.handle) h
          (one_value_request-IsMessage unlock_memory memory.handle) lawful)
        (λ unlocked h' l. elim (Bool-cases (negative unlocked)) [
          | inl e ↦ rw e l
          | inr e ↦ rw e (
              or_exit-IsLawful (mailbox_release_memory vcio memory.handle h') _
                (call-IsLawful minus_one (one_value_request release_memory memory.handle) h'
                  (one_value_request-IsMessage release_memory memory.handle) l)
                (λ a h'' k. k))
        ])

  -- If the messages sent so far are well-formed, then whatever the device answers, an allocation, a release and the question for the DMA channels
  -- send only well-formed messages.
  pub physical-IsLawful :
      (page_size size : ℕ) (memory : PhysicalMemory) (h : Host S)
      → IsLawful h
      → IsLawful (memory_allocate_physical vcio page_size size h).1
        × IsLawful (memory_release_physical vcio memory h).1
        × IsLawful (mailbox_get_dma_channel_mask vcio h).1
  unfolding mailbox_get_dma_channel_mask
  physical-IsLawful page_size size memory h lawful = (
    allocate-IsLawful page_size size h lawful,
    release-IsLawful memory h lawful,
    call-IsLawful minus_one (one_value_request get_dma_channels 0) h
        (one_value_request-IsMessage get_dma_channels 0) lawful,
  )

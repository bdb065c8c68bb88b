-- ===== src/Memory/Firmware.antt =====
-- Allocation and release against what the firmware documents of its memory tags.
use raspdif.Prelude.{ℕ, ◌^◌, ◌<◌, ◌≡◌, ◌⊎◌, inl, inr, refl, ◌∙◌, arith}
use raspdif.Prelude.{
  true, false, ◌==◌, Bool-cases, List, ◌∷◌, get_or, some, none, bit_and, if◌then◌else◌,
}
use raspdif.Host.{ok, Host, pure, or_exit}
use raspdif.Mailbox.{
  Vcio, Ioctl, allocate_request, one_value_request, mailbox_send, answer, answered, or_else,
}
use raspdif.Mailbox.{lock_memory, unlock_memory, release_memory, minus_one, negative}
use raspdif.Mailbox.{mailbox_code_success}
use raspdif.Mailbox.{
  mailbox_allocate_memory, mailbox_lock_memory, mailbox_unlock_memory, mailbox_release_memory,
}
use raspdif.Memory.{PhysicalMemory, memory_allocate_physical, memory_release_physical}

-- The request was processed, the tag too, and the tag's value is `v`.
pub record Answers {S : Type 0} (v : ℕ) (r : Ioctl S) : Type 0 where
  pub accepted : r.accepted ≡ true
  pub processed : get_or r.buffer 1 0 ≡ 0x8000_0000
  pub tag_processed : get_or r.buffer 4 0 ≡ 0x8000_0004
  pub value : get_or r.buffer 5 0 ≡ v

-- The call failed, or the tag was left as it was.
abbrev pub Refused : {S : Type 0} → Ioctl S → Type 0
Refused r = (r.accepted ≡ false) ⊎ (get_or r.buffer 4 0 ≡ 0)

-- `held` are the handles of the blocks that are allocated, the latest first. An allocation adds one
-- or is refused; unlocking and releasing the latest block answer with status 0.
pub record IsFirmware {S : Type 0} (vcio : Vcio S) (held : S → List ℕ) : Type 0 where
  pub opens : (s : S) → vcio.opens s ≡ true
  pub allocates :
      (size alignment flags : ℕ) (s : S)
      → let r = vcio.ioctl (allocate_request size alignment flags) s in
        (Refused r × (held r.device ≡ held s))
        ⊎ ((handle : ℕ) × Answers handle r × (handle < 2 ^ 31) × (held r.device ≡ handle ∷ held s))
  pub locks :
      (handle : ℕ) (s : S)
      → held (vcio.ioctl (one_value_request lock_memory handle) s).device ≡ held s
  pub unlocks :
      (handle : ℕ) (others : List ℕ) (s : S)
      → held s ≡ handle ∷ others
      → let r = vcio.ioctl (one_value_request unlock_memory handle) s in
        Answers 0 r × (held r.device ≡ held s)
  pub releases :
      (handle : ℕ) (others : List ℕ) (s : S)
      → held s ≡ handle ∷ others
      → let r = vcio.ioctl (one_value_request release_memory handle) s in
        Answers 0 r × (held r.device ≡ others)

answer-Answers : {S : Type 0} {v : ℕ} {r : Ioctl S} → Answers v r → answer r.buffer ≡ some v
unfolding answer
answer-Answers h = rw (h.processed, h.tag_processed, h.value) refl

answer-unprocessed : (buffer : List ℕ) → get_or buffer 4 0 ≡ 0 → answer buffer ≡ none
unfolding answer
answer-unprocessed buffer h =
    elim (Bool-cases (bit_and (get_or buffer 1 0) mailbox_code_success == mailbox_code_success)) [
      | inl e ↦ rw (h, e) refl
      | inr e ↦ rw (h, e) refl
    ]

module _ {S : Type 0} (vcio : Vcio S) (h : Host S) (open_lem : vcio.opens h.device ≡ true)
    (m : List ℕ) where
  abbrev after : Host S
  after = record { device = (vcio.ioctl m h.device).device; sent = m ∷ h.sent }

  abbrev reply : Ioctl S
  reply = vcio.ioctl m h.device

  send-Answers :
      (v d : ℕ)
      → Answers v reply
      → or_exit (mailbox_send vcio m h) (λ r. pure (or_else d (answered vcio r))) ≡ (ok v, after)
  unfolding mailbox_send
  send-Answers v d a = rw (open_lem, a.accepted, answer-Answers a) refl

  send-Refused :
      (d : ℕ)
      → Refused reply
      → or_exit (mailbox_send vcio m h) (λ r. pure (or_else d (answered vcio r))) ≡ (ok d, after)
  unfolding mailbox_send
  send-Refused d (inl e) = rw (open_lem, e) refl
  send-Refused d (inr e) = elim (Bool-cases reply.accepted) [
    | inl granted ↦ rw (open_lem, granted, answer-unprocessed reply.buffer e) refl
    | inr denied ↦ rw (open_lem, denied) refl
  ]

  -- Whatever the reply is, the call returns.
  send-returns :
      (d : ℕ)
      → (v : ℕ) × (or_exit (mailbox_send vcio m h) (λ r. pure (or_else d (answered vcio r)))
          ≡ (ok v, after))
  unfolding mailbox_send
  send-returns d = (
    or_else d (answered vcio (if reply.accepted then some reply.buffer else none)),
    rw open_lem refl,
  )

negative-false : (x : ℕ) → x < 2 ^ 31 → negative x ≡ false
negative-false x h = ground arith

module _ {S : Type 0} (vcio : Vcio S) (held : S → List ℕ) (f : IsFirmware vcio held) where
  -- The latest block is released, with the result 0.
  pub release_latest :
      (memory : PhysicalMemory) (others : List ℕ) (h : Host S)
      → held h.device ≡ memory.handle ∷ others
      → let (result, h') = memory_release_physical vcio memory h in
        (result ≡ ok 0) × (held h'.device ≡ others)
  unfolding memory_release_physical mailbox_unlock_memory mailbox_release_memory
  release_latest memory others h e =
      let unlock = one_value_request unlock_memory memory.handle in
      let u = f.unlocks memory.handle others h.device e in
      let h1 : Host S = after vcio h (f.opens h.device) unlock in
      let release = one_value_request release_memory memory.handle in
      let r = f.releases memory.handle others h1.device (u.1 ∙ e) in
      rw
        (
          send-Answers vcio h (f.opens h.device) unlock 0 minus_one u.0,
          send-Answers vcio h1 (f.opens h1.device) release 0 minus_one r.0,
        )
        (refl, r.1)

  -- With firmware that does what it documents, an allocation fails without a block and says so by a
  -- negative handle and a null address, or the release of what it returns succeeds and leaves held
  -- exactly the blocks that were held before it.
  pub release-allocate :
      (page_size size : ℕ) (h : Host S)
      → (memory : PhysicalMemory) × (h1 : Host S) × (memory_allocate_physical vcio page_size size h
          ≡ (ok memory, h1))
        × (((negative memory.handle ≡ true)
              × (memory.address ≡ 0)
              × (held h1.device ≡ held h.device))
            ⊎ (let (result, h2) = memory_release_physical vcio memory h1 in
                (result ≡ ok 0) × (held h2.device ≡ held h.device)))
  unfolding memory_allocate_physical mailbox_allocate_memory mailbox_lock_memory
  release-allocate page_size size h =
      let request = allocate_request size page_size 20 in
      let h1 : Host S = after vcio h (f.opens h.device) request in
      elim (f.allocates size page_size 20 h.device) [
        | inl (refused, same) ↦ (
          record { handle = minus_one; address = 0 },
          h1,
          rw (send-Refused vcio h (f.opens h.device) request minus_one refused) refl,
          inl (refl, refl, same),
        )
        | inr (handle, granted, small, more) ↦
            let lock = one_value_request lock_memory handle in
            let l = send-returns vcio h1 (f.opens h1.device) lock 0 in
            let h2 : Host S = after vcio h1 (f.opens h1.device) lock in
            let memory : PhysicalMemory = record { handle = handle; address = l.0 } in
            (
              memory,
              h2,
              rw
                  (
                    send-Answers vcio h (f.opens h.device) request handle minus_one granted,
                    negative-false handle small,
                    l.1,
                  )
                  refl,
              inr (release_latest memory (held h.device) h2 (f.locks handle h1.device ∙ more)),
            )
      ]

  -- The reply to the first message of an allocation.
  abbrev pub granting : ℕ → ℕ → Host S → Ioctl S
  granting page_size size h = vcio.ioctl (allocate_request size page_size 20) h.device

  -- With firmware that does what it documents, if a block is granted with a handle below 2^31 and its
  -- lock is refused, the caller gets a null address while the block stays held.
  pub lock_failure_holds :
      (page_size size handle : ℕ) (h : Host S)
      → Answers handle (granting page_size size h)
      → handle < 2 ^ 31
      → held (granting page_size size h).device ≡ handle ∷ held h.device
      → Refused
          (vcio.ioctl (one_value_request lock_memory handle) (granting page_size size h).device)
      → (h2 : Host S) × (memory_allocate_physical vcio page_size size h
          ≡ (ok (record { handle = handle; address = 0 }), h2))
        × (held h2.device ≡ handle ∷ held h.device)
  unfolding memory_allocate_physical mailbox_allocate_memory mailbox_lock_memory
  lock_failure_holds page_size size handle h granted small more refused =
      let request = allocate_request size page_size 20 in
      let h1 : Host S = after vcio h (f.opens h.device) request in
      let lock = one_value_request lock_memory handle in
      let h2 : Host S = after vcio h1 (f.opens h1.device) lock in
      (
        h2,
        rw
            (
              send-Answers vcio h (f.opens h.device) request handle minus_one granted,
              negative-false handle small,
              send-Refused vcio h1 (f.opens h1.device) lock 0 refused,
            )
            refl,
        f.locks handle h1.device ∙ more,
      )

  -- A block that is granted and locked: the caller gets both, and it stays held.
  pub allocate_granted :
      (page_size size handle address : ℕ) (h : Host S)
      → Answers handle (granting page_size size h)
      → handle < 2 ^ 31
      → held (granting page_size size h).device ≡ handle ∷ held h.device
      → Answers address
          (vcio.ioctl (one_value_request lock_memory handle) (granting page_size size h).device)
      → (h2 : Host S) × (memory_allocate_physical vcio page_size size h
          ≡ (ok (record { handle = handle; address = address }), h2))
        × (held h2.device ≡ handle ∷ held h.device)
  unfolding memory_allocate_physical mailbox_allocate_memory mailbox_lock_memory
  allocate_granted page_size size handle address h granted small more locked =
      let request = allocate_request size page_size 20 in
      let h1 : Host S = after vcio h (f.opens h.device) request in
      let lock = one_value_request lock_memory handle in
      let h2 : Host S = after vcio h1 (f.opens h1.device) lock in
      (
        h2,
        rw
            (
              send-Answers vcio h (f.opens h.device) request handle minus_one granted,
              negative-false handle small,
              send-Answers vcio h1 (f.opens h1.device) lock address 0 locked,
            )
            refl,
        f.locks handle h1.device ∙ more,
      )

-- ===== src/Mailbox.antt =====
-- The messages to the VideoCore: source/mailbox.c and include/bcm283x/bcm283x_mailbox.h. A message
-- is the list of its 32-bit words; the answer overwrites the request.
pub mod Messages
use raspdif.Prelude.{ℕ, ◌+◌, ◌-◌, ◌*◌, ◌^◌, Bool, true, false, ◌==◌, if◌then◌else◌, bit_and}
use raspdif.Prelude.{List, [], ◌∷◌, get_or, Option, none, some, leb}
use raspdif.Host.{Outcome, ok, exited, Host, Action, pure, ◌>>=◌}

abbrev pub mailbox_code_success : ℕ
mailbox_code_success = 0x8000_0000

-- `MAILBOX_MEM_FLAG_DIRECT` and `MAILBOX_MEM_FLAG_ZERO_INIT`
abbrev pub mem_flag_direct : ℕ
mem_flag_direct = 4

abbrev pub mem_flag_zero_init : ℕ
mem_flag_zero_init = 16

-- `mailbox_tag_id_t`
pub data TagId : Type 0 where
  get_dma_channels allocate_memory lock_memory unlock_memory release_memory : TagId

abbrev pub tag_id : TagId → ℕ
tag_id get_dma_channels = 0x0006_0001
tag_id allocate_memory = 0x0003_000c
tag_id lock_memory = 0x0003_000d
tag_id unlock_memory = 0x0003_000e
tag_id release_memory = 0x0003_000f

-- `mailbox_message_allocate_memory_request_t` as it is filled: the message header, the tag header,
-- the three values, and the trailer.
abbrev pub allocate_request : ℕ → ℕ → ℕ → List ℕ
allocate_request size alignment flags =
    36 ∷ 0 ∷ tag_id allocate_memory ∷ 12 ∷ 0 ∷ size ∷ alignment ∷ flags ∷ 0 ∷ []

-- The four other requests have one value: a handle, or padding.
abbrev pub one_value_request : TagId → ℕ → List ℕ
one_value_request tag value = 28 ∷ 0 ∷ tag_id tag ∷ 4 ∷ 0 ∷ value ∷ 0 ∷ []

-- What `ioctl` leaves: whether its result was not negative, the buffer, and the device.
pub record Ioctl (S : Type 0) : Type 0 where
  pub accepted : Bool
  pub buffer : List ℕ
  pub device : S

-- The device /dev/vcio: whether `open` succeeds, and `ioctl`.
pub record Vcio (S : Type 0) : Type 0 where
  pub opens : S → Bool
  pub ioctl : List ℕ → S → Ioctl S

-- Both response codes are tested, then the word after the tag header is the answer.
unfoldable pub answer : List ℕ → Option ℕ
answer buffer =
    if bit_and (get_or buffer 1 0) mailbox_code_success == mailbox_code_success
    then (if bit_and (get_or buffer 4 0) mailbox_code_success == mailbox_code_success
        then some (get_or buffer 5 0)
        else none)
    else none

abbrev pub or_else : ℕ → Option ℕ → ℕ
or_else d none = d
or_else d (some v) = v

-- An `int32_t` by its pattern: -1, and the test `< 0`.
abbrev pub minus_one : ℕ
minus_one = 0xFFFF_FFFF

abbrev pub negative : ℕ → Bool
negative x = leb (2 ^ 31) x

module _ {S : Type 0} (vcio : Vcio S) where
  -- `mailbox_send`, with the buffer if the result is not negative. A failure to close only logs.
  unfoldable pub mailbox_send : List ℕ → Action S (Option (List ℕ))
  mailbox_send message h =
      let r = vcio.ioctl message h.device in
      if vcio.opens h.device
      then (
        ok (if r.accepted then some r.buffer else none),
        record h { device = r.device; sent = message ∷ h.sent },
      )
      else (exited, h)

  -- The common end of the functions below.
  abbrev pub answered : Option (List ℕ) → Option ℕ
  answered none = none
  answered (some buffer) = answer buffer

  unfoldable pub mailbox_allocate_memory : ℕ → ℕ → ℕ → Action S ℕ
  mailbox_allocate_memory size alignment flags =
      mailbox_send (allocate_request size alignment flags) >>= λ r.
      pure (or_else minus_one (answered r))

  unfoldable pub mailbox_lock_memory : ℕ → Action S ℕ
  mailbox_lock_memory handle =
      mailbox_send (one_value_request lock_memory handle) >>= λ r. pure (or_else 0 (answered r))

  unfoldable pub mailbox_unlock_memory : ℕ → Action S ℕ
  mailbox_unlock_memory handle = mailbox_send (one_value_request unlock_memory handle) >>= λ r.
      pure (or_else minus_one (answered r))

  unfoldable pub mailbox_release_memory : ℕ → Action S ℕ
  mailbox_release_memory handle = mailbox_send (one_value_request release_memory handle) >>= λ r.
      pure (or_else minus_one (answered r))

  unfoldable pub mailbox_get_dma_channel_mask : Action S ℕ
  mailbox_get_dma_channel_mask = mailbox_send (one_value_request get_dma_channels 0) >>= λ r.
      pure (or_else minus_one (answered r))

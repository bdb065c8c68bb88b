-- ===== src/Play/Loop/Delivery.antt =====
-- From the bytes of the input to the audio words that a receiver of the line gets.
use raspdif.Prelude.{
  ℕ, zero, suc, ◌+◌, ◌-◌, ◌*◌, ◌^◌, ◌%◌, ◌<◌, ◌≤◌, ◌≡◌, refl, sym, ap, ◌∙◌, arith,
}
use raspdif.Prelude.{true, List, [], ◌∷◌, ◌++◌, length, drop, get_or, Option, some}
use raspdif.Samples.{Format, s16le, s24le, sample_size}
use raspdif.Samples.Value.{unsigned_bytes, left_justified-parse_sample}
use raspdif.Spdif.Build.Audio.{received_audio}
use raspdif.Buffers.{buffer_size, zero_pair}
use raspdif.Buffers.Slots.{serial}
use raspdif.Play.Slots.{slot_at}
use raspdif.Play.{Player, Read, Tick, Config, Round, round}
use raspdif.Play.Loop.{IsReady, Loads, round-Loaded}

-- The audio words of pair `n`, as sent from the buffer of an index.
abbrev pub left_audio : Player → ℕ → ℕ → Option ℕ
left_audio p index n =
    received_audio
      (drop 8 (serial (get_or (get_or p.buffers index []) (n % buffer_size) zero_pair).a))

abbrev pub right_audio : Player → ℕ → ℕ → Option ℕ
right_audio p index n =
    received_audio
      (drop 8 (serial (get_or (get_or p.buffers index []) (n % buffer_size) zero_pair).b))

-- The 24-bit audio word of the sample whose bytes start at `at`.
abbrev pub audio_word : Format → List ℕ → ℕ → ℕ
audio_word format bytes at = unsigned_bytes format bytes at * 2 ^ (24 - 8 * sample_size format)

-- A receiver gets the pair that a read brought, from the slot of pair `k` in buffer `i`.
pub record SentIn (format : Format) (p : Player) (i k : ℕ) (r : Read) : Type 0 where
  pub left : left_audio p i k ≡ some (audio_word format r.bytes 0)
  pub right : right_audio p i k ≡ some (audio_word format r.bytes (sample_size format))

pub SentIn-of_same :
    (format : Format) {p q : Player} (i k : ℕ) (r : Read)
    → slot_at q i (k % buffer_size) ≡ slot_at p i (k % buffer_size)
    → SentIn format p i k r
    → SentIn format q i k r
SentIn-of_same format i k r same h = record { left = rw same h.left; right = rw same h.right }

get_or-append : (xs ys : List ℕ) (i : ℕ) → i < length xs → get_or (xs ++ ys) i 0 ≡ get_or xs i 0
get_or-append [] ys i h = elim h [ ]
get_or-append (x ∷ xs) ys zero h = refl
get_or-append (x ∷ xs) ys (suc i) h = get_or-append xs ys i (omega arith)

pub unsigned_bytes-append :
    (format : Format) (xs ys : List ℕ) (at : ℕ)
    → at + sample_size format ≤ length xs
    → unsigned_bytes format (xs ++ ys) at ≡ unsigned_bytes format xs at
unsigned_bytes-append s16le xs ys at h =
    rw (get_or-append xs ys at (omega arith), get_or-append xs ys (at + 1) (omega arith))
unsigned_bytes-append s24le xs ys at h = rw (
  get_or-append xs ys at (omega arith),
  get_or-append xs ys (at + 1) (omega arith),
  get_or-append xs ys (at + 2) (omega arith),
)

module _ (c : Config) (t : Tick) (p : Player) (n : ℕ) (h : IsReady p n) (l : Loads c t p) where
  abbrev q : Round
  q = round c t p

  -- The pair that is sent is what the sample buffer holds after the read.
  sends_samples :
      (left_audio q.player p.buffer_index n ≡ some (audio_word c.format q.player.samples 0))
      × (right_audio q.player p.buffer_index n
          ≡ some (audio_word c.format q.player.samples (sample_size c.format)))
  sends_samples =
      let s = round-Loaded c t p n h l in
      (
        s.stored.left.audio
            ∙ ap some (left_justified-parse_sample c.format q.player.samples 0 s.ready.bytes),
        s.stored.right.audio
            ∙ ap some (
                left_justified-parse_sample c.format q.player.samples (sample_size c.format)
                  s.ready.bytes),
      )

  -- In a well-formed state, a round that may use the buffer and reads a whole pair sends its bytes
  -- unchanged: a receiver gets both samples of the
  -- input, left-justified in 24 bits.
  pub round_delivers :
      length t.read.bytes ≡ 2 * sample_size c.format
      → (left_audio q.player p.buffer_index n ≡ some (audio_word c.format t.read.bytes 0))
        × (right_audio q.player p.buffer_index n
            ≡ some (audio_word c.format t.read.bytes (sample_size c.format)))
  round_delivers whole =
      let s = round-Loaded c t p n h l in
      let rest = drop (length t.read.bytes) p.samples in
      let e1 = unsigned_bytes-append c.format t.read.bytes rest 0 (omega arith) in
      let e2 =
        unsigned_bytes-append c.format t.read.bytes rest (sample_size c.format) (omega arith) in
      rw (← e1, ← e2, ← s.samples) sends_samples

-- From a well-formed state, after a round that stored a pair, a round that may use the buffer and
-- whose read is empty at the end of the file sends that pair a second time, and the loop ends.
pub last_pair_repeats :
    (c : Config) (t t' : Tick) (p : Player) (n : ℕ)
    → IsReady p n
    → Loads c t p
    → Loads c t' (round c t p).player
    → t'.read.bytes ≡ []
    → t'.read.eof ≡ true
    → let q = round c t p in
      let q' = round c t' q.player in
      (left_audio q'.player q.player.buffer_index (n + 1) ≡ left_audio q.player p.buffer_index n)
      × (right_audio q'.player q.player.buffer_index (n + 1)
          ≡ right_audio q.player p.buffer_index n)
      × (q'.eof ≡ true)
last_pair_repeats c t t' p n h l l' empty at_end =
    let q = round c t p in
    let s = round-Loaded c t p n h l in
    let s' = round-Loaded c t' q.player (n + 1) s.ready l' in
    let same : (round c t' q.player).player.samples ≡ q.player.samples =
      s'.samples ∙ ap (λ b. b ++ drop (length b) q.player.samples) empty in
    let a = sends_samples c t p n h l in
    let a' = sends_samples c t' q.player (n + 1) s.ready l' in
    (
      a'.0 ∙ ap (λ b. some (audio_word c.format b 0)) same ∙ sym a.0,
      a'.1 ∙ ap (λ b. some (audio_word c.format b (sample_size c.format))) same ∙ sym a.1,
      s'.eof ∙ at_end,
    )

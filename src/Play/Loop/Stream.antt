-- ===== src/Play/Loop/Stream.antt =====
-- A stretch of the transmission loop in which the input keeps up: progress, and what the buffers hold.
use raspdif.Prelude.{
  ℕ, zero, suc, ◌+◌, ◌*◌, ◌/◌, ◌%◌, ◌≤◌, ◌<◌, ◌≡◌, ◌≢◌, ◌⊎◌, inl, inr, refl, ap, ◌∙◌, arith,
}
use raspdif.Prelude.{
  false, ◌==◌, ==-true, ==-false, if◌then◌else◌, Bool-cases, List, [], ◌∷◌, length, eq_or_ne,
}
use raspdif.Samples.{sample_size}
use raspdif.Buffers.{buffer_count, buffer_size}
use raspdif.Play.{Player, Read, Tick, Config, round, transmit, store_samples}
use raspdif.ControlBlocks.{block_address}
use raspdif.Play.{polled, slept}
use raspdif.Play.Invariant.{note-IsPlaying}
use raspdif.Play.Loop.Always.{round-busy}
use raspdif.Play.Slots.{slot_at, slot_at-store_pair}
use raspdif.Play.Preload.{capacity}
use raspdif.Play.Preload.Delivery.{no_read}
use raspdif.Play.Loop.{IsReady, Loads, round-Loaded, round-Loads, taken, taken-IsReady}
use raspdif.Play.Loop.Delivery.{SentIn, SentIn-of_same, round_delivers}

-- The round may use the buffer of its index and reads a whole pair, with more of the file to come.
pub record Supplied (c : Config) (t : Tick) (p : Player) : Type 0 where
  pub loads : Loads c t p
  pub whole : length t.read.bytes ≡ 2 * sample_size c.format
  pub more : t.read.eof ≡ false

-- Every round finds DMA at the buffer of its index, or is supplied.
abbrev pub Supplies : Config → List Tick → Player → Type 0
Supplies c [] p = Unit
Supplies c (t ∷ ticks) p =
    ((t.conblk ≡ block_address c.base p.buffer_index) ⊎ Supplied c t p)
    × Supplies c ticks (round c t p).player

-- The rounds that do not find DMA there.
abbrev pub free_rounds : Config → List Tick → Player → List Tick
free_rounds c [] p = []
free_rounds c (t ∷ ticks) p =
    let rest = free_rounds c ticks (round c t p).player in
    if t.conblk == block_address c.base p.buffer_index then rest else t ∷ rest

-- The buffer of the index is the one whose turn it is after `n` pairs.
abbrev pub InTurn : Player → ℕ → Type 0
InTurn p n = p.buffer_index ≡ n / buffer_size % buffer_count

-- The buffer that pair `k` goes to.
abbrev pub turn : ℕ → ℕ
turn k = k / buffer_size % buffer_count

-- The read of the `j`-th round.
abbrev pub read_at : List Tick → ℕ → Read
read_at [] j = no_read
read_at (t ∷ ticks) zero = t.read
read_at (t ∷ ticks) (suc j) = read_at ticks j

module _ (c : Config) (t : Tick) (p : Player) (n : ℕ) (h : IsReady p n) (l : Loads c t p) where
  round-InTurn : InTurn p n → InTurn (round c t p).player (n + 1)
  round-InTurn e =
      let s = round-Loaded c t p n h l in
      elim (Bool-cases ((n + 1) % buffer_size == 0)) [
        | inl full ↦ s.index ∙ rw full (ground (arith, e))
        | inr more ↦ s.index ∙ rw more (ground (arith, e))
      ]

  -- A loading round changes no slot but that of pair `n` in the buffer of its index.
  slot_at-round :
      (i s : ℕ)
      → (i ≢ p.buffer_index) ⊎ (s ≢ n % buffer_size)
      → slot_at (round c t p).player i s ≡ slot_at p i s
  unfolding store_samples
  slot_at-round i s other =
      let v = taken-IsReady c t p n h l.bytes in
      let stored =
        slot_at-store_pair {p = taken c t p} {n = n} c.format p.buffer_index _ _ i s v.playing
          h.index other in
      elim (Bool-cases (store_samples c.format (taken c t p)).1) [
        | inl full ↦ rw (round-Loads c t p l, full) stored
        | inr more ↦ rw (round-Loads c t p l, more) stored
      ]

  round-next :
      t.read.eof ≡ false
      → (ticks : List Tick) → transmit c (t ∷ ticks) p ≡ transmit c ticks (round c t p).player
  unfolding transmit
  round-next more ticks = let s = round-Loaded c t p n h l in rw (s.finished, s.eof, more) refl

-- A round that finds DMA at its buffer changes nothing but the trace.
module _ (c : Config) (t : Tick) (p : Player)
    (b : t.conblk ≡ block_address c.base p.buffer_index) where
  pub busy-IsReady : (n : ℕ) → IsReady p n → IsReady (round c t p).player n
  busy-IsReady n h = rw (round-busy c t p b) (record {
    playing = note-IsPlaying slept (note-IsPlaying (polled t.conblk) h.playing);
    index = h.index;
    bytes = h.bytes;
  })

  busy-InTurn : (n : ℕ) → InTurn p n → InTurn (round c t p).player n
  busy-InTurn n e = rw (round-busy c t p b) e

  slot_at-busy : (i s : ℕ) → slot_at (round c t p).player i s ≡ slot_at p i s
  slot_at-busy i s = rw (round-busy c t p b) refl

  busy_next : (ticks : List Tick) → transmit c (t ∷ ticks) p ≡ transmit c ticks (round c t p).player
  unfolding transmit
  busy_next ticks = rw (round-busy c t p b) refl

  pub free_rounds-busy :
      (ticks : List Tick) → free_rounds c (t ∷ ticks) p ≡ free_rounds c ticks (round c t p).player
  free_rounds-busy ticks = rw (==-true t.conblk (block_address c.base p.buffer_index) b) refl

pub free_rounds-free :
    (c : Config) (t : Tick) (p : Player) (ticks : List Tick)
    → t.conblk ≢ block_address c.base p.buffer_index
    → free_rounds c (t ∷ ticks) p ≡ t ∷ free_rounds c ticks (round c t p).player
free_rounds-free c t p ticks free =
    rw (==-false t.conblk (block_address c.base p.buffer_index) free) refl

module _ (c : Config) where
  -- From a well-formed state whose index is in turn, if each round that does not find DMA at the buffer
  -- of its index reads the bytes of a whole pair before the end of the file, every such round
  -- stores one pair, and the others none: after the rounds the count of pairs is higher by the
  -- number of the rounds that did not find DMA there, and the index is again in turn.
  pub transmit_advances :
      (ticks : List Tick) {p : Player} {n : ℕ}
      → IsReady p n
      → InTurn p n
      → Supplies c ticks p
      → IsReady (transmit c ticks p) (n + length (free_rounds c ticks p))
        × InTurn (transmit c ticks p) (n + length (free_rounds c ticks p))
  unfolding transmit
  transmit_advances [] {p} {n} h e supply = let same : n + 0 ≡ n = omega arith in rw same (h, e)
  transmit_advances (t ∷ ticks) {p} {n} h e (inl busy, rest) =
      rw (busy_next c t p busy ticks, free_rounds-busy c t p busy ticks)
        (transmit_advances ticks (busy-IsReady c t p busy n h) (busy-InTurn c t p busy n e) rest)
  transmit_advances (t ∷ ticks) {p} {n} h e (inr now, rest) =
      let s = round-Loaded c t p n h now.loads in
      let later = free_rounds c ticks (round c t p).player in
      let same : n + length (t ∷ later) ≡ n + 1 + length later = omega arith in
      rw
        (
          round-next c t p n h now.loads now.more ticks,
          free_rounds-free c t p ticks now.loads.free,
          same,
        )
        (transmit_advances ticks s.ready (round-InTurn c t p n h now.loads e) rest)

  slot_at-transmit :
      (ticks : List Tick) {p : Player} {n : ℕ} (k : ℕ)
      → IsReady p n
      → InTurn p n
      → Supplies c ticks p
      → k < n
      → n + length (free_rounds c ticks p) ≤ k + capacity
      → slot_at (transmit c ticks p) (turn k) (k % buffer_size)
        ≡ slot_at p (turn k) (k % buffer_size)
  unfolding transmit
  slot_at-transmit [] k h e supply before room = refl
  slot_at-transmit (t ∷ ticks) {p} {n} k h e (inl busy, rest) before room =
      let fewer = ap length (free_rounds-busy c t p busy ticks) in
      rw (busy_next c t p busy ticks) (
        slot_at-transmit ticks k (busy-IsReady c t p busy n h) (busy-InTurn c t p busy n e) rest
          before (omega (arith, room, fewer))
        ∙ slot_at-busy c t p busy (turn k) (k % buffer_size))
  slot_at-transmit (t ∷ ticks) {p} {n} k h e (inr now, rest) before room =
      let s = round-Loaded c t p n h now.loads in
      let one = ap length (free_rounds-free c t p ticks now.loads.free) in
      let other : (turn k ≢ p.buffer_index) ⊎ (k % buffer_size ≢ n % buffer_size) =
        elim (eq_or_ne (turn k) p.buffer_index) [
          | inl same ↦ inr (λ d. omega (arith, e, one, room))
          | inr apart ↦ inl apart
        ] in
      rw (round-next c t p n h now.loads now.more ticks) (
        slot_at-transmit ticks k s.ready (round-InTurn c t p n h now.loads e) rest (omega arith)
          (omega (arith, one, room))
        ∙ slot_at-round c t p n h now.loads (turn k) (k % buffer_size) other)

  -- From a well-formed state whose index is in turn, if each round that does not find DMA at the buffer
  -- of its index reads the bytes of a whole pair before the end of the file: the pair of every such
  -- round that has at most 6143 of them after it is sent unchanged, from the slot that is its
  -- turn, whatever rounds find DMA there.
  pub transmit-SentIn :
      (ticks : List Tick) {p : Player} {n : ℕ} (j : ℕ)
      → IsReady p n
      → InTurn p n
      → Supplies c ticks p
      → j < length (free_rounds c ticks p)
      → length (free_rounds c ticks p) ≤ j + capacity
      → SentIn c.format
          (transmit c ticks p)
          (turn (n + j))
          (n + j)
          (read_at (free_rounds c ticks p) j)
  transmit-SentIn [] j h e supply inside room = absurd (omega arith)
  transmit-SentIn (t ∷ ticks) {p} {n} j h e (inl busy, rest) inside room =
      let fewer = ap length (free_rounds-busy c t p busy ticks) in
      rw (busy_next c t p busy ticks, free_rounds-busy c t p busy ticks)
        (transmit-SentIn ticks j (busy-IsReady c t p busy n h) (busy-InTurn c t p busy n e) rest
          (omega (arith, inside, fewer)) (omega (arith, room, fewer)))
  transmit-SentIn (t ∷ ticks) {p} {n} zero h e (inr now, rest) inside room =
      let s = round-Loaded c t p n h now.loads in
      let one = ap length (free_rounds-free c t p ticks now.loads.free) in
      let here : n + 0 ≡ n = omega arith in
      let delivered = round_delivers c t p n h now.loads now.whole in
      rw
        (
          round-next c t p n h now.loads now.more ticks,
          free_rounds-free c t p ticks now.loads.free,
          here,
        )
        (SentIn-of_same c.format {p = (round c t p).player} (turn n) n t.read
          (slot_at-transmit ticks n s.ready (round-InTurn c t p n h now.loads e) rest (omega arith)
            (omega (arith, one, room)))
          (record { left = rw (← e) (delivered.0); right = rw (← e) (delivered.1) }))
  transmit-SentIn (t ∷ ticks) {p} {n} (suc j) h e (inr now, rest) inside room =
      let s = round-Loaded c t p n h now.loads in
      let one = ap length (free_rounds-free c t p ticks now.loads.free) in
      let same : n + suc j ≡ n + 1 + j = omega arith in
      rw
        (
          round-next c t p n h now.loads now.more ticks,
          free_rounds-free c t p ticks now.loads.free,
          same,
        )
        (transmit-SentIn ticks j s.ready (round-InTurn c t p n h now.loads e) rest
          (omega (arith, one, inside)) (omega (arith, one, room)))

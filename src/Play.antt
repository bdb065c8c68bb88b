-- ===== src/Play.antt =====
-- The playing of source/main.c: `raspdif_fill_buffers` and the two read loops of `main`.
pub mod Invariant
pub mod Slots
pub mod Fill
pub mod Later
pub mod Preload
pub mod Loop
pub mod Guard
pub mod Start
use raspdif.Prelude.{ℕ, zero, suc, ◌+◌, ◌-◌, ◌/◌, ◌%◌, ◌^◌, Bool, true, false, not, ◌&&◌}
use raspdif.Prelude.{◌==◌, ltb, if◌then◌else◌, List, [], ◌∷◌, ◌++◌, length, drop, get_or, modify}
use raspdif.Prelude.{u8, u32}
use raspdif.Spdif.{Block}
use raspdif.Samples.{Format, sample_size, parse_sample}
use raspdif.Buffers.{buffer_count, buffer_size, Buffer, Position, buffer_samples}
use raspdif.ControlBlocks.{block_address}

-- What the program does to the outside, for the record.
pub data Action : Type 0 where
  -- `bcm283x_dma_get_control_block` returned this address.
  polled : ℕ → Action
  -- `microsleep` for about the duration of a buffer.
  slept : Action
  -- A pair of samples was stored into the buffer of this index.
  stored : ℕ → Action
  -- `bcm283x_dma_enable` for the program's channel.
  dma_enable : Bool → Action
  -- `bcm283x_pcm_enable(transmit, false)`
  pcm_enable : Bool → Action
  -- `poll` for the file to be readable.
  waited : Action

-- The variables of `main` and the static ones of the functions that it calls. `trace` is no
-- variable of the program: it collects the actions, the latest first.
pub record Player : Type 0 where
  pub position : Position
  pub block : Block
  pub buffers : List Buffer
  pub buffer_index : ℕ
  pub samples : List ℕ
  pub trace : List Action

abbrev pub note : Action → Player → Player
note a p = record p { trace = a ∷ p.trace }

-- `raspdif_buffer_samples` on the buffer of an index: the new state, and whether it is full.
unfoldable pub store_pair : Format → ℕ → ℕ → ℕ → Player → Player × Bool
store_pair format index x y p =
    let r = buffer_samples p.position (get_or p.buffers index []) p.block format x y in
    (
      record p {
        position = r.position;
        block = r.block;
        buffers = modify p.buffers index (λ _. r.buffer);
        trace = stored index ∷ p.trace;
      },
      r.full,
    )

-- `FILL_SAMPLE`: the result of `rand()` becomes a number from -5 to 4.
abbrev pub fill_sample : Bool → ℕ → ℕ
fill_sample keep_alive random = if keep_alive then u32 (2 ^ 32 + random % 10 - 5) else 0

-- The results of `rand()`: the two that the `k`-th call of `raspdif_buffer_samples` uses.
abbrev pub Noise : Type 0
Noise = ℕ → ℕ × ℕ

abbrev pub next_index : ℕ → ℕ
next_index index = u8 ((index + 1) % buffer_count)

-- `rand()` is called only with keep-alive.
abbrev pub next_draw : Bool → ℕ → ℕ
next_draw keep_alive k = if keep_alive then k + 1 else k

-- What a fill leaves: how often a pair of random numbers was drawn so far, the state, and whether it came to its end.
pub record Filled : Type 0 where
  pub drawn : ℕ
  pub player : Player
  pub finished : Bool

module _ (base : ℕ) (format : Format) (keep_alive : Bool) (noise : Noise) where
  -- `while (!raspdif_buffer_samples(...)) {}` with fuel; without fuel it is not finished.
  unfoldable pub fill_buffer : ℕ → ℕ → ℕ → Player → Filled
  fill_buffer zero index k p = record { drawn = k; player = p; finished = false }
  fill_buffer (suc fuel) index k p =
      let x = fill_sample keep_alive (noise k).0 in
      let y = fill_sample keep_alive (noise k).1 in
      let (p', full) = store_pair format index x y p in
      let rest = fill_buffer fuel index (next_draw keep_alive k) p' in
      if full then record { drawn = next_draw keep_alive k; player = p'; finished = true } else rest

  -- `while (fill_count < RASPDIF_BUFFER_COUNT)` with `left` buffers to go. Each element of the list
  -- is what one reading of the DMA register gives; at its end the loop is still running.
  unfoldable pub fill_all : List ℕ → ℕ → ℕ → ℕ → Player → Filled
  fill_all polls zero index k p = record { drawn = k; player = p; finished = true }
  fill_all [] (suc left) index k p = record { drawn = k; player = p; finished = false }
  fill_all (conblk ∷ polls) (suc left) index k p =
      let p' = note (polled conblk) p in
      let again = fill_all polls (suc left) index k (note slept p') in
      let r = fill_buffer buffer_size index k p' in
      let rest = fill_all polls left (next_index index) r.drawn r.player in
      if conblk == block_address base index then again else if r.finished then rest else r

  -- `raspdif_fill_buffers`: the rest of the current buffer, then all buffers from the next one on.
  unfoldable pub fill_buffers : List ℕ → ℕ → Player → Filled
  fill_buffers polls index p =
      let r = fill_buffer buffer_size index 0 p in
      if r.finished then fill_all polls buffer_count (next_index index) r.drawn r.player else r

-- `fread(samples, sample_size, 2, file)`: the bytes that it puts at the front of `samples`, and
-- whether the end of the file was met (`feof` afterwards).
pub record Read : Type 0 where
  pub bytes : List ℕ
  pub eof : Bool

-- The items read: whole samples.
abbrev pub items : Format → Read → ℕ
items format r = length r.bytes / sample_size format

abbrev pub fread : Read → Player → Player
fread r p = record p { samples = r.bytes ++ drop (length r.bytes) p.samples }

-- Both samples are parsed out of `samples` and stored into the buffer of the index.
unfoldable pub store_samples : Format → Player → Player × Bool
store_samples format p =
    let x = parse_sample format p.samples 0 in
    let y = parse_sample format p.samples (sample_size format) in
    store_pair format p.buffer_index x y p

-- What the preload leaves: the state, the reads that it did not make, the `feof` after its last
-- read, and whether it came to its end.
pub record Preloaded : Type 0 where
  pub player : Player
  pub unread : List Read
  pub eof : Bool
  pub finished : Bool

-- The loop that loads the buffers before transmission. The condition reads first and looks at the
-- index afterwards. With no read left, `fread` waits.
unfoldable pub preload : Format → List Read → Player → Preloaded
preload format [] p = record { player = p; unread = []; eof = false; finished = false }
preload format (r ∷ reads) p =
    let p1 = fread r p in
    let (p2, full) = store_samples format p1 in
    let rest =
      preload format reads
        (if full then record p2 { buffer_index = u8 (p2.buffer_index + 1) } else p2) in
    if ltb 0 (items format r) && ltb p1.buffer_index buffer_count
    then rest
    else record { player = p1; unread = reads; eof = r.eof; finished = true }

-- What one round of the transmission loop meets: the DMA register, the read, and, in an underrun,
-- the readings of the register and the random numbers. What a round does not ask for is not used.
pub record Tick : Type 0 where
  pub conblk : ℕ
  pub read : Read
  pub polls : List ℕ
  pub noise : Noise

-- The arguments that the loop depends on, and the bus address of the control structure.
pub record Config : Type 0 where
  pub base : ℕ
  pub format : Format
  pub keep_alive : Bool
  pub pcm_disable : Bool

-- The state after a round, the `feof` that the loop's test sees, and whether the round came to
-- its end (it does not while `raspdif_fill_buffers` waits for DMA).
pub record Round : Type 0 where
  pub player : Player
  pub eof : Bool
  pub finished : Bool

abbrev pub note_if : Bool → Action → Player → Player
note_if b a p = if b then note a p else p

-- The underrun branch: silence or noise into the buffers, then wait, with PCM off on request.
unfoldable pub underrun : Config → Tick → Player → Round
underrun c t p =
    let r = fill_buffers c.base c.format c.keep_alive t.noise t.polls p.buffer_index p in
    let p1 = note_if c.pcm_disable (pcm_enable false) r.player in
    let p2 = note_if c.pcm_disable (pcm_enable true) (note waited p1) in
    if r.finished
    then record { player = p2; eof = false; finished = true }
    else record { player = r.player; eof = false; finished = false }

-- The body of the loop; `eof` is the `feof` of its test, which is false.
unfoldable pub round : Config → Tick → Player → Round
round c t p =
    let p1 = note (polled t.conblk) p in
    let p2 = fread t.read p1 in
    let (p3, full) = store_samples c.format p2 in
    if t.conblk == block_address c.base p.buffer_index
    then record { player = note slept p1; eof = false; finished = true }
    else if not (items c.format t.read == 2) && not t.read.eof
    then underrun c t p2
    else record {
      player = if full then record p3 { buffer_index = next_index p3.buffer_index } else p3;
      eof = t.read.eof;
      finished = true;
    }

-- `while (!feof(file))` over the rounds to come.
unfoldable pub transmit : Config → List Tick → Player → Player
transmit c [] p = p
transmit c (t ∷ ticks) p =
    let r = round c t p in
    let rest = transmit c ticks r.player in if r.finished && not r.eof then rest else r.player

-- DMA and PCM are enabled between the loops, and the index starts again at the first buffer.
unfoldable pub start_transmit : Player → Player
start_transmit p = record (note (pcm_enable true) (note (dma_enable true) p)) { buffer_index = 0 }

-- `main` from the preload on. The loop's test comes before its first round.
unfoldable pub play : Config → List Read → List Tick → Player → Player
play c reads ticks p =
    let l = preload c.format reads p in
    if l.finished
    then (let q = start_transmit l.player in if l.eof then q else transmit c ticks q)
    else l.player

-- ===== src/Live.antt =====
-- The loops of `main` and `raspdif_fill_buffers` of source/main.c on the machine: what Play takes as
-- given, the readings of the DMA register and of the file, is asked for in its turn, and the calls
-- of the drivers are made. `microsleep` is that of include/utils.h.
pub mod Yields
pub mod Device
pub mod Fills
pub mod Made
pub mod Rounds
pub mod Follows
pub mod Progress
pub mod Ends
pub mod Safety
use raspdif.Prelude.{ℕ, zero, suc, ◌+◌, ◌*◌, Bool, true, false, not, ◌&&◌, ◌==◌, ltb, if◌then◌else◌}
use raspdif.Prelude.{List, [], ◌∷◌, Option, u8}
use raspdif.Registers.{returned}
use raspdif.Samples.{Format, sample_size}
use raspdif.Buffers.{buffer_count, buffer_size}
use raspdif.ControlBlocks.{block_address}
use raspdif.Dma.{bcm283x_dma_get_control_block, bcm283x_dma_enable}
use raspdif.Pcm.{bcm283x_pcm_enable}
use raspdif.Arguments.{Text}
use raspdif.Play.{
  Player, Read, Filled, Noise, Config, Round, Preloaded, note, polled, slept, waited,
}
use raspdif.Play.{
  Action, note_if, next_index, fill_buffer, fread, items, store_samples, start_transmit,
}
use raspdif.Program.{
  Program, asserts, give, ◌>>=◌, ◌>>◌, driver, unchecked_driver, query, system_call, system_query,
}
use raspdif.Setup.{Board}

-- The calls of the C library and the system that `main` makes: `fopen` or `freopen`, whether it gives a
-- file; `fread` of two items of a size, with `feof`; `fcntl`; `poll` for the file; `nanosleep`; `time`;
-- and the `i`-th `rand` after `srand` of a seed.
pub record Calls (S : Type 0) : Type 0 where
  pub opens : Option Text → S → Bool × S
  pub reads : ℕ → S → Read × S
  pub unblocks : S → S
  pub waits : S → S
  pub sleeps : ℕ → S → S
  pub time : S → ℕ
  pub rand : ℕ → ℕ → ℕ

-- What the loops leave: the player, and whether they came to their end.
pub record Played : Type 0 where
  pub player : Player
  pub over : Bool

module _ {S : Type 0} (board : Board S) (calls : Calls S) where
  -- The nanoseconds are 1000 times the argument, which stays below a second.
  pub microsleep : ℕ → Program S Unit
  microsleep microseconds m =
      if ltb microseconds 1_000_000
      then system_call (calls.sleeps (microseconds * 1000)) m
      else (asserts, m)

  -- The bus address of the control block that DMA is at.
  pub poll_dma : Program S ℕ
  poll_dma m =
      query (λ d. d.dma)
        (λ base s. bcm283x_dma_get_control_block board.bus base m.raspdif.dma_channel s) m

  pub enable_dma : Bool → Program S Unit
  enable_dma enable m =
      driver (λ d. d.dma)
        (λ base s. bcm283x_dma_enable board.bus base m.raspdif.dma_channel enable s) m

  pub enable_pcm : Bool → Program S Unit
  enable_pcm transmit =
      unchecked_driver (λ d. d.pcm)
        (λ base s. returned (bcm283x_pcm_enable board.bus base board.pcm_delay transmit false s))

  -- `fread(samples, sample_size, 2, file)`
  pub read_pair : Format → Program S Read
  read_pair format = system_query (calls.reads (sample_size format))

  abbrev pub enable_pcm_if : Bool → Bool → Program S Unit
  enable_pcm_if wanted transmit = if wanted then enable_pcm transmit else give tt

  -- The numbers that the calls of `rand` give after `srand`; they are used only with keep-alive.
  abbrev pub random_pairs : ℕ → Noise
  random_pairs seed k = (calls.rand seed (2 * k), calls.rand seed (2 * k + 1))

  -- `delay` are the microseconds of about one buffer.
  module _ (c : Config) (delay : ℕ) where
    pub live_fill_all : Noise → ℕ → ℕ → ℕ → ℕ → Player → Program S Filled
    live_fill_all noise fuel zero index k p =
        give (record { drawn = k; player = p; finished = true })
    live_fill_all noise zero (suc left) index k p =
        give (record { drawn = k; player = p; finished = false })
    live_fill_all noise (suc fuel) (suc left) index k p = poll_dma >>= λ conblk.
        let p' = note (polled conblk) p in
        elim (conblk == block_address c.base index) [
          | true ↦ microsleep delay >> live_fill_all noise fuel (suc left) index k (note slept p')
          | false ↦
              let r = fill_buffer c.base c.format c.keep_alive noise buffer_size index k p' in
              elim r.finished [
                | true ↦ live_fill_all noise fuel left (next_index index) r.drawn r.player
                | false ↦ give r
              ]
        ]

    -- `raspdif_fill_buffers`
    pub live_fill_buffers : Noise → ℕ → ℕ → Player → Program S Filled
    live_fill_buffers noise fuel index p =
        let r = fill_buffer c.base c.format c.keep_alive noise buffer_size index 0 p in
        if r.finished
        then live_fill_all noise fuel buffer_count (next_index index) r.drawn r.player
        else give r

    -- A read that is short before the end of the file.
    pub live_underrun : ℕ → Player → Program S Round
    live_underrun fuel p m =
        (live_fill_buffers (random_pairs (calls.time m.host.device)) fuel p.buffer_index p >>= λ r.
        if r.finished
        then (let p1 = note_if c.pcm_disable (Action.pcm_enable false) r.player in
            let p2 = note_if c.pcm_disable (Action.pcm_enable true) (note waited p1) in
            enable_pcm_if c.pcm_disable false
            >> system_call calls.waits
            >> enable_pcm_if c.pcm_disable true
            >> give (record { player = p2; eof = false; finished = true }))
        else give (record { player = r.player; eof = false; finished = false }))
          m

    -- A round that may use the buffer.
    pub live_read : ℕ → Player → Program S Round
    live_read fuel p1 = read_pair c.format >>= λ r.
        let p2 = fread r p1 in
        if not (items c.format r == 2) && not r.eof
        then live_underrun fuel p2
        else (let (p3, full) = store_samples c.format p2 in
            give (record {
              player = if full then record p3 { buffer_index = next_index p3.buffer_index } else p3;
              eof = r.eof;
              finished = true;
            }))

    pub live_round : ℕ → Player → Program S Round
    live_round fuel p = poll_dma >>= λ conblk.
        let p1 = note (polled conblk) p in
        if conblk == block_address c.base p.buffer_index
        then microsleep delay
          >> give (record { player = note slept p1; eof = false; finished = true })
        else live_read fuel p1

    -- The loop of the transmission. Fuel bounds its rounds, and `fuel` those of the fills.
    pub live_transmit : ℕ → ℕ → Player → Program S Played
    live_transmit fuel zero p = give (record { player = p; over = false })
    live_transmit fuel (suc rounds) p = live_round fuel p >>= λ r. elim (r.finished && not r.eof) [
      | true ↦ live_transmit fuel rounds r.player
      | false ↦ give (record { player = r.player; over = r.eof })
    ]

    -- The loop before it.
    pub live_preload : ℕ → Player → Program S Preloaded
    live_preload zero p = give (record { player = p; unread = []; eof = false; finished = false })
    live_preload (suc rounds) p = read_pair c.format >>= λ r.
        let p1 = fread r p in
        let (p2, full) = store_samples c.format p1 in
        elim (ltb 0 (items c.format r) && ltb p1.buffer_index buffer_count) [
          | true ↦
              live_preload rounds
                (if full then record p2 { buffer_index = u8 (p2.buffer_index + 1) } else p2)
          | false ↦ give (record { player = p1; unread = []; eof = r.eof; finished = true })
        ]

    -- `main` from the preload to the end of its loops.
    pub live_play : ℕ → ℕ → Player → Program S Played
    live_play fuel rounds p = live_preload rounds p >>= λ l.
        if l.finished
        then (let q = start_transmit l.player in
            enable_dma true
            >> enable_pcm true
            >> system_call calls.unblocks
            >> (if l.eof
                then give (record { player = q; over = true })
                else live_transmit fuel rounds q))
        else give (record { player = l.player; over = false })

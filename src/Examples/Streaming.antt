-- ===== src/Examples/Streaming.antt =====
-- Several pairs of samples on their way from the input to the buffers.
use raspdif.Prelude.{◌+◌, ◌≡◌, ◌∙◌, ap, refl, arith, inl, inr, false, List, [], ◌∷◌, length}
use raspdif.Samples.{s16le}
use raspdif.Play.{Read, Tick, preload, round, transmit}
use raspdif.Play.Preload.Filling.{IsFilling}
use raspdif.Play.Preload.Delivery.{BringsPair, Sent, preload-Sent}
use raspdif.Play.Loop.{IsReady, Loads, round-Loaded}
use raspdif.Play.Loop.Delivery.{SentIn}
use raspdif.Play.{Player}
use raspdif.ControlBlocks.{block_address}
use raspdif.Play.Loop.Always.{round-busy}
use raspdif.Play.Loop.Stream.{
  busy-IsReady, free_rounds, free_rounds-busy, free_rounds-free, read_at, Supplies, InTurn,
  transmit_advances, transmit-SentIn,
}
use raspdif.Play.Start.{start_player, start-IsLoading}
use raspdif.Examples.Playing.{
  config, no_noise, pair_read, pair_tick, start-index, start-IsReady, pair-Loads,
}

abbrev other_read : Read
other_read = record { bytes = 0xff ∷ 0x7f ∷ 0x00 ∷ 0x80 ∷ []; eof = false }

abbrev other_tick : Tick
other_tick = record { conblk = 0; read = other_read; polls = []; noise = no_noise }

start-IsFilling : IsFilling start_player 0
start-IsFilling = record { loading = start-IsLoading.0; bytes = start-IsLoading.1 }

pair-BringsPair : BringsPair s16le pair_read
pair-BringsPair = record { whole = refl; bytes = omega arith }

other-BringsPair : BringsPair s16le other_read
other-BringsPair = record { whole = refl; bytes = omega arith }

preload-Sent_example :
    Sent s16le (preload s16le (pair_read ∷ other_read ∷ []) start_player).player 1 other_read
preload-Sent_example =
    preload-Sent config (pair_read ∷ other_read ∷ []) 1 start-IsFilling
      (pair-BringsPair, (other-BringsPair, tt)) (omega arith) (omega arith)

start-InTurn : InTurn start_player 0
start-InTurn = rw start-index refl

-- DMA is at the first buffer, and then at none.
abbrev busy_tick : Tick
busy_tick = record {
  conblk = block_address config.base 0;
  read = pair_read;
  polls = [];
  noise = no_noise;
}

abbrev three_ticks : List Tick
three_ticks = busy_tick ∷ pair_tick ∷ other_tick ∷ []

busy : busy_tick.conblk ≡ block_address config.base start_player.buffer_index
busy = rw start-index refl

abbrev waited_player : Player
waited_player = (round config busy_tick start_player).player

pair-Loads_later : Loads config pair_tick waited_player
pair-Loads_later =
    rw (waited_player, round-busy config busy_tick start_player busy)
      (record { free = pair-Loads.free; enough = pair-Loads.enough; bytes = pair-Loads.bytes })

waited-index : waited_player.buffer_index ≡ 0
waited-index = rw (waited_player, round-busy config busy_tick start_player busy) start-index

other-Loads : Loads config other_tick (round config pair_tick waited_player).player
other-Loads =
    let s =
      round-Loaded config pair_tick waited_player 0
        (busy-IsReady config busy_tick start_player busy 0 start-IsReady) pair-Loads_later in
    record { free = omega (arith, s.index, waited-index); enough = inl refl; bytes = omega arith }

three_ticks-Supplies : Supplies config three_ticks start_player
three_ticks-Supplies = (
  inl busy,
  (
    inr (record { loads = pair-Loads_later; whole = refl; more = refl }),
    (inr (record { loads = other-Loads; whole = refl; more = refl }), tt),
  ),
)

three_ticks-free : free_rounds config three_ticks start_player ≡ pair_tick ∷ other_tick ∷ []
three_ticks-free =
    free_rounds-busy config busy_tick start_player busy (pair_tick ∷ other_tick ∷ [])
    ∙ free_rounds-free config pair_tick waited_player (other_tick ∷ []) pair-Loads_later.free
    ∙ ap (λ l. pair_tick ∷ l)
        (free_rounds-free config other_tick (round config pair_tick waited_player).player []
          other-Loads.free)

three_ticks-length : length (free_rounds config three_ticks start_player) ≡ 2
three_ticks-length = ap length three_ticks-free

transmit_advances_example :
    let q = transmit config three_ticks start_player in
    let k = 0 + length (free_rounds config three_ticks start_player) in IsReady q k × InTurn q k
transmit_advances_example =
    transmit_advances config three_ticks start-IsReady start-InTurn three_ticks-Supplies

transmit-SentIn_example :
    SentIn s16le
      (transmit config three_ticks start_player)
      0
      1
      (read_at (free_rounds config three_ticks start_player) 1)
transmit-SentIn_example =
    transmit-SentIn config three_ticks 1 start-IsReady start-InTurn three_ticks-Supplies
      (omega (arith, three_ticks-length)) (omega (arith, three_ticks-length))

-- ===== src/Examples/Playing.antt =====
-- The loops of `main` in source/main.c at concrete inputs, from the state in which they start.
use raspdif.Prelude.{ℕ, ◌+◌, ◌≡◌, refl, arith, inl, inr}
use raspdif.Prelude.{true, false, List, [], ◌∷◌, some, drop, replicate, length-replicate}
use raspdif.Prelude.{All-replicate}
use raspdif.Buffers.{buffer_count}
use raspdif.ControlBlocks.{block_address}
use raspdif.Samples.{s16le}
use raspdif.Play.{Read, Tick, Config, Noise, preload, round, play, fill_buffers, next_index}
use raspdif.Play.Preload.{capacity, Whole, IsLoading, preload_loses_one}
use raspdif.Play.Fill.{Ends, Lets, fill_buffers-Ends}
use raspdif.Play.Loop.{IsReady, Loads, Loaded, round-Loaded}
use raspdif.Play.Loop.Delivery.{
  left_audio, right_audio, audio_word, round_delivers, last_pair_repeats,
}
use raspdif.Play.Fill.{stored_of, refilled}
use raspdif.Play.Loop.Underrun.{RunsDry, pause, filled, round-underrun}
use raspdif.Play.Guard.{Guarded}
use raspdif.Play.Guard.Rounds.{play-Guarded}
use raspdif.Play.Start.{start_player, start-IsLoading}

abbrev pub config : Config
config = record { base = 0xC000_0000; format = s16le; keep_alive = true; pcm_disable = true }

abbrev pub no_noise : Noise
no_noise k = (0, k)

abbrev pub pair_read : Read
pair_read = record { bytes = 0x34 ∷ 0x12 ∷ 0xfe ∷ 0xff ∷ []; eof = false }

-- DMA is at the second buffer, then at the third, at the first twice, and at the second again.
abbrev polls : List ℕ
polls =
    block_address 0xC000_0000 1
    ∷ block_address 0xC000_0000 2
    ∷ block_address 0xC000_0000 0
    ∷ block_address 0xC000_0000 0
    ∷ block_address 0xC000_0000 1
    ∷ []

abbrev pub pair_tick : Tick
pair_tick = record { conblk = 0; read = pair_read; polls = []; noise = no_noise }

abbrev end_tick : Tick
end_tick = record {
  conblk = 0;
  read = record { bytes = []; eof = true };
  polls = [];
  noise = no_noise;
}

abbrev dry_tick : Tick
dry_tick = record {
  conblk = 0;
  read = record { bytes = []; eof = false };
  polls = polls;
  noise = no_noise;
}

pub start-index : start_player.buffer_index ≡ 0
unfolding start_player
start-index = refl

pub start-IsReady : IsReady start_player 0
start-IsReady = record {
  playing = start-IsLoading.0.playing;
  index = omega (arith, start-index);
  bytes = start-IsLoading.1;
}

pub pair-Loads : Loads config pair_tick start_player
unfolding start_player
pair-Loads = record { free = omega arith; enough = inl refl; bytes = omega arith }

round_delivers_example :
    let q = round config pair_tick start_player in
    (left_audio q.player start_player.buffer_index 0 ≡ some (audio_word s16le pair_read.bytes 0))
    × (right_audio q.player start_player.buffer_index 0 ≡ some (audio_word s16le pair_read.bytes 2))
round_delivers_example =
    round_delivers config pair_tick start_player 0 start-IsReady pair-Loads refl

pair-Loaded : Loaded config pair_tick start_player 0 (round config pair_tick start_player)
pair-Loaded = round-Loaded config pair_tick start_player 0 start-IsReady pair-Loads

end-Loads : Loads config end_tick (round config pair_tick start_player).player
end-Loads =
    let i : (round config pair_tick start_player).player.buffer_index ≡ start_player.buffer_index =
      pair-Loaded.index in
    record { free = omega (arith, i, start-index); enough = inr refl; bytes = tt }

last_pair_repeats_example :
    let q = round config pair_tick start_player in
    let q' = round config end_tick q.player in
    (left_audio q'.player q.player.buffer_index 1 ≡ left_audio q.player start_player.buffer_index 0)
    × (right_audio q'.player q.player.buffer_index 1
        ≡ right_audio q.player start_player.buffer_index 0)
    × (q'.eof ≡ true)
last_pair_repeats_example =
    last_pair_repeats config pair_tick end_tick start_player 0 start-IsReady pair-Loads end-Loads
      refl refl

dry : RunsDry config dry_tick start_player
unfolding start_player
dry = record { free = omega arith; short = omega arith; open_ended = refl; bytes = tt }

dry_polls-Lets :
    Lets config.base config.format config.keep_alive no_noise polls buffer_count
      (next_index start_player.buffer_index)
unfolding start_player
dry_polls-Lets = inl (refl, inr (omega arith, inr (omega arith, inl (refl, inr (omega arith, tt)))))

round-underrun_example :
    let q = round config dry_tick start_player in
    (q.finished ≡ true)
    × (q.eof ≡ false)
    × IsReady q.player 8192
    × (q.player.buffer_index ≡ start_player.buffer_index)
    × (q.player.trace ≡ pause true (filled config dry_tick start_player).player.trace)
    × (stored_of q.player.trace
        ≡ refilled 0 start_player.buffer_index (stored_of start_player.trace))
round-underrun_example =
    round-underrun config dry_tick start_player 0 start-IsReady dry dry_polls-Lets

fill_buffers-Ends_example :
    Ends 8192
      (refilled 0 0 (stored_of start_player.trace))
      (fill_buffers 0xC000_0000 s16le true no_noise polls 0 start_player)
fill_buffers-Ends_example =
    fill_buffers-Ends 0xC000_0000 s16le true no_noise polls 0 0 start_player start-IsReady.playing
      (omega arith)
      (inl (refl, inr (omega arith, inr (omega arith, inl (refl, inr (omega arith, tt))))))

-- One read more than the buffers have room for, and another.
abbrev many : List Read
many = replicate 6146 pair_read

preload_loses_one_example :
    let l = preload s16le many start_player in
    (l.finished ≡ true) × IsLoading l.player capacity × (l.unread ≡ drop (capacity + 1) many)
preload_loses_one_example =
    preload_loses_one s16le many start-IsLoading.0
      (All-replicate (Whole s16le) 6146 pair_read (omega arith))
      (omega (arith, length-replicate 6146 pair_read))

start-trace : start_player.trace ≡ []
unfolding start_player
start-trace = refl

play-Guarded_example :
    Guarded config.base
      (play config (pair_read ∷ []) (pair_tick ∷ dry_tick ∷ []) start_player).trace
play-Guarded_example =
    play-Guarded config (pair_read ∷ []) (pair_tick ∷ dry_tick ∷ []) start_player start-trace

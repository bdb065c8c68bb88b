-- ===== src/Play/Start/Whole.antt =====
-- The invariant of a whole run of `main`, from the preload on.
use raspdif.Prelude.{ℕ, ◌+◌, ◌<◌, refl, arith, ltb, ltb→lt, and_right}
use raspdif.Prelude.{◌&&◌, Bool-cases, inl, inr, List, [], ◌∷◌}
use raspdif.Prelude.{All}
use raspdif.Samples.{Format}
use raspdif.Samples.Value.{IsByte}
use raspdif.Buffers.{buffer_count}
use raspdif.Play.{Player, Read, items, preload, start_transmit, play}
use raspdif.Play.{Config, Tick}
use raspdif.Play.Invariant.{IsPlaying, IsPlaying-of_same}
use raspdif.Play.Preload.Filling.{IsFilling, taken_bytes, loaded-IsFilling}
use raspdif.Play.Preload.{capacity, loaded, fread-IsLoading}
use raspdif.Play.Loop.{IsReady}
use raspdif.Play.Loop.Always.{ReadsBytes, transmit-IsReady}
use raspdif.Play.Start.{start_player, start-IsLoading}

-- What a read delivers are bytes.
abbrev pub BringsBytes : Read → Type 0
BringsBytes r = All IsByte r.bytes

pub preload-IsFilling :
    (format : Format) (reads : List Read) (p : Player) (n : ℕ)
    → IsFilling p n
    → All BringsBytes reads
    → (m : ℕ) × IsFilling (preload format reads p).player m
unfolding preload
preload-IsFilling format [] p n h b = (n, h)
preload-IsFilling format (r ∷ reads) p n h b =
    elim (Bool-cases (ltb 0 (items format r) && ltb p.buffer_index buffer_count)) [
      | inl go ↦
          let room : p.buffer_index < buffer_count =
            ltb→lt _ _ (and_right (ltb 0 (items format r)) _ go) in
          let below : n < capacity = omega (arith, h.loading.index) in
          let rest =
            preload-IsFilling format reads (loaded format r p) (n + 1)
              (loaded-IsFilling format r h below b.0) b.1 in
          (rest.0, rw go rest.1)
      | inr stop ↦ (
        n,
        rw stop (record {
          loading = fread-IsLoading format r h.loading;
          bytes = taken_bytes r p b.0 h.bytes;
        }),
      )
    ]

-- In every run of `main` from its initial state, whatever bytes are read and whatever DMA does,
-- the state stays well-formed: for the number `m` of pairs stored so far the counters are in step
-- with `m`, and the block and the buffers have their sizes and their fields their ranges.
pub play-IsPlaying :
    (c : Config) (reads : List Read) (ticks : List Tick)
    → All BringsBytes reads
    → All ReadsBytes ticks
    → (m : ℕ) × IsPlaying (play c reads ticks start_player) m
unfolding play start_transmit
play-IsPlaying c reads ticks b bt =
    let l = preload c.format reads start_player in
    let begin : IsFilling start_player 0 = record {
      loading = start-IsLoading.0;
      bytes = start-IsLoading.1;
    } in
    let filled = preload-IsFilling c.format reads start_player 0 begin b in
    let m = filled.0 in
    let q = start_transmit l.player in
    let ready : IsReady q m = record {
      playing = IsPlaying-of_same refl refl refl filled.1.loading.playing;
      index = omega arith;
      bytes = filled.1.bytes;
    } in
    let run = transmit-IsReady c ticks q m ready bt in
    elim (Bool-cases l.finished) [
      | inl e ↦ elim (Bool-cases l.eof) [
        | inl at_end ↦ (m, rw (e, at_end) ready.playing)
        | inr more ↦ (run.0, rw (e, more) run.1.playing)
      ]
      | inr e ↦ (m, rw e filled.1.loading.playing)
    ]

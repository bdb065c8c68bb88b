-- ===== src/Play/Loop.antt =====
-- The transmission loop of `main`: what a round does on each of its branches, and what its stored
-- pair sends.
pub mod Delivery
pub mod Underrun
pub mod Always
pub mod Stream
use mathlib.Core.Path.{subst}
use raspdif.Prelude.{
  ℕ, zero, suc, ◌+◌, ◌*◌, ◌/◌, ◌%◌, ◌^◌, ◌<◌, ◌≡◌, ◌≢◌, ◌⊎◌, inl, inr, refl, sym, ap, ◌∙◌, arith,
}
use raspdif.Prelude.{
  Bool, true, false, not, ◌&&◌, ◌==◌, Bool-cases, ==-true, ==-false, if◌then◌else◌,
}
use raspdif.Prelude.{List, [], ◌∷◌, ◌++◌, length, drop, get_or, All, modify, get_or-modify_self}
use raspdif.Spdif.{preamble_w, zero_frame, spdif_frame_count}
use raspdif.Samples.{Format, bit_depth, sample_size, parse_sample}
use raspdif.Samples.Value.{IsByte, parse_sample-lt}
use raspdif.Buffers.{buffer_count, buffer_size, buffer_samples, zero_pair}
use raspdif.Buffers.Slots.{Sends, due_preamble, buffer_samples-Sends}
use raspdif.ControlBlocks.{block_address}
use raspdif.Play.{Player, Read, items, fread, store_pair, store_samples, next_index, note, note_if}
use raspdif.Play.{
  Tick, Config, Round, round, underrun, polled, slept, waited, pcm_enable, fill_buffers,
}
use raspdif.Play.Invariant.{IsPlaying, note-IsPlaying, fread-IsPlaying, store_samples-IsPlaying}
use raspdif.Play.Invariant.{IsBuffer-at, IsPlaying-of_same}
use raspdif.Play.Fill.{Lets, Ends, fill_buffers-Ends}

-- Between rounds: the invariant, an index in range and bytes in the sample buffer.
pub record IsReady (p : Player) (n : ℕ) : Type 0 where
  pub playing : IsPlaying p n
  pub index : p.buffer_index < buffer_count
  pub bytes : All IsByte p.samples

pub All-append : (xs ys : List ℕ) → All IsByte xs → All IsByte ys → All IsByte (xs ++ ys)
All-append [] ys h k = k
All-append (x ∷ xs) ys h k = (h.0, All-append xs ys h.1 k)

pub All-drop : (n : ℕ) (xs : List ℕ) → All IsByte xs → All IsByte (drop n xs)
All-drop zero xs h = h
All-drop (suc n) [] h = h
All-drop (suc n) (x ∷ xs) h = All-drop n xs h.1

-- A round that reads what it needs, or meets the end of the file, and may use the buffer.
pub record Loads (c : Config) (t : Tick) (p : Player) : Type 0 where
  pub free : t.conblk ≢ block_address c.base p.buffer_index
  pub enough : (items c.format t.read ≡ 2) ⊎ (t.read.eof ≡ true)
  pub bytes : All IsByte t.read.bytes

-- What the slot of pair `n` in the buffer of the index sends.
pub record Stored (c : Config) (n index x y : ℕ) (p : Player) : Type 0 where
  pub left :
      Sends
        (due_preamble (n % spdif_frame_count))
        (bit_depth c.format)
        x
        (get_or p.block (n % spdif_frame_count) zero_frame).a
        (get_or (get_or p.buffers index []) (n % buffer_size) zero_pair).a
  pub right :
      Sends preamble_w
        (bit_depth c.format)
        y
        (get_or p.block (n % spdif_frame_count) zero_frame).b
        (get_or (get_or p.buffers index []) (n % buffer_size) zero_pair).b

-- Storing a pair puts both codes into its slot.
pub store_pair-Stored :
    {p : Player} {n : ℕ} (c : Config) (index x y : ℕ)
    → IsPlaying p n
    → index < buffer_count
    → x < 2 ^ 32
    → y < 2 ^ 32
    → Stored c n index x y (store_pair c.format index x y p).0
unfolding store_pair
store_pair-Stored {p} {n} c index x y h k hx hy =
    let buffer = get_or p.buffers index [] in
    let r = buffer_samples p.position buffer p.block c.format x y in
    let here : get_or (modify p.buffers index (λ _. r.buffer)) index [] ≡ r.buffer =
      get_or-modify_self p.buffers index (λ _. r.buffer) [] (omega (arith, h.count)) in
    let s =
      buffer_samples-Sends p.position n buffer p.block c.format x y h.position h.block
        (IsBuffer-at c.format index x y h k) hx hy in
    record { left = rw here s.0; right = rw here s.1 }

-- The state after a round that loads a pair.
pub record Loaded (c : Config) (t : Tick) (p : Player) (n : ℕ) (q : Round) : Type 0 where
  pub ready : IsReady q.player (n + 1)
  pub samples : q.player.samples ≡ t.read.bytes ++ drop (length t.read.bytes) p.samples
  pub stored :
      Stored c n p.buffer_index
        (parse_sample c.format q.player.samples 0)
        (parse_sample c.format q.player.samples (sample_size c.format))
        q.player
  pub index :
      q.player.buffer_index
      ≡ (if (n + 1) % buffer_size == 0 then next_index p.buffer_index else p.buffer_index)
  pub eof : q.eof ≡ t.read.eof
  pub finished : q.finished ≡ true

module _ (c : Config) (t : Tick) (p : Player) where
  -- The state when the samples have been read.
  abbrev taken : Player
  taken = fread t.read (note (polled t.conblk) p)

  abbrev advanced : Player × Bool → Player
  advanced s = if s.1 then record s.0 { buffer_index = next_index s.0.buffer_index } else s.0

  enough_test :
      (items c.format t.read ≡ 2) ⊎ (t.read.eof ≡ true)
      → (not (items c.format t.read == 2) && not t.read.eof) ≡ false
  enough_test h = ground arith

  round-Loads :
      Loads c t p
      → round c t p ≡ record {
        player = advanced (store_samples c.format taken);
        eof = t.read.eof;
        finished = true;
      }
  unfolding round
  round-Loads l =
      rw (==-false t.conblk (block_address c.base p.buffer_index) l.free, enough_test l.enough)

  taken-IsReady : (n : ℕ) → IsReady p n → All IsByte t.read.bytes → IsReady taken n
  taken-IsReady n h b = record {
    playing = fread-IsPlaying t.read (note-IsPlaying (polled t.conblk) h.playing);
    index = h.index;
    bytes =
        All-append t.read.bytes (drop (length t.read.bytes) p.samples) b
          (All-drop (length t.read.bytes) p.samples h.bytes);
  }

  module _ (n : ℕ) (h : IsReady p n) (l : Loads c t p) where
    abbrev x : ℕ
    x = parse_sample c.format taken.samples 0

    abbrev y : ℕ
    y = parse_sample c.format taken.samples (sample_size c.format)

    taken-Stored : Stored c n p.buffer_index x y (store_samples c.format taken).0
    unfolding store_samples
    taken-Stored =
        let v = taken-IsReady n h l.bytes in
        store_pair-Stored c p.buffer_index x y v.playing v.index
          (parse_sample-lt c.format taken.samples 0 v.bytes)
          (parse_sample-lt c.format taken.samples (sample_size c.format) v.bytes)

    samples-store_samples : (store_samples c.format taken).0.samples ≡ taken.samples
    unfolding store_samples store_pair
    samples-store_samples = refl

    -- From a well-formed state, where the round may use the buffer and has a pair or the end of the file, it stores what the
    -- sample buffer then holds as pair `n`, and the index moves on exactly when the buffer is full.
    pub round-Loaded : Loaded c t p n (round c t p)
    round-Loaded =
        let v = taken-IsReady n h l.bytes in
        let s = store_samples-IsPlaying c.format v.playing v.index in
        let b = subst (All IsByte) (sym samples-store_samples) v.bytes in
        elim (Bool-cases ((n + 1) % buffer_size == 0)) [
          | inl e ↦
              rw (round-Loads l, s.1, e)
                (record {
                  ready = record {
                    playing = IsPlaying-of_same refl refl refl s.0;
                    index = omega arith;
                    bytes = b;
                  };
                  samples = samples-store_samples;
                  stored =
                      rw samples-store_samples
                        (record { left = taken-Stored.left; right = taken-Stored.right });
                  index = rw e (ap next_index s.2);
                  eof = refl;
                  finished = refl;
                })
          | inr e ↦
              rw (round-Loads l, s.1, e)
                (record {
                  ready = record { playing = s.0; index = omega (arith, s.2, h.index); bytes = b };
                  samples = samples-store_samples;
                  stored = rw samples-store_samples taken-Stored;
                  index = rw e s.2;
                  eof = refl;
                  finished = refl;
                })
        ]

-- ===== src/Play/Preload.antt =====
-- The loop of `main` that loads the buffers before transmission starts.
pub mod Filling
pub mod Delivery
use mathlib.Core.Path.{subst}
use raspdif.Prelude.{ℕ, suc, ◌+◌, ◌-◌, ◌*◌, ◌/◌, ◌%◌, ◌≤◌, ◌<◌, ◌≡◌, refl, arith, u8}
use raspdif.Prelude.{true, false, ◌==◌, ltb, lt→ltb, ltb→lt, Bool-cases, if◌then◌else◌}
use raspdif.Prelude.{List, [], ◌∷◌, length, drop, All, inl, inr}
use raspdif.Buffers.{buffer_count, buffer_size}
use raspdif.Samples.{Format}
use raspdif.Play.{Player, Read, items, fread, store_samples, preload}
use raspdif.Play.Invariant.{IsPlaying, IsPlaying-of_same, fread-IsPlaying, store_samples-IsPlaying}

-- How many pairs the buffers hold.
abbrev pub capacity : ℕ
capacity = buffer_count * buffer_size

abbrev pub Whole : Format → Read → Type 0
Whole format r = 0 < items format r

-- The preload after `n` pairs.
pub record IsLoading (p : Player) (n : ℕ) : Type 0 where
  pub playing : IsPlaying p n
  pub index : p.buffer_index ≡ n / buffer_size

ltb-false : (a b : ℕ) → b ≤ a → ltb a b ≡ false
ltb-false a b h = ground arith

full_of_ltb : (a b : ℕ) → a ≤ b → ltb a b ≡ false → a ≡ b
full_of_ltb a b h e = ground arith

module _ (format : Format) where
  abbrev pub loaded : Read → Player → Player
  loaded r p =
      let (p2, full) = store_samples format (fread r p) in
      if full then record p2 { buffer_index = u8 (p2.buffer_index + 1) } else p2

  -- One more pair goes into the buffers while one of them has room.
  pub loaded-IsLoading :
      (r : Read) {p : Player} {n : ℕ}
      → IsLoading p n
      → n < capacity
      → IsLoading (loaded r p) (n + 1)
  loaded-IsLoading r {p} {n} h room =
      let s =
        store_samples-IsPlaying format (fread-IsPlaying r h.playing) (omega (arith, h.index)) in
      elim (Bool-cases ((n + 1) % buffer_size == 0)) [
        | inl e ↦
            rw (s.1, e)
              (record {
                playing = IsPlaying-of_same refl refl refl s.0;
                index = ground (arith, s.2, h.index);
              })
        | inr e ↦ rw (s.1, e) (record { playing = s.0; index = ground (arith, s.2, h.index) })
      ]

  preload-step :
      (r : Read) (reads : List Read) {p : Player} {n : ℕ}
      → IsLoading p n
      → n < capacity
      → Whole format r
      → preload format (r ∷ reads) p ≡ preload format reads (loaded r p)
  unfolding preload
  preload-step r reads {p} h room whole =
      let index_fits : p.buffer_index < buffer_count = omega (arith, h.index) in
      rw (lt→ltb 0 (items format r) whole, lt→ltb p.buffer_index buffer_count index_fits)

  pub fread-IsLoading : (r : Read) {p : Player} {n : ℕ} → IsLoading p n → IsLoading (fread r p) n
  fread-IsLoading r h = record { playing = fread-IsPlaying r h.playing; index = h.index }

  -- With no room left the read that was just made ends the loop.
  preload-stop :
      (r : Read) (reads : List Read) {p : Player} {n : ℕ}
      → IsLoading p n
      → n ≡ capacity
      → Whole format r
      → preload format (r ∷ reads) p
        ≡ record { player = fread r p; unread = reads; eof = r.eof; finished = true }
  unfolding preload
  preload-stop r reads {p} h all whole =
      let index_full : buffer_count ≤ p.buffer_index = omega (arith, h.index) in
      rw (lt→ltb 0 (items format r) whole, ltb-false p.buffer_index buffer_count index_full)

  preload_full :
      (reads : List Read) {p : Player} (n : ℕ)
      → IsLoading p n
      → n ≤ capacity
      → All (Whole format) reads
      → capacity < n + length reads
      → let l = preload format reads p in
        (l.finished ≡ true)
        × IsLoading l.player capacity
        × (l.unread ≡ drop (capacity + 1 - n) reads)
  preload_full [] n h small whole many = absurd (omega arith)
  preload_full (r ∷ reads) {p} n h small whole many = elim (Bool-cases (ltb n capacity)) [
    | inl room ↦
        let below : n < capacity = ltb→lt n capacity room in
        let later =
          preload_full reads {p = loaded r p} (n + 1) (loaded-IsLoading r h below) (omega arith)
            whole.1 (omega arith) in
        let one_less : capacity + 1 - n ≡ suc (capacity + 1 - (n + 1)) = omega arith in
        rw (preload-step r reads h below whole.0, one_less) later
    | inr none_left ↦
        let all : n ≡ capacity = full_of_ltb n capacity small none_left in
        let one : capacity + 1 - n ≡ 1 = omega arith in
        rw (preload-stop r reads h all whole.0, one)
          (refl, subst (IsLoading (fread r p)) all (fread-IsLoading r h), refl)
  ]

  -- From the start of the preload, more than 6144 reads that all bring a sample fill the buffers with one pair each, but one read more is made
  -- than pairs are stored: the pair of the last one is lost.
  pub preload_loses_one :
      (reads : List Read) {p : Player}
      → IsLoading p 0
      → All (Whole format) reads
      → capacity < length reads
      → let l = preload format reads p in
        (l.finished ≡ true) × IsLoading l.player capacity × (l.unread ≡ drop (capacity + 1) reads)
  preload_loses_one reads h whole many = preload_full reads 0 h (omega arith) whole (omega arith)

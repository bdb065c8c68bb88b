-- ===== src/Play/Preload/Delivery.antt =====
-- What the buffers send when transmission starts: the first pairs of the input, each in its place.
use raspdif.Prelude.{
  ℕ, zero, suc, ◌+◌, ◌-◌, ◌*◌, ◌^◌, ◌/◌, ◌%◌, ◌≤◌, ◌<◌, ◌≡◌, ◌≢◌, ◌⊎◌, inl, inr, refl, ap, ◌∙◌,
  arith,
}
use mathlib.Core.Path.{subst}
use raspdif.Prelude.{
  true, Bool-cases, ltb, ltb→lt, List, [], ◌∷◌, ◌++◌, length, drop, get_or, All, some, eq_or_ne,
}
use raspdif.Samples.{Format, s16le, s24le, sample_size, parse_sample}
use raspdif.Samples.Value.{IsByte, parse_sample-lt, left_justified-parse_sample}
use raspdif.Buffers.{Buffer, buffer_size, zero_pair}
use raspdif.Play.{Player, Read, Config, fread, store_samples, preload}
use raspdif.Play.Invariant.{fread-IsPlaying}
use raspdif.Play.Slots.{slot_at, slot_at-store_pair}
use raspdif.Play.Loop.{store_pair-Stored}
use raspdif.Play.Loop.Delivery.{unsigned_bytes-append}
use raspdif.Play.Loop.Delivery.{SentIn, SentIn-of_same}
use raspdif.Play.Preload.{IsLoading, capacity, Whole, loaded, loaded-IsLoading}
use raspdif.Play.Preload.{preload-step, preload-stop, full_of_ltb}
use raspdif.Play.Preload.Filling.{IsFilling, taken_bytes, loaded-IsFilling}

-- A read that brings the bytes of two samples.
pub record BringsPair (format : Format) (r : Read) : Type 0 where
  pub whole : length r.bytes ≡ 2 * sample_size format
  pub bytes : All IsByte r.bytes

Whole-of_size : (f : Format) (r : Read) → length r.bytes ≡ 2 * sample_size f → Whole f r
Whole-of_size s16le r h = omega arith
Whole-of_size s24le r h = omega arith

-- Pair `k` of the input stands where it is sent as the `k`-th.
abbrev pub Sent : Format → Player → ℕ → Read → Type 0
Sent format p k r = SentIn format p (k / buffer_size) k r

-- The default for a list of reads that ends.
abbrev pub no_read : Read
no_read = record { bytes = []; eof = true }

module _ (c : Config) where
  Whole-of_pair : (r : Read) → BringsPair c.format r → Whole c.format r
  Whole-of_pair r b = Whole-of_size c.format r b.whole

  buffers_of_loaded :
      (r : Read) (p : Player)
      → (loaded c.format r p).buffers ≡ (store_samples c.format (fread r p)).0.buffers
  buffers_of_loaded r p = elim (Bool-cases (store_samples c.format (fread r p)).1) [
    | inl e ↦ rw e refl
    | inr e ↦ rw e refl
  ]

  -- Pair `n` goes to its place.
  loaded-Sent :
      (r : Read) {p : Player} {n : ℕ}
      → IsFilling p n
      → n < capacity
      → BringsPair c.format r
      → Sent c.format (loaded c.format r p) n r
  unfolding store_samples
  loaded-Sent r {p} {n} h room b =
      let old = drop (length r.bytes) p.samples in
      let samples = r.bytes ++ old in
      let bytes = taken_bytes r p b.bytes h.bytes in
      let size = sample_size c.format in
      let at_index : p.buffer_index ≡ n / buffer_size = h.loading.index in
      let stored =
        store_pair-Stored {p = fread r p} {n = n} c p.buffer_index (parse_sample c.format samples 0)
          (parse_sample c.format samples size) (fread-IsPlaying r h.loading.playing)
          (omega (arith, at_index)) (parse_sample-lt c.format samples 0 bytes)
          (parse_sample-lt c.format samples size bytes) in
      SentIn-of_same c.format {p = (store_samples c.format (fread r p)).0} (n / buffer_size) n r
        (ap
          (λ (t : List Buffer). get_or (get_or t (n / buffer_size) []) (n % buffer_size) zero_pair)
          (buffers_of_loaded r p))
        (record {
          left = rw (← at_index) (
              stored.left.audio
              ∙ ap some (
                  left_justified-parse_sample c.format samples 0 bytes
                  ∙ scaled
                      (unsigned_bytes-append c.format r.bytes old 0 (omega (arith, b.whole)))));
          right = rw (← at_index) (
              stored.right.audio
              ∙ ap some (
                  left_justified-parse_sample c.format samples size bytes
                  ∙ scaled
                      (unsigned_bytes-append c.format r.bytes old size (omega (arith, b.whole)))));
        })
    where
      scaled :
          {a b : ℕ}
          → a ≡ b
          → a * 2 ^ (24 - 8 * sample_size c.format) ≡ b * 2 ^ (24 - 8 * sample_size c.format)
      scaled e = ap (λ t. t * 2 ^ (24 - 8 * sample_size c.format)) e

  -- The places of the pairs before it stay.
  slot_at-loaded :
      (r : Read) {p : Player} {n : ℕ} (k : ℕ)
      → IsLoading p n
      → n < capacity
      → k < n
      → slot_at (loaded c.format r p) (k / buffer_size) (k % buffer_size)
        ≡ slot_at p (k / buffer_size) (k % buffer_size)
  unfolding store_samples
  slot_at-loaded r {p} {n} k h room before =
      let other : (k / buffer_size ≢ p.buffer_index) ⊎ (k % buffer_size ≢ n % buffer_size) =
        elim (eq_or_ne (k / buffer_size) p.buffer_index) [
          | inl same ↦ inr (λ e. omega (arith, h.index))
          | inr apart ↦ inl apart
        ] in
      let samples = r.bytes ++ drop (length r.bytes) p.samples in
      ap (λ (t : List Buffer). get_or (get_or t (k / buffer_size) []) (k % buffer_size) zero_pair)
        (buffers_of_loaded r p)
      ∙ slot_at-store_pair {p = fread r p} {n = n} c.format p.buffer_index
          (parse_sample c.format samples 0) (parse_sample c.format samples (sample_size c.format))
          (k / buffer_size) (k % buffer_size) (fread-IsPlaying r h.playing) (omega (arith, h.index))
          other

  -- The rest of the preload leaves the places of the first `n` pairs alone.
  slot_at-preload :
      (reads : List Read) {p : Player} {n : ℕ} (k : ℕ)
      → IsLoading p n
      → n ≤ capacity
      → k < n
      → All (BringsPair c.format) reads
      → slot_at (preload c.format reads p).player (k / buffer_size) (k % buffer_size)
        ≡ slot_at p (k / buffer_size) (k % buffer_size)
  unfolding preload
  slot_at-preload [] k h small before b = refl
  slot_at-preload (r ∷ reads) {p} {n} k h small before b = elim (Bool-cases (ltb n capacity)) [
    | inl room ↦
        let below : n < capacity = ltb→lt n capacity room in
        rw (preload-step c.format r reads h below (Whole-of_pair r b.0)) (
          slot_at-preload reads k (loaded-IsLoading c.format r h below) (omega arith) (omega arith)
            b.1
          ∙ slot_at-loaded r k h below before)
    | inr none_left ↦
        rw
          (preload-stop c.format r reads h (full_of_ltb n capacity small none_left)
            (Whole-of_pair r b.0))
          refl
  ]

  preload-Sent_from :
      (reads : List Read) {p : Player} {n : ℕ} (j : ℕ)
      → IsFilling p n
      → n + j < capacity
      → j < length reads
      → All (BringsPair c.format) reads
      → Sent c.format (preload c.format reads p).player (n + j) (get_or reads j no_read)
  preload-Sent_from [] j h room inside b = absurd (omega arith)
  preload-Sent_from (r ∷ reads) {p} {n} zero h room inside b =
      let below : n < capacity = omega arith in
      let here : n + 0 ≡ n = omega arith in
      let next = loaded-IsLoading c.format r h.loading below in
      rw (preload-step c.format r reads h.loading below (Whole-of_pair r b.0), here)
        (SentIn-of_same c.format (n / buffer_size) n r
          (slot_at-preload reads {p = loaded c.format r p} {n = n + 1} n next (omega arith)
            (omega arith) b.1)
          (loaded-Sent r h below b.0))
  preload-Sent_from (r ∷ reads) {p} {n} (suc j) h room inside b =
      let below : n < capacity = omega arith in
      let same : n + suc j ≡ n + 1 + j = omega arith in
      rw (preload-step c.format r reads h.loading below (Whole-of_pair r b.0), same)
        (preload-Sent_from reads {p = loaded c.format r p} {n = n + 1} j
          (loaded-IsFilling c.format r h below b.0.bytes) (omega arith) (omega arith) b.1)

  -- From an empty preload whose sample buffer holds bytes, if every read brings the bytes of a whole
  -- pair: pair `k` of the input, for every `k` below 6144 that is read, is sent unchanged as pair `k`
  -- when transmission starts.
  pub preload-Sent :
      (reads : List Read) {p : Player} (k : ℕ)
      → IsFilling p 0
      → All (BringsPair c.format) reads
      → k < capacity
      → k < length reads
      → Sent c.format (preload c.format reads p).player k (get_or reads k no_read)
  preload-Sent reads {p} k h b room inside =
      let same : 0 + k ≡ k = omega arith in
      subst (λ i. Sent c.format (preload c.format reads p).player i (get_or reads k no_read)) same
        (preload-Sent_from reads {n = 0} k h (omega arith) inside b)

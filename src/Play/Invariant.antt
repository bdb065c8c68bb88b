-- ===== src/Play/Invariant.antt =====
-- What holds of the playing state between calls, and that storing a pair keeps it.
use raspdif.Prelude.{ℕ, ◌+◌, ◌%◌, ◌<◌, ◌≡◌, refl, sym, ap, ◌∙◌, arith}
use raspdif.Prelude.{◌==◌, [], length, get_or, All, All-get_or, All-modify}
use raspdif.Prelude.{length-modify}
use raspdif.Buffers.{buffer_count, buffer_size, buffer_samples}
use raspdif.Buffers.Store.{
  IsPosition, IsBlock, IsBuffer, buffer_samples-IsPosition, buffer_samples-IsBlock,
}
use raspdif.Samples.{Format}
use raspdif.Play.{Player, Action, Read, note, fread, store_pair, store_samples}
use mathlib.Core.Path.{subst}

-- `n` pairs have been stored since the start.
pub record IsPlaying (p : Player) (n : ℕ) : Type 0 where
  pub position : IsPosition p.position n
  pub block : IsBlock p.block
  pub count : length p.buffers ≡ buffer_count
  pub sizes : All IsBuffer p.buffers

-- The invariant is about these four variables only.
pub IsPlaying-of_same :
    {p q : Player} {n : ℕ}
    → q.position ≡ p.position
    → q.block ≡ p.block
    → q.buffers ≡ p.buffers
    → IsPlaying p n
    → IsPlaying q n
IsPlaying-of_same {n = n} ep eb eu h = record {
  position = subst (λ t. IsPosition t n) (sym ep) h.position;
  block = subst IsBlock (sym eb) h.block;
  count = ap length eu ∙ h.count;
  sizes = subst (All IsBuffer) (sym eu) h.sizes;
}

pub note-IsPlaying : {p : Player} {n : ℕ} (a : Action) → IsPlaying p n → IsPlaying (note a p) n
note-IsPlaying a h = IsPlaying-of_same refl refl refl h

module _ {p : Player} {n : ℕ} (format : Format) (index x y : ℕ) (h : IsPlaying p n)
    (k : index < buffer_count) where
  pub IsBuffer-at : IsBuffer (get_or p.buffers index [])
  IsBuffer-at = All-get_or IsBuffer p.buffers index [] h.sizes (omega (arith, h.count))

  -- A pair more is stored; the flag tells whether a buffer's worth is complete.
  pub store_pair-IsPlaying :
      let (p', full) = store_pair format index x y p in
      IsPlaying p' (n + 1) × (full ≡ ((n + 1) % buffer_size == 0))
  unfolding store_pair
  store_pair-IsPlaying =
      let buffer = get_or p.buffers index [] in
      let r = buffer_samples p.position buffer p.block format x y in
      let moved = buffer_samples-IsPosition buffer p.block format x y h.position in
      let kept =
        buffer_samples-IsBlock p.position n buffer p.block format x y h.position h.block
          IsBuffer-at in
      (
        record {
          position = moved.0;
          block = kept.0;
          count = length-modify p.buffers index (λ _. r.buffer) ∙ h.count;
          sizes = All-modify IsBuffer p.buffers index (λ _. r.buffer) (λ _ _. kept.1) h.sizes;
        },
        moved.1,
      )

pub fread-IsPlaying : {p : Player} {n : ℕ} (r : Read) → IsPlaying p n → IsPlaying (fread r p) n
fread-IsPlaying r h = IsPlaying-of_same refl refl refl h

-- The same for the samples that were read last.
pub store_samples-IsPlaying :
    {p : Player} {n : ℕ} (format : Format)
    → IsPlaying p n
    → p.buffer_index < buffer_count
    → let (p', full) = store_samples format p in
      IsPlaying p' (n + 1)
      × (full ≡ ((n + 1) % buffer_size == 0))
      × (p'.buffer_index ≡ p.buffer_index)
unfolding store_samples
store_samples-IsPlaying {p} format h k =
    let s = store_pair-IsPlaying format p.buffer_index _ _ h k in
    (s.0, s.1, unfold store_pair in refl)

-- ===== src/Play/Preload/Filling.antt =====
-- The preload with bytes in the sample buffer.
use raspdif.Prelude.{ℕ, ◌+◌, ◌<◌, ◌≡◌}
use raspdif.Prelude.{Bool-cases, inl, inr, length, drop, All}
use raspdif.Samples.{Format}
use raspdif.Samples.Value.{IsByte}
use raspdif.Play.{Player, Read, fread, store_pair, store_samples}
use raspdif.Play.Preload.{IsLoading, capacity, loaded, loaded-IsLoading}
use raspdif.Play.Loop.{All-append, All-drop}

-- A state of the preload: `n` pairs, and bytes in the sample buffer.
pub record IsFilling (p : Player) (n : ℕ) : Type 0 where
  pub loading : IsLoading p n
  pub bytes : All IsByte p.samples

pub samples-loaded :
    (format : Format) (r : Read) (p : Player) → (loaded format r p).samples ≡ (fread r p).samples
unfolding store_samples store_pair
samples-loaded format r p = elim (Bool-cases (store_samples format (fread r p)).1) [
  | inl e ↦ rw e
  | inr e ↦ rw e
]

pub taken_bytes :
    (r : Read) (p : Player)
    → All IsByte r.bytes
    → All IsByte p.samples
    → All IsByte (fread r p).samples
taken_bytes r p b h =
    All-append r.bytes (drop (length r.bytes) p.samples) b (All-drop (length r.bytes) p.samples h)

pub loaded-IsFilling :
    (format : Format) (r : Read) {p : Player} {n : ℕ}
    → IsFilling p n
    → n < capacity
    → All IsByte r.bytes
    → IsFilling (loaded format r p) (n + 1)
loaded-IsFilling format r {p} h room b = record {
  loading = loaded-IsLoading format r h.loading room;
  bytes = rw (samples-loaded format r p) (taken_bytes r p b h.bytes);
}

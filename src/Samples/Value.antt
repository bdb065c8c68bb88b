-- ===== src/Samples/Value.antt =====
-- The signed number that `raspdif_parse_sample` reads, and the audio word that a receiver of the
-- encoded sample ends up with.
use raspdif.Prelude.{ℕ, zero, suc, ◌+◌, ◌-◌, ◌*◌, ◌^◌, ◌<◌, ◌≡◌, ap, ◌∙◌, arith}
use raspdif.Prelude.{List, [], ◌∷◌, get_or, All, bit_or, sign_extend, ltb, if◌then◌else◌}
use raspdif.Bits.{bit_or_fields}
use raspdif.Spdif.{depth_16, depth_24}
use raspdif.Spdif.Build.Audio.{left_justified}
use raspdif.Samples.{Format, s16le, s24le, sample_size, bit_depth, parse_sample}

-- `negsuc n` is -(n + 1).
pub data ℤ : Type 0 where
  pos : ℕ → ℤ
  negsuc : ℕ → ℤ

-- The number that the pattern of an `int32_t` stands for.
abbrev pub signed32 : ℕ → ℤ
signed32 w = if ltb w (2 ^ 31) then pos w else negsuc (2 ^ 32 - w - 1)

-- A signed little-endian number, byte by byte: the last byte carries the sign, and a byte below
-- it adds itself to 256 times the number above it.
abbrev pub signed_byte : ℕ → ℤ
signed_byte b = if ltb b 128 then pos b else negsuc (255 - b)

abbrev pub byte_below : ℕ → ℤ → ℤ
byte_below b (pos n) = pos (b + 256 * n)
byte_below b (negsuc n) = negsuc (256 * n + 255 - b)

-- The bytes of a sample of the format, from `at` on.
abbrev pub signed_bytes : Format → List ℕ → ℕ → ℤ
signed_bytes s16le buffer at =
    byte_below (get_or buffer at 0) (signed_byte (get_or buffer (at + 1) 0))
signed_bytes s24le buffer at =
    byte_below (get_or buffer at 0)
      (byte_below (get_or buffer (at + 1) 0) (signed_byte (get_or buffer (at + 2) 0)))

abbrev pub unsigned_bytes : Format → List ℕ → ℕ → ℕ
unsigned_bytes s16le buffer at = get_or buffer at 0 + 256 * get_or buffer (at + 1) 0
unsigned_bytes s24le buffer at =
    get_or buffer at 0 + 256 * (get_or buffer (at + 1) 0 + 256 * get_or buffer (at + 2) 0)

abbrev pub IsByte : ℕ → Type 0
IsByte b = b < 256

byte_at : (buffer : List ℕ) (i : ℕ) → All IsByte buffer → get_or buffer i 0 < 256
byte_at [] i h = omega arith
byte_at (x ∷ xs) zero h = h.0
byte_at (x ∷ xs) (suc i) h = byte_at xs i h.1

parse_16 : (b0 b1 : ℕ) → b0 < 256 → b1 < 256 → bit_or (b1 * 2 ^ 8) b0 ≡ b0 + 256 * b1
parse_16 b0 b1 h0 h1 = omega (arith, bit_or_fields 8 b1 b0 h0)

parse_24 :
    (b0 b1 b2 : ℕ)
    → b0 < 256
    → b1 < 256
    → bit_or (bit_or (b2 * 2 ^ 16) (b1 * 2 ^ 8)) b0 ≡ b0 + 256 * (b1 + 256 * b2)
parse_24 b0 b1 b2 h0 h1 =
    rw (bit_or_fields 16 b2 (b1 * 2 ^ 8) (omega arith))
      (ap (λ t. bit_or t b0) (regroup b1 b2) ∙ bit_or_fields 8 (b2 * 256 + b1) b0 h0 ∙ omega arith)
  where
    regroup : (b1 b2 : ℕ) → b2 * 2 ^ 16 + b1 * 2 ^ 8 ≡ (b2 * 256 + b1) * 2 ^ 8
    regroup b1 b2 = omega arith

parse_sample_lem :
    (f : Format) (buffer : List ℕ) (at : ℕ)
    → All IsByte buffer
    → parse_sample f buffer at ≡ sign_extend (8 * sample_size f) (unsigned_bytes f buffer at)
unfolding parse_sample
parse_sample_lem s16le buffer at h =
    ap (sign_extend 16) (parse_16 _ _ (byte_at buffer at h) (byte_at buffer (at + 1) h))
parse_sample_lem s24le buffer at h =
    ap (sign_extend 24)
      (parse_24 _ _ (get_or buffer (at + 2) 0) (byte_at buffer at h) (byte_at buffer (at + 1) h))

value_16 :
    (b0 b1 : ℕ)
    → b0 < 256
    → b1 < 256
    → signed32 (sign_extend 16 (b0 + 256 * b1)) ≡ byte_below b0 (signed_byte b1)
value_16 b0 b1 h0 h1 = ground arith

value_24 :
    (b0 b1 b2 : ℕ)
    → b0 < 256
    → b1 < 256
    → b2 < 256
    → signed32 (sign_extend 24 (b0 + 256 * (b1 + 256 * b2)))
      ≡ byte_below b0 (byte_below b1 (signed_byte b2))
value_24 b0 b1 b2 h0 h1 h2 = ground arith

-- For a buffer of bytes, the number parsed is the signed little-endian number in the bytes of the sample, in either
-- format, wherever in the buffer it starts.
pub signed32-parse_sample :
    (f : Format) (buffer : List ℕ) (at : ℕ)
    → All IsByte buffer
    → signed32 (parse_sample f buffer at) ≡ signed_bytes f buffer at
signed32-parse_sample s16le buffer at h =
    ap signed32 (parse_sample_lem s16le buffer at h)
    ∙ value_16 _ _ (byte_at buffer at h) (byte_at buffer (at + 1) h)
signed32-parse_sample s24le buffer at h =
    ap signed32 (parse_sample_lem s24le buffer at h)
    ∙ value_24 _ _ _ (byte_at buffer at h) (byte_at buffer (at + 1) h) (byte_at buffer (at + 2) h)

sign_extend-lt : (f : Format) (x : ℕ) → sign_extend (8 * sample_size f) x < 2 ^ 32
sign_extend-lt s16le x = ground arith
sign_extend-lt s24le x = ground arith

pub parse_sample-lt :
    (f : Format) (buffer : List ℕ) (at : ℕ) → All IsByte buffer → parse_sample f buffer at < 2 ^ 32
parse_sample-lt f buffer at h =
    rw (parse_sample_lem f buffer at h) (sign_extend-lt f (unsigned_bytes f buffer at))

justified_16 : (x : ℕ) → x < 2 ^ 16 → left_justified depth_16 (sign_extend 16 x) ≡ x * 2 ^ 8
justified_16 x h = ground arith

justified_24 : (x : ℕ) → x < 2 ^ 24 → left_justified depth_24 (sign_extend 24 x) ≡ x
justified_24 x h = ground arith

-- For a buffer of bytes, a sample parsed and left-justified is the bytes of the input, unchanged, at the top of 24 bits.
pub left_justified-parse_sample :
    (f : Format) (buffer : List ℕ) (at : ℕ)
    → All IsByte buffer
    → left_justified (bit_depth f) (parse_sample f buffer at)
      ≡ unsigned_bytes f buffer at * 2 ^ (24 - 8 * sample_size f)
left_justified-parse_sample s16le buffer at h =
    ap (left_justified depth_16) (parse_sample_lem s16le buffer at h)
    ∙ justified_16 (unsigned_bytes s16le buffer at)
        (omega (arith, byte_at buffer at h, byte_at buffer (at + 1) h))
left_justified-parse_sample s24le buffer at h =
    ap (left_justified depth_24) (parse_sample_lem s24le buffer at h)
    ∙ (justified_24 (unsigned_bytes s24le buffer at)
          (omega (arith, byte_at buffer at h, byte_at buffer (at + 1) h, byte_at buffer (at + 2) h))
        ∙ omega arith)

-- ===== src/Examples/Files.antt =====
-- The calls of the system on the small machine, with a file of pairs.
use raspdif.Prelude.{ℕ, ◌+◌, ◌*◌, ◌-◌, ◌%◌, ◌<◌, ◌≡◌, ◌≢◌, refl, sym, arith, inl, inr}
use raspdif.Prelude.{Bool, Bool-cases, true, false, ◌==◌, if◌then◌else◌, List, [], ◌∷◌}
use mathlib.Core.Path.{subst}
use raspdif.Samples.{s16le}
use raspdif.ControlBlocks.{block_address}
use raspdif.Play.{Config}
use raspdif.Program.{Machine}
use raspdif.Live.{Calls}
use raspdif.Live.Device.{IsKept}
use raspdif.Live.Progress.{IsProgress}
use raspdif.Prelude.{◌≤◌}
use raspdif.Registers.{get}
use raspdif.Dma.{active}
use raspdif.Examples.Board.{
  pcm_registers, channel_registers, Device, device_bus, device_blocks, board, conblk_register,
  conblk,
}

-- The pairs that are left, at most 7000.
abbrev pub left : Device → ℕ
left d = d.pending % 7001

abbrev goes_on : Device → Bool
goes_on d = get active d.status == 1

-- A pair of 16-bit samples or the end of the file.
abbrev pub read_pending : Device → List ℕ × Bool × Device
read_pending d =
    if left d == 0
    then ([], true, d)
    else (1 ∷ 2 ∷ 3 ∷ 4 ∷ [], false, record d { pending = d.pending - 1 })

-- The file is there or not.
abbrev pub calls : Bool → Calls Device
calls there = record {
  opens = λ file d. (there, d);
  reads =
      λ size d. let (bytes, eof, d') = read_pending d in (record { bytes = bytes; eof = eof }, d');
  unblocks = λ d. d;
  waits = λ d. d;
  sleeps = λ time d. if goes_on d then record d { steps = d.steps + 1 } else d;
  time = λ d. 0;
  rand = λ seed i. i;
}

pub calls-IsKept : (there : Bool) → IsKept (calls there) device_blocks
calls-IsKept there = record {
  reads = λ size d. elim (Bool-cases (left d == 0)) [ inl e ↦ rw e refl | inr e ↦ rw e refl ];
  bytes = λ size d. elim (Bool-cases (left d == 0)) [
    | inl e ↦ rw e tt
    | inr e ↦ rw e (omega arith, (omega arith, (omega arith, (omega arith, tt))))
  ];
  unblocks = λ d. refl;
  waits = λ d. refl;
  sleeps = λ n d. elim (Bool-cases (goes_on d)) [ inl e ↦ rw e refl | inr e ↦ rw e refl ];
}

-- More than 7000 while DMA stands still.
abbrev pub rank : Device → ℕ
rank d = if goes_on d then left d else left d + 7001

abbrev pub file_config : Config
file_config = record { base = 0xC000_0000; format = s16le; keep_alive = true; pcm_disable = false }

moves_on :
    (base index steps : ℕ)
    → conblk steps ≡ block_address base index
    → conblk (steps + 1) ≢ block_address base index
moves_on base index steps here there = omega arith

too_high : (d : Device) → goes_on d ≡ false → rank d ≤ 7000 → ⊥
too_high d off low = let above : left d + 7001 ≤ 7000 = rw off at low in omega (arith, above)

left-rank : (d : Device) → left d ≤ rank d
left-rank d = elim (Bool-cases (goes_on d)) [
  | inl on ↦ rw on (omega arith)
  | inr off ↦ rw off (omega arith)
]

slept-rank : (d : Device) → rank ((calls true).sleeps 0 d) ≤ rank d
slept-rank d = elim (Bool-cases (goes_on d)) [
  | inl on ↦ rw (on, on) (omega arith)
  | inr off ↦ rw (off, off) (omega arith)
]

moves_at :
    (base index a : ℕ) (d : Device)
    → a ≡ conblk_register
    → rank d ≤ 7000
    → (device_bus.read a d).0 ≡ block_address base index
    → (device_bus.read a ((calls true).sleeps 0 d)).0 ≢ block_address base index
moves_at base index a d here low = elim (Bool-cases (goes_on d)) [
  | inl on ↦ rw on (
      subst
        (λ x.
          (device_bus.read x d).0 ≡ block_address base index
          → (device_bus.read x (record d { steps = d.steps + 1 })).0 ≢ block_address base index)
        (sym here) (moves_on base index d.steps))
  | inr off ↦ absurd (too_high d off low)
]

starts_at :
    (a v : ℕ) (d : Device)
    → a ≡ channel_registers
    → get active v ≡ 1
    → (rank (device_bus.write a v d) ≤ 7000) × (rank (device_bus.write a v d) ≤ rank d)
starts_at a v d here on =
    subst (λ x. (rank (device_bus.write x v d) ≤ 7000) × (rank (device_bus.write x v d) ≤ rank d))
      (sym here) (rw on (omega arith, left-rank d))

pcm_at : (a v : ℕ) (d : Device) → a ≡ pcm_registers → rank (device_bus.write a v d) ≤ rank d
pcm_at a v d here = subst (λ x. rank (device_bus.write x v d) ≤ rank d) (sym here) (omega arith)

read-rank :
    (d : Device) → (left d == 0) ≡ false → rank (record d { pending = d.pending - 1 }) < rank d
read-rank d more = elim (Bool-cases (goes_on d)) [
  | inl on ↦ rw on (ground arith)
  | inr off ↦ rw off (ground arith)
]

pub calls-IsProgress :
    (there : Bool) (m : Machine Device) (c : Config) (delay : ℕ)
    → m.drivers.pcm ≡ pcm_registers
    → m.drivers.dma + m.raspdif.dma_channel * 256 + 4 ≡ conblk_register
    → IsProgress (board true) (calls there) m c delay rank 7000
calls-IsProgress there m c delay pcm_here here = record {
  by_read = λ a d. omega arith;
  by_pcm = λ v d. pcm_at m.drivers.pcm v d pcm_here;
  starts = λ v d on.
      starts_at (m.drivers.dma + m.raspdif.dma_channel * 256) v d (omega (arith, here)) on;
  by_unblock = λ d. omega arith;
  by_wait = λ d. omega arith;
  by_fread = λ size d. elim (Bool-cases (left d == 0)) [
    | inl e ↦ rw e (omega arith)
    | inr e ↦ rw e (omega (arith, read-rank d e))
  ];
  ends = λ size d. elim (Bool-cases (left d == 0)) [
    | inl e ↦ rw e (inl refl)
    | inr e ↦ rw e (inr (read-rank d e))
  ];
  by_sleep = λ time d. slept-rank d;
  moves = λ index d low e. moves_at c.base index _ d here low e;
}

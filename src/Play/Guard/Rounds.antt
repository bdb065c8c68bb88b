-- ===== src/Play/Guard/Rounds.antt =====
-- The order of readings and stores over the rounds of the loops of `main`.
use mathlib.Core.Path.{subst}
use raspdif.Prelude.{ℕ, ◌+◌, ◌≡◌, sym, ap, ◌∙◌, u8}
use raspdif.Prelude.{Bool, true, false, not, ◌&&◌, ◌==◌, Bool-cases, ltb, inl, inr}
use raspdif.Prelude.{List, [], ◌∷◌, none, some}
use raspdif.Buffers.{buffer_count}
use raspdif.ControlBlocks.{block_address}
use raspdif.Samples.{Format}
use raspdif.Play.{polled, waited, pcm_enable, Player, note, note_if, Read, items, fread}
use raspdif.Play.{store_samples, store_pair, preload, Tick, Config, underrun, round, fill_buffers}
use raspdif.Play.{transmit, start_transmit, play}
use raspdif.Play.Guard.{
  last_poll, Guarded, Free, Free-store_pair, Guarded-fill_buffers, Free-of_poll,
}

module _ (base : ℕ) where
  Guarded-note_if :
      (b on : Bool) (p : Player)
      → Guarded base p.trace
      → Guarded base (note_if b (pcm_enable on) p).trace
  Guarded-note_if true on p h = h
  Guarded-note_if false on p h = h

  Free-store_samples :
      (format : Format) (p : Player)
      → Free base p.buffer_index p
      → Free base p.buffer_index (store_samples format p).0
  unfolding store_samples
  Free-store_samples format p h = Free-store_pair base format p.buffer_index _ _ p h

Guarded-underrun :
    (c : Config) (t : Tick) (p : Player)
    → Free c.base p.buffer_index p
    → Guarded c.base (underrun c t p).player.trace
unfolding underrun
Guarded-underrun c t p h =
    let r = fill_buffers c.base c.format c.keep_alive t.noise t.polls p.buffer_index p in
    let filled =
      Guarded-fill_buffers c.base c.format c.keep_alive t.noise t.polls p.buffer_index p h in
    let p1 = note_if c.pcm_disable (pcm_enable false) r.player in
    elim (Bool-cases r.finished) [
      | inl e ↦ rw e (
          Guarded-note_if c.base c.pcm_disable true (note waited p1)
            (Guarded-note_if c.base c.pcm_disable false r.player filled))
      | inr e ↦ rw e filled
    ]

Guarded-round :
    (c : Config) (t : Tick) (p : Player)
    → Guarded c.base p.trace
    → Guarded c.base (round c t p).player.trace
unfolding round
Guarded-round c t p h =
    let p2 = fread t.read (note (polled t.conblk) p) in
    elim (Bool-cases (t.conblk == block_address c.base p.buffer_index)) [
      | inl busy ↦ rw busy h
      | inr free ↦
          let ready : Free c.base p.buffer_index p2 =
            Free-of_poll c.base t.conblk p.buffer_index p free h in
          let s = Free-store_samples c.base c.format p2 ready in
          elim (Bool-cases (not (items c.format t.read == 2) && not t.read.eof)) [
            | inl short ↦ rw (free, short) (Guarded-underrun c t p2 ready)
            | inr whole ↦ elim (Bool-cases (store_samples c.format p2).1) [
              | inl e ↦ rw (free, whole, e) s.1
              | inr e ↦ rw (free, whole, e) s.1
            ]
          ]
    ]

Guarded-transmit :
    (c : Config) (ticks : List Tick) (p : Player)
    → Guarded c.base p.trace
    → Guarded c.base (transmit c ticks p).trace
unfolding transmit
Guarded-transmit c [] p h = h
Guarded-transmit c (t ∷ ticks) p h =
    let r = round c t p in
    elim (Bool-cases (r.finished && not r.eof)) [
      | inl e ↦ rw e (Guarded-transmit c ticks r.player (Guarded-round c t p h))
      | inr e ↦ rw e (Guarded-round c t p h)
    ]

-- While the register has not been read, DMA is off and every buffer may be stored to.
record IsQuiet (base : ℕ) (p : Player) : Type 0 where
  unread : last_poll p.trace ≡ none
  guarded : Guarded base p.trace

IsQuiet-store_samples :
    (base : ℕ) (format : Format) (p : Player)
    → IsQuiet base p
    → IsQuiet base (store_samples format p).0
unfolding store_samples store_pair
IsQuiet-store_samples base format p h = record {
  unread = h.unread;
  guarded = (λ e. none≢some (sym h.unread ∙ e), h.guarded);
}
  where
    none≢some : {a : ℕ} → none ≡ some a → ⊥
    none≢some e = cc

IsQuiet-preload :
    (base : ℕ) (format : Format) (reads : List Read) (p : Player)
    → IsQuiet base p
    → IsQuiet base (preload format reads p).player
unfolding preload
IsQuiet-preload base format [] p h = h
IsQuiet-preload base format (r ∷ reads) p h =
    let p1 = fread r p in
    let q1 : IsQuiet base p1 = record { unread = h.unread; guarded = h.guarded } in
    let q2 = IsQuiet-store_samples base format p1 q1 in
    let p2 = (store_samples format p1).0 in
    let next : Player = record p2 { buffer_index = u8 (p2.buffer_index + 1) } in
    let q3 : IsQuiet base next = record { unread = q2.unread; guarded = q2.guarded } in
    elim (Bool-cases (ltb 0 (items format r) && ltb p1.buffer_index buffer_count)) [
      | inl go ↦ elim (Bool-cases (store_samples format p1).1) [
        | inl e ↦ rw (go, e) (IsQuiet-preload base format reads next q3)
        | inr e ↦ rw (go, e) (IsQuiet-preload base format reads p2 q2)
      ]
      | inr stop ↦ rw stop q1
    ]

-- In every run of `main` from an empty trace, whatever DMA, the input and the random numbers do, no pair of samples is
-- stored into a buffer that the last reading of the DMA register showed in use.
pub play-Guarded :
    (c : Config) (reads : List Read) (ticks : List Tick) (p : Player)
    → p.trace ≡ []
    → Guarded c.base (play c reads ticks p).trace
unfolding play start_transmit
play-Guarded c reads ticks p h =
    let l = preload c.format reads p in
    let begin : IsQuiet c.base p = record {
      unread = ap last_poll h;
      guarded = subst (Guarded c.base) (sym h) tt;
    } in
    let q = IsQuiet-preload c.base c.format reads p begin in
    elim (Bool-cases l.finished) [
      | inl e ↦ elim (Bool-cases l.eof) [
        | inl at_end ↦ rw (e, at_end) q.guarded
        | inr more ↦ rw (e, more) (Guarded-transmit c ticks (start_transmit l.player) q.guarded)
      ]
      | inr e ↦ rw e q.guarded
    ]

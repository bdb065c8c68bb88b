-- ===== src/Live/Follows.antt =====
-- The preload and the playing of `main` on the machine, compared with those of Play for the readings that
-- they are given.
use raspdif.Prelude.{ℕ, zero, suc, ◌<◌, ◌≡◌, refl, ap, ◌∙◌, inl, inr}
use raspdif.Prelude.{true, ◌&&◌, ltb, Bool-cases, if◌then◌else◌, List, [], ◌∷◌, All}
use raspdif.Buffers.{buffer_count}
use raspdif.Play.{Player, Read, Config, Tick}
use raspdif.Play.{fread, items, start_transmit}
use raspdif.Play.{preload, play}
use raspdif.Program.{Machine, system_call, ◌>>◌}
use raspdif.Setup.{Board}
use raspdif.Setup.Harmless.{Untouched}
use raspdif.Registers.{assign, assign_all}
use raspdif.Dma.{active}
use raspdif.Live.{Calls, Played, enable_dma, enable_pcm}
use raspdif.Live.{live_preload, live_play}
use raspdif.Live.Device.{channel_registers, enabling}
use raspdif.Live.Yields.{Yields, then-Yields, after-Yields, map-Yields, give-Yields}
use raspdif.Live.Device.{IsDriven, IsKept}
use raspdif.Play.Start.Whole.{BringsBytes}
use raspdif.Play.Loop.Always.{ReadsBytes}
use raspdif.Play.{Action, dma_enable, pcm_enable}
use mathlib.Core.Path.{subst}
use raspdif.Prelude.{sym}
use raspdif.Live.Made.{
  Made, begins, acts, freads, unblocks, store_samples-Goes, ticks_reads, preload_reads, all_reads,
}
use raspdif.Live.Yields.{call-Yields}
use raspdif.Live.Device.{read-Yields, dma-Yields, pcm-Yields}
use raspdif.Live.Rounds.{meets_end, live_transmit-Yields}

module _ {S : Type 0} {H : Type 0} (board : Board S) (calls : Calls S) (held : S → H)
    (m : Machine S) (u : Untouched held board.bus board.pcm_delay board.gpio_delay) (d : IsDriven m)
    (kept : IsKept calls held) (c : Config) (delay : ℕ) (short : delay < 1_000_000)
    (before : List Action) (s0 : S) where
  -- These actions and these reads led to the device.
  abbrev MadeBy : List Action → List Read → S → Type 0
  MadeBy = Made board calls m c delay before s0

  pub live_preload-Yields :
      (rounds : ℕ) (p : Player) (s : S)
      → Yields held m (live_preload board calls c delay rounds p) s (λ l s'.
        (reads : List Read) × All BringsBytes reads
        × (preload c.format reads p ≡ l)
        × ((R : List Read) → MadeBy p.trace R s → MadeBy l.player.trace (preload_reads reads R) s'))
  unfolding live_preload preload preload_reads
  live_preload-Yields zero p s = give-Yields held m _ ([], tt, refl, λ R made. made)
  live_preload-Yields (suc rounds) p s =
      then-Yields held m (read-Yields held m board calls u d kept c.format s) λ r s1 (from, bytes).
        let p1 = fread r p in
        elim (Bool-cases (ltb 0 (items c.format r) && ltb p1.buffer_index buffer_count)) [
          | inl on ↦ rw on (
              map-Yields held m
                (λ l s2 (reads, more, e, go). (
                  r ∷ reads,
                  (bytes, more),
                  rw on e,
                  λ R made. go (r ∷ R) (
                      store_samples-Goes board calls m c delay before s0 p1 _ s1 (r ∷ R)
                        (freads r made from)),
                ))
                (live_preload-Yields rounds _ s1))
          | inr off ↦ rw off (
              give-Yields held m _ (r ∷ [], (bytes, tt), rw off refl, λ R made. freads r made from))
        ]

  -- The device when DMA, PCM and the reading are set going.
  abbrev pub begun : S → S
  begun s = calls.unblocks (
      assign_all board.bus m.drivers.pcm (enabling true)
        (assign board.bus (channel_registers m) active 1 s))

  pub begin-Yields :
      (s : S)
      → Yields held m
          (enable_dma board calls true >> enable_pcm board calls true >> system_call calls.unblocks)
          s
          (λ _ s'. s' ≡ begun s)
  begin-Yields s =
      after-Yields held m
        (after-Yields held m {Q = λ _ s'. calls.unblocks s' ≡ begun s}
          (dma-Yields held m board calls u d true s)
          (λ s1 on.
            map-Yields held m
              (λ r s2 e.
                ap calls.unblocks e
                ∙ ap (λ t. calls.unblocks (assign_all board.bus m.drivers.pcm (enabling true) t))
                    on)
              (pcm-Yields held m board calls u d true s1)))
        (λ s3 on.
          map-Yields held m (λ r s4 e. e ∙ on) (call-Yields held m calls.unblocks kept.unblocks s3))

  begun-Made :
      (trace : List Action) (R : List Read) (s s' : S)
      → s' ≡ begun s
      → MadeBy trace R s
      → MadeBy (pcm_enable true ∷ dma_enable true ∷ trace) R s'
  begun-Made trace R s s' e made =
      subst (MadeBy (pcm_enable true ∷ dma_enable true ∷ trace) R) (sym e)
        (unblocks (acts (pcm_enable true) (acts (dma_enable true) made refl) refl))

  -- The playing of the model, whose loops came to their end or not.
  abbrev pub PlaysBy : Player → S → Played → S → Type 0
  PlaysBy p s r s' =
      (reads : List Read) × (ticks : List Tick) × All BringsBytes reads
      × All ReadsBytes ticks
      × (play c reads ticks p ≡ r.player)
      × ((let l = preload c.format reads p in
            l.finished && (if l.eof then true else meets_end c ticks (start_transmit l.player)))
          ≡ r.over)
      × (MadeBy p.trace [] s → MadeBy r.player.trace (all_reads c reads ticks p) s')

  pub live_play-PlaysBy :
      (fuel rounds : ℕ) (p : Player) (s : S)
      → Yields held m (live_play board calls c delay fuel rounds p) s (PlaysBy p s)
  unfolding live_play play start_transmit ticks_reads
  live_play-PlaysBy fuel rounds p s =
      then-Yields held m (live_preload-Yields rounds p s) λ l s1 (reads, bytes, e, go).
        elim (Bool-cases l.finished) [
          | inl loaded ↦ rw loaded (
              after-Yields held m (begin-Yields s1) λ s4 open_end. elim (Bool-cases l.eof) [
                | inl ended ↦ rw ended (
                    give-Yields held m _ (
                      reads,
                      [],
                      bytes,
                      tt,
                      rw (e, loaded, ended) refl,
                      rw (e, loaded, ended) refl,
                      λ made. begun-Made l.player.trace _ s1 s4 open_end (go [] made),
                    ))
                | inr onward ↦ rw onward (
                    map-Yields held m
                      (λ r s5 (ticks, more, f, g, next). (
                        reads,
                        ticks,
                        bytes,
                        more,
                        rw (e, loaded, onward) f,
                        rw (e, loaded, onward) g,
                        λ made.
                            subst
                              (λ x.
                                MadeBy r.player.trace
                                  (ticks_reads c ticks (start_transmit x.player)
                                    (preload_reads reads []))
                                  s5)
                              (sym e)
                              (next _ (begun-Made l.player.trace _ s1 s4 open_end (go [] made))),
                      ))
                      (live_transmit-Yields board calls held m u d kept c delay short before s0 fuel
                        rounds (start_transmit l.player) s4))
              ])
          | inr waiting ↦ rw waiting (
              give-Yields held m _
                (reads, [], bytes, tt, rw (e, waiting) refl, rw (e, waiting) refl, go []))
        ]

module _ {S : Type 0} {H : Type 0} (board : Board S) (calls : Calls S) (held : S → H)
    (m : Machine S) (u : Untouched held board.bus board.pcm_delay board.gpio_delay) (d : IsDriven m)
    (kept : IsKept calls held) (c : Config) (delay : ℕ) (short : delay < 1_000_000) where
  -- The playing of the model for the reads that were made, and the device that its actions made.
  abbrev pub PlaysSo : Player → S → Played → S → Type 0
  PlaysSo p s r s' =
      (reads : List Read) × (ticks : List Tick) × All BringsBytes reads
      × All ReadsBytes ticks
      × (play c reads ticks p ≡ r.player)
      × ((let l = preload c.format reads p in
            l.finished && (if l.eof then true else meets_end c ticks (start_transmit l.player)))
          ≡ r.over)
      × Made board calls m c delay p.trace s r.player.trace (all_reads c reads ticks p) s'

  -- On drivers that are initialised and a system whose calls keep what is held and whose reads
  -- bring bytes, with a delay below a second, for every fuel: the loops of main leave the
  -- machine as it was, but for the device, which still holds what it held. The player is the
  -- one that the model leaves for the reads that were made of the file and for some rounds. The
  -- actions that it records and these reads, in their order, are the calls that led from the
  -- first state of the device to the last, and each reading of the DMA register gave the
  -- address recorded; besides them there was only the call that makes the file non-blocking.
  -- The loops are over exactly if the model met the end of the file.
  pub live_play-Plays :
      (fuel rounds : ℕ) (p : Player) (s : S)
      → Yields held m (live_play board calls c delay fuel rounds p) s (PlaysSo p s)
  live_play-Plays fuel rounds p s =
      map-Yields held m
        (λ r s' (reads, ticks, bytes, more, same, over, made).
          (reads, ticks, bytes, more, same, over, made begins))
        (live_play-PlaysBy board calls held m u d kept c delay short p.trace s fuel rounds p s)

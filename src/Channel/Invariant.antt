-- ===== src/Channel/Invariant.antt =====
-- forastero/scoreboard.py, class Channel: each segment of the loop beside the moves of the abstract
-- machine.
use forastero.Prelude.{◌<◌, ◌≡◌, refl, ◌∙◌, List, [], ◌∷◌, true, false, inl, inr, arith, Eq}
use forastero.Queue.Access.{
  on_push_event_registers, wait_for_not_empty_empty, wait_for_not_empty_found,
}
use forastero.Transaction.{Transaction}
use forastero.Channel.{
  Channel, Config, Stage, idle, at_monitor, at_lock, at_reference, at_push, at_pop, failed, acquire,
  start, resume, advance,
}
use forastero.Channel.Moves.{view, stay, resume_reference_lem}
use forastero.Channel.Pairing.{
  Ready, IsReady, Advances, after_pair-Advances, search-Advances, pick-Advances,
}

module _ {F : Type 0} ⦃e : Eq F⦄ (cfg : Config) (pos : 0 < cfg.match_window) where
  acquire-Advances :
      (mon : Transaction F) (rest : List (Transaction F)) (c : Channel (Transaction F))
      → c.locked ≡ false
      → c.q_mon.entries ≡ mon ∷ rest
      → Advances cfg pos (view c) (acquire cfg c)
  unfolding acquire
  acquire-Advances mon rest c l h =
      rw l (pick-Advances cfg pos mon rest (record c { locked = true }) refl h)

  start-Advances :
      (mons : List (Transaction F)) (c : Channel (Transaction F))
      → c.locked ≡ false
      → c.q_mon.entries ≡ mons
      → Advances cfg pos (view c) (start cfg c)
  unfolding start
  start-Advances [] c l none_left =
      let (kept, event) = on_push_event_registers c.next_event c.q_mon in
      simp (wait_for_not_empty_empty c.next_event c.q_mon none_left, start)
        (
          stay (λ i. record {
            captured = kept i;
            expected = c.q_ref.entries;
            told = c.reports;
            matched = c.matched;
            mismatched = c.mismatched;
          }),
          (l, inl (_, event, kept ∙ none_left)),
        )
  start-Advances (mon ∷ rest) c l h =
      simp (wait_for_not_empty_found c.next_event c.q_mon h, start)
        (acquire-Advances mon rest c l h)

  still-Advances :
      (c : Channel (Transaction F)) → IsReady cfg.match_window c → Advances cfg pos (view c) c
  still-Advances c r = (stay refl, r)

  resume-Advances :
      (s : Stage (Transaction F)) (c : Channel (Transaction F))
      → Ready cfg.match_window s c.q_mon c.q_ref c.locked
      → c.stage ≡ s
      → Advances cfg pos (view c) (resume cfg s c)
  unfolding resume
  resume-Advances idle c r s = start-Advances _ c r refl
  resume-Advances at_monitor c (l, inl (evt, waits, none_left)) s =
      simp waits (still-Advances c (rw s (l, inl (evt, waits, none_left))))
  resume-Advances at_monitor c (l, inr (mon, rest, pushed, h)) s =
      simp pushed (acquire-Advances mon rest c l h)
  resume-Advances at_lock c r s = absurd r
  resume-Advances at_reference c (w, l, front, inl (evt, waits, none_left)) s =
      simp waits (still-Advances c (rw s (w, l, front, inl (evt, waits, none_left))))
  resume-Advances at_reference c (w, l, (mon, rest, h), inr (ref, refs, pushed, front)) s =
      simp pushed (
        rw (resume_reference_lem cfg mon ref rest c h (ground arith))
          (after_pair-Advances cfg pos mon ref rest 0 c l h (ground arith) (inl (w, refl))))
  resume-Advances (at_push mon) c (w, l, (rest, h), inl (evt, waits, short)) s =
      simp waits (still-Advances c (rw s (w, l, (rest, h), inl (evt, waits, short))))
  resume-Advances (at_push mon) c (w, l, (rest, h), inr pushed) s =
      simp pushed (search-Advances cfg pos mon rest c l h w)
  resume-Advances (at_pop ref) c r s = absurd r
  resume-Advances (failed f) c r s = (stay refl, rw s r)

  -- One segment of the loop, from any state in which it can stand: either nothing is taken from
  -- the queues, or the captured entry at the front is reported once, against an expected entry that
  -- the matching window allows, and both are removed. The loop is left in such a state again,
  -- so it never meets an IndexError.
  pub advance-Advances :
      (c : Channel (Transaction F))
      → IsReady cfg.match_window c
      → Advances cfg pos (view c) (advance cfg c)
  unfolding advance
  advance-Advances c r = resume-Advances c.stage c r refl

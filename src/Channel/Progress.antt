-- ===== src/Channel/Progress.antt =====
-- forastero/scoreboard.py, class Channel: what a number of turns of the loop comes to.
use forastero.Prelude.{
  ℕ, ◌≡◌, sym, ◌∙◌, List, [], ◌∷◌, ◌++◌, true, false, inl, inr, length, arith, Eq, ◌==◌, replicate,
  subst, append-nil, append_assoc,
}
use forastero.Queue.Access.{wait_for_not_empty_found}
use forastero.Transaction.{Transaction}
use forastero.Channel.{
  Channel, Config, Report, Stage, idle, at_monitor, at_lock, at_reference, at_push, at_pop, failed,
  mon_and_ref, advance, resume, start, acquire, pick, settle,
}
use forastero.Channel.Moves.{report, after_pair, take_reference_lem, resume_reference_lem}
use forastero.Channel.Pairing.{IsReady, Ready}
use forastero.Channel.History.{turn, run}
use forastero.Channel.Drain.{drain, drained}
use forastero.Prelude.{◌↔◌}

abbrev pub HasFailed : {T : Type 0} → Stage T → Type 0
HasFailed (failed _) = Unit {0}
HasFailed _ = ⊥

module _ {F : Type 0} ⦃e : Eq F⦄ (cfg : Config) (one : cfg.match_window ≡ 1)
    (goes_on : cfg.fail_fast ≡ false) where
  -- The fronts of both queues were reported, and the loop is ready for the next pair.
  pub record Paired (rest refs : List (Transaction F)) (told : List (Report (Transaction F)))
      (c : Channel (Transaction F)) : Type 0 where
    pub captured : c.q_mon.entries ≡ rest
    pub expected : c.q_ref.entries ≡ refs
    pub told_all : c.reports ≡ told
    pub again : c.stage ≡ idle
    pub free : c.locked ≡ false

  module _ (mon ref : Transaction F) (rest refs : List (Transaction F)) where
    after_pair-Paired :
        (c : Channel (Transaction F))
        → c.q_ref.entries ≡ ref ∷ refs
        → Paired rest refs (c.reports ++ report mon ref ∷ []) (after_pair cfg mon ref rest 0 c)
    unfolding settle
    after_pair-Paired c h = ground arith

    abbrev Pairs : Channel (Transaction F) → Channel (Transaction F) → Type 0
    Pairs c c' =
        c.q_mon.entries ≡ mon ∷ rest
        → c.q_ref.entries ≡ ref ∷ refs
        → Paired rest refs (c.reports ++ report mon ref ∷ []) c'

    pick-Paired : (c : Channel (Transaction F)) → Pairs c (pick cfg c)
    unfolding pick
    pick-Paired c h h' =
        let test : (cfg.match_window == 1) ≡ true = ground arith in
        rw (test, take_reference_lem cfg mon ref rest 0 c h (ground arith)) (after_pair-Paired c h')

    acquire-Paired : (c : Channel (Transaction F)) → c.locked ≡ false → Pairs c (acquire cfg c)
    unfolding acquire
    acquire-Paired c l h h' = rw l (pick-Paired (record c { locked = true }) h h')

    resume-Paired :
        (s : Stage (Transaction F)) (c : Channel (Transaction F))
        → Ready cfg.match_window s c.q_mon c.q_ref c.locked
        → ¬ HasFailed s
        → Pairs c (resume cfg s c)
    unfolding resume start
    resume-Paired idle c l ok h h' =
        simp (wait_for_not_empty_found c.next_event c.q_mon h, start) (acquire-Paired c l h h')
    resume-Paired at_monitor c (l, inl (evt, waits, none_left)) ok h h' = absurd (ground arith)
    resume-Paired at_monitor c (l, inr (_, _, pushed, _)) ok h h' =
        simp pushed (acquire-Paired c l h h')
    resume-Paired at_lock c r ok h h' = absurd r
    resume-Paired at_reference c (w, l, front, inl (evt, waits, none_left)) ok h h' =
        absurd (ground arith)
    resume-Paired at_reference c (w, l, front, inr (_, _, pushed, _)) ok h h' =
        simp pushed
          (rw (resume_reference_lem cfg mon ref rest c h (ground arith)) (after_pair-Paired c h'))
    resume-Paired (at_push _) c (several, _, _, _) ok h h' = absurd (several one)
    resume-Paired (at_pop _) c r ok h h' = absurd r
    resume-Paired (failed f) c r ok h h' = absurd (ok tt)

    advance-Paired :
        (c : Channel (Transaction F))
        → IsReady cfg.match_window c
        → ¬ HasFailed c.stage
        → Pairs c (advance cfg c)
    unfolding advance
    advance-Paired c r ok = resume-Paired c.stage c r ok

  abbrev pub reports_of :
      List (Transaction F) → List (Transaction F) → List (Report (Transaction F))
  reports_of [] refs = []
  reports_of (mon ∷ mons) [] = []
  reports_of (mon ∷ mons) (ref ∷ refs) = report mon ref ∷ reports_of mons refs

  idle_turns :
      (mons refs extra : List (Transaction F)) (told : List (Report (Transaction F)))
      (c : Channel (Transaction F))
      → length mons ≡ length refs
      → Paired mons (refs ++ extra) told c
      → Paired [] extra (told ++ reports_of mons refs) (run cfg (replicate (length mons) turn) c)
  unfolding run
  idle_turns [] [] extra told c same p = rw append-nil p
  idle_turns [] (ref ∷ refs) extra told c same p = absurd (omega arith)
  idle_turns (mon ∷ mons) [] extra told c same p = absurd (omega arith)
  idle_turns (mon ∷ mons) (ref ∷ refs) extra told c same p =
      rw (append_assoc told (report mon ref ∷ []) (reports_of mons refs)) at (
        idle_turns mons refs extra (told ++ report mon ref ∷ []) (advance cfg c) (omega arith) (
          subst (λ l. Paired mons (refs ++ extra) (l ++ report mon ref ∷ []) (advance cfg c))
            p.told_all
            (advance-Paired mon ref mons (refs ++ extra) c (rw p.again p.free) (rw p.again (λ h. h))
              p.captured p.expected)))

  -- With a matching window of 1 and a mismatch callback that returns, from any state in which the
  -- loop stands at an await: if as many transactions are expected as were captured, or more, then
  -- as many turns as there are captured ones report each against the expected one at its place,
  -- leave no captured one, and leave the further expected ones as they were.
  pub turns_pair_all :
      (mons refs extra : List (Transaction F)) (c : Channel (Transaction F))
      → IsReady cfg.match_window c
      → ¬ HasFailed c.stage
      → length mons ≡ length refs
      → c.q_mon.entries ≡ mons
      → c.q_ref.entries ≡ refs ++ extra
      → let c' = run cfg (replicate (length mons) turn) c in
        (c'.q_mon.entries ≡ [])
        × (c'.q_ref.entries ≡ extra)
        × (c'.reports ≡ c.reports ++ reports_of mons refs)
  unfolding run
  turns_pair_all [] [] extra c r ok same h h' = (h, h', sym (append-nil c.reports))
  turns_pair_all [] (ref ∷ refs) extra c r ok same h h' = absurd (omega arith)
  turns_pair_all (mon ∷ mons) [] extra c r ok same h h' = absurd (omega arith)
  turns_pair_all (mon ∷ mons) (ref ∷ refs) extra c r ok same h h' =
      let p : Paired [] extra ((c.reports ++ report mon ref ∷ []) ++ reports_of mons refs)
          (run cfg (replicate (length mons) turn) (advance cfg c)) =
        idle_turns mons refs extra (c.reports ++ report mon ref ∷ []) (advance cfg c) (omega arith)
          (advance-Paired mon ref mons (refs ++ extra) c r ok h h') in
      (p.captured, p.expected, p.told_all ∙ append_assoc c.reports (report mon ref ∷ []) _)

module _ {F : Type 0} ⦃e : Eq F⦄ (window : ℕ) where
  -- With both queues empty, a drain under the default policy ends at once, with no warning, if
  -- and only if the loop has not ended: a loop that raised has kept the lock.
  pub drain-drained_iff :
      (c : Channel (Transaction F))
      → IsReady window c
      → c.q_mon.entries ≡ []
      → c.q_ref.entries ≡ []
      → (drain mon_and_ref c ≡ drained []) ↔ (¬ HasFailed c.stage)
  unfolding drain
  drain-drained_iff c r h h' = at c.stage r
    where
      at :
          (s : Stage (Transaction F))
          → Ready window s c.q_mon c.q_ref c.locked
          → (drain mon_and_ref c ≡ drained []) ↔ (¬ HasFailed s)
      at idle free = ((λ _ x. x), λ _. ground arith)
      at at_monitor (free, _) = ((λ _ x. x), λ _. ground arith)
      at at_lock r = absurd r
      at at_reference (_, _, (_, _, front), _) = absurd (ground arith)
      at (at_push _) (_, _, (_, front), _) = absurd (ground arith)
      at (at_pop _) r = absurd r
      at (failed f) (held, _) = ((λ d. absurd (ground arith)), λ ok. absurd (ok tt))

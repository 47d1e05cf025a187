-- ===== src/Funnel/Invariant.antt =====
-- forastero/scoreboard.py, class FunnelChannel: what holds at each await of its loop, and its
-- segments beside the moves of the abstract machine.
use Prim.Native.String.{String}
use forastero.Prelude.{
  ◌+◌, ◌≡◌, ◌≢◌, inl, inr, refl, sym, ap, ◌∙◌, List, [], ◌∷◌, ◌++◌, true, false, not, subst, arith,
  Bool-cases, Eq,
}
use forastero.Queue.Access.{
  wait_for_not_empty_empty, wait_for_not_empty_found, on_push_event_registers,
}
use forastero.Queue.{Queue, EventId}
use forastero.Transaction.{Transaction, tx_eq}
use forastero.Channel.{
  Channel, Config, Stage, idle, at_monitor, at_lock, at_reference, at_push, at_pop, failed,
  index_error, settle,
}
use forastero.Channel.Pairing.{Awaits}
use forastero.Channel.Moves.{report, as_count}
use forastero.Funnel.{
  Funnel, Sweep, found, nothing, pop_last, register_all, any_pushed, pair_up, conclude, round,
  acquire, start, resume, advance,
}
use forastero.Funnel.Moves.{
  View, view, contents, Move, stay, pair, Taken, Chosen, IsSweep, IsLast, sweep-IsSweep,
  pop_last-IsLast,
}

-- The lock is held exactly from `acquire` to the end of the comparison, over a captured entry.
abbrev pub Ready : {T : Type 0} → Stage T → Channel T → Type 0
Ready idle c = c.locked ≡ false
Ready at_monitor c = (c.locked ≡ false) × Awaits c.q_mon
Ready at_lock c = ⊥
Ready at_reference c = ⊥
Ready {T} (at_push mon) c = (c.locked ≡ true) × ((xs : List T) × (c.q_mon.entries ≡ mon ∷ xs))
Ready (at_pop _) c = ⊥
Ready (failed f) c = (c.locked ≡ true) × (f ≢ index_error)

abbrev pub IsReady : {T : Type 0} → Funnel T → Type 0
IsReady c = Ready c.base.stage c.base × (contents c.queues ≢ [])

module _ {A : Type 0} where
  append-cons-ne : (xs : List A) (y : A) (ys : List A) → xs ++ y ∷ ys ≢ []
  append-cons-ne [] y ys h = cc
  append-cons-ne (x ∷ xs) y ys h = cc

module _ {T : Type 0} where
  pub contents-register_all :
      (fresh : EventId) (queues : List (String × Queue T))
      → contents (register_all fresh queues) ≡ contents queues
  unfolding register_all
  contents-register_all fresh [] = refl
  contents-register_all fresh ((name, q) ∷ queues) =
      let (kept, event) = on_push_event_registers fresh q in
      rw (contents-register_all (fresh + 1) queues) (ap (λ es. (name, es) ∷ contents queues) kept)

module _ {F : Type 0} ⦃e : Eq F⦄ (cfg : Config) where
  abbrev pub Advances : View (Transaction F) → Funnel (Transaction F) → Type 0
  Advances v c = Move v (view c) × IsReady c

  settle-Ready :
      (mon ref : Transaction F) (c : Channel (Transaction F))
      → c.locked ≡ true
      → Ready (settle cfg mon ref c).stage (settle cfg mon ref c)
  unfolding settle
  settle-Ready mon ref c h = ground arith

  view-pair_up :
      (mon ref : Transaction F) (rest : List (Transaction F))
      (queues' : List (String × Queue (Transaction F))) (c : Funnel (Transaction F))
      → view (pair_up cfg mon ref rest queues' c) ≡ record {
        captured = rest;
        queues = contents queues';
        told = c.base.reports ++ report mon ref ∷ [];
        matched = c.base.matched + as_count (tx_eq mon ref);
        mismatched = c.base.mismatched + as_count (not (tx_eq mon ref));
      }
  unfolding pair_up settle
  view-pair_up mon ref rest queues' c = ground arith

  pair_up-Advances :
      (mon ref : Transaction F) (rest : List (Transaction F))
      (queues' : List (String × Queue (Transaction F))) (c : Funnel (Transaction F))
      (t : Taken (contents c.queues) (contents queues') ref)
      → c.base.locked ≡ true
      → c.base.q_mon.entries ≡ mon ∷ rest
      → Chosen mon ref (contents c.queues) (contents queues') t
      → Advances (view c) (pair_up cfg mon ref rest queues' c)
  unfolding pair_up
  pair_up-Advances mon ref rest queues' c t l h ch = rw (view-pair_up mon ref rest queues' c) (
    pair mon ref t h refl refl refl ch,
    (settle-Ready mon ref _ l, λ none_left. append-cons-ne t.before _ _ (sym t.now ∙ none_left)),
  )

  conclude-Advances :
      (mon : Transaction F) (rest : List (Transaction F)) (r : Sweep (Transaction F))
      (c : Funnel (Transaction F))
      → c.base.locked ≡ true
      → c.base.q_mon.entries ≡ mon ∷ rest
      → contents c.queues ≢ []
      → IsSweep mon c.queues false r
      → Advances (view c) (conclude cfg mon rest r c)
  unfolding conclude
  conclude-Advances mon rest (found queues' ref) c l h some_queue (t, same, before) =
      pair_up-Advances mon ref rest queues' c t l h (inl (same, before))
  conclude-Advances mon rest (nothing true) c l h some_queue s =
      let kept = contents-register_all c.base.next_event c.queues in
      rw kept (stay refl, ((l, (rest, h)), some_queue))
  conclude-Advances mon rest (nothing false) c l h some_queue (none_match, full) =
      conclude_last (pop_last c.queues) (pop_last-IsLast c.queues some_queue (sym full))
    where
      conclude_last :
          (r : Sweep (Transaction F))
          → IsLast c.queues r
          → Advances (view c) (elim r [
            | found queues' ref ↦ pair_up cfg mon ref rest queues' c
            | nothing _ ↦ record c { base = record (c.base) { stage = failed index_error } }
          ])
      conclude_last (found queues' ref) (t, last) =
          pair_up-Advances mon ref rest queues' c t l h (inr (last, none_match, sym full))
      conclude_last (nothing _) h = absurd h

  round-Advances :
      (mon : Transaction F) (rest : List (Transaction F)) (c : Funnel (Transaction F))
      → c.base.locked ≡ true
      → c.base.q_mon.entries ≡ mon ∷ rest
      → contents c.queues ≢ []
      → Advances (view c) (round cfg c.base.q_mon.entries c)
  unfolding round
  round-Advances mon rest c l h some_queue =
      subst (λ es. Advances (view c) (round cfg es c)) (sym h)
        (conclude-Advances mon rest _ c l h some_queue (sweep-IsSweep mon c.queues false))

  acquire-Advances :
      (mon : Transaction F) (rest : List (Transaction F)) (c : Funnel (Transaction F))
      → c.base.locked ≡ false
      → c.base.q_mon.entries ≡ mon ∷ rest
      → contents c.queues ≢ []
      → Advances (view c) (acquire cfg c)
  unfolding acquire
  acquire-Advances mon rest c l h some_queue = rw l (
      round-Advances mon rest (record c { base = record (c.base) { locked = true } }) refl h
        some_queue)

  start-Advances :
      (mons : List (Transaction F)) (c : Funnel (Transaction F))
      → c.base.locked ≡ false
      → c.base.q_mon.entries ≡ mons
      → contents c.queues ≢ []
      → Advances (view c) (start cfg c)
  unfolding start
  start-Advances [] c l none_left some_queue =
      let (kept, event) = on_push_event_registers c.base.next_event c.base.q_mon in
      simp (wait_for_not_empty_empty c.base.next_event c.base.q_mon none_left, start)
        (
          stay (λ i. record {
            captured = kept i;
            queues = contents c.queues;
            told = c.base.reports;
            matched = c.base.matched;
            mismatched = c.base.mismatched;
          }),
          ((l, inl (_, event, kept ∙ none_left)), some_queue),
        )
  start-Advances (mon ∷ rest) c l h some_queue =
      simp (wait_for_not_empty_found c.base.next_event c.base.q_mon h, start)
        (acquire-Advances mon rest c l h some_queue)

  resume-Advances :
      (s : Stage (Transaction F)) (c : Funnel (Transaction F))
      → Ready s c.base
      → contents c.queues ≢ []
      → c.base.stage ≡ s
      → Advances (view c) (resume cfg s c)
  unfolding resume
  resume-Advances idle c r q s = start-Advances _ c r refl q
  resume-Advances at_monitor c (l, inl (evt, waits, none_left)) q s =
      simp (waits, resume) (stay refl, (rw s (l, inl (evt, waits, none_left)), q))
  resume-Advances at_monitor c (l, inr (mon, rest, pushed, h)) q s =
      simp (pushed, resume) (acquire-Advances mon rest c l h q)
  resume-Advances at_lock c r q s = absurd r
  resume-Advances at_reference c r q s = absurd r
  resume-Advances (at_push mon) c (l, (rest, h)) q s = elim (Bool-cases (any_pushed c.queues)) [
    | inl pushed ↦ rw pushed (round-Advances mon rest c l h q)
    | inr waits ↦ rw waits (stay refl, (rw s (l, (rest, h)), q))
  ]
  resume-Advances (at_pop ref) c r q s = absurd r
  resume-Advances (failed f) c r q s = (stay refl, (rw s r, q))

  -- One segment of a funnel channel's loop, with at least one reference queue and from any state in
  -- which the loop can stand: either no queue changes, or the captured entry at the front and one
  -- entry at the front of a queue are removed and reported once. That entry is from the first
  -- queue whose front matches, or from the last queue, if all queues have entries and no front
  -- matches. The loop is left in such a state again, so it never meets an IndexError.
  pub advance-FunnelAdvances :
      (c : Funnel (Transaction F)) → IsReady c → Advances (view c) (advance cfg c)
  unfolding advance
  advance-FunnelAdvances c (r, q) = resume-Advances c.base.stage c r q refl

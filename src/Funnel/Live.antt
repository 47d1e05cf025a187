-- ===== src/Funnel/Live.antt =====
-- forastero/scoreboard.py, class FunnelChannel: its loop never waits for a push while the front of a
-- queue matches.
use Prim.Native.String.{String}
use forastero.Prelude.{
  ◌≡◌, ◌⊎◌, inl, inr, refl, sym, ◌∙◌, subst, List, [], ◌∷◌, true, false, any, Eq, ◌=?=◌, string_eq,
  arith, Bool-cases,
}
use forastero.Queue
use forastero.Queue.{Queue}
use forastero.Queue.Access.{
  wait_for_not_empty_found, wait_for_not_empty_empty, on_push_event_registers,
}
use forastero.Transaction.{Transaction, tx_eq}
use forastero.Channel.{
  Config, Stage, idle, at_monitor, at_lock, at_reference, at_push, at_pop, failed, settle,
}
use forastero.Funnel.{
  Funnel, Sweep, found, nothing, any_pushed, pair_up, conclude, round, acquire, start, resume,
  advance, push_at, has_queue,
}
use forastero.Funnel.Moves.{contents, head_matches, is_empty, IsSweep, sweep-IsSweep}
use forastero.Funnel.Invariant.{Ready, IsReady, contents-register_all}

module _ {F : Type 0} ⦃e : Eq F⦄ where
  -- A wait for a push has been answered, or no front matches the captured entry; no call has raised.
  abbrev pub Live : Stage (Transaction F) → List (String × Queue (Transaction F)) → Type 0
  Live idle queues = Unit {0}
  Live at_monitor queues = Unit {0}
  Live (at_push mon) queues =
      (any_pushed queues ≡ true) ⊎ (any (head_matches mon) (contents queues) ≡ false)
  Live _ queues = ⊥

  abbrev pub IsLive : Funnel (Transaction F) → Type 0
  IsLive c = Live c.base.stage c.queues

  -- A captured entry for which the loop finds its match, or a queue that is still empty.
  abbrev pub Expected : Transaction F → List (String × Queue (Transaction F)) → Type 0
  Expected mon queues =
      (any is_empty (contents queues) ≡ true) ⊎ (any (head_matches mon) (contents queues) ≡ true)

module _ {F : Type 0} ⦃e : Eq F⦄ (cfg : Config) (mon : Transaction F)
    (rest : List (Transaction F)) where
  -- The loop stays live, and has taken the captured entry if a front matched it.
  abbrev Turned : Funnel (Transaction F) → Funnel (Transaction F) → Type 0
  Turned c c' =
      IsLive c' × (any (head_matches mon) (contents c.queues) ≡ true → c'.base.q_mon.entries ≡ rest)

  pair_up-Turned :
      (ref : Transaction F) (queues' : List (String × Queue (Transaction F)))
      (c : Funnel (Transaction F))
      → tx_eq ref mon ≡ true
      → Turned c (pair_up cfg mon ref rest queues' c)
  unfolding pair_up settle tx_eq
  pair_up-Turned ref queues' c same =
      let swapped : tx_eq mon ref ≡ true = (e.beq_iff _ _).1 (sym ((e.beq_iff _ _).0 same)) in
      rw swapped (tt, λ h. refl)

  conclude-Turned :
      (r : Sweep (Transaction F)) (c : Funnel (Transaction F))
      → Expected mon c.queues
      → IsSweep mon c.queues false r
      → Turned c (conclude cfg mon rest r c)
  unfolding conclude
  conclude-Turned (found queues' ref) c x (t, same, before) = pair_up-Turned ref queues' c same
  conclude-Turned (nothing true) c x (none_match, full) =
      (inr (rw (contents-register_all c.base.next_event c.queues) none_match), λ h. cc)
  conclude-Turned (nothing false) c (inl gap) (none_match, full) = cc
  conclude-Turned (nothing false) c (inr match) (none_match, full) = cc

  round-Turned :
      (c : Funnel (Transaction F))
      → c.base.q_mon.entries ≡ mon ∷ rest
      → Expected mon c.queues
      → Turned c (round cfg c.base.q_mon.entries c)
  unfolding round
  round-Turned c h x =
      subst (λ es. Turned c (round cfg es c)) (sym h)
        (conclude-Turned _ c x (sweep-IsSweep mon c.queues false))

  acquire-Turned :
      (c : Funnel (Transaction F))
      → c.base.locked ≡ false
      → c.base.q_mon.entries ≡ mon ∷ rest
      → Expected mon c.queues
      → Turned c (acquire cfg c)
  unfolding acquire
  acquire-Turned c l h x =
      rw l (round-Turned (record c { base = record (c.base) { locked = true } }) h x)

  resume-Turned :
      (s : Stage (Transaction F)) (c : Funnel (Transaction F))
      → Ready s c.base
      → Live s c.queues
      → c.base.stage ≡ s
      → c.base.q_mon.entries ≡ mon ∷ rest
      → Expected mon c.queues
      → Turned c (resume cfg s c)
  unfolding resume start
  resume-Turned idle c l live s h x =
      simp (wait_for_not_empty_found c.base.next_event c.base.q_mon h, start)
        (acquire-Turned c l h x)
  resume-Turned at_monitor c (l, inl (evt, waits, none_left)) live s h x = absurd (ground arith)
  resume-Turned at_monitor c (l, inr (_, _, pushed, _)) live s h x =
      simp (pushed, resume) (acquire-Turned c l h x)
  resume-Turned at_lock c r live s h x = absurd r
  resume-Turned at_reference c r live s h x = absurd r
  resume-Turned (at_push front) c (l, (_, h')) (inl pushed) s h x = rw pushed (round-Turned c h x)
  resume-Turned (at_push front) c (l, (_, h')) (inr none_match) s h x =
      elim (Bool-cases (any_pushed c.queues)) [
        | inl pushed ↦ rw pushed (round-Turned c h x)
        | inr waits ↦
            let same : front ≡ mon = cc in
            let none_match' : any (head_matches mon) (contents c.queues) ≡ false =
              subst (λ m. any (head_matches m) (contents c.queues) ≡ false) same none_match in
            rw waits (
              rw s (inr none_match),
              λ match. let wrong : true ≡ false = sym match ∙ none_match' in cc,
            )
      ]
  resume-Turned (at_pop ref) c r live s h x = absurd r
  resume-Turned (failed f) c r live s h x = absurd live

  pub advance-Turned :
      (c : Funnel (Transaction F))
      → IsReady c
      → IsLive c
      → c.base.q_mon.entries ≡ mon ∷ rest
      → Expected mon c.queues
      → Turned c (advance cfg c)
  unfolding advance
  advance-Turned c (r, q) live h x = resume-Turned c.base.stage c r live refl h x

module _ {F : Type 0} ⦃e : Eq F⦄ where
  -- With nothing captured, a segment only registers a wait.
  resume-IsLive :
      (cfg : Config) (s : Stage (Transaction F)) (c : Funnel (Transaction F))
      → Ready s c.base
      → Live s c.queues
      → c.base.stage ≡ s
      → c.base.q_mon.entries ≡ []
      → IsLive (resume cfg s c) × ((resume cfg s c).base.q_mon.entries ≡ [])
  unfolding resume start
  resume-IsLive cfg idle c l live s h =
      let (kept, event) = on_push_event_registers c.base.next_event c.base.q_mon in
      simp (wait_for_not_empty_empty c.base.next_event c.base.q_mon h, start) (tt, kept ∙ h)
  resume-IsLive cfg at_monitor c (l, inl (evt, waits, none_left)) live s h =
      simp (waits, resume) (rw s tt, h)
  resume-IsLive cfg at_monitor c (l, inr (_, _, pushed, h')) live s h = absurd (ground arith)
  resume-IsLive cfg at_lock c r live s h = absurd r
  resume-IsLive cfg at_reference c r live s h = absurd r
  resume-IsLive cfg (at_push front) c (l, (_, h')) live s h = absurd (ground arith)
  resume-IsLive cfg (at_pop ref) c r live s h = absurd r
  resume-IsLive cfg (failed f) c r live s h = absurd live

  pub advance-IsLive :
      (cfg : Config) (c : Funnel (Transaction F))
      → IsReady c
      → IsLive c
      → c.base.q_mon.entries ≡ []
      → IsLive (advance cfg c) × ((advance cfg c).base.q_mon.entries ≡ [])
  unfolding advance
  advance-IsLive cfg c (r, q) live h = resume-IsLive cfg c.base.stage c r live refl h

  any_pushed-push_at :
      (name : String) (t : Transaction F) (queues : List (String × Queue (Transaction F)))
      → has_queue name queues ≡ true
      → any_pushed (push_at name t queues) ≡ true
  unfolding any_pushed push_at has_queue Queue.push
  any_pushed-push_at name t [] h = cc
  any_pushed-push_at name t ((key, q) ∷ queues) h = elim (Bool-cases (key =?= name)) [
    | inl same ↦ simp same refl
    | inr other ↦
        let later = any_pushed-push_at name t queues (rw other at h) in simp other (ground arith)
  ]

  pub push_at-Live :
      (name : String) (t : Transaction F) (s : Stage (Transaction F))
      (queues : List (String × Queue (Transaction F)))
      → has_queue name queues ≡ true
      → Live s queues
      → Live s (push_at name t queues)
  push_at-Live name t idle queues h live = live
  push_at-Live name t at_monitor queues h live = live
  push_at-Live name t at_lock queues h live = live
  push_at-Live name t at_reference queues h live = live
  push_at-Live name t (at_push front) queues h live = inl (any_pushed-push_at name t queues h)
  push_at-Live name t (at_pop ref) queues h live = live
  push_at-Live name t (failed f) queues h live = live

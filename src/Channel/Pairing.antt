-- ===== src/Channel/Pairing.antt =====
-- forastero/scoreboard.py, class Channel: what holds at each await of the loop, and the pairing of a
-- captured transaction, from the lock on, beside the moves of the abstract machine.
use forastero.Prelude.{
  ℕ, ◌+◌, ◌<◌, ◌≡◌, ◌≢◌, refl, sym, ap, ◌∙◌, List, [], ◌∷◌, ◌++◌, none, some, Bool, true, false,
  ◌⊎◌, inl, inr, ltb, take, get_elem?, erase_idx, length, arith, Bool-cases, Eq, ◌==◌, not,
}
use forastero.Queue
use forastero.Queue.Access.{pop_empty, on_push_event_registers, get_elem?-front}
use forastero.Queue.{Queue, EventId}
use forastero.Transaction.{Transaction, tx_eq}
use forastero.Channel.{
  Channel, Config, Stage, idle, at_monitor, at_lock, at_reference, at_push, at_pop, failed, Scan,
  hit, miss, overstayed, index_error, settle, take_reference, conclude, search, pick,
}
use forastero.Channel.Window.{Scanned, scan-Scanned, get_elem?-take, take-take}
use forastero.Channel.Moves.{
  View, view, Move, stay, pair, Chosen, view-settle, take_reference_lem, after_pair, report,
  as_count,
}

-- Where a waiter is registered the queue has stayed empty; behind a push it has a front.
abbrev pub Awaits : {A : Type 0} → Queue A → Type 0
Awaits {A} q =
    ((evt : EventId) × (q.on_push ≡ some evt) × (q.entries ≡ []))
    ⊎ ((x : A) × (xs : List A) × (q.on_push ≡ none) × (q.entries ≡ x ∷ xs))

abbrev pub AwaitsPush : {A : Type 0} → ℕ → Queue A → Type 0
AwaitsPush window q =
    ((evt : EventId) × (q.on_push ≡ some evt) × (length q.entries < window)) ⊎ (q.on_push ≡ none)

-- The lock is held exactly from `acquire` to the end of the comparison, over a captured entry.
abbrev pub Ready : {T : Type 0} → ℕ → Stage T → Queue T → Queue T → Bool → Type 0
Ready window idle m r l = l ≡ false
Ready window at_monitor m r l = (l ≡ false) × Awaits m
Ready window at_lock m r l = ⊥
Ready {T} window at_reference m r l =
    (window ≡ 1) × (l ≡ true) × ((x : T) × (xs : List T) × (m.entries ≡ x ∷ xs)) × Awaits r
Ready {T} window (at_push mon) m r l =
    (window ≢ 1) × (l ≡ true) × ((xs : List T) × (m.entries ≡ mon ∷ xs)) × AwaitsPush window r
Ready window (at_pop _) m r l = ⊥
Ready window (failed f) m r l = (l ≡ true) × (f ≢ index_error)

abbrev pub IsReady : {T : Type 0} → ℕ → Channel T → Type 0
IsReady window c = Ready window c.stage c.q_mon c.q_ref c.locked

module _ {F : Type 0} ⦃e : Eq F⦄ (cfg : Config) (pos : 0 < cfg.match_window) where
  abbrev pub Advances : View (Transaction F) → Channel (Transaction F) → Type 0
  Advances v c = Move cfg.match_window v (view c) × IsReady cfg.match_window c

  settle-IsReady :
      (mon ref : Transaction F) (c : Channel (Transaction F))
      → c.locked ≡ true
      → IsReady cfg.match_window (settle cfg mon ref c)
  unfolding settle
  settle-IsReady mon ref c h = ground arith

  pub after_pair-Advances :
      (mon ref : Transaction F) (rest : List (Transaction F)) (idx : ℕ)
      (c : Channel (Transaction F))
      → c.locked ≡ true
      → c.q_mon.entries ≡ mon ∷ rest
      → get_elem? c.q_ref.entries idx ≡ some ref
      → Chosen cfg.match_window mon c.q_ref.entries idx ref
      → Advances (view c) (after_pair cfg mon ref rest idx c)
  after_pair-Advances mon ref rest idx c l h there ch = (
    pair mon ref idx (h ∙ ap (λ (v : View (Transaction F)). mon ∷ v.captured) (sym after)) there
        (ap (λ (v : View (Transaction F)). v.expected) after)
        (ap (λ (v : View (Transaction F)). v.told) after)
        (ap (λ (v : View (Transaction F)). v.matched) after)
        (ap (λ (v : View (Transaction F)). v.mismatched) after) ch,
    settle-IsReady mon ref _ l,
  )
    where
      after : view (after_pair cfg mon ref rest idx c) ≡ record {
        captured = rest;
        expected = erase_idx c.q_ref.entries idx;
        told = c.reports ++ report mon ref ∷ [];
        matched = c.matched + as_count (tx_eq mon ref);
        mismatched = c.mismatched + as_count (not (tx_eq mon ref));
      }
      after = view-settle cfg mon ref _

  pair-Advances :
      (mon ref : Transaction F) (rest : List (Transaction F)) (idx : ℕ)
      (c : Channel (Transaction F))
      → c.locked ≡ true
      → c.q_mon.entries ≡ mon ∷ rest
      → get_elem? c.q_ref.entries idx ≡ some ref
      → Chosen cfg.match_window mon c.q_ref.entries idx ref
      → Advances (view c) (take_reference cfg idx c)
  pair-Advances mon ref rest idx c l h there ch =
      rw (take_reference_lem cfg mon ref rest idx c h there)
        (after_pair-Advances mon ref rest idx c l h there ch)

  conclude-Advances :
      (mon : Transaction F) (rest : List (Transaction F)) (c : Channel (Transaction F)) (r : Scan)
      → c.locked ≡ true
      → c.q_mon.entries ≡ mon ∷ rest
      → cfg.match_window ≢ 1
      → Scanned mon 0 (take cfg.match_window c.q_ref.entries) r
      → Advances (view c) (conclude cfg mon r c)
  unfolding conclude Queue.level
  conclude-Advances mon rest c (hit j res) l h w (k, ref, at, there, same, before) =
      let (below, found) = get_elem?-take cfg.match_window k c.q_ref.entries there in
      let e : j ≡ k = omega arith in
      rw e (
        pair-Advances mon ref rest k (record c { residence = res }) l h found
          (inr (
            inl
              (w, below, same, rw (take-take cfg.match_window k c.q_ref.entries below) at before))))
  conclude-Advances mon rest c (miss res) l h w s =
      elim (Bool-cases (ltb (Queue.level c.q_ref) cfg.match_window)) [
        | inl short ↦
            let (kept, event) = on_push_event_registers c.next_event c.q_ref in
            rw short (
              stay (λ i. record {
                captured = c.q_mon.entries;
                expected = kept i;
                told = c.reports;
                matched = c.matched;
                mismatched = c.mismatched;
              }),
              (w, l, (rest, h), inl (_, event, rw kept (ground arith))),
            )
        | inr full ↦
            let (ref, found) = get_elem?-front c.q_ref.entries (ground arith) in
            rw full (
              pair-Advances mon ref rest 0 (record c { residence = res }) l h found
                (inr (inr (w, refl, ground arith, s))))
      ]
  conclude-Advances mon rest c (overstayed res) l h w s = (stay refl, (l, λ e. cc))

  pub search-Advances :
      (mon : Transaction F) (rest : List (Transaction F)) (c : Channel (Transaction F))
      → c.locked ≡ true
      → c.q_mon.entries ≡ mon ∷ rest
      → cfg.match_window ≢ 1
      → Advances (view c) (search cfg mon c)
  unfolding search
  search-Advances mon rest c l h w =
      conclude-Advances mon rest c _ l h w (scan-Scanned cfg.match_window mon 0 _ c.residence)

  -- A pop from the reference queue, which waits for the next push if there is no entry.
  take_first-Advances :
      (mon : Transaction F) (rest refs : List (Transaction F)) (c : Channel (Transaction F))
      → c.locked ≡ true
      → c.q_mon.entries ≡ mon ∷ rest
      → cfg.match_window ≡ 1
      → c.q_ref.entries ≡ refs
      → Advances (view c) (take_reference cfg 0 c)
  unfolding take_reference
  take_first-Advances mon rest [] c l h w none_left =
      let (kept, event) = on_push_event_registers c.next_event c.q_ref in
      simp (pop_empty c.next_event 0 c.q_ref none_left, take_reference)
        (
          stay (λ i. record {
            captured = c.q_mon.entries;
            expected = kept i;
            told = c.reports;
            matched = c.matched;
            mismatched = c.mismatched;
          }),
          (w, l, (mon, rest, h), inl (_, event, kept ∙ none_left)),
        )
  take_first-Advances mon rest (ref ∷ refs) c l h w front =
      pair-Advances mon ref rest 0 c l h (ground arith) (inl (w, refl))

  pub pick-Advances :
      (mon : Transaction F) (rest : List (Transaction F)) (c : Channel (Transaction F))
      → c.locked ≡ true
      → c.q_mon.entries ≡ mon ∷ rest
      → Advances (view c) (pick cfg c)
  unfolding pick
  pick-Advances mon rest c l h = elim (Bool-cases (cfg.match_window == 1)) [
    | inl one ↦ rw one (take_first-Advances mon rest _ c l h (ground arith) refl)
    | inr more ↦
        let found : Queue.get_item c.q_mon 0 ≡ some mon = unfold Queue.get_item in (ground arith) in
        simp (more, found) (search-Advances mon rest c l h (ground arith))
  ]

-- ===== src/Driver/Account.antt =====
-- forastero/driver.py: what a driver's loop has done with what was enqueued, over any interleaving
-- of calls and turns.
use forastero.Prelude.{
  ℕ, ◌+◌, ◌≡◌, ◌⊎◌, inl, inr, refl, sym, ap, subst, ◌∙◌, List, [], ◌∷◌, ◌++◌, append_assoc, Option,
  Bool, true, false, length, length-append, arith, Option-cases,
}
use forastero.Queue
use forastero.Queue.Access.{on_push_event_registers}
use forastero.Transaction.{Transaction, DriverEvent, post_drive}
use forastero.Driver.{
  Driver, Item, transaction, Stage, at_queue, at_reset, at_lock, driving, failed, Fetch, got,
  exhausted, refused, push_item, begin, acquire, check_reset, pick, round, finish, resume,
  drive_returns_at, drive_raises_at, set_if_equal, is_pre, is_post,
}
use forastero.Driver.Order.{
  pending, item_fields, enqueued_in, begun_in, ended_in, all_in, pending-last, FetchKeeps,
  told_begun, told_ended, told_enqueued, fetch-FetchKeeps,
}

module _ {F : Type 0} where
  -- The transaction that was taken from the queue and not begun.
  abbrev pub in_hand : Stage F → List F
  in_hand at_queue = []
  in_hand (at_reset t) = t.fields ∷ []
  in_hand (at_lock t) = t.fields ∷ []
  in_hand (driving t) = []
  in_hand (failed f) = []

  -- All that was begun has ended, except the transaction under way, or the one of an exception. The
  -- lock is held exactly while a transaction is under way.
  abbrev pub Ended : Stage F → Bool → List F → List F → Type 0
  Ended at_queue locked begun ended = (locked ≡ false) × (begun ≡ ended)
  Ended (at_reset t) locked begun ended = (locked ≡ false) × (begun ≡ ended)
  Ended (at_lock t) locked begun ended = ⊥
  Ended (driving t) locked begun ended = (locked ≡ true) × (begun ≡ ended ++ t.fields ∷ [])
  Ended (failed f) locked begun ended = (begun ≡ ended) ⊎ ((x : F) × (begun ≡ ended ++ x ∷ []))

  pub record Accounted (d : Driver F) : Type 0 where
    pub in_order :
        all_in begun_in d.published ++ (in_hand d.stage ++ pending d.queue.entries)
        ≡ all_in enqueued_in d.published
    pub ended : Ended d.stage d.locked (all_in begun_in d.published) (all_in ended_in d.published)
    pub counted : d.dequeued ≡ length (all_in ended_in d.published)

  -- Where a loop stands that has nothing in hand: behind `locked` and what is to come.
  abbrev pub Between : Driver F → List F → Type 0
  Between d next =
      (all_in begun_in d.published ++ (next ++ pending d.queue.entries)
        ≡ all_in enqueued_in d.published)
      × (all_in begun_in d.published ≡ all_in ended_in d.published)
      × (d.dequeued ≡ length (all_in ended_in d.published))

  begin-Accounted :
      (now : ℕ) (t : Transaction F) (d : Driver F)
      → d.locked ≡ true
      → Between d (t.fields ∷ [])
      → Accounted (begin now t d)
  unfolding begin
  begin-Accounted now t d l (order, ended, counted) =
      let (begun, enqueued, same) = told_begun d.published (record t { timestamp = now }) in
      let order' =
        ap (λ l. l ++ pending d.queue.entries) begun
        ∙ append_assoc (all_in begun_in d.published) (t.fields ∷ []) (pending d.queue.entries)
        ∙ order
        ∙ sym enqueued in
      let ended' = begun ∙ ap (λ l. l ++ t.fields ∷ []) (ended ∙ sym same) in
      elim (Option-cases (set_if_equal (is_pre t.f_event) t.c_event d.events_set)) [
        | inl raised ↦
            simp (raised, begin)
              (record {
                in_order = order';
                ended = inr (t.fields, ended');
                counted = counted ∙ ap length (sym same);
              })
        | inr (events, set) ↦
            simp (set, begin)
              (record {
                in_order = order';
                ended = (l, ended');
                counted = counted ∙ ap length (sym same);
              })
      ]

  check_reset-Accounted :
      (in_reset : Bool) (now : ℕ) (t : Transaction F) (d : Driver F)
      → d.locked ≡ false
      → Between d (t.fields ∷ [])
      → Accounted (check_reset in_reset now t d)
  unfolding check_reset acquire
  check_reset-Accounted true now t d l (order, ended, counted) = record {
    in_order = order;
    ended = (l, ended);
    counted = counted;
  }
  check_reset-Accounted false now t d l b =
      simp (l, check_reset, acquire) (begin-Accounted now t (record d { locked = true }) refl b)

  pick-Accounted :
      (in_reset : Bool) (now : ℕ) (r : Fetch F) (d : Driver F)
      → d.locked ≡ false
      → Between d []
      → FetchKeeps d.queue.entries r
      → Accounted (pick in_reset now r d)
  unfolding pick
  pick-Accounted in_reset now (got t rest) d l (order, ended, counted) k =
      check_reset-Accounted in_reset now t _ l
        (ap (λ l. all_in begun_in d.published ++ l) (sym k) ∙ order, ended, counted)
  pick-Accounted in_reset now exhausted d l (order, ended, counted) k =
      let (kept, event) =
        on_push_event_registers d.next_event (record (d.queue) { entries = [] }) in
      record {
        in_order =
            ap (λ l. all_in begun_in d.published ++ pending l) kept
            ∙ ap (λ l. all_in begun_in d.published ++ l) (sym k)
            ∙ order;
        ended = (l, ended);
        counted = counted;
      }
  pick-Accounted in_reset now (refused rest) d l (order, ended, counted) k = record {
    in_order = ap (λ l. all_in begun_in d.published ++ l) (sym k) ∙ order;
    ended = inl ended;
    counted = counted;
  }

  round-Accounted :
      (in_reset : Bool) (now : ℕ) (d : Driver F)
      → d.locked ≡ false
      → Between d []
      → Accounted (round in_reset now d)
  unfolding round
  round-Accounted in_reset now d l b =
      pick-Accounted in_reset now _ d l b (fetch-FetchKeeps d.next_event d.queue.entries)

  finish-Accounted :
      (in_reset : Bool) (now : ℕ) (t : Transaction F) (d : Driver F)
      → Accounted (record d { stage = driving t })
      → Accounted (finish in_reset now t d)
  unfolding finish
  finish-Accounted in_reset now t d a =
      let (begun, enqueued, more) = told_ended d.published t in
      let order : all_in begun_in (d.published ++ (post_drive, transaction t) ∷ [])
            ++ pending d.queue.entries
          ≡ all_in enqueued_in (d.published ++ (post_drive, transaction t) ∷ []) =
        ap (λ l. l ++ pending d.queue.entries) begun ∙ a.in_order ∙ sym enqueued in
      let ended = begun ∙ a.ended.1 ∙ sym more in
      let counted : d.dequeued + 1
          ≡ length (all_in ended_in (d.published ++ (post_drive, transaction t) ∷ [])) =
        omega (
          arith,
          a.counted,
          ap length more,
          length-append (all_in ended_in d.published) (t.fields ∷ []),
        ) in
      elim (Option-cases (set_if_equal (is_post t.f_event) t.c_event d.events_set)) [
        | inl raised ↦
            simp (raised, finish)
              (record { in_order = order; ended = inl ended; counted = counted })
        | inr (events, set) ↦
            simp (set, finish) (round-Accounted in_reset now _ refl (order, ended, counted))
      ]

  pub resume-Accounted :
      (in_reset : Bool) (now : ℕ) (s : Stage F) (d : Driver F)
      → d.stage ≡ s
      → Accounted d
      → Accounted (resume in_reset now s d)
  unfolding resume acquire
  resume-Accounted in_reset now at_queue d s a = elim (Option-cases d.queue.on_push) [
    | inl pushed ↦
        let b : Accounted (record d { stage = at_queue }) =
          subst (λ k. Accounted (record d { stage = k })) s a in
        simp (pushed, resume)
          (round-Accounted in_reset now d b.ended.0 (b.in_order, b.ended.1, b.counted))
    | inr (evt, waits) ↦ simp (waits, resume) a
  ]
  resume-Accounted in_reset now (at_reset t) d s a =
      let b : Accounted (record d { stage = at_reset t }) =
        subst (λ k. Accounted (record d { stage = k })) s a in
      check_reset-Accounted in_reset now t d b.ended.0 (b.in_order, b.ended.1, b.counted)
  resume-Accounted in_reset now (at_lock t) d s a =
      let b : Accounted (record d { stage = at_lock t }) =
        subst (λ k. Accounted (record d { stage = k })) s a in
      absurd b.ended
  resume-Accounted in_reset now (driving t) d s a = a
  resume-Accounted in_reset now (failed f) d s a = a

  pub drive_returns_at-Accounted :
      (in_reset : Bool) (now : ℕ) (s : Stage F) (d : Driver F)
      → d.stage ≡ s
      → Accounted d
      → Accounted (drive_returns_at in_reset now s d)
  unfolding drive_returns_at
  drive_returns_at-Accounted in_reset now at_queue d s a = a
  drive_returns_at-Accounted in_reset now (at_reset t) d s a = a
  drive_returns_at-Accounted in_reset now (at_lock t) d s a = a
  drive_returns_at-Accounted in_reset now (driving t) d s a =
      finish-Accounted in_reset now t d (subst (λ k. Accounted (record d { stage = k })) s a)
  drive_returns_at-Accounted in_reset now (failed f) d s a = a

  pub drive_raises_at-Accounted :
      (s : Stage F) (d : Driver F) → d.stage ≡ s → Accounted d → Accounted (drive_raises_at s d)
  unfolding drive_raises_at
  drive_raises_at-Accounted at_queue d s a = a
  drive_raises_at-Accounted (at_reset t) d s a = a
  drive_raises_at-Accounted (at_lock t) d s a = a
  drive_raises_at-Accounted (driving t) d s a =
      let b : Accounted (record d { stage = driving t }) =
        subst (λ k. Accounted (record d { stage = k })) s a in
      record { in_order = b.in_order; ended = inr (t.fields, b.ended.1); counted = b.counted }
  drive_raises_at-Accounted (failed f) d s a = a

  pub push_item-Accounted :
      (wait_for : Option DriverEvent) (item : Item F) (d : Driver F)
      → Accounted d
      → Accounted (push_item wait_for item d)
  unfolding push_item Queue.push
  push_item-Accounted wait_for item d a =
      let (begun, enqueued, same) = told_enqueued d.published item in
      record {
        in_order =
            rw (begun, enqueued, pending-last d.queue.entries item)
              (ap (λ l. all_in begun_in d.published ++ l)
                  (sym
                    (append_assoc (in_hand d.stage) (pending d.queue.entries) (item_fields item)))
                ∙ sym (
                    append_assoc (all_in begun_in d.published)
                      (in_hand d.stage ++ pending d.queue.entries) (item_fields item))
                ∙ ap (λ l. l ++ item_fields item) a.in_order);
        ended = rw (begun, same) a.ended;
        counted = a.counted ∙ ap length (sym same);
      }

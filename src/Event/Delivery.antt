-- ===== src/Event/Delivery.antt =====
-- forastero/event.py: who hears of a published event.
use mathlib.Core.List.{map-append}
use forastero.Prelude.{
  ◌≡◌, ◌≢◌, refl, List, [], ◌∷◌, ◌++◌, some, true, false, map, if◌then◌else◌, Eq, ◌=?=◌, arith,
  append-nil, append_assoc, ap, Bool-cases, inl, inr,
}
use forastero.Queue.{EventId}
use forastero.Event.{
  Key, star, on, enumerated, EventEmitter, key_eq, at, clear, subscribe, subscribe_all,
  get_wait_event, publish,
}

module _ {E : Type 0} ⦃e : Eq E⦄ where
  key_eq_self : (k : Key E) → key_eq k k ≡ true
  unfolding key_eq
  key_eq_self star = refl
  key_eq_self (on a) = (e.beq_iff a a).1 refl

  key_eq_sound : (j k : Key E) → key_eq j k ≡ true → j ≡ k
  unfolding key_eq
  key_eq_sound star star h = refl
  key_eq_sound star (on b) h = cc
  key_eq_sound (on a) star h = cc
  key_eq_sound (on a) (on b) h = ap on ((e.beq_iff a b).0 h)

  module _ {A : Type 0} where
    at-append : (k : Key E) (s t : List (Key E × A)) → at k (s ++ t) ≡ at k s ++ at k t
    unfolding at
    at-append k [] t = refl
    at-append k ((j, x) ∷ s) t = ground (arith, at-append k s t)

    at-clear :
        (k j : Key E) (s : List (Key E × A))
        → at k (clear j s) ≡ (if key_eq j k then [] else at k s)
    unfolding at clear
    at-clear k j [] = ground arith
    at-clear k j ((i, x) ∷ s) =
        ground (
          arith,
          at-clear k j s,
          key_eq_sound i j,
          key_eq_sound j k,
          key_eq_sound i k,
          key_eq_self k,
        )

module _ {E : Type 0} ⦃e : Eq E⦄ where
  beq_ne : (a b : E) → a ≢ b → (a =?= b) ≡ false
  beq_ne a b h = elim (Bool-cases (a =?= b)) [
    | inl same ↦ absurd (h ((e.beq_iff a b).0 same))
    | inr differs ↦ differs
  ]

  self_eq : (a : E) → (a =?= a) ≡ true
  self_eq a = (e.beq_iff a a).1 refl

  at_one : {A : Type 0} (k : E) (x : A) → at (on k) ((on k, x) ∷ []) ≡ x ∷ []
  unfolding at
  at_one k x = rw ((e.beq_iff k k).1 refl)

  at_other : {A : Type 0} (j k : E) (x : A) → j ≢ k → at (on k) ((on j, x) ∷ []) ≡ []
  unfolding at
  at_other j k x h = rw (beq_ne j k h)

module _ {E H O : Type 0} ⦃e : Eq E⦄ where
  -- Publishing wakes each waiter of the event once, with the published object, in the order of
  -- waiting: behind a new wait on the event it is woken last, whatever the handlers do to the
  -- emitter short of changing the waits; a second publication wakes none of them; and waits on
  -- another event stay.
  pub publish_wakes :
      (during : EventEmitter E H → EventEmitter E H) (event : E) (evt : EventId) (obj later : O)
      (m : EventEmitter E H)
      → ((n : EventEmitter E H) → (during n).waiting ≡ n.waiting)
      → let waited = get_wait_event event evt m in
        let first = publish during event obj waited in
        (first.1.woken
          ≡ map (λ w. record { evt = w; payload = obj }) (at (on event) m.waiting)
            ++ record { evt = evt; payload = obj } ∷ [])
        × ((publish during event later first.0).1.woken ≡ [])
        × ((b : E) → event ≢ b → at (on b) first.0.waiting ≡ at (on b) m.waiting)
  unfolding publish get_wait_event
  publish_wakes during event evt obj later m quiet = (
    rw (quiet, at-append, at_one event evt) (map-append _ _ _),
    rw (quiet, quiet, at-clear, (e.beq_iff event event).1 refl),
    λ b h. rw (quiet, at-clear, beq_ne event b h, at-append, at_other event b evt h) (append-nil _),
  )

  -- A new subscriber to an event is called last when the event is published, after all others, and
  -- not for another event; one for all events is called behind the earlier ones of its kind and
  -- before those of the event.
  pub publish_calls :
      (during : EventEmitter E H → EventEmitter E H) (event another : E) (h : H) (obj : O)
      (m n : EventEmitter E H)
      → event ≢ another
      → subscribe (enumerated event) h m ≡ some n
      → ((publish during event obj n).1.called
          ≡ (publish during event obj m).1.called ++ (h, event, obj) ∷ [])
        × ((publish during another obj n).1.called ≡ (publish during another obj m).1.called)
        × ((publish during event obj (subscribe_all h m)).1.called
            ≡ map (λ k. (k, event, obj)) (at star m.handlers)
              ++ (h, event, obj) ∷ map (λ k. (k, event, obj)) (at (on event) m.handlers))
  unfolding publish subscribe subscribe_all
  publish_calls during event another h obj m n ne e =
      let grown : n.handlers ≡ m.handlers ++ (on event, h) ∷ [] = ground arith in
      (
        rw grown (simp (at-append, self_eq event, append-nil, map-append, append_assoc)),
        rw grown (simp (at-append, beq_ne event another ne, append-nil)),
        simp (at-append, append-nil, map-append, append_assoc),
      )

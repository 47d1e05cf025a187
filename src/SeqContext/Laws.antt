-- ===== src/SeqContext/Laws.antt =====
-- forastero/sequence.py, classes SeqContext and SeqProxy: releasing, observing and driving.
use native.Mathlib.Decide.{ℕ_discrete}
use forastero.Prelude.{
  ◌≡◌, ◌≢◌, ◌↔◌, ◌⊎◌, inl, inr, refl, List, [], ◌∷◌, Option, none, some, Bool, true, false, not,
  ◌&&◌, ◌||◌, if◌then◌else◌, elem, arith, Bool-cases,
}
use forastero.SeqLock.{SeqLock, ContextId, LockId, held_by, free_lock, owned}
use forastero.SeqLock.Laws.{IsConsistent}
use forastero.Arbiter.{Store}
use forastero.Arbiter.Rounds.{AreConsistent}
use forastero.SeqContext.{leave_one, leave, event_callback, forwarded, enqueue}

module _ (callable : Bool) (ctx : ContextId) where
  -- What leaving makes of a lock that may be in the list.
  abbrev pub freed : Bool → SeqLock → SeqLock
  freed listed l = if listed && held_by ctx l then free_lock else l

  -- The call returns, and has freed exactly the listed locks that the context held.
  abbrev pub IsLeft : List LockId → Store → Option Store → Type 0
  IsLeft need s none = ⊥
  IsLeft need s (some s') = (j : LockId) → s' j ≡ freed (elem j need) (s j)

  leave_one-IsLeft :
      (l : LockId) (s : Store) → IsConsistent (s l) → IsLeft (l ∷ []) s (leave_one callable ctx l s)
  unfolding leave_one
  leave_one-IsLeft l s (inl (free, nobody)) =
      let not_held : held_by ctx (s l) ≡ false = ground arith in
      rw (not_held, leave_one) (λ j. ground arith)
  leave_one-IsLeft l s (inr (c, held, by)) = elim (Bool-cases (held_by ctx (s l))) [
    | inr not_held ↦ rw (not_held, leave_one) (λ j. ground arith)
    | inl mine ↦
        let test : (callable || (s l).locked) ≡ true = ground arith in
        rw (mine, test, leave_one) (λ j. ground arith)
  ]

  freed-IsConsistent : (b : Bool) (l : SeqLock) → IsConsistent l → IsConsistent (freed b l)
  freed-IsConsistent b l c = elim (Bool-cases (b && held_by ctx l)) [
    | inl out ↦ rw out (inl (refl, refl))
    | inr stays ↦ rw stays c
  ]

  leave_step :
      (l : LockId) (need : List LockId) (s : Store) (r : Option Store)
      → AreConsistent s
      → IsLeft (l ∷ []) s r
      → ((s' : Store) → AreConsistent s' → IsLeft need s' (leave callable ctx need s'))
      → IsLeft (l ∷ need) s (elim r [ none ↦ none | some s' ↦ leave callable ctx need s' ])
  leave_step l need s none c h rest = absurd h
  leave_step l need s (some s') c h rest = later (leave callable ctx need s') (rest s' consistent)
    where
      consistent : AreConsistent s'
      consistent j = rw (h j) (freed-IsConsistent (elem j (l ∷ [])) (s j) (c j))

      later : (r : Option Store) → IsLeft need s' r → IsLeft (l ∷ need) s r
      later none k = absurd k
      later (some s'') k = λ j. ground (arith, h j, k j)

  -- Leaving the `lock` block of a context, whatever it released on the way: no exception is raised,
  -- the locks of the block that the context still held are free, and every other lock is as it
  -- was.
  pub leave-IsLeft :
      (need : List LockId) (s : Store) → AreConsistent s → IsLeft need s (leave callable ctx need s)
  unfolding leave
  leave-IsLeft [] s c = λ j. ground arith
  leave-IsLeft (l ∷ need) s c =
      leave_step l need s (leave_one callable ctx l s) c (leave_one-IsLeft l s (c l))
        (leave-IsLeft need)

  -- A driver's proxy forwards to the driver exactly if the context holds the lock, and is an
  -- exception if not; the proxy of another component always is one.
  pub enqueue_cases :
      (is_driver : Bool) (l : SeqLock)
      → IsConsistent l
      → (enqueue callable ctx is_driver l ≡ forwarded) ↔ ((is_driver ≡ true) × (l ≡ owned ctx))
  unfolding enqueue
  enqueue_cases is_driver l (inl (free, nobody)) = (ground arith, ground arith)
  enqueue_cases is_driver l (inr (c, held, by)) = (ground arith, ground arith)

  -- Which events a sequence sees: those of a component whose lock it holds, and where `locked` is
  -- an attribute also those of a component whose lock is free. Where `locked` is a method, a
  -- sequence sees nothing of a component whose lock nobody holds.
  pub event_callback_cases :
      (l : SeqLock)
      → IsConsistent l
      → ((l ≡ owned ctx) × (event_callback callable ctx l ≡ true))
        ⊎ ((l ≡ free_lock) × (event_callback callable ctx l ≡ not callable))
        ⊎ ((c : ContextId) × (c ≢ ctx) × (l ≡ owned c) × (event_callback callable ctx l ≡ false))
  unfolding event_callback
  event_callback_cases l (inl (free, nobody)) = inr (inl (ground arith, ground arith))
  event_callback_cases l (inr (c, held, by)) = elim (ℕ_discrete c ctx) [
    | yes same ↦ inl (ground arith, ground arith)
    | no differs ↦ inr (inr (c, differs, ground arith, ground arith))
  ]

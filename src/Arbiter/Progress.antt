-- ===== src/Arbiter/Progress.antt =====
-- forastero/sequence.py, class SeqArbiter: a round in which an entry can be scheduled.
use forastero.Prelude.{
  ℕ, ◌<◌, ◌≡◌, ◌∙◌, inl, inr, refl, sym, subst, List, [], ◌∷◌, some, Bool, true, false, ◌==◌, elem,
  arith, All, get_elem?, length,
}
use native.Mathlib.Decide.{ℕ_discrete}
use forastero.SeqLock.{LockId}
use forastero.Arbiter.{
  Store, Entry, all_in, available, Pass, passed, crashed, running, Arbiter, conclude, schedule,
  round,
}
use forastero.Arbiter.Claims.{AreFree}
use forastero.Arbiter.Granted.{IsPass, Scheduled, IsDecided}
use forastero.Arbiter.Passes.{pass-IsPass}
use forastero.Arbiter.Rounds.{IsSound, available-AreFree}

all_in-same :
    (locks free free' : List LockId)
    → ((j : LockId) → elem j free' ≡ elem j free)
    → all_in locks free' ≡ all_in locks free
unfolding all_in
all_in-same [] free free' h = refl
all_in-same (l ∷ locks) free free' h = ground (arith, h l, all_in-same locks free free' h)

elem_self : (l : ℕ) (xs : List ℕ) → elem l (l ∷ xs) ≡ true
elem_self l xs = ground arith

not_empty : (l : ℕ) (xs : List ℕ) → length xs ≡ 0 → elem l xs ≡ true → ⊥
not_empty l [] h e = cc
not_empty l (x ∷ xs) h e = omega arith

at_place :
    (queue : List Entry) (idx : ℕ) {entry : Entry}
    → get_elem? queue idx ≡ some entry
    → (length queue == 0) ≡ false
at_place [] idx h = cc
at_place (x ∷ queue) idx h = ground arith

All-at {ℓ} :
    (P : ℕ → Type ℓ) (idx : ℕ) (order : List ℕ) → All P order → elem idx order ≡ true → P idx
All-at P idx [] d h = absurd (ground arith)
All-at P idx (i ∷ order) d h = elim (ℕ_discrete i idx) [
  | yes same ↦ subst P same d.0
  | no other ↦ All-at P idx order d.1 (ground arith)
]

module _ (callable : Bool) (known : List LockId) (order : List ℕ) (arrivals : List Entry) (idx : ℕ)
    (entry : Entry) (tried : elem idx order ≡ true) where
  nothing-Scheduled :
      (queue : List Entry) (free : List LockId) (s : Store) (free' : List LockId) (s' : Store)
      (granted : List Entry)
      → get_elem? queue idx ≡ some entry
      → 0 < length free
      → all_in entry.locks free ≡ true
      → Scheduled queue order free s free' s' [] granted
      → ⊥
  nothing-Scheduled queue [] s free' s' granted at some_free fits p = absurd (omega arith)
  nothing-Scheduled queue (l ∷ free) s free' s' (_ ∷ _) at some_free fits p = absurd p.picks
  nothing-Scheduled queue (l ∷ free) s free' s' [] at some_free fits p =
      elim (All-at (IsDecided queue free' []) idx order p.decided tried) [
        | inl h ↦ ground arith
        | inr (inl (entry', at', no_lock)) ↦
            ground (arith, all_in-same entry.locks (l ∷ free) free' p.left)
        | inr (inr none_left) ↦ not_empty l free' none_left (p.left l ∙ elem_self l free)
      ]

  conclude_running :
      (a : Arbiter) (free : List LockId) (r : Pass)
      → get_elem? a.queue idx ≡ some entry
      → 0 < length free
      → all_in entry.locks free ≡ true
      → IsPass a.queue order free a.store [] r
      → (conclude callable known arrivals a r).stage ≡ running
  unfolding conclude
  conclude_running a free (passed free' s' []) at some_free fits (new, granted, e, p) = absurd (
      nothing-Scheduled a.queue free a.store free' s' granted at some_free fits
        (subst (λ l. Scheduled a.queue order free a.store free' s' l granted) (sym e) p))
  conclude_running a free (passed free' s' (i ∷ more)) at some_free fits h = refl
  conclude_running a free (crashed s) at some_free fits h = absurd h

  schedule_running :
      (a : Arbiter) (free : List LockId)
      → IsSound callable known order arrivals a
      → get_elem? a.queue idx ≡ some entry
      → 0 < length free
      → all_in entry.locks free ≡ true
      → AreFree free a.store
      → (schedule callable known order arrivals free a).stage ≡ running
  unfolding schedule
  schedule_running a [] i at some_free fits f = absurd (omega arith)
  schedule_running a (l ∷ free) i at some_free fits f =
      conclude_running a (l ∷ free) _ at some_free fits
        (pass-IsPass callable a.queue i.once order (l ∷ free) a.store [] i.places f)

  -- A round over a sound state, that is, one whose order names places of the queue only, in which no
  -- queued entry names one lock twice, and in which each lock's flag agrees with its recorded holder:
  -- if the order tries a queued entry whose locks are all available, and some lock is available, the
  -- round schedules at least one entry, so the loop goes on instead of waiting.
  pub round_running :
      (a : Arbiter)
      → IsSound callable known order arrivals a
      → get_elem? a.queue idx ≡ some entry
      → 0 < length (available a.store known)
      → all_in entry.locks (available a.store known) ≡ true
      → (round callable known order arrivals a).stage ≡ running
  unfolding round
  round_running a i at some_free fits =
      let queued : (length a.queue == 0) ≡ false = at_place a.queue idx at in
      rw (queued, round)
        (schedule_running a (available a.store known) i at some_free fits
          (available-AreFree a.store known i.agree))

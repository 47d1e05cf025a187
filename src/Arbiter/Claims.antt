-- ===== src/Arbiter/Claims.antt =====
-- forastero/sequence.py, class SeqArbiter: what claiming the locks of one entry does.
use forastero.Prelude.{
  ◌≡◌, ◌⊎◌, inl, inr, refl, List, [], ◌∷◌, Bool, true, false, not, ◌&&◌, ◌==◌, if◌then◌else◌, elem,
  arith,
}
use forastero.SeqLock
use forastero.SeqLock.{SeqLock, ContextId, LockId, owned, free_lock, acquired}
use forastero.Arbiter.{Store, update, remove, all_in, Claim, claim, claimed, key_error, stalled}

pub elem-remove :
    (l j : LockId) (xs : List LockId) → elem j (remove l xs) ≡ elem j xs && not (j == l)
unfolding remove
elem-remove l j [] = refl
elem-remove l j (x ∷ xs) = ground (arith, elem-remove l j xs)

-- The available locks are free.
abbrev pub AreFree : List LockId → Store → Type 0
AreFree free s = (j : LockId) → elem j free ≡ true → s j ≡ free_lock

-- No lock is asked for twice.
unfoldable pub distinct : List LockId → Bool
distinct [] = true
distinct (l ∷ locks) = not (elem l locks) && distinct locks

AreFree-claim :
    (v : SeqLock) (l : LockId) (free : List LockId) (s : Store)
    → AreFree free s
    → AreFree (remove l free) (update s l v)
unfolding update
AreFree-claim v l free s f j h = ground (arith, elem-remove l j free, f j)

all_in-remove_eq :
    (l : LockId) (locks free : List LockId)
    → all_in locks (remove l free) ≡ all_in locks free && not (elem l locks)
unfolding all_in
all_in-remove_eq l [] free = refl
all_in-remove_eq l (x ∷ locks) free =
    ground (arith, elem-remove l x free, all_in-remove_eq l locks free)

pub all_in-elem :
    (j : LockId) (locks free : List LockId)
    → elem j locks ≡ true
    → all_in locks free ≡ true
    → elem j free ≡ true
unfolding all_in
all_in-elem j [] free h a = absurd (ground arith)
all_in-elem j (x ∷ locks) free h a = ground (arith, all_in-elem j locks free)

module _ (callable : Bool) (ctx : ContextId) where
  acquire_free : SeqLock.acquire callable ctx free_lock ≡ acquired (owned ctx)
  unfolding SeqLock.acquire
  acquire_free = ground arith

  -- All were claimed: exactly the entry's locks change, to be held by its context, and exactly
  -- they are taken out of the available ones.
  abbrev pub IsClaim : List LockId → List LockId → Store → Claim → Type 0
  IsClaim locks free s (claimed free' s') =
      ((j : LockId) → s' j ≡ (if elem j locks then owned ctx else s j))
      × ((j : LockId) → elem j free' ≡ elem j free && not (elem j locks))
  IsClaim locks free s _ = ⊥

  IsClaim-cons :
      (l : LockId) (locks free : List LockId) (s : Store) (r : Claim)
      → IsClaim locks (remove l free) (update s l (owned ctx)) r
      → IsClaim (l ∷ locks) free s r
  unfolding update
  IsClaim-cons l locks free s (claimed free' s') (held, left) =
      (λ j. ground (arith, held j), λ j. ground (arith, left j, elem-remove l j free))
  IsClaim-cons l locks free s (key_error _) h = absurd h
  IsClaim-cons l locks free s (stalled _) h = absurd h

  pub claim-IsClaim :
      (locks free : List LockId) (s : Store)
      → AreFree free s
      → all_in locks free ≡ true
      → distinct locks ≡ true
      → IsClaim locks free s (claim callable ctx locks free s)
  unfolding claim distinct all_in
  claim-IsClaim [] free s f a d = ((λ j. refl), λ j. ground arith)
  claim-IsClaim (l ∷ locks) free s f a d =
      let member : elem l free ≡ true = ground arith in
      rw (f l member, acquire_free, claim, member)
        (IsClaim-cons l locks free s _ (
          claim-IsClaim locks (remove l free) (update s l (owned ctx)) (AreFree-claim _ l free s f)
            (ground (arith, all_in-remove_eq l locks free)) (ground arith)))

  abbrev pub IsKeyError : Claim → Type 0
  IsKeyError (key_error _) = Unit {0}
  IsKeyError _ = ⊥

  -- In the course of a claim each lock is free, or was just taken by the context.
  abbrev Usable : List LockId → List LockId → Store → Type 0
  Usable locks free s =
      (j : LockId)
      → elem j locks ≡ true
      → ((elem j free ≡ true) × (s j ≡ free_lock)) ⊎ ((elem j free ≡ false) × (s j ≡ owned ctx))

  Usable-claim :
      (l : LockId) (locks free : List LockId) (s : Store)
      → Usable (l ∷ locks) free s
      → Usable locks (remove l free) (update s l (owned ctx))
  unfolding update
  Usable-claim l locks free s u j h = ground (arith, elem-remove l j free, u j)

  acquire-owned : SeqLock.acquire callable ctx (owned ctx) ≡ acquired (owned ctx)
  unfolding SeqLock.acquire
  acquire-owned = ground arith

  claim_fails :
      (locks free : List LockId) (s : Store)
      → Usable locks free s
      → all_in locks free && distinct locks ≡ false
      → IsKeyError (claim callable ctx locks free s)
  unfolding claim all_in distinct
  claim_fails [] free s u h = absurd (ground arith)
  claim_fails (l ∷ locks) free s u h = elim (u l (ground arith)) [
    | inl (member, here) ↦
        rw (here, acquire_free, claim, member)
          (claim_fails locks (remove l free) (update s l (owned ctx))
            (Usable-claim l locks free s u) (ground (arith, all_in-remove_eq l locks free)))
    | inr (taken, mine) ↦ rw (mine, acquire-owned, claim, taken) tt
  ]

  -- A lock that is asked for twice makes the claim fail with a KeyError, although every lock that
  -- the entry asks for is available.
  pub claim_twice :
      (locks free : List LockId) (s : Store)
      → AreFree free s
      → all_in locks free ≡ true
      → distinct locks ≡ false
      → IsKeyError (claim callable ctx locks free s)
  claim_twice locks free s f a d =
      claim_fails locks free s
        (λ j h. inl (all_in-elem j locks free h a, f j (all_in-elem j locks free h a)))
        (ground arith)

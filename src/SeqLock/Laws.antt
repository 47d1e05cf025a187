-- ===== src/SeqLock/Laws.antt =====
-- forastero/sequence.py, class SeqLock: who holds a lock, and the two tables.
use forastero.Prelude.{
  ℕ, ◌≡◌, ◌≢◌, ◌⊎◌, inl, inr, length-map, List, none, some, Bool, true, false, map, length, nat_eq,
  string_eq, arith, length-append, Bool-cases,
}
use Prim.Native.String.{String}
use native.Mathlib.Decide.{ℕ_discrete}
use forastero.SeqLock.{
  SeqLock, ContextId, LockId, free_lock, owned, acquired, blocked, unlocked, ignored, illegal,
  acquire, release, Registry, get_all_locks, count_all_locks,
}

-- The flag of the cocotb lock and the recorded holder agree.
abbrev pub IsConsistent : SeqLock → Type 0
IsConsistent l =
    ((l.locked ≡ false) × (l.locked_by ≡ none))
    ⊎ ((c : ContextId) × (l.locked ≡ true) × (l.locked_by ≡ some c))

module _ (callable : Bool) (ctx : ContextId) (l : SeqLock) where
  -- Under either version of cocotb: acquiring succeeds exactly if the lock is free or the context
  -- holds it already, and the context then holds it; else the call waits.
  pub acquire_cases :
      IsConsistent l
      → ((l ≡ free_lock) × (acquire callable ctx l ≡ acquired (owned ctx)))
        ⊎ ((l ≡ owned ctx) × (acquire callable ctx l ≡ acquired (owned ctx)))
        ⊎ ((c : ContextId) × (c ≢ ctx) × (l ≡ owned c) × (acquire callable ctx l ≡ blocked))
  unfolding acquire
  acquire_cases (inl (free, nobody)) = inl (ground arith, ground arith)
  acquire_cases (inr (c, held, by)) = elim (ℕ_discrete c ctx) [
    | yes same ↦ inr (inl (ground arith, ground arith))
    | no other ↦ inr (inr (c, other, ground arith, ground arith))
  ]

  -- Releasing frees the lock exactly if the context holds it, and is an error if another context
  -- does. A free lock is left alone where `locked` is an attribute, and an error where it is a
  -- method.
  pub release_cases :
      IsConsistent l
      → ((l ≡ owned ctx) × (release callable ctx l ≡ unlocked free_lock))
        ⊎ ((c : ContextId) × (c ≢ ctx) × (l ≡ owned c) × (release callable ctx l ≡ illegal))
        ⊎ ((l ≡ free_lock) × (callable ≡ false) × (release callable ctx l ≡ ignored))
        ⊎ ((l ≡ free_lock) × (callable ≡ true) × (release callable ctx l ≡ illegal))
  unfolding release
  release_cases (inl (free, nobody)) = elim (Bool-cases callable) [
    | inl method ↦ inr (inr (inr (ground arith, method, ground arith)))
    | inr attribute ↦ inr (inr (inl (ground arith, attribute, ground arith)))
  ]
  release_cases (inr (c, held, by)) = elim (ℕ_discrete c ctx) [
    | yes same ↦ inl (ground arith, ground arith)
    | no other ↦ inr (inl (c, other, ground arith, ground arith))
  ]

abbrev locks_of : {K : Type 0} → List (K × LockId) → List LockId
locks_of table = map (λ p. p.1) table

-- The number of locks is that of the locks listed.
pub count_all_locks-length : (r : Registry) → count_all_locks r ≡ length (get_all_locks r)
unfolding count_all_locks get_all_locks
count_all_locks-length r = omega (
  arith,
  length-append (locks_of r.component_locks) (locks_of r.named_locks),
  length-map (λ (p : ℕ × LockId). p.1) r.component_locks,
  length-map (λ (p : String × LockId). p.1) r.named_locks,
)

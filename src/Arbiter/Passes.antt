-- ===== src/Arbiter/Passes.antt =====
-- forastero/sequence.py, class SeqArbiter: what one pass over the queue schedules.
use forastero.Prelude.{
  ℕ, zero, suc, ◌<◌, ◌≡◌, inl, inr, refl, sym, List, [], ◌∷◌, ◌++◌, some, Bool, true, not, ◌&&◌,
  ◌==◌, if◌then◌else◌, elem, arith, Bool-cases, All, get_elem?, length, append-nil,
}
use forastero.SeqLock.{LockId, owned}
use forastero.Arbiter.{Store, Entry, all_in, Claim, claimed, key_error, stalled, pass, after_claim}
use forastero.Arbiter.Claims.{AreFree, distinct, IsClaim, claim-IsClaim}
use forastero.Arbiter.Granted.{AreFree-claimed, IsPass, last_step, skip_step, take_step}

-- The queue's entries ask for no lock twice.
abbrev pub AreDistinct : List Entry → Type 0
AreDistinct queue = All (λ entry. distinct entry.locks ≡ true) queue

entry_at :
    (queue : List Entry) (idx : ℕ)
    → AreDistinct queue
    → idx < length queue
    → (entry : Entry) × (get_elem? queue idx ≡ some entry) × (distinct entry.locks ≡ true)
entry_at [] idx d h = elim h [ ]
entry_at (entry ∷ queue) zero d h = (entry, refl, d.0)
entry_at (entry ∷ queue) (suc idx) d h = entry_at queue idx d.1 (omega arith)

module _ (callable : Bool) (queue : List Entry) (d : AreDistinct queue) where
  claim_step :
      (idx : ℕ) (order : List ℕ) (entry : Entry) (at : get_elem? queue idx ≡ some entry)
      (free : List LockId) (s : Store) (acc : List ℕ) (fits : all_in entry.locks free ≡ true)
      (r : Claim)
      → IsClaim callable entry.ctx entry.locks free s r
      → ((free1 : List LockId) (s1 : Store)
          → ((j : LockId) → s1 j ≡ (if elem j entry.locks then owned entry.ctx else s j))
          → ((j : LockId) → elem j free1 ≡ elem j free && not (elem j entry.locks))
          → IsPass queue order free1 s1
              (acc ++ idx ∷ [])
              (pass callable queue order free1 s1 (acc ++ idx ∷ [])))
      → IsPass queue
          (idx ∷ order)
          free
          s
          acc
          (after_claim callable r (pass callable queue order) (acc ++ idx ∷ []))
  unfolding after_claim
  claim_step idx order entry at free s acc fits (claimed free1 s1) (held, left) rest =
      elim (Bool-cases (length free1 == 0)) [
        | inl none_left ↦
            rw (none_left, after_claim)
              (last_step queue idx entry at order free s acc free1 s1 fits held left (ground arith))
        | inr more ↦
            rw (more, after_claim)
              (take_step queue idx entry at order free s acc free1 s1 fits held left _
                (rest free1 s1 held left))
      ]
  claim_step idx order entry at free s acc fits (key_error _) h rest = absurd h
  claim_step idx order entry at free s acc fits (stalled _) h rest = absurd h

  -- One pass over the queue in any order, if no entry asks for a lock twice: it ends without an
  -- exception. The scheduled entries hold exactly the locks that they asked for, which were
  -- available, and no two of them ask for one lock; every other lock is as it was. An entry that
  -- was not scheduled asks for a lock that is not available, or the pass ended with none left.
  pub pass-IsPass :
      (order : List ℕ) (free : List LockId) (s : Store) (acc : List ℕ)
      → All (λ idx. idx < length queue) order
      → AreFree free s
      → IsPass queue order free s acc (pass callable queue order free s acc)
  unfolding pass
  pass-IsPass [] free s acc below f = (
    [],
    [],
    sym (append-nil acc),
    record {
      picks = tt;
      held = λ j. refl;
      exclusive = λ j. ground arith;
      left = λ j. ground arith;
      decided = tt;
    },
  )
  pass-IsPass (idx ∷ order) free s acc (here, below) f =
      let (entry, at, once) = entry_at queue idx d here in
      elim (Bool-cases (all_in entry.locks free)) [
        | inr no_lock ↦
            rw (at, pass, no_lock)
              (skip_step queue idx entry at order free s acc _ no_lock
                (pass-IsPass order free s acc below f))
        | inl fits ↦
            rw (at, pass, fits)
              (claim_step idx order entry at free s acc fits _
                (claim-IsClaim callable entry.ctx entry.locks free s f fits once)
                (λ free1 s1 held left.
                  pass-IsPass order free1 s1 (acc ++ idx ∷ []) below
                    (AreFree-claimed entry.ctx entry.locks free free1 s s1 f held left)))
      ]

-- ===== src/Arbiter/Granted.antt =====
-- forastero/sequence.py, SeqArbiter._manage: what a pass over the queue grants, entry by entry.
use forastero.Prelude.{
  ℕ, ◌+◌, ◌≤◌, ◌≡◌, ◌⊎◌, ◌∙◌, inl, inr, refl, List, [], ◌∷◌, ◌++◌, some, true, false, not, ◌&&◌,
  ◌==◌, if◌then◌else◌, elem, arith, All, get_elem?, length, append_assoc,
}
use forastero.SeqLock.{ContextId, LockId, owned}
use forastero.Arbiter.{Store, Entry, all_in, Pass, passed, crashed}
use forastero.Arbiter.Claims.{AreFree, all_in-elem}

-- How many of the entries ask for a lock.
abbrev pub asks : LockId → List Entry → ℕ
asks j [] = 0
asks j (entry ∷ entries) = (if elem j entry.locks then 1 else 0) + asks j entries

-- The store once each of the entries has been given what it asks for.
abbrev pub grant_of : List Entry → Store → Store
grant_of [] s j = s j
grant_of (entry ∷ entries) s j =
    if elem j entry.locks then owned entry.ctx else grant_of entries s j

-- The entries at the given places of the queue.
abbrev pub Picks : List Entry → List ℕ → List Entry → Type 0
Picks queue [] [] = Unit {0}
Picks queue (idx ∷ more) (entry ∷ entries) =
    (get_elem? queue idx ≡ some entry) × Picks queue more entries
Picks queue _ _ = ⊥

-- An entry that was tried was scheduled, or cannot be: some lock of it is not available.
abbrev pub IsDecided : List Entry → List LockId → List ℕ → ℕ → Type 0
IsDecided queue free new idx =
    (elem idx new ≡ true)
    ⊎ ((entry : Entry) × (get_elem? queue idx ≡ some entry) × (all_in entry.locks free ≡ false))
    ⊎ (length free ≡ 0)

pub record Scheduled (queue : List Entry) (order : List ℕ) (free : List LockId) (s : Store)
    (free' : List LockId) (s' : Store) (new : List ℕ) (granted : List Entry) : Type 0 where
  pub picks : Picks queue new granted
  pub held : (j : LockId) → s' j ≡ grant_of granted s j
  pub exclusive : (j : LockId) → asks j granted ≤ (if elem j free then 1 else 0)
  pub left : (j : LockId) → elem j free' ≡ (asks j granted == 0) && elem j free
  pub decided : All (IsDecided queue free' new) order

abbrev pub IsPass : List Entry → List ℕ → List LockId → Store → List ℕ → Pass → Type 0
IsPass queue order free s acc (passed free' s' scheduled) =
    (new : List ℕ) × (granted : List Entry) × (scheduled ≡ acc ++ new)
    × Scheduled queue order free s free' s' new granted
IsPass queue order free s acc (crashed _) = ⊥

pub grant_of_none :
    (j : LockId) (es : List Entry) (s : Store) → asks j es ≡ 0 → grant_of es s j ≡ s j
grant_of_none j [] s h = refl
grant_of_none j (entry ∷ es) s h = ground (arith, grant_of_none j es s)

grant_of_same :
    (j : LockId) (es : List Entry) (s s1 : Store) → s1 j ≡ s j → grant_of es s1 j ≡ grant_of es s j
grant_of_same j [] s s1 h = h
grant_of_same j (entry ∷ es) s s1 h = ground (arith, grant_of_same j es s s1)

-- What is available later was available before.
abbrev Within : List LockId → List LockId → Type 0
Within free' free = (j : LockId) → elem j free' ≡ true → elem j free ≡ true

all_in-Within :
    (locks free free' : List LockId)
    → Within free' free
    → all_in locks free ≡ false
    → all_in locks free' ≡ false
unfolding all_in
all_in-Within [] free free' w h = h
all_in-Within (l ∷ locks) free free' w h = ground (arith, w l, all_in-Within locks free free' w)

module _ (queue : List Entry) (idx : ℕ) (entry : Entry) (at : get_elem? queue idx ≡ some entry)
    (order : List ℕ) (free : List LockId) (s : Store) (acc : List ℕ) where
  pub skip_step :
      (r : Pass)
      → all_in entry.locks free ≡ false
      → IsPass queue order free s acc r
      → IsPass queue (idx ∷ order) free s acc r
  skip_step (passed free' s' scheduled) no_lock (new, granted, e, p) = (
    new,
    granted,
    e,
    record {
      picks = p.picks;
      held = p.held;
      exclusive = p.exclusive;
      left = p.left;
      decided = (
        inr (
            inl (
              entry,
              at,
              all_in-Within entry.locks free free' (λ j h. ground (arith, p.left j)) no_lock,
            )),
        p.decided,
      );
    },
  )
  skip_step (crashed _) no_lock h = absurd h

  module _ (free1 : List LockId) (s1 : Store) (fits : all_in entry.locks free ≡ true)
      (held1 : (j : LockId) → s1 j ≡ (if elem j entry.locks then owned entry.ctx else s j))
      (left1 : (j : LockId) → elem j free1 ≡ elem j free && not (elem j entry.locks)) where
    pub last_step :
        length free1 ≡ 0 → IsPass queue (idx ∷ order) free s acc (passed free1 s1 (acc ++ idx ∷ []))
    last_step none_left = (
      idx ∷ [],
      entry ∷ [],
      refl,
      record {
        picks = (at, tt);
        held = λ j. held1 j;
        exclusive = λ j. ground (arith, all_in-elem j entry.locks free);
        left = λ j. ground (arith, left1 j);
        decided = (inl (ground arith), All-of_empty order);
      },
    )
      where
        All-of_empty : (l : List ℕ) → All (IsDecided queue free1 (idx ∷ [])) l
        All-of_empty [] = tt
        All-of_empty (i ∷ l) = (inr (inr none_left), All-of_empty l)

    IsDecided-more :
        (free' : List LockId) (new l : List ℕ)
        → All (IsDecided queue free' new) l
        → All (IsDecided queue free' (idx ∷ new)) l
    IsDecided-more free' new [] d = tt
    IsDecided-more free' new (i ∷ l) (inl h, d) = (inl (ground arith), IsDecided-more free' new l d)
    IsDecided-more free' new (i ∷ l) (inr h, d) = (inr h, IsDecided-more free' new l d)

    pub take_step :
        (r : Pass)
        → IsPass queue order free1 s1 (acc ++ idx ∷ []) r
        → IsPass queue (idx ∷ order) free s acc r
    take_step (passed free' s' scheduled) (new, granted, e, p) = (
      idx ∷ new,
      entry ∷ granted,
      e ∙ append_assoc acc (idx ∷ []) new,
      record {
        picks = (at, p.picks);
        held = λ j. ground (
          arith,
          p.held j,
          p.exclusive j,
          held1 j,
          left1 j,
          grant_of_none j granted s1,
          grant_of_same j granted s s1,
        );
        exclusive = λ j. ground (arith, p.exclusive j, left1 j, all_in-elem j entry.locks free);
        left = λ j. ground (arith, p.left j, left1 j);
        decided = (inl (ground arith), IsDecided-more free' new order p.decided);
      },
    )
    take_step (crashed _) h = absurd h

pub AreFree-claimed :
    (ctx : ContextId) (locks free free1 : List LockId) (s s1 : Store)
    → AreFree free s
    → ((j : LockId) → s1 j ≡ (if elem j locks then owned ctx else s j))
    → ((j : LockId) → elem j free1 ≡ elem j free && not (elem j locks))
    → AreFree free1 s1
AreFree-claimed ctx locks free free1 s s1 f held left j h = ground (arith, held j, left j, f j)

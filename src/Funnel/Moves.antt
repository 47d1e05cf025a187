-- ===== src/Funnel/Moves.antt =====
-- forastero/scoreboard.py, class FunnelChannel, as an abstract machine, and its sweep.
use Prim.Native.String.{String}
use forastero.Prelude.{
  ℕ, ◌+◌, ◌≡◌, ◌≢◌, ◌⊎◌, inl, inr, refl, ap, List, [], ◌∷◌, ◌++◌, Bool, true, false, not, ◌||◌, any,
  arith, Bool-cases, List-cases, Eq,
}
use forastero.Queue.{Queue}
use forastero.Transaction.{Transaction, tx_eq}
use forastero.Channel.{Report}
use forastero.Channel.Moves.{report, as_count}
use forastero.Funnel.{Funnel, Sweep, found, nothing, beside, sweep, pop_last}

pub record View (T : Type 0) : Type 0 where
  pub captured : List T
  pub queues : List (String × List T)
  pub told : List (Report T)
  pub matched : ℕ
  pub mismatched : ℕ

module _ {T : Type 0} where
  abbrev pub contents : List (String × Queue T) → List (String × List T)
  contents [] = []
  contents ((name, q) ∷ queues) = (name, q.entries) ∷ contents queues

  abbrev pub view : Funnel T → View T
  view c = record {
    captured = c.base.q_mon.entries;
    queues = contents c.queues;
    told = c.base.reports;
    matched = c.base.matched;
    mismatched = c.base.mismatched;
  }

  abbrev pub is_empty : String × List T → Bool
  is_empty (name, []) = true
  is_empty (name, x ∷ xs) = false

module _ {F : Type 0} ⦃e : Eq F⦄ where
  abbrev pub head_matches : Transaction F → String × List (Transaction F) → Bool
  head_matches mon (name, []) = false
  head_matches mon (name, ref ∷ rest) = tx_eq ref mon

  -- One entry was taken from the front of one queue.
  pub record Taken (queues queues' : List (String × List (Transaction F))) (ref : Transaction F)
      : Type 0 where
    pub before : List (String × List (Transaction F))
    pub name : String
    pub rest : List (Transaction F)
    pub after : List (String × List (Transaction F))
    pub old : queues ≡ before ++ (name, ref ∷ rest) ∷ after
    pub now : queues' ≡ before ++ (name, rest) ∷ after

  -- The pair matches, and no earlier queue's front would; or no queue is empty, no front matches,
  -- and the entry comes from the last queue.
  abbrev pub Chosen :
      (mon ref : Transaction F) (queues queues' : List (String × List (Transaction F)))
      → Taken queues queues' ref
      → Type 0
  Chosen mon ref queues queues' t =
      ((tx_eq ref mon ≡ true) × (any (head_matches mon) t.before ≡ false))
      ⊎ ((t.after ≡ []) × (any (head_matches mon) queues ≡ false) × (any is_empty queues ≡ false))

  pub data Move (v w : View (Transaction F)) : Type 0 where
    stay : w ≡ v → Move v w
    pair :
        (mon ref : Transaction F) (t : Taken v.queues w.queues ref)
        → v.captured ≡ mon ∷ w.captured
        → w.told ≡ v.told ++ report mon ref ∷ []
        → w.matched ≡ v.matched + as_count (tx_eq mon ref)
        → w.mismatched ≡ v.mismatched + as_count (not (tx_eq mon ref))
        → Chosen mon ref v.queues w.queues t
        → Move v w

  Taken-cons :
      (entry : String × List (Transaction F))
      {queues queues' : List (String × List (Transaction F))} {ref : Transaction F}
      → Taken queues queues' ref
      → Taken (entry ∷ queues) (entry ∷ queues') ref
  Taken-cons entry t = record {
    before = entry ∷ t.before;
    name = t.name;
    rest = t.rest;
    after = t.after;
    old = ap (λ l. entry ∷ l) t.old;
    now = ap (λ l. entry ∷ l) t.now;
  }

  Taken-here :
      (name : String) (ref : Transaction F) (rest : List (Transaction F))
      (after : List (String × List (Transaction F)))
      → Taken ((name, ref ∷ rest) ∷ after) ((name, rest) ∷ after) ref
  Taken-here name ref rest after = record {
    before = [];
    name = name;
    rest = rest;
    after = after;
    old = refl;
    now = refl;
  }

  abbrev pub IsSweep :
      Transaction F → List (String × Queue (Transaction F)) → Bool → Sweep (Transaction F) → Type 0
  IsSweep mon queues any_empty (found queues' ref) =
      (t : Taken (contents queues) (contents queues') ref) × (tx_eq ref mon ≡ true)
      × (any (head_matches mon) t.before ≡ false)
  IsSweep mon queues any_empty (nothing b) =
      (any (head_matches mon) (contents queues) ≡ false)
      × (b ≡ any_empty || any is_empty (contents queues))

  IsSweep-beside :
      (mon : Transaction F) (name : String) (q : Queue (Transaction F))
      (queues : List (String × Queue (Transaction F))) (so_far now_any : Bool)
      (r : Sweep (Transaction F))
      → head_matches mon (name, q.entries) ≡ false
      → now_any ≡ so_far || is_empty (name, q.entries)
      → IsSweep mon queues now_any r
      → IsSweep mon ((name, q) ∷ queues) so_far (beside (name, q) r)
  unfolding Taken-cons
  IsSweep-beside mon name q queues so_far now_any (found queues' ref) no_head grown
        (t, same, before) =
      (Taken-cons (name, q.entries) t, same, rw no_head before)
  IsSweep-beside mon name q queues so_far now_any (nothing b) no_head grown (none_match, h) =
      (rw no_head none_match, ground arith)

  pub sweep-IsSweep :
      (mon : Transaction F) (queues : List (String × Queue (Transaction F))) (any_empty : Bool)
      → IsSweep mon queues any_empty (sweep mon queues any_empty)
  unfolding sweep Taken-here
  sweep-IsSweep mon [] any_empty = (refl, ground arith)
  sweep-IsSweep mon ((name, q) ∷ queues) any_empty = elim (List-cases q.entries) [
    | inl none_left ↦ simp none_left (
        IsSweep-beside mon name q queues any_empty true _ (rw none_left refl)
          (rw none_left (ground arith)) (sweep-IsSweep mon queues true))
    | inr (ref, rest, front) ↦ elim (Bool-cases (tx_eq ref mon)) [
      | inl same ↦ simp (front, same) (Taken-here name ref rest (contents queues), refl, refl)
      | inr other ↦
          simp (front, other)
            (IsSweep-beside mon name q queues any_empty any_empty _ (rw front other)
              (rw front (ground arith)) (sweep-IsSweep mon queues any_empty))
    ]
  ]

  -- The entry popped behind the loop comes from the last queue.
  abbrev pub IsLast : List (String × Queue (Transaction F)) → Sweep (Transaction F) → Type 0
  IsLast queues (found queues' ref) =
      (t : Taken (contents queues) (contents queues') ref) × (t.after ≡ [])
  IsLast queues (nothing b) = ⊥

  IsLast-beside :
      (entry : String × Queue (Transaction F)) (queues : List (String × Queue (Transaction F)))
      (r : Sweep (Transaction F))
      → IsLast queues r
      → IsLast (entry ∷ queues) (beside entry r)
  unfolding Taken-cons
  IsLast-beside (name, q) queues (found queues' ref) (t, last) =
      (Taken-cons (name, q.entries) t, last)
  IsLast-beside entry queues (nothing b) h = h

  pub pop_last-IsLast :
      (queues : List (String × Queue (Transaction F)))
      → contents queues ≢ []
      → any is_empty (contents queues) ≡ false
      → IsLast queues (pop_last queues)
  unfolding pop_last Taken-here
  pop_last-IsLast [] some_queue full = absurd (some_queue refl)
  pop_last-IsLast ((name, q) ∷ []) some_queue full = elim (List-cases q.entries) [
    | inl none_left ↦ ground arith
    | inr (ref, rest, front) ↦ simp front (Taken-here name ref rest [], refl)
  ]
  pop_last-IsLast (entry ∷ next ∷ queues) some_queue full =
      IsLast-beside entry (next ∷ queues) _
        (pop_last-IsLast (next ∷ queues) (λ e. cc) (ground arith))

-- ===== src/SeqLock/Requests.antt =====
-- forastero/sequence.py, class SeqLock: which calls of `get_component_lock` and `get_named_lock` return
-- the same lock.
use Prim.Native.String.{String}
use forastero.Prelude.{
  ℕ, ◌+◌, ◌<◌, ◌≡◌, ◌≢◌, ◌↔◌, ◌⊎◌, inl, inr, refl, sym, ap, subst, ◌∙◌, List, [], ◌∷◌, ◌++◌, Option,
  none, some, true, false, Eq, ◌=?=◌, nat_eq, string_eq, arith, Bool-cases, Option-cases, get_elem?,
  if◌then◌else◌, zero, suc,
}
use forastero.SeqLock.{Registry, LockId, find, get_component_lock, get_named_lock}

pub data Request : Type 0 where
  component : ℕ → Request
  named : String → Request

-- A call, and the lock that the tables have for one.
abbrev pub ask : Request → Registry → Registry × LockId
ask (component comp) r = get_component_lock comp r
ask (named name) r = get_named_lock name r

abbrev lookup : Request → Registry → Option LockId
lookup (component comp) r = find comp r.component_locks
lookup (named name) r = find name r.named_locks

-- The locks that a sequence of calls returns.
abbrev pub ask_all : List Request → Registry → List LockId
ask_all [] r = []
ask_all (x ∷ xs) r = let (r', l) = ask x r in l ∷ ask_all xs r'

abbrev pub no_locks : Registry
no_locks = record { component_locks = []; named_locks = []; next_lock = 0 }

module _ {K : Type 0} ⦃e : Eq K⦄ where
  find-last :
      (k j : K) (l : LockId) (table : List (K × LockId))
      → find j table ≡ none
      → ((k ≡ j) × (find k (table ++ (j, l) ∷ []) ≡ some l))
        ⊎ ((k ≢ j) × (find k (table ++ (j, l) ∷ []) ≡ find k table))
  unfolding find
  find-last k j l [] h = elim (Bool-cases (j =?= k)) [
    | inl same ↦ inl (sym ((e.beq_iff j k).0 same), rw same refl)
    | inr other ↦
        inr ((λ p. let same : (j =?= k) ≡ true = (e.beq_iff j k).1 (sym p) in cc), rw other refl)
  ]
  find-last k j l ((i, m) ∷ table) h = elim (Bool-cases (i =?= j)) [
    | inl here ↦ let wrong : some m ≡ none = (rw here at h) in cc
    | inr away ↦ elim (find-last k j l table (rw away at h)) [
      | inl (same, there) ↦
          inl (
            same,
            (let apart : (i =?= k) ≡ false = ap (λ n. i =?= n) same ∙ away in rw apart there),
          )
      | inr (other, rest) ↦ inr (other, ap (λ o. if i =?= k then some m else o) rest)
    ]
  ]

-- Every lock of the tables is an old one, and is there for one request only.
record Unshared (r : Registry) : Type 0 where
  old : (x : Request) (l : LockId) → lookup x r ≡ some l → l < r.next_lock
  one : (x y : Request) (l : LockId) → lookup x r ≡ some l → lookup y r ≡ some l → x ≡ y

-- A call leaves the lock in the tables that it returns, and no other request's lock is another one.
record Asked (x : Request) (r r' : Registry) (l : LockId) : Type 0 where
  known : lookup x r' ≡ some l
  kept : (y : Request) (m : LockId) → lookup y r ≡ some m → lookup y r' ≡ some m
  unshared : Unshared r'

-- A request that had no lock is given the next one.
fresh-Asked :
    (x : Request) (r r' : Registry)
    → lookup x r ≡ none
    → r'.next_lock ≡ r.next_lock + 1
    → ((y : Request)
        → ((y ≡ x) × (lookup y r' ≡ some r.next_lock)) ⊎ ((y ≢ x) × (lookup y r' ≡ lookup y r)))
    → Unshared r
    → Asked x r r' r.next_lock
fresh-Asked x r r' missing next split u = record {
  known = elim (split x) [ inl (_, there) ↦ there | inr (other, _) ↦ absurd (other refl) ];
  kept = λ y m h. elim (split y) [
    | inl (same, _) ↦
        let wrong : none ≡ some m = sym missing ∙ ap (λ z. lookup z r) (sym same) ∙ h in cc
    | inr (_, rest) ↦ rest ∙ h
  ];
  unshared = record {
    old = λ y l h. elim (split y) [
      | inl (_, there) ↦ let last : r.next_lock ≡ l = cc in omega (arith, last, next)
      | inr (_, rest) ↦ omega (arith, u.old y l (sym rest ∙ h), next)
    ];
    one = λ y z l h k. elim (split y) [
      | inl (same, there) ↦ elim (split z) [
        | inl (same', _) ↦ same ∙ sym same'
        | inr (_, rest) ↦
            let last : r.next_lock ≡ l = cc in
            absurd (omega (arith, last, u.old z l (sym rest ∙ k)))
      ]
      | inr (_, rest) ↦ elim (split z) [
        | inl (_, there) ↦
            let last : r.next_lock ≡ l = cc in
            absurd (omega (arith, last, u.old y l (sym rest ∙ h)))
        | inr (_, rest') ↦ u.one y z l (sym rest ∙ h) (sym rest' ∙ k)
      ]
    ];
  };
}

-- The tables with one more lock, the next one.
abbrev with_lock : Request → Registry → Registry
with_lock (component comp) r = record r {
  component_locks = r.component_locks ++ (comp, r.next_lock) ∷ [];
  next_lock = r.next_lock + 1;
}
with_lock (named name) r = record r {
  named_locks = r.named_locks ++ (name, r.next_lock) ∷ [];
  next_lock = r.next_lock + 1;
}

with_lock-lookup :
    (x : Request) (r : Registry)
    → lookup x r ≡ none
    → (y : Request)
    → ((y ≡ x) × (lookup y (with_lock x r) ≡ some r.next_lock))
      ⊎ ((y ≢ x) × (lookup y (with_lock x r) ≡ lookup y r))
with_lock-lookup (component comp) r missing (component c) =
    elim (find-last c comp r.next_lock r.component_locks missing) [
      | inl (same, there) ↦ inl (ap component same, there)
      | inr (other, rest) ↦ inr ((λ p. other (cc)), rest)
    ]
with_lock-lookup (component comp) r missing (named n) = inr ((λ p. cc), refl)
with_lock-lookup (named name) r missing (component c) = inr ((λ p. cc), refl)
with_lock-lookup (named name) r missing (named n) =
    elim (find-last n name r.next_lock r.named_locks missing) [
      | inl (same, there) ↦ inl (ap named same, there)
      | inr (other, rest) ↦ inr ((λ p. other (cc)), rest)
    ]

known-Asked :
    (x : Request) (r : Registry) (l : LockId) → lookup x r ≡ some l → Unshared r → Asked x r r l
known-Asked x r l h u = record { known = h; kept = λ y m k. k; unshared = u }

ask-Asked : (x : Request) (r : Registry) → Unshared r → Asked x r (ask x r).0 (ask x r).1
unfolding get_component_lock get_named_lock
ask-Asked (component comp) r u = elim (Option-cases (find comp r.component_locks)) [
  | inr (l, known) ↦ simp (known, get_component_lock) (known-Asked (component comp) r l known u)
  | inl missing ↦
      simp (missing, get_component_lock)
        (fresh-Asked (component comp) r _ missing refl (with_lock-lookup (component comp) r missing)
          u)
]
ask-Asked (named name) r u = elim (Option-cases (find name r.named_locks)) [
  | inr (l, known) ↦ simp (known, get_named_lock) (known-Asked (named name) r l known u)
  | inl missing ↦
      simp (missing, get_named_lock)
        (fresh-Asked (named name) r _ missing refl (with_lock-lookup (named name) r missing) u)
]

-- The tables behind a sequence of calls.
abbrev behind : List Request → Registry → Registry
behind [] r = r
behind (x ∷ xs) r = behind xs (ask x r).0

behind-kept :
    (xs : List Request) (r : Registry) (y : Request) (m : LockId)
    → Unshared r
    → lookup y r ≡ some m
    → lookup y (behind xs r) ≡ some m
behind-kept [] r y m u h = h
behind-kept (x ∷ xs) r y m u h =
    let a = ask-Asked x r u in behind-kept xs (ask x r).0 y m a.unshared (a.kept y m h)

behind-Unshared : (xs : List Request) (r : Registry) → Unshared r → Unshared (behind xs r)
behind-Unshared [] r u = u
behind-Unshared (x ∷ xs) r u = behind-Unshared xs (ask x r).0 (ask-Asked x r u).unshared

answer-known :
    (xs : List Request) (r : Registry) (i : ℕ) (x : Request) (l : LockId)
    → Unshared r
    → get_elem? xs i ≡ some x
    → get_elem? (ask_all xs r) i ≡ some l
    → lookup x (behind xs r) ≡ some l
answer-known [] r i x l u at answer = ground arith
answer-known (z ∷ xs) r zero x l u at answer =
    let a = ask-Asked z r u in
    let same : z ≡ x = cc in
    let its_lock : (ask z r).1 ≡ l = cc in
    behind-kept xs (ask z r).0 x l a.unshared (
      subst (λ n. lookup x (ask z r).0 ≡ some n) its_lock
        (subst (λ y. lookup y (ask z r).0 ≡ some (ask z r).1) same a.known))
answer-known (z ∷ xs) r (suc i) x l u at answer =
    answer-known xs (ask z r).0 i x l (ask-Asked z r u).unshared at answer

nothing_known : (x : Request) (l : LockId) → lookup x no_locks ≡ some l → ⊥
unfolding find
nothing_known (component c) l h = cc
nothing_known (named n) l h = cc

no_locks-Unshared : Unshared no_locks
no_locks-Unshared = record {
  old = λ x l h. absurd (nothing_known x l h);
  one = λ x y l h k. absurd (nothing_known x l h);
}

-- Among the calls of get_component_lock and get_named_lock from the start, in any order, two return
-- the same lock exactly if both ask for the same component, or both for the same name.
pub ask_all-same_iff :
    (xs : List Request) (i j : ℕ) (x y : Request) (l m : LockId)
    → get_elem? xs i ≡ some x
    → get_elem? xs j ≡ some y
    → get_elem? (ask_all xs no_locks) i ≡ some l
    → get_elem? (ask_all xs no_locks) j ≡ some m
    → (l ≡ m) ↔ (x ≡ y)
ask_all-same_iff xs i j x y l m at_i at_j answer_i answer_j =
    let u = behind-Unshared xs no_locks no_locks-Unshared in
    let first = answer-known xs no_locks i x l no_locks-Unshared at_i answer_i in
    let second = answer-known xs no_locks j y m no_locks-Unshared at_j answer_j in
    (
      (λ same. u.one x y l first (second ∙ ap some (sym same))),
      (λ same.
          let both : some l ≡ some m =
            sym first ∙ ap (λ z. lookup z (behind xs no_locks)) same ∙ second in
          cc),
    )

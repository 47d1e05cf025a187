-- ===== src/Sequence/Declare.antt =====
-- forastero/sequence.py, class BaseSequence: what holds of a sequence behind its decorators.
use forastero.Prelude.{
  ℤ, ◌↔◌, Option-cases, ◌≡◌, refl, sym, ap, subst, ◌∙◌, inl, inr, List, [], ◌∷◌, ◌++◌, Option, none,
  some, Bool, true, false, ◌||◌, ◌=?=◌, text_eq, Text, length, ◌==◌, Bool-cases,
}
use forastero.RandomVariable.{Given, random_variable}
use forastero.Sequence.Refusals.{
  IsTaken, IsUnfit, or_iff, itself, empty_iff, none_if, random_variable-none_iff,
}
use forastero.Sequence.{
  BaseSequence, has_key, listed, clean, add_requirement, add_lock, add_randarg,
}
use forastero.Sequence.Call.{names_of}

-- A decorator of a sequencing function.
pub data Decorator (K V : Type 0) : Type 0 where
  requires : Text → K → Decorator K V
  requires_lock : Text → Decorator K V
  randarg :
      Text → Option (Given ℤ) → Option (Given (V × V)) → Option (Given (List V)) → Decorator K V

abbrev pub Distinct : List Text → Type 0
Distinct [] = Unit
Distinct (x ∷ xs) = (listed x xs ≡ false) × Distinct xs

or_split : (a b : Bool) → a || b ≡ false → (a ≡ false) × (b ≡ false)
or_split false false h = (refl, refl)
or_split false true h = cc
or_split true b h = cc

or_join : (a b : Bool) → a ≡ false → b ≡ false → a || b ≡ false
or_join false false h k = refl
or_join false true h k = cc
or_join true b h k = cc

apart_sym : (x y : Text) → (x =?= y) ≡ false → (y =?= x) ≡ false
apart_sym x y h = elim (Bool-cases (y =?= x)) [
  | inl same ↦
      let again : (x =?= y) ≡ true = (text_eq.beq_iff x y).1 (sym ((text_eq.beq_iff y x).0 same)) in
      cc
  | inr apart ↦ apart
]

listed-last :
    (n x : Text) (xs : List Text)
    → listed n xs ≡ false
    → (x =?= n) ≡ false
    → listed n (xs ++ x ∷ []) ≡ false
unfolding listed
listed-last n x [] h k = or_join _ false k refl
listed-last n x (y ∷ xs) h k =
    let (first, more) = or_split (y =?= n) (listed n xs) h in
    or_join (y =?= n) _ first (listed-last n x xs more k)

Distinct-last :
    (x : Text) (xs : List Text) → Distinct xs → listed x xs ≡ false → Distinct (xs ++ x ∷ [])
unfolding listed
Distinct-last x [] d h = (refl, tt)
Distinct-last x (y ∷ xs) (fresh, d) h =
    let (first, more) = or_split (y =?= x) (listed x xs) h in
    (listed-last y x xs fresh (apart_sym y x first), Distinct-last x xs d more)

module _ {A : Type 0} where
  has_key-listed :
      (n : Text) (table : List (Text × A)) → has_key n table ≡ listed n (names_of table)
  unfolding has_key listed
  has_key-listed n [] = refl
  has_key-listed n ((key, x) ∷ table) = ap (λ b. (key =?= n) || b) (has_key-listed n table)

  names_of-last :
      (table : List (Text × A)) (n : Text) (x : A)
      → names_of (table ++ (n, x) ∷ []) ≡ names_of table ++ n ∷ []
  names_of-last [] n x = refl
  names_of-last ((key, y) ∷ table) n x = ap (λ l. key ∷ l) (names_of-last table n x)

listed-before :
    (n x : Text) (xs : List Text)
    → listed n (xs ++ x ∷ []) ≡ true
    → (x =?= n) ≡ false
    → listed n xs ≡ true
listed-before n x xs h k = elim (Bool-cases (listed n xs)) [
  | inl there ↦ there
  | inr missing ↦ let never = listed-last n x xs missing k in cc
]

module _ {K V : Type 0} where
  -- `none` stands for the AssertionError of a decorator.
  unfoldable pub decorate : Decorator K V → BaseSequence K V → Option (BaseSequence K V)
  decorate (requires name ctype) s = add_requirement name ctype s
  decorate (requires_lock name) s = add_lock name s
  decorate (randarg name bit_width range choices) s =
      elim (random_variable name bit_width range choices) [
        | none ↦ none
        | some rv ↦ some (add_randarg rv s)
      ]

  abbrev pub IsRefused : Decorator K V → BaseSequence K V → Type 0
  IsRefused (requires name ctype) s = IsTaken (clean name) (names_of s.requires) s.locks
  IsRefused (requires_lock name) s = IsTaken (clean name) s.locks (names_of s.requires)
  IsRefused (randarg name bit_width range choices) s = IsUnfit name bit_width range choices

  -- Requirements and locks are passed to the sequencing function under their names, so no two of
  -- them may have the same.
  pub record IsDeclared (s : BaseSequence K V) : Type 0 where
    pub requirements : Distinct (names_of s.requires)
    pub lock_names : Distinct s.locks
    pub apart : (n : Text) → listed n (names_of s.requires) ≡ true → listed n s.locks ≡ false

  abbrev pub IsDeclaredIfSome : Option (BaseSequence K V) → Type 0
  IsDeclaredIfSome none = Unit
  IsDeclaredIfSome (some s) = IsDeclared s

  add_requirement-IsDeclared :
      (req_name : Text) (ctype : K) (s : BaseSequence K V)
      → IsDeclared s
      → IsDeclaredIfSome (add_requirement req_name ctype s)
  unfolding add_requirement
  add_requirement-IsDeclared req_name ctype s d =
      let name = clean req_name in
      elim (Bool-cases (length name == 0 || has_key name s.requires || listed name s.locks)) [
        | inl refused ↦ simp (refused, add_requirement) tt
        | inr taken ↦
            let (a, no_lock) = or_split _ (listed name s.locks) taken in
            let (b, no_key) = or_split _ (has_key name s.requires) a in
            let new_name : listed name (names_of s.requires) ≡ false =
              sym (has_key-listed name s.requires) ∙ no_key in
            simp (taken, add_requirement)
              (record {
                requirements =
                    subst Distinct (sym (names_of-last s.requires name ctype))
                      (Distinct-last name (names_of s.requires) d.requirements new_name);
                lock_names = d.lock_names;
                apart = λ n there. elim (Bool-cases (name =?= n)) [
                  | inl same ↦
                      subst (λ m. listed m s.locks ≡ false) ((text_eq.beq_iff name n).0 same)
                        no_lock
                  | inr other ↦ d.apart n (
                      listed-before n name (names_of s.requires)
                        (subst (λ l. listed n l ≡ true) (names_of-last s.requires name ctype) there)
                        other)
                ];
              })
      ]

  add_lock-IsDeclared :
      (lock_name : Text) (s : BaseSequence K V)
      → IsDeclared s
      → IsDeclaredIfSome (add_lock lock_name s)
  unfolding add_lock
  add_lock-IsDeclared lock_name s d =
      let name = clean lock_name in
      elim (Bool-cases (length name == 0 || listed name s.locks || has_key name s.requires)) [
        | inl refused ↦ simp (refused, add_lock) tt
        | inr taken ↦
            let (a, no_key) = or_split _ (has_key name s.requires) taken in
            let (b, no_lock) = or_split _ (listed name s.locks) a in
            simp (taken, add_lock)
              (record {
                requirements = d.requirements;
                lock_names = Distinct-last name s.locks d.lock_names no_lock;
                apart = λ n there.
                    listed-last n name s.locks (d.apart n there) (elim (Bool-cases (name =?= n)) [
                      | inl same ↦
                          let e : name ≡ n = (text_eq.beq_iff name n).0 same in
                          let met : listed name (names_of s.requires) ≡ true =
                            subst (λ m. listed m (names_of s.requires) ≡ true) (sym e) there in
                          let key = sym (has_key-listed name s.requires) ∙ no_key in cc
                      | inr other ↦ other
                    ]);
              })
      ]

  decorate-none_iff :
      (decorator : Decorator K V) (s : BaseSequence K V)
      → (decorate decorator s ≡ none) ↔ IsRefused decorator s
  unfolding decorate add_requirement add_lock
  decorate-none_iff (requires name ctype) s = none_if _ _ (
      or_iff _ _
        (or_iff _ _ (empty_iff (clean name)) (rw (has_key-listed (clean name) s.requires) itself))
        itself)
  decorate-none_iff (requires_lock name) s = none_if _ _ (
      or_iff _ _ (or_iff _ _ (empty_iff (clean name)) itself)
        (rw (has_key-listed (clean name) s.requires) itself))
  decorate-none_iff (randarg name bit_width range choices) s =
      let unfit = random_variable-none_iff name bit_width range choices in
      elim (Option-cases (random_variable name bit_width range choices)) [
        | inl refused ↦ simp (refused, decorate) ((λ h. unfit.0 refused), λ h. refl)
        | inr (rv, made) ↦
            simp (made, decorate)
              ((λ h. cc), λ h. let wrong : some rv ≡ none = sym made ∙ unfit.1 h in cc)
      ]

  decorate_declares :
      (decorator : Decorator K V) (s : BaseSequence K V)
      → IsDeclared s
      → IsDeclaredIfSome (decorate decorator s)
  unfolding decorate add_randarg
  decorate_declares (requires name ctype) s d = add_requirement-IsDeclared name ctype s d
  decorate_declares (requires_lock name) s d = add_lock-IsDeclared name s d
  decorate_declares (randarg name bit_width range choices) s d =
      elim (Option-cases (random_variable name bit_width range choices)) [
        | inl refused ↦ simp (refused, decorate) tt
        | inr (rv, made) ↦
            simp (made, decorate)
              (record { requirements = d.requirements; lock_names = d.lock_names; apart = d.apart })
      ]

  -- On a sequence whose requirements and locks all have different names, a decorator raises exactly if
  -- the cleaned name of its requirement or lock is empty or is that of a requirement or lock of the
  -- sequence, or if its random argument has an empty name, a name with one of the refused suffixes,
  -- more than one method of randomisation, a bit width that is no positive integer, a range that is no
  -- pair of numbers, or choices that are no tuple or empty; if it does not raise, it leaves a sequence
  -- whose requirements and locks all have different names.
  pub decorate-IsDeclared :
      (decorator : Decorator K V) (s : BaseSequence K V)
      → IsDeclared s
      → ((decorate decorator s ≡ none) ↔ IsRefused decorator s)
        × IsDeclaredIfSome (decorate decorator s)
  decorate-IsDeclared decorator s d =
      (decorate-none_iff decorator s, decorate_declares decorator s d)

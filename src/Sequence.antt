-- ===== src/Sequence.antt =====
-- forastero/sequence.py, class BaseSequence: what decorators declare of a sequence, and how a call's
-- keyword arguments are matched with it.
--
-- `V` is the type of argument values and `K` that of component types; `isinstance` is an argument.
-- A dictionary is a list in the order of its keys. No value is None, which `randomise` takes for
-- an override that is not given. A component is its own proxy here, and a lock its name.
pub mod Refusals
pub mod Declare
pub mod Call
pub mod Registry
mod Examples
use forastero.Prelude.{
  ℕ, ◌+◌, List, [], ◌∷◌, ◌++◌, Option, none, some, Bool, true, false, ◌||◌, if◌then◌else◌, Eq,
  ◌=?=◌, text_eq, Text, text, strip, lower, underscores, ends_with, map, length, ◌==◌,
}
use forastero.RandomVariable.{
  SeqRandomVariable, Suffix, by_bit_width, by_range, by_choices, Draw, fixed, varnames, randomise,
  suffix_text,
}

pub record BaseSequence (K V : Type 0) : Type 0 where
  pub requires : List (Text × K)
  pub locks : List Text
  pub randargs : List (Text × SeqRandomVariable V)
  pub auto_lock : Bool

unfoldable pub has_key : {A : Type 0} → Text → List (Text × A) → Bool
has_key name [] = false
has_key name ((key, x) ∷ table) = key =?= name || has_key name table

unfoldable pub listed : Text → List Text → Bool
listed name [] = false
listed name (x ∷ xs) = x =?= name || listed name xs

unfoldable pub clean : Text → Text
clean name = underscores (lower (strip name))

-- `self._randargs[rv.name] = rv`.
unfoldable pub put :
    {V : Type 0}
    → Text
    → SeqRandomVariable V
    → List (Text × SeqRandomVariable V)
    → List (Text × SeqRandomVariable V)
put name rv [] = (name, rv) ∷ []
put name rv ((key, x) ∷ table) =
    let rest = put name rv table in if key =?= name then (key, rv) ∷ table else (key, x) ∷ rest

module _ {K V : Type 0} where
  unfoldable pub new : Bool → BaseSequence K V
  new auto_lock = record { requires = []; locks = []; randargs = []; auto_lock = auto_lock }

  -- `none` stands for an AssertionError, here and below.
  unfoldable pub add_requirement : Text → K → BaseSequence K V → Option (BaseSequence K V)
  add_requirement req_name req_type s =
      let name = clean req_name in
      if length name == 0 || has_key name s.requires || listed name s.locks
      then none
      else some (record s { requires = s.requires ++ (name, req_type) ∷ [] })

  unfoldable pub add_lock : Text → BaseSequence K V → Option (BaseSequence K V)
  add_lock lock_name s =
      let name = clean lock_name in
      if length name == 0 || listed name s.locks || has_key name s.requires
      then none
      else some (record s { locks = s.locks ++ name ∷ [] })

  unfoldable pub add_randarg : SeqRandomVariable V → BaseSequence K V → BaseSequence K V
  add_randarg rv s = record s { randargs = put rv.name rv s.randargs }

abbrev pub Kwds : Type 0 → Type 0
Kwds V = List (Text × V)

-- Why a call raises.
pub data CallError : Type 0 where
  no_component wrong_type several_overrides : CallError

pub data Result (A : Type 0) : Type 0 where
  ok : A → Result A
  raise : CallError → Result A

-- The `for` loop over the suffixes: the override mode, if there is one.
unfoldable pub mode_of : Text → Option Suffix
mode_of name =
    if ends_with name (text "_" ++ suffix_text by_bit_width)
    then some by_bit_width
    else if ends_with name (text "_" ++ suffix_text by_range)
    then some by_range
    else if ends_with name (text "_" ++ suffix_text by_choices)
    then some by_choices
    else none

module _ {V : Type 0} where
  unfoldable pub lookup : Text → Kwds V → Option V
  lookup name [] = none
  lookup name ((key, v) ∷ kwds) = if key =?= name then some v else lookup name kwds

  -- `del kwds[name]`.
  unfoldable pub delete : Text → Kwds V → Kwds V
  delete name [] = []
  delete name ((key, v) ∷ kwds) =
      let rest = delete name kwds in if key =?= name then kwds else (key, v) ∷ rest

  -- The list `overrides` of a random argument.
  unfoldable pub overrides_of : List Text → Kwds V → Kwds V
  overrides_of names [] = []
  overrides_of names ((key, v) ∷ kwds) =
      let rest = overrides_of names kwds in if listed key names then (key, v) ∷ rest else rest

  unfoldable pub overridden : Option Suffix → V → SeqRandomVariable V → Draw V
  overridden none v rv = fixed v
  overridden (some sfx) v rv = randomise (some (sfx, v)) rv

-- What becomes of a random argument, with the override that it uses up.
pub data Choice (V : Type 0) : Type 0 where
  drawn : Draw V → Kwds V → Choice V
  conflict : Choice V

pub record Matched (V : Type 0) : Type 0 where
  pub components : Kwds V
  pub draws : List (Text × Draw V)
  pub overrides : Kwds V
  pub left : Kwds V

-- The keyword arguments that the sequencing function is called with, and whether in a lock context.
pub record Launch (V : Type 0) : Type 0 where
  pub components : Kwds V
  pub locks : List Text
  pub arguments : List (Text × Draw V)
  pub locked : Bool

module _ {V : Type 0} where
  unfoldable pub choose : Kwds V → SeqRandomVariable V → Choice V
  choose [] rv = drawn (randomise none rv) []
  choose ((o_name, o_val) ∷ []) rv =
      drawn (overridden (mode_of o_name) o_val rv) ((o_name, o_val) ∷ [])
  choose (_ ∷ _ ∷ _) rv = conflict

  unfoldable pub delete_all : Kwds V → Kwds V → Kwds V
  delete_all [] kwds = kwds
  delete_all ((key, v) ∷ used) kwds = delete_all used (delete key kwds)

  abbrev pub with_draw : Text → Draw V → Kwds V → Result (Matched V) → Result (Matched V)
  with_draw name d used (ok m) =
      ok (record m { draws = (name, d) ∷ m.draws; overrides = used ++ m.overrides })
  with_draw name d used (raise e) = raise e

  abbrev pub with_component : Text → V → Result (Matched V) → Result (Matched V)
  with_component name v (ok m) = ok (record m { components = (name, v) ∷ m.components })
  with_component name v (raise e) = raise e

  -- The loop over the random arguments.
  unfoldable pub take_randargs : List (Text × SeqRandomVariable V) → Kwds V → Result (Matched V)
  take_randargs [] kwds = ok (record { components = []; draws = []; overrides = []; left = kwds })
  take_randargs ((name, rv) ∷ randargs) kwds = elim (choose (overrides_of (varnames rv) kwds) rv) [
    | drawn d used ↦ with_draw name d used (take_randargs randargs (delete_all used kwds))
    | conflict ↦ raise several_overrides
  ]

module _ {K V : Type 0} (isinstance : K → V → Bool) where
  -- The loop over the requirements, and what follows it.
  unfoldable pub take_components :
      List (Text × K) → List (Text × SeqRandomVariable V) → Kwds V → Result (Matched V)
  take_components [] randargs kwds = take_randargs randargs kwds
  take_components ((name, ctype) ∷ requires) randargs kwds = elim (lookup name kwds) [
    | none ↦ raise no_component
    | some v ↦
        let rest = take_components requires randargs (delete name kwds) in
        if isinstance ctype v then with_component name v rest else raise wrong_type
  ]

  unfoldable pub launch : BaseSequence K V → Result (Matched V) → Result (Launch V)
  launch s (raise e) = raise e
  launch s (ok m) = ok (record {
    components = m.components;
    locks = s.locks;
    arguments = m.draws ++ map (λ (p : Text × V). (p.0, fixed p.1)) m.left;
    locked = s.auto_lock;
  })

  -- `__call__`, up to the call of the sequencing function.
  unfoldable pub call : BaseSequence K V → Kwds V → Result (Launch V)
  call s kwds = launch s (take_components s.requires s.randargs kwds)

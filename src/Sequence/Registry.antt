-- ===== src/Sequence/Registry.antt =====
-- forastero/sequence.py, BaseSequence.REGISTRY, its constructor and `register`, and the decorators
-- `sequence`, `requires` and `randarg` on sequencing functions.
--
-- A sequencing function is known by its `id`, and the BaseSequence that wraps it by that of its
-- function. `none` stands for an exception.
use mathlib.Core.Option
use forastero.Prelude.{
  ℤ, ℕ, ◌≡◌, ◌≢◌, refl, List, [], ◌∷◌, ◌++◌, Option, none, some, Bool, false, if◌then◌else◌, ◌==◌,
  Text, Option-cases, inl, inr, arith,
}
use forastero.RandomVariable.{SeqRandomVariable, Given, random_variable}
use forastero.Sequence
use forastero.Sequence.{BaseSequence, add_requirement, add_lock, add_randarg}

-- What a decorator is put on.
pub data Target : Type 0 where
  function : ℕ → Target
  wrapped : ℕ → Target

infixl 5 ◌>>=◌
abbrev ◌>>=◌ {ℓ κ} : {A : Type ℓ} {B : Type κ} → Option A → (A → Option B) → Option B
none >>= f = none
some x >>= f = f x

abbrev pub Registry : Type 0 → Type 0 → Type 0
Registry K V = List (ℕ × BaseSequence K V)

module _ {K V : Type 0} where
  unfoldable pub find : ℕ → Registry K V → Option (BaseSequence K V)
  find fn [] = none
  find fn ((key, s) ∷ registry) = if key == fn then some s else find fn registry

  unfoldable pub make : ℕ → Bool → Registry K V → Option (Registry K V)
  make fn auto_lock registry = elim (find fn registry) [
    | some s ↦ none
    | none ↦ some (registry ++ (fn, Sequence.new auto_lock) ∷ [])
  ]

  -- `register(fn)`: the registry, and the function that the answered object wraps.
  unfoldable pub register : Target → Registry K V → Option (Registry K V × ℕ)
  register (wrapped fn) registry = some (registry, fn)
  register (function fn) registry = elim (find fn registry) [
    | some s ↦ some (registry, fn)
    | none ↦ Option.map (λ grown. (grown, fn)) (make fn false registry)
  ]

  -- The object is changed in place.
  unfoldable pub change :
      ℕ → (BaseSequence K V → Option (BaseSequence K V)) → Registry K V → Option (Registry K V)
  change fn f [] = none
  change fn f ((key, s) ∷ registry) =
      let later = change fn f registry in
      if key == fn
      then Option.map (λ s'. (key, s') ∷ registry) (f s)
      else Option.map (λ registry'. (key, s) ∷ registry') later

  abbrev pub decorate_with :
      (BaseSequence K V → Option (BaseSequence K V))
      → Target
      → Registry K V
      → Option (Registry K V × ℕ)
  decorate_with f target registry = do
    registered ← register target registry
    changed ← change registered.1 f registered.0
    some (changed, registered.1)

  unfoldable pub sequence : Bool → Target → Registry K V → Option (Registry K V × ℕ)
  sequence auto_lock = decorate_with (λ s. some (record s { auto_lock = auto_lock }))

  unfoldable pub requires : Text → Option K → Target → Registry K V → Option (Registry K V × ℕ)
  requires req_name none = decorate_with (add_lock req_name)
  requires req_name (some req_type) = decorate_with (add_requirement req_name req_type)

  abbrev with_randarg : Option (SeqRandomVariable V) → BaseSequence K V → Option (BaseSequence K V)
  with_randarg none s = none
  with_randarg (some rv) s = some (add_randarg rv s)

  unfoldable pub randarg :
      Text
      → Option (Given ℤ)
      → Option (Given (V × V))
      → Option (Given (List V))
      → Target
      → Registry K V
      → Option (Registry K V × ℕ)
  randarg name bit_width range choices =
      decorate_with (with_randarg (random_variable name bit_width range choices))

  find-last :
      (fn n : ℕ) (s : BaseSequence K V) (registry : Registry K V)
      → find fn registry ≡ none
      → (find fn (registry ++ (fn, s) ∷ []) ≡ some s)
        × (n ≢ fn → find n (registry ++ (fn, s) ∷ []) ≡ find n registry)
  unfolding find
  find-last fn n s [] h = ground arith
  find-last fn n s ((key, x) ∷ registry) h = ground (arith, find-last fn n s registry)

  -- A sequencing function is wrapped once: registering it answers with an object for it, registering
  -- it again answers with the same object and changes nothing, and so does the first time when the
  -- function was known; the objects of other functions are as before.
  pub register_once :
      (fn n : ℕ) (registry : Registry K V)
      → n ≢ fn
      → (grown : Registry K V) × (s : BaseSequence K V) × (register (function fn) registry
          ≡ some (grown, fn))
        × (find fn grown ≡ some s)
        × (register (function fn) grown ≡ some (grown, fn))
        × (find fn registry ≡ some s → grown ≡ registry)
        × (find n grown ≡ find n registry)
  unfolding register make
  register_once fn n registry ne = elim (Option-cases (find fn registry)) [
    | inl fresh ↦
        let (there, others) = find-last fn n (Sequence.new false) registry fresh in
        (
          registry ++ (fn, Sequence.new false) ∷ [],
          Sequence.new false,
          simp (fresh, register, make) refl,
          there,
          simp (there, register) refl,
          (λ known. cc),
          others ne,
        )
    | inr (s, known) ↦ (
      registry,
      s,
      simp (known, register) refl,
      known,
      simp (known, register) refl,
      (λ h. refl),
      refl,
    )
  ]

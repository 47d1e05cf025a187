-- ===== src/Sequence/Call.antt =====
-- forastero/sequence.py, BaseSequence.__call__: what becomes of the keyword arguments.
use mathlib.Core.List.{Perm}
use mathlib.Core.List.Perm
use forastero.Prelude.{
  ◌≡◌, refl, sym, ap, subst, ◌∙◌, inl, inr, List, [], ◌∷◌, ◌++◌, append_assoc, Option, some, Bool,
  true, false, ◌||◌, if◌then◌else◌, ◌=?=◌, text_eq, Text, Bool-cases, Option-cases,
}
use forastero.RandomVariable.{SeqRandomVariable, Draw, varnames}
use forastero.Sequence.{
  Kwds, Result, ok, raise, Matched, drawn, conflict, lookup, delete, delete_all, overrides_of,
  listed, choose, take_randargs, take_components, with_draw, with_component, several_overrides,
}

abbrev pub names_of : {A : Type 0} → List (Text × A) → List Text
names_of [] = []
names_of ((name, x) ∷ table) = name ∷ names_of table

if_true : {A : Type 0} (b : Bool) (x y : A) → b ≡ true → (if b then x else y) ≡ x
if_true true x y h = refl
if_true false x y h = cc

if_false : {A : Type 0} (b : Bool) (x y : A) → b ≡ false → (if b then x else y) ≡ y
if_false false x y h = refl
if_false true x y h = cc

or_true : (a b : Bool) → b ≡ true → a || b ≡ true
or_true true b h = refl
or_true false b h = h

module _ {V : Type 0} where
  delete-Perm :
      (name : Text) (v : V) (kwds : Kwds V)
      → lookup name kwds ≡ some v
      → Perm ((name, v) ∷ delete name kwds) kwds
  unfolding lookup delete
  delete-Perm name v [] h = cc
  delete-Perm name v ((key, x) ∷ kwds) h = elim (Bool-cases (key =?= name)) [
    | inl same ↦
        let key-name : key ≡ name = (text_eq.beq_iff key name).0 same in
        let found : ◌≡◌ {A = Option V} (some x) (some v) = sym (if_true _ _ _ same) ∙ h in
        let x-v : x ≡ v = cc in
        subst (λ d. Perm ((name, v) ∷ d) ((key, x) ∷ kwds)) (sym (if_true _ kwds _ same))
          (subst (λ (p : Text × V). Perm (p ∷ kwds) ((key, x) ∷ kwds)) (λ i. (key-name i, x-v i))
            Perm.rfl)
    | inr other ↦
        subst (λ d. Perm ((name, v) ∷ d) ((key, x) ∷ kwds)) (sym (if_false _ kwds _ other))
          (Perm.trans (Perm.swap (key, x) (name, v) (delete name kwds))
            (Perm.cons (key, x) (delete-Perm name v kwds (sym (if_false _ _ _ other) ∙ h))))
  ]

  -- An override that is alone among its names is the first entry of its name.
  lookup-alone :
      (names : List Text) (name : Text) (v : V) (kwds : Kwds V)
      → overrides_of names kwds ≡ (name, v) ∷ []
      → (listed name names ≡ true) × (lookup name kwds ≡ some v)
  unfolding overrides_of lookup
  lookup-alone names name v [] h = cc
  lookup-alone names name v ((key, x) ∷ kwds) h = elim (Bool-cases (listed key names)) [
    | inl mine ↦
        let here : ◌≡◌ {A = Kwds V} ((key, x) ∷ overrides_of names kwds) ((name, v) ∷ []) =
          sym (if_true _ _ _ mine) ∙ h in
        let key-name : key ≡ name = cc in
        let x-v : x ≡ v = cc in
        (
          subst (λ k. listed k names ≡ true) key-name mine,
          if_true _ _ _ ((text_eq.beq_iff key name).1 key-name) ∙ ap some x-v,
        )
    | inr other ↦
        let (mine, there) = lookup-alone names name v kwds (sym (if_false _ _ _ other) ∙ h) in
        elim (Bool-cases (key =?= name)) [
          | inl same ↦
              let key-name : key ≡ name = (text_eq.beq_iff key name).0 same in
              let mine' : listed key names ≡ true =
                subst (λ k. listed k names ≡ true) (sym key-name) mine in
              cc
          | inr apart ↦ (mine, if_false _ _ _ apart ∙ there)
        ]
  ]

  -- Behind the loop over the random arguments: each has been drawn, and the keyword arguments are
  -- the overrides and those that are left.
  abbrev IsDrawn : List (Text × SeqRandomVariable V) → Kwds V → Result (Matched V) → Type 0
  IsDrawn randargs kwds (raise e) = Unit
  IsDrawn randargs kwds (ok m) =
      Perm (m.overrides ++ m.left) kwds
      × (m.components ≡ [])
      × (names_of m.draws ≡ names_of randargs)

  with_draw-IsDrawn :
      (name : Text) (rv : SeqRandomVariable V) (d : Draw V) (used : Kwds V)
      (randargs : List (Text × SeqRandomVariable V)) (kwds kwds' : Kwds V) (r : Result (Matched V))
      → Perm (used ++ kwds') kwds
      → IsDrawn randargs kwds' r
      → IsDrawn ((name, rv) ∷ randargs) kwds (with_draw name d used r)
  with_draw-IsDrawn name rv d used randargs kwds kwds' (raise e) p h = tt
  with_draw-IsDrawn name rv d used randargs kwds kwds' (ok m) p (perm, none_yet, drawn_names) = (
    Perm.trans
        (subst (λ l. Perm l (used ++ kwds')) (sym (append_assoc used m.overrides m.left))
          (Perm.append_left used perm))
        p,
    none_yet,
    ap (λ l. name ∷ l) drawn_names,
  )

  chosen-IsDrawn :
      (name : Text) (rv : SeqRandomVariable V) (randargs : List (Text × SeqRandomVariable V))
      (kwds found : Kwds V)
      → ((kwds' : Kwds V) → IsDrawn randargs kwds' (take_randargs randargs kwds'))
      → overrides_of (varnames rv) kwds ≡ found
      → IsDrawn ((name, rv) ∷ randargs) kwds (elim (choose found rv) [
        | drawn d used ↦ with_draw name d used (take_randargs randargs (delete_all used kwds))
        | conflict ↦ raise several_overrides
      ])
  unfolding choose delete_all
  chosen-IsDrawn name rv randargs kwds [] later h =
      with_draw-IsDrawn name rv _ [] randargs kwds kwds _ Perm.rfl (later kwds)
  chosen-IsDrawn name rv randargs kwds ((o_name, o_val) ∷ []) later h =
      with_draw-IsDrawn name rv _ ((o_name, o_val) ∷ []) randargs kwds (delete o_name kwds) _
        (delete-Perm o_name o_val kwds (lookup-alone (varnames rv) o_name o_val kwds h).1)
        (later (delete o_name kwds))
  chosen-IsDrawn name rv randargs kwds (_ ∷ _ ∷ _) later h = tt

  take_randargs-IsDrawn :
      (randargs : List (Text × SeqRandomVariable V)) (kwds : Kwds V)
      → IsDrawn randargs kwds (take_randargs randargs kwds)
  unfolding take_randargs
  take_randargs-IsDrawn [] kwds = (Perm.rfl, refl, refl)
  take_randargs-IsDrawn ((name, rv) ∷ randargs) kwds =
      chosen-IsDrawn name rv randargs kwds _ (take_randargs-IsDrawn randargs) refl

module _ {K V : Type 0} (isinstance : K → V → Bool) where
  -- Each keyword argument of an accepted call goes to one place, and each requirement and each random
  -- argument is met.
  abbrev pub IsMatched :
      List (Text × K) → List (Text × SeqRandomVariable V) → Kwds V → Result (Matched V) → Type 0
  IsMatched requires randargs kwds (raise e) = Unit
  IsMatched requires randargs kwds (ok m) =
      Perm (m.components ++ (m.overrides ++ m.left)) kwds
      × (names_of m.components ≡ names_of requires)
      × (names_of m.draws ≡ names_of randargs)

  with_component-IsMatched :
      (name : Text) (ctype : K) (v : V) (requires : List (Text × K))
      (randargs : List (Text × SeqRandomVariable V)) (kwds : Kwds V) (r : Result (Matched V))
      → lookup name kwds ≡ some v
      → IsMatched requires randargs (delete name kwds) r
      → IsMatched ((name, ctype) ∷ requires) randargs kwds (with_component name v r)
  with_component-IsMatched name ctype v requires randargs kwds (raise e) there h = tt
  with_component-IsMatched name ctype v requires randargs kwds (ok m) there (perm, comps, draws) = (
    Perm.trans (Perm.cons (name, v) perm) (delete-Perm name v kwds there),
    ap (λ l. name ∷ l) comps,
    draws,
  )

  drawn-IsMatched :
      (randargs : List (Text × SeqRandomVariable V)) (kwds : Kwds V) (r : Result (Matched V))
      → IsDrawn randargs kwds r
      → IsMatched [] randargs kwds r
  drawn-IsMatched randargs kwds (raise e) h = tt
  drawn-IsMatched randargs kwds (ok m) (perm, none_yet, drawn_names) = (
    subst (λ l. Perm (l ++ (m.overrides ++ m.left)) kwds) (sym none_yet) perm,
    ap names_of none_yet,
    drawn_names,
  )

  -- The matching of a call's keyword arguments with what the decorators declared, if it raises no
  -- exception: each requirement is given one component, in order; each random argument is drawn, in
  -- order; and the keyword arguments are, up to order, the components, the overrides that
  -- were used and those that are passed on, so none is lost and none is used twice.
  pub take_components-IsMatched :
      (requires : List (Text × K)) (randargs : List (Text × SeqRandomVariable V)) (kwds : Kwds V)
      → IsMatched requires randargs kwds (take_components isinstance requires randargs kwds)
  unfolding take_components
  take_components-IsMatched [] randargs kwds =
      drawn-IsMatched randargs kwds _ (take_randargs-IsDrawn randargs kwds)
  take_components-IsMatched ((name, ctype) ∷ requires) randargs kwds =
      elim (Option-cases (lookup name kwds)) [
        | inl missing ↦ simp (missing, take_components) tt
        | inr (v, there) ↦ elim (Bool-cases (isinstance ctype v)) [
          | inl fits ↦
              simp (there, fits, take_components)
                (with_component-IsMatched name ctype v requires randargs kwds _ there
                  (take_components-IsMatched requires randargs (delete name kwds)))
          | inr other ↦ simp (there, other, take_components) tt
        ]
      ]

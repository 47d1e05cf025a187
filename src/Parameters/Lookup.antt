-- ===== src/Parameters/Lookup.antt =====
-- forastero/bench.py, BaseBench.get_parameter: which entry of the file a name reads.
use mathlib.Mathlib.Data.List.Basic.{map-reverse_aux}
use forastero.Prelude.{
  ℕ, ◌+◌, ◌≡◌, refl, sym, ◌∙◌, [], ◌∷◌, Option, none, some, arith, reverse, if◌then◌else◌, ◌=?=◌,
  text_eq, Text, strip, lower, leb, ◌&&◌, is_space, strip_left, Bool-cases, inl, inr,
}
use forastero.Prelude.Dicts.{lookup, insert, lookup-insert}
use forastero.Parameters.{Value, Dict, contents, override, parse_parameters, get_parameter, or_else}

abbrev small : ℕ → ℕ
small c = if leb 65 c && leb c 90 then c + 32 else c

is_space-small : (c : ℕ) → is_space (small c) ≡ is_space c
is_space-small c = ground arith

strip_left-lower : (s : Text) → strip_left (lower s) ≡ lower (strip_left s)
strip_left-lower [] = refl
strip_left-lower (c ∷ s) = elim (Bool-cases (is_space c)) [
  | inl space ↦ rw (is_space-small c, space) (strip_left-lower s)
  | inr letter ↦ rw (is_space-small c, letter) refl
]

reverse-lower : (s : Text) → reverse (lower s) ≡ lower (reverse s)
reverse-lower s = sym (map-reverse_aux small s [])

pub strip-lower : (s : Text) → strip (lower s) ≡ lower (strip s)
strip-lower s = rw (strip_left-lower s, reverse-lower, strip_left-lower, reverse-lower) refl

-- The last entry of a file whose name, without outer white space and in lower case, is `name`.
pub last_named : {V : Type 0} → Text → Dict V → Option (Value V)
last_named name [] = none
last_named name ((key, value) ∷ entries) =
    let later = last_named name entries in
    elim later [ some v ↦ some v | none ↦ if lower (strip key) =?= name then some value else none ]

abbrev pub either : {V : Type 0} → Option (Value V) → Option (Value V) → Option (Value V)
either none o = o
either (some v) o = some v

module _ {V : Type 0} where
  last-cons :
      (name key : Text) (value : Value V) (entries : Dict V) (o : Option (Value V))
      → either (last_named name ((key, value) ∷ entries)) o
        ≡ either (last_named name entries) (if lower (strip key) =?= name then some value else o)
  unfolding last_named
  last-cons name key value entries o = ground arith

  lookup-override :
      (name : Text) (entries parameters : Dict V)
      → lookup name (override entries parameters)
        ≡ either (last_named name entries) (lookup name parameters)
  unfolding override
  lookup-override name [] parameters = (unfold last_named in refl)
  lookup-override name ((key, value) ∷ entries) parameters =
      lookup-override name entries (insert (strip (lower key)) value parameters)
      ∙ rw (lookup-insert, strip-lower key) (sym (last-cons name key value entries _))

  -- Reading a parameter gives the value of the last entry of the file whose name is the same up to
  -- case and outer white space; without one the default of the testbench under that name in lower
  -- case; and without that the default of the call.
  pub get_parameter-last_named :
      (defaults entries : Dict V) (name : Text) (default : Value V)
      → get_parameter defaults (contents entries) name default
        ≡ some (
            or_else default (
              either
                (last_named (lower (strip name)) entries)
                (lookup (lower (strip name)) defaults)))
  unfolding get_parameter parse_parameters
  get_parameter-last_named defaults entries name default =
      rw (lookup-override (lower (strip name)) entries defaults) refl

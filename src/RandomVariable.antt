-- ===== src/RandomVariable.antt =====
-- forastero/sequence.py, class SeqRandomVariable: an argument that is drawn at random.
--
-- `V` is the type of argument values. What a random generator draws is a `Draw`, which says how it
-- is drawn. `none` stands for an AssertionError.
use forastero.Prelude.{
  ℤ, pos, negsuc, ℕ, zero, suc, ◌+◌, List, [], ◌∷◌, ◌++◌, Option, none, some, Bool, true, false,
  ◌||◌, if◌then◌else◌, text_eq, Text, text, strip, underscores, ends_with, length, ltb, ◌==◌,
}

-- SeqRandomVariable.SUFFIXES.
pub data Suffix : Type 0 where
  by_bit_width by_range by_choices : Suffix

unfoldable pub suffix_text : Suffix → Text
suffix_text by_bit_width = text "bit_width"
suffix_text by_range = text "range"
suffix_text by_choices = text "choices"

unfoldable pub suffixed : Text → Suffix → Text
suffixed name sfx = name ++ (text "_" ++ suffix_text sfx)

-- At most one of the three is given.
pub record SeqRandomVariable (V : Type 0) : Type 0 where
  pub name : Text
  pub bit_width : Option ℕ
  pub range : Option (V × V)
  pub choices : Option (List V)

pub data Draw (V : Type 0) : Type 0 where
  bits : ℕ → Draw V
  between : V → V → Draw V
  list_of_one : List V → Draw V
  given : Suffix → V → Draw V
  fixed : V → Draw V
  no_method : Draw V

abbrev pub given_count : {A : Type 0} → Option A → ℕ
given_count none = 0
given_count (some _) = 1

-- What is given as an argument: a value of the type that the assertions ask for, or another.
pub data Given (A : Type 0) : Type 0 where
  of_type : A → Given A
  of_other_type : Given A

-- The assertions on the three methods do not hold.
abbrev pub bad_bit_width : Option (Given ℤ) → Bool
bad_bit_width none = false
bad_bit_width (some (of_type (pos zero))) = true
bad_bit_width (some (of_type (pos (suc n)))) = false
bad_bit_width (some (of_type (negsuc n))) = true
bad_bit_width (some of_other_type) = true

abbrev pub bad_range : {A : Type 0} → Option (Given A) → Bool
bad_range none = false
bad_range (some (of_type ends)) = false
bad_range (some of_other_type) = true

abbrev pub bad_choices : {A : Type 0} → Option (Given (List A)) → Bool
bad_choices none = false
bad_choices (some (of_type [])) = true
bad_choices (some (of_type (x ∷ xs))) = false
bad_choices (some of_other_type) = true

-- What is kept of them behind the assertions.
abbrev bit_width_of : Option (Given ℤ) → Option ℕ
bit_width_of (some (of_type (pos n))) = some n
bit_width_of _ = none

abbrev kept : {A : Type 0} → Option (Given A) → Option A
kept (some (of_type x)) = some x
kept _ = none

module _ {V : Type 0} where
  -- The constructor.
  unfoldable pub random_variable :
      Text
      → Option (Given ℤ)
      → Option (Given (V × V))
      → Option (Given (List V))
      → Option (SeqRandomVariable V)
  random_variable name bit_width range choices =
      if length name == 0
        || (ends_with name (text "_bitwidth")
            || (ends_with name (text "_range")
                || (ends_with name (text "_choices")
                    || (ltb 1 (given_count bit_width + given_count range + given_count choices)
                        || (bad_bit_width bit_width || (bad_range range || bad_choices choices))))))
      then none
      else some (record {
        name = underscores (strip name);
        bit_width = bit_width_of bit_width;
        range = kept range;
        choices = kept choices;
      })

  unfoldable pub varnames : SeqRandomVariable V → List Text
  varnames rv =
      rv.name
      ∷ suffixed rv.name by_bit_width
      ∷ suffixed rv.name by_range
      ∷ suffixed rv.name by_choices
      ∷ []

  -- `randomise` without an override.
  unfoldable pub default_draw : Option ℕ → Option (V × V) → Option (List V) → Draw V
  default_draw (some n) range choices = bits n
  default_draw none (some (a, b)) choices = between a b
  default_draw none none (some choices) = list_of_one choices
  default_draw none none none = no_method

  unfoldable pub randomise : Option (Suffix × V) → SeqRandomVariable V → Draw V
  randomise (some (sfx, v)) rv = given sfx v
  randomise none rv = default_draw rv.bit_width rv.range rv.choices

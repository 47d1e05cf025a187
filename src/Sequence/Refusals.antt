-- ===== src/Sequence/Refusals.antt =====
-- forastero/sequence.py: what the assertions of SeqRandomVariable's constructor, of `add_requirement`
-- and of `add_lock` refuse.
use forastero.Prelude.{
  ℤ, pos, negsuc, ℕ, zero, suc, ◌+◌, ◌<◌, ◌≡◌, ◌↔◌, ◌⊎◌, inl, inr, refl, List, [], ◌∷◌, Option,
  none, some, Bool, true, false, ◌||◌, if◌then◌else◌, text_eq, Text, text, ends_with, length, ltb,
  ◌==◌, arith,
}
use forastero.RandomVariable.{
  Given, of_type, of_other_type, random_variable, given_count, bad_bit_width, bad_range,
  bad_choices,
}
use forastero.Sequence.{listed}

-- A cleaned name is empty, or is there already.
abbrev pub IsTaken : Text → List Text → List Text → Type 0
IsTaken name first second = ((name ≡ []) ⊎ (listed name first ≡ true)) ⊎ (listed name second ≡ true)

-- A test is true exactly if what it tests holds.
pub or_iff :
    {P Q : Type 0} (a b : Bool) → (a ≡ true) ↔ P → (b ≡ true) ↔ Q → (a || b ≡ true) ↔ (P ⊎ Q)
or_iff true b f g = ((λ h. inl (f.0 refl)), λ h. refl)
or_iff false b f g = (
  (λ h. inr (g.0 h)),
  λ h. elim h [ inl p ↦ let wrong : false ≡ true = f.1 p in cc | inr q ↦ g.1 q ],
)

pub itself : {P : Type 0} → P ↔ P
itself = ((λ h. h), λ h. h)

pub empty_iff : {A : Type 0} (xs : List A) → ((length xs == 0) ≡ true) ↔ (xs ≡ [])
empty_iff [] = ((λ h. refl), λ h. refl)
empty_iff (x ∷ xs) = ((λ h. absurd (ground arith)), λ h. cc)

more_iff : (n : ℕ) → (ltb 1 n ≡ true) ↔ (1 < n)
more_iff n = (ground arith, ground arith)

-- No positive integer.
abbrev pub IsBadWidth : Option (Given ℤ) → Type 0
IsBadWidth bit_width =
    (bit_width ≡ some (of_type (pos 0)))
    ⊎ ((n : ℕ) × (bit_width ≡ some (of_type (negsuc n))))
    ⊎ (bit_width ≡ some of_other_type)

bad_bit_width_iff :
    (bit_width : Option (Given ℤ)) → (bad_bit_width bit_width ≡ true) ↔ IsBadWidth bit_width
bad_bit_width_iff none =
    ((λ h. cc), λ h. elim h [ inl e ↦ cc | inr (inl (n, e)) ↦ cc | inr (inr e) ↦ cc ])
bad_bit_width_iff (some (of_type (pos zero))) = ((λ h. inl refl), λ h. refl)
bad_bit_width_iff (some (of_type (pos (suc n)))) = (
  (λ h. cc),
  λ h. elim h [ inl e ↦ absurd (ground arith) | inr (inl (m, e)) ↦ cc | inr (inr e) ↦ cc ],
)
bad_bit_width_iff (some (of_type (negsuc n))) = ((λ h. inr (inl (n, refl))), λ h. refl)
bad_bit_width_iff (some of_other_type) = ((λ h. inr (inr refl)), λ h. refl)

bad_range_iff :
    {A : Type 0} (range : Option (Given A))
    → (bad_range range ≡ true) ↔ (range ≡ some of_other_type)
bad_range_iff none = ((λ h. cc), λ h. cc)
bad_range_iff (some (of_type ends)) = ((λ h. cc), λ h. cc)
bad_range_iff (some of_other_type) = ((λ h. refl), λ h. refl)

bad_choices_iff :
    {A : Type 0} (choices : Option (Given (List A)))
    → (bad_choices choices ≡ true)
      ↔ ((choices ≡ some (of_type [])) ⊎ (choices ≡ some of_other_type))
bad_choices_iff none = ((λ h. cc), λ h. elim h [ inl e ↦ cc | inr e ↦ cc ])
bad_choices_iff (some (of_type [])) = ((λ h. inl refl), λ h. refl)
bad_choices_iff (some (of_type (x ∷ xs))) = ((λ h. cc), λ h. elim h [ inl e ↦ cc | inr e ↦ cc ])
bad_choices_iff (some of_other_type) = ((λ h. inr refl), λ h. refl)

pub none_if :
    {A P : Type 0} (b : Bool) (x : A) → (b ≡ true) ↔ P → ((if b then none else some x) ≡ none) ↔ P
none_if true x f = ((λ h. f.0 refl), λ h. refl)
none_if false x f = ((λ h. cc), λ p. let wrong : false ≡ true = f.1 p in cc)

module _ {V : Type 0} where
  -- What the constructor of SeqRandomVariable asserts does not hold.
  abbrev pub IsUnfit :
      Text → Option (Given ℤ) → Option (Given (V × V)) → Option (Given (List V)) → Type 0
  IsUnfit name bit_width range choices =
      (name ≡ [])
      ⊎ (ends_with name (text "_bitwidth") ≡ true)
      ⊎ (ends_with name (text "_range") ≡ true)
      ⊎ (ends_with name (text "_choices") ≡ true)
      ⊎ (1 < given_count bit_width + given_count range + given_count choices)
      ⊎ IsBadWidth bit_width
      ⊎ (range ≡ some of_other_type)
      ⊎ ((choices ≡ some (of_type [])) ⊎ (choices ≡ some of_other_type))

  pub random_variable-none_iff :
      (name : Text) (bit_width : Option (Given ℤ)) (range : Option (Given (V × V)))
      (choices : Option (Given (List V)))
      → (random_variable name bit_width range choices ≡ none) ↔ IsUnfit name bit_width range choices
  unfolding random_variable
  random_variable-none_iff name bit_width range choices = none_if _ _ (
      or_iff _ _ (empty_iff name) (
        or_iff _ _ itself (
          or_iff _ _ itself (
            or_iff _ _ itself (
              or_iff _ _ (more_iff _) (
                or_iff _ _ (bad_bit_width_iff bit_width)
                  (or_iff _ _ (bad_range_iff range) (bad_choices_iff choices))))))))

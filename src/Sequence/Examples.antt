-- ===== src/Sequence/Examples.antt =====
-- A small sequence, and the theorems about it at concrete inputs.
use forastero.Prelude.{ℕ, ◌≡◌, ◌↔◌, refl, [], ◌∷◌, none, some, true, text, ◌==◌, text_eq}
use forastero.RandomVariable
use forastero.RandomVariable.{
  SeqRandomVariable, by_range, by_bit_width, bits, given, fixed, random_variable,
}
use forastero.Sequence
use forastero.Sequence.{
  BaseSequence, Kwds, Result, ok, raise, several_overrides, Launch, new, call, take_components,
}
use forastero.Sequence.Declare.{
  requires_lock, decorate, IsDeclaredIfSome, IsRefused, decorate-IsDeclared,
}
use forastero.Sequence.Call.{IsMatched, take_components-IsMatched}

program : Unit {0}
unfolding new call take_components Sequence.launch Sequence.take_randargs Sequence.choose
    Sequence.delete_all Sequence.delete Sequence.lookup Sequence.overrides_of Sequence.listed
    Sequence.mode_of Sequence.overridden Sequence.has_key Sequence.clean Sequence.add_requirement
    Sequence.add_lock Sequence.add_randarg Sequence.put decorate RandomVariable.random_variable
    RandomVariable.varnames RandomVariable.suffixed RandomVariable.suffix_text
    RandomVariable.randomise RandomVariable.default_draw
program = tt

abbrev length_of_burst : SeqRandomVariable ℕ
length_of_burst = record { name = text "burst"; bit_width = some 4; range = none; choices = none }

-- A component is its number, and its type is that number again.
abbrev burst_sequence : BaseSequence ℕ ℕ
burst_sequence = record {
  requires = (text "driver", 1) ∷ [];
  locks = text "irq" ∷ [];
  randargs = (text "burst", length_of_burst) ∷ [];
  auto_lock = true;
}

abbrev kwds : Kwds ℕ
kwds = (text "extra", 9) ∷ (text "burst_range", 5) ∷ (text "driver", 1) ∷ []

run_call :
    call (λ ctype v. ctype == v) burst_sequence kwds
    ≡ ok (record {
      components = (text "driver", 1) ∷ [];
      locks = text "irq" ∷ [];
      arguments = (text "burst", given by_range 5) ∷ (text "extra", fixed 9) ∷ [];
      locked = true;
    })
unfolding program
run_call = refl

run_two_overrides :
    call
      (λ ctype v. ctype == v)
      burst_sequence
      ((text "driver", 1) ∷ (text "burst", 3) ∷ (text "burst_range", 5) ∷ [])
    ≡ raise several_overrides
unfolding program
run_two_overrides = refl

-- The constructor refuses the suffix without its second underscore only.
run_bit_width_name :
    random_variable {V = ℕ} (text "size_bit_width") none none none
    ≡ some (record { name = text "size_bit_width"; bit_width = none; range = none; choices = none })
unfolding program
run_bit_width_name = refl

-- The cleaned name is taken by a requirement.
run_clash : decorate (requires_lock (text " Driver ")) burst_sequence ≡ none
unfolding program
run_clash = refl

take_components-IsMatched_example :
    IsMatched
      (λ ctype v. ctype == v)
      burst_sequence.requires
      burst_sequence.randargs
      kwds
      (take_components (λ ctype v. ctype == v) burst_sequence.requires burst_sequence.randargs kwds)
take_components-IsMatched_example =
    take_components-IsMatched (λ ctype v. ctype == v) burst_sequence.requires
      burst_sequence.randargs kwds

decorate-IsDeclared_example :
    ((decorate (requires_lock (text "Bus Lock")) (new {K = ℕ} {V = ℕ} true) ≡ none)
      ↔ IsRefused (requires_lock (text "Bus Lock")) (new {K = ℕ} {V = ℕ} true))
    × IsDeclaredIfSome (decorate (requires_lock (text "Bus Lock")) (new {K = ℕ} {V = ℕ} true))
unfolding program
decorate-IsDeclared_example =
    decorate-IsDeclared (requires_lock (text "Bus Lock")) (new true)
      (record { requirements = tt; lock_names = tt; apart = λ n there. refl })

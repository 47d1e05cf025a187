-- ===== src/Parameters/Examples.antt =====
-- The parameters of a small file, and the theorem's reading of them.
use forastero.Prelude.{◌≡◌, refl, [], ◌∷◌, none, some, true, false, text, text_eq, ℕ, lower, strip}
use forastero.Prelude.Dicts
use forastero.Prelude.Dicts.{lookup}
use forastero.Parameters
use forastero.Parameters.{
  Dict, File, not_given, missing, contents, null, boolean, int, get_parameter, param_defaults,
  strtobool, or_else,
}
use forastero.Parameters.Lookup.{get_parameter-last_named, last_named, either}

program : Unit {0}
unfolding get_parameter Parameters.parse_parameters Parameters.override param_defaults strtobool
    Parameters.one_of Dicts.lookup Dicts.insert
program = tt

abbrev file : Dict ℕ
file = (text " Seed", int 3) ∷ (text "SEED ", int 5) ∷ (text "profiling", null) ∷ []

abbrev defaults : Dict ℕ
defaults = param_defaults none

run_last : get_parameter defaults (contents file) (text "seed") (int 0) ≡ some (int 5)
unfolding program
run_last = refl

-- A value of null is not replaced by the default of the call.
run_null : get_parameter defaults (contents file) (text "Profiling") (int 9) ≡ some null
unfolding program
run_null = refl

run_unknown : get_parameter defaults (contents file) (text "other") (int 9) ≡ some (int 9)
unfolding program
run_unknown = refl

run_no_file : get_parameter defaults not_given (text "fail_fast") null ≡ some (boolean false)
unfolding program
run_no_file = refl

run_missing : get_parameter defaults missing (text "seed") null ≡ none
unfolding program
run_missing = refl

run_true : strtobool (text " On ") ≡ some true
unfolding program
run_true = refl

run_invalid : strtobool (text "2") ≡ none
unfolding program
run_invalid = refl

get_parameter-last_named_example :
    get_parameter defaults (contents file) (text " Seed") (int 0)
    ≡ some (
        or_else (int 0) (
          either
            (last_named (lower (strip (text " Seed"))) file)
            (lookup (lower (strip (text " Seed"))) defaults)))
get_parameter-last_named_example = get_parameter-last_named defaults file (text " Seed") (int 0)

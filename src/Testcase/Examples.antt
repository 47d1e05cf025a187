-- ===== src/Testcase/Examples.antt =====
-- Testcases with listed parameters, and the theorems at concrete inputs.
use mathlib.Core.Option
use forastero.Prelude.{
  ◌≡◌, refl, [], ◌∷◌, Option, none, some, Bool, true, false, Text, text, text_eq, ℕ, ◌+◌, ◌-◌, map,
  arith, All, ◌==◌,
}
use forastero.Prelude.Dicts
use forastero.Parameters
use forastero.Parameters.{
  Value, Dict, null, boolean, int, string, array, object, other, nil, cons, end, field, strtobool,
}
use forastero.Testcase
use forastero.Testcase.{
  Required, to_str, to_bool, to_other, testcase, resolve, permutations, parameter, Declared,
  attributes, returned, Test,
}
use forastero.Testcase.Variants.{count_if, all_pass, ways, permutations-count}
use forastero.Testcase.Names.{Distinct}
use forastero.Testcase.Register.{tests_of, test_names, testcase-tests}

program : Unit {0}
unfolding testcase resolve permutations parameter Testcase.fetch Testcase.cast_value
    Testcase.take_param Testcase.choices Testcase.with_each Testcase.product Testcase.zip
    Testcase.labels Testcase.reduce Testcase.joined Testcase.params_name Testcase.make_test
    Testcase.set_attributes Testcase.declare_tests Dicts.lookup Dicts.insert strtobool
    Parameters.one_of
program = tt

abbrev show : Value ℕ → Text
show (string s) = s
show (int n) = (n + 48) ∷ []
show (boolean true) = text "True"
show (boolean false) = text "False"
show _ = []

-- `int` on a text of one digit.
abbrev digit : Text → Option (Value ℕ)
digit (c ∷ []) = some (int (c - 48))
digit _ = none

abbrev required : Required ℕ
required = (text "packets", to_other digit) ∷ (text "fast", to_bool) ∷ (text "delay", to_str) ∷ []

abbrev raw : Value ℕ
raw = object (
    field (text "packets") (array (cons (int 1) (cons (int 2) nil))) (
      field (text "random.fast") (string (text "yes"))
        (field (text "fast") (string (text "no")) end)))

-- The entry of the testcase comes before the plain one, and a parameter without a value is left out.
run_resolve :
    resolve raw (text "random") required []
    ≡ some (
        (text "packets", array (cons (int 1) (cons (int 2) nil)))
        ∷ (text "fast", boolean true)
        ∷ [])
unfolding program
run_resolve = refl

abbrev params : Dict ℕ
params =
    (text "packets", array (cons (int 1) (cons (int 2) nil))) ∷ (text "fast", boolean true) ∷ []

run_names :
    Option.map
      (λ (d : Declared ℕ). test_names (tests_of d))
      (testcase show raw (text "random") required)
    ≡ some (text "random_packets_1_fast_True" ∷ text "random_packets_2_fast_True" ∷ [])
unfolding program
run_names = refl

-- Without a list there is one test, under the function's own name.
run_single :
    Option.map
      (λ (d : Declared ℕ). test_names (tests_of d))
      (testcase show (object end) (text "smoke") required)
    ≡ some (text "smoke" ∷ [])
unfolding program
run_single = refl

-- An empty list leaves no test at all.
run_empty :
    Option.map
      (λ (d : Declared ℕ). test_names (tests_of d))
      (testcase show (object (field (text "delay") (array nil) end)) (text "smoke") required)
    ≡ some []
unfolding program
run_empty = refl

-- Values with "_" give two permutations one name, and the later test replaces the earlier.
run_replaced :
    Option.map
      (λ (d : Declared ℕ). map (λ (t : Test ℕ). t.params) (tests_of d))
      (testcase show
        (object (
          field (text "a") (array (cons (string (text "1")) (cons (string (text "1_b_2")) nil))) (
            field
              (text "b")
              (array (cons (string (text "2_b_3")) (cons (string (text "3")) nil)))
              end)))
        (text "f")
        ((text "a", to_str) ∷ (text "b", to_str) ∷ []))
    ≡ some (
        ((text "a", string (text "1_b_2")) ∷ (text "b", string (text "3")) ∷ [])
        ∷ ((text "a", string (text "1")) ∷ (text "b", string (text "3")) ∷ [])
        ∷ ((text "a", string (text "1_b_2")) ∷ (text "b", string (text "2_b_3")) ∷ [])
        ∷ [])
unfolding program
run_replaced = refl

abbrev fast_one : Text → Value ℕ → Bool
fast_one key (int n) = n == 1
fast_one key value = true

permutations-count_example :
    (count_if (all_pass fast_one) (permutations params) ≡ ways fast_one params)
    × All
        (λ variant.
          map (λ (p : Text × Value ℕ). p.0) variant ≡ map (λ (p : Text × Value ℕ). p.0) params)
        (permutations params)
permutations-count_example = permutations-count fast_one params

testcase-tests_example :
    (declared : Declared ℕ) × (testcase show raw (text "random") required ≡ some declared)
    × (map (λ (t : Test ℕ). t.params) (tests_of declared) ≡ permutations params)
    × Distinct (test_names (tests_of declared))
unfolding program
testcase-tests_example =
    testcase-tests show raw (text "random") required params refl
      ((omega arith, ((λ e. ground arith, tt), (tt, tt))), ((omega arith, (tt, tt)), tt))

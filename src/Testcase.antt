-- ===== src/Testcase.antt =====
-- forastero/bench.py, BaseBench.testcase and BaseBench.parameter: the tests that a decorated
-- function becomes.
--
-- `str` on a value is the argument `show`, and what a cast does to a text is part of the
-- declaration. A test is known by its names and parameters; the module's attributes are a list in
-- the order of their names.
pub mod Variants
pub mod Names
pub mod Register
mod Examples
use mathlib.Core.Option
use forastero.Prelude.{
  ℕ, List, [], ◌∷◌, ◌++◌, Option, none, some, Bool, true, false, ◌||◌, if◌then◌else◌, ◌==◌, map,
  length, text_eq, Text, text,
}
use forastero.Prelude.Dicts.{lookup, insert}
use forastero.Parameters.{
  Value, null, boolean, int, string, array, object, other, Dict, to_list, to_dict, strtobool,
}

-- The argument `cast` of `parameter`.
pub data Cast (V : Type 0) : Type 0 where
  to_str to_bool : Cast V
  to_other : (Text → Option (Value V)) → Cast V

-- `TEST_REQ_PARAMS[func]`, and the decorator that appends to it.
abbrev pub Required : Type 0 → Type 0
Required V = List (Text × Cast V)

infixl 5 ◌>>=◌
abbrev ◌>>=◌ : {A B : Type 0} → Option A → (A → Option B) → Option B
none >>= f = none
some x >>= f = f x

module _ {V : Type 0} where
  unfoldable pub parameter : Text → Cast V → Required V → Required V
  parameter name cast required = required ++ (name, cast) ∷ []

  abbrev pub or_null : Option (Value V) → Value V
  or_null none = null
  or_null (some value) = value

  abbrev pub first : Option (Value V) → Value V → Value V
  first none fallback = fallback
  first (some value) fallback = value

  -- `raw_tc_params.get(f"{base_tc_name}.{key}", raw_tc_params.get(key, None))`; `none` stands for
  -- an exception.
  unfoldable pub fetch : Value V → Text → Text → Option (Value V)
  fetch (object raw_tc_params) base_tc_name key = some (
      first (lookup (base_tc_name ++ (text "." ++ key)) (to_dict raw_tc_params))
        (or_null (lookup key (to_dict raw_tc_params))))
  fetch _ base_tc_name key = none

  unfoldable pub cast_value : Cast V → Value V → Option (Value V)
  cast_value to_str (string s) = some (string s)
  cast_value to_bool (string s) = Option.map boolean (strtobool s)
  cast_value (to_other f) (string s) = f s
  cast_value cast value = some value

  -- The body of the loop over the required parameters, with the value that was found.
  unfoldable pub take_param : Text → Cast V → Dict V → Value V → Option (Dict V)
  take_param key cast params null = some params
  take_param key cast params value =
      Option.map (λ cast_to. insert key cast_to params) (cast_value cast value)

  unfoldable pub resolve : Value V → Text → Required V → Dict V → Option (Dict V)
  resolve raw base_tc_name [] params = some params
  resolve raw base_tc_name ((key, cast) ∷ required) params = do
    value ← fetch raw base_tc_name key
    params' ← take_param key cast params value
    resolve raw base_tc_name required params'

  -- `val if isinstance(val, list) else [val]`.
  unfoldable pub choices : Value V → List (Value V)
  choices (array items) = to_list items
  choices value = value ∷ []

-- `itertools.product(*vals)`: the last list runs fastest.
module _ {A : Type 0} where
  unfoldable pub with_each : List A → List (List A) → List (List A)
  with_each [] rests = []
  with_each (x ∷ xs) rests = map (λ rest. x ∷ rest) rests ++ with_each xs rests

  unfoldable pub product : List (List A) → List (List A)
  product [] = [] ∷ []
  product (xs ∷ xss) = with_each xs (product xss)

unfoldable pub zip : {A B : Type 0} → List A → List B → List (A × B)
zip [] ys = []
zip (x ∷ xs) [] = []
zip (x ∷ xs) (y ∷ ys) = (x, y) ∷ zip xs ys

pub record Test (V : Type 0) : Type 0 where
  pub name : Text
  pub tc_name : Text
  pub params : Dict V

-- What the decorator returns: the one test, or None when it sets attributes of the module.
pub data Declared (V : Type 0) : Type 0 where
  returned : Test V → Declared V
  attributes : List (Text × Test V) → Declared V

module _ {V : Type 0} where
  unfoldable pub permutations : Dict V → List (Dict V)
  permutations params =
      map (λ v. zip (map (λ (p : Text × Value V). p.0) params) v)
        (product (map (λ (p : Text × Value V). choices p.1) params))

module _ {V : Type 0} where
  -- The loop over the permutations with its `setattr`.
  unfoldable pub set_attributes : List (Test V) → List (Text × Test V) → List (Text × Test V)
  set_attributes [] module_attributes = module_attributes
  set_attributes (t ∷ tests) module_attributes =
      set_attributes tests (insert t.name t module_attributes)

  unfoldable pub declare_tests : List (Test V) → Declared V
  declare_tests (t ∷ []) = returned t
  declare_tests tests = attributes (set_attributes tests [])

-- `functools.reduce(lambda x, y: x + "_" + y, labels)`.
unfoldable pub reduce : Text → List Text → Text
reduce x [] = x
reduce x (y ∷ ys) = reduce (x ++ (text "_" ++ y)) ys

-- `reduce` without an initial value raises on no labels at all, which come with one permutation.
unfoldable pub joined : List Text → Text
joined [] = []
joined (x ∷ xs) = text "_" ++ reduce x xs

module _ {V : Type 0} (show : Value V → Text) where
  -- `f"{key!s}_{val!s}"`.
  unfoldable pub labels : Dict V → List Text
  labels [] = []
  labels ((key, val) ∷ params) = (key ++ (text "_" ++ show val)) ∷ labels params

  unfoldable pub params_name : ℕ → Dict V → Text
  params_name permutations_count params =
      if permutations_count == 1 then [] else joined (labels params)

  unfoldable pub make_test : Text → ℕ → Dict V → Test V
  make_test func permutations_count params = record {
    name = func ++ params_name permutations_count params;
    tc_name = func ++ params_name permutations_count params;
    params = params;
  }

  unfoldable pub testcase : Value V → Text → Required V → Option (Declared V)
  testcase raw func required = do
    params ← resolve raw func required []
    let dicts = permutations params
    some (declare_tests (map (make_test func (length dicts)) dicts))

-- ===== src/Parameters.antt =====
-- forastero/bench.py: the parameters of a testbench, from defaults and a file.
--
-- What `json.load` makes of a file is a Value; numbers that are not natural, and what casts to
-- other types give, are of the type `V`. A dictionary is a list in the order of its keys.
pub mod Lookup
mod Examples
use forastero.Prelude.{
  ℕ, List, [], ◌∷◌, ◌++◌, Option, none, some, Bool, true, false, ◌||◌, if◌then◌else◌, ◌=?=◌,
  text_eq, Text, text, strip, lower,
}
use forastero.Prelude.Dicts.{lookup, insert}

mutual
  pub data Value (V : Type 0) : Type 0 where
    null : Value V
    boolean : Bool → Value V
    int : ℕ → Value V
    string : Text → Value V
    array : Items V → Value V
    object : Fields V → Value V
    other : V → Value V

  pub data Items (V : Type 0) : Type 0 where
    nil : Items V
    cons : Value V → Items V → Items V

  pub data Fields (V : Type 0) : Type 0 where
    end : Fields V
    field : Text → Value V → Fields V → Fields V

abbrev pub to_list : {V : Type 0} → Items V → List (Value V)
to_list nil = []
to_list (cons x xs) = x ∷ to_list xs

abbrev pub to_dict : {V : Type 0} → Fields V → List (Text × Value V)
to_dict end = []
to_dict (field key x fields) = (key, x) ∷ to_dict fields

abbrev pub Dict : Type 0 → Type 0
Dict V = List (Text × Value V)

-- `x in xs` for a tuple of texts.
unfoldable pub one_of : Text → List Text → Bool
one_of s [] = false
one_of s (x ∷ xs) = s =?= x || one_of s xs

abbrev pub truthy : List Text
truthy = text "y" ∷ text "yes" ∷ text "t" ∷ text "true" ∷ text "on" ∷ text "1" ∷ []

abbrev pub falsey : List Text
falsey = text "n" ∷ text "no" ∷ text "f" ∷ text "false" ∷ text "off" ∷ text "0" ∷ []

-- `none` stands for an exception, here and below.
unfoldable pub strtobool : Text → Option Bool
unfolding one_of
strtobool val =
    let lval = lower (strip val) in
    if one_of lval truthy then some true else if one_of lval falsey then some false else none

-- `PARAM_FILE_PATH`: not set, the path of no file, or a file with the entries of its object.
pub data File (V : Type 0) : Type 0 where
  not_given missing : File V
  contents : Dict V → File V

-- `PARAM_DEFAULTS`, with the environment variable FAIL_FAST.
unfoldable pub param_defaults : {V : Type 0} → Option Text → Dict V
param_defaults fail_fast =
    (text "seed", int 0)
    ∷ (text "verbosity", object (field (text "tb") (string (text "info")) end))
    ∷ (text "profiling", null)
    ∷ (
      text "fail_fast",
      boolean (elim fail_fast [ none ↦ false | some value ↦ lower value =?= text "yes" ]),
    )
    ∷ (text "postmortem", boolean false)
    ∷ (text "testcases", object end)
    ∷ []

module _ {V : Type 0} where
  -- The `for` loop over the entries of the file.
  unfoldable pub override : Dict V → Dict V → Dict V
  override [] parameters = parameters
  override ((key, value) ∷ entries) parameters =
      override entries (insert (strip (lower key)) value parameters)

  unfoldable pub parse_parameters : Dict V → File V → Option (Dict V)
  parse_parameters defaults not_given = some defaults
  parse_parameters defaults missing = none
  parse_parameters defaults (contents entries) = some (override entries defaults)

  abbrev pub or_else : Value V → Option (Value V) → Value V
  or_else default none = default
  or_else default (some value) = value

  abbrev pub read : Text → Value V → Option (Dict V) → Option (Value V)
  read name default none = none
  read name default (some parameters) =
      some (or_else default (lookup (lower (strip name)) parameters))

  unfoldable pub get_parameter : Dict V → File V → Text → Value V → Option (Value V)
  get_parameter defaults file name default = read name default (parse_parameters defaults file)

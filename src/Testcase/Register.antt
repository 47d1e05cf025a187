-- ===== src/Testcase/Register.antt =====
-- forastero/bench.py, BaseBench.testcase: which tests a module is left with.
use mathlib.Core.List.{map-append}
use forastero.Prelude.{
  ℕ, ◌≡◌, ◌≢◌, refl, sym, ap, ◌∙◌, subst, List, [], ◌∷◌, ◌++◌, All, All-append, map, append-nil,
  append_assoc, Text, text_eq, text_beq_iff, ◌=?=◌, some, length, ◌==◌, arith, Bool-cases, inl, inr,
  false,
}
use forastero.Prelude.Dicts.{insert}
use forastero.Parameters.{Value, Dict}
use forastero.Testcase.{
  with_each, product, zip, permutations, choices, labels, joined, params_name, make_test, Test,
  Declared, returned, attributes, set_attributes, declare_tests, testcase, resolve, Required,
}
use forastero.Testcase.Names.{
  Distinct, PlainValues, tails, tail_name, one_head, other_heads, joined-suffix, suffix, cancel,
}

Distinct-append :
    (xs ys : List Text)
    → Distinct xs
    → Distinct ys
    → All (λ x. All (λ y. x ≢ y) ys) xs
    → Distinct (xs ++ ys)
Distinct-append [] ys dx dy apart = dy
Distinct-append (x ∷ xs) ys dx dy apart =
    (All-append _ xs ys dx.0 apart.0, Distinct-append xs ys dx.1 dy apart.1)

module _ {V : Type 0} (show : Value V → Text) where
  with_each-Distinct :
      (key : Text) (keys : List Text) (xs : List (Value V)) (rests : List (List (Value V)))
      → PlainValues show xs
      → Distinct (map show xs)
      → Distinct (tails show keys rests)
      → Distinct (tails show (key ∷ keys) (with_each xs rests))
  unfolding with_each
  with_each-Distinct key keys [] rests px dx d = tt
  with_each-Distinct key keys (x ∷ xs) rests px dx d =
      rw (map-append (tail_name show (key ∷ keys)) (map (λ s. x ∷ s) rests) (with_each xs rests)) (
        Distinct-append (tails show (key ∷ keys) (map (λ s. x ∷ s) rests)) _
          (one_head show key keys x rests px.0 d) (with_each-Distinct key keys xs rests px.1 dx.1 d)
          (apart rests))
    where
      apart :
          (rs : List (List (Value V)))
          → All
              (λ n. All (λ m. n ≢ m) (tails show (key ∷ keys) (with_each xs rests)))
              (tails show (key ∷ keys) (map (λ s. x ∷ s) rs))
      apart [] = tt
      apart (r ∷ rs) = (other_heads show key keys x r xs rests px.0 px.1 dx.0, apart rs)

  -- The values of a parameter are told apart by their texts, none of which has "_" in it.
  abbrev pub Told : Dict V → Type 0
  Told [] = Unit
  Told ((key, value) ∷ params) =
      (PlainValues show (choices value) × Distinct (map show (choices value))) × Told params

  abbrev names : Dict V → List Text
  names params = map (λ (p : Text × Value V). p.0) params

  abbrev rows : Dict V → List (List (Value V))
  rows params = product (map (λ (p : Text × Value V). choices p.1) params)

  rows-Distinct :
      (params : Dict V) → Told params → Distinct (tails show (names params) (rows params))
  unfolding product
  rows-Distinct [] h = (tt, tt)
  rows-Distinct ((key, value) ∷ params) h =
      with_each-Distinct key (names params) (choices value) (rows params) h.0.0 h.0.1
        (rows-Distinct params h.1)

All-mid :
    (P : Text → Type 0) (ks : List Text) (n : Text) (rest : List Text)
    → All P (ks ++ (n ∷ rest))
    → P n
All-mid P [] n rest h = h.0
All-mid P (k ∷ ks) n rest h = All-mid P ks n rest h.1

module _ {A : Type 0} where
  insert-fresh :
      (n : Text) (x : A) (table : List (Text × A)) (rest : List Text)
      → Distinct (map (λ (e : Text × A). e.0) table ++ (n ∷ rest))
      → insert n x table ≡ table ++ (n, x) ∷ []
  unfolding insert
  insert-fresh n x [] rest d = refl
  insert-fresh n x ((k, y) ∷ table) rest d = elim (Bool-cases (k =?= n)) [
    | inl same ↦ absurd (
        All-mid (λ m. k ≢ m) (map (λ (e : Text × A). e.0) table) n rest d.0
          ((text_beq_iff k n).0 same))
    | inr other ↦ rw other (ap (λ t. (k, y) ∷ t) (insert-fresh n x table rest d.1))
  ]

module _ {V : Type 0} where
  -- The tests that a declaration leaves, in their order.
  abbrev pub tests_of : Declared V → List (Test V)
  tests_of (returned t) = t ∷ []
  tests_of (attributes table) = map (λ (p : Text × Test V). p.1) table

  abbrev firsts : List (Text × Test V) → List Text
  firsts table = map (λ (p : Text × Test V). p.0) table

  abbrev seconds : List (Text × Test V) → List (Test V)
  seconds table = map (λ (p : Text × Test V). p.1) table

  abbrev pub test_names : List (Test V) → List Text
  test_names tests = map (λ (t : Test V). t.name) tests

  set_attributes-seconds :
      (tests : List (Test V)) (table : List (Text × Test V))
      → Distinct (firsts table ++ test_names tests)
      → seconds (set_attributes tests table) ≡ seconds table ++ tests
  unfolding set_attributes
  set_attributes-seconds [] table d = sym (append-nil (seconds table))
  set_attributes-seconds (t ∷ tests) table d =
      rw (insert-fresh t.name t table (test_names tests) d) (
        set_attributes-seconds tests (table ++ (t.name, t) ∷ []) (subst Distinct moved d)
        ∙ rw (map-append (λ (p : Text × Test V). p.1) table ((t.name, t) ∷ []))
            (append_assoc (seconds table) (t ∷ []) tests))
    where
      moved :
          firsts table ++ test_names (t ∷ tests)
          ≡ firsts (table ++ (t.name, t) ∷ []) ++ test_names tests
      moved =
          rw (map-append (λ (p : Text × Test V). p.0) table ((t.name, t) ∷ []))
            (sym (append_assoc (firsts table) (t.name ∷ []) (test_names tests)))

  declare_tests-tests :
      (tests : List (Test V)) → Distinct (test_names tests) → tests_of (declare_tests tests) ≡ tests
  unfolding declare_tests
  declare_tests-tests [] d = (unfold set_attributes in refl)
  declare_tests-tests (t ∷ []) d = refl
  declare_tests-tests (t ∷ u ∷ tests) d = set_attributes-seconds (t ∷ u ∷ tests) [] d

  make_tests-params :
      (show : Value V → Text) (func : Text) (n : ℕ) (dicts : List (Dict V))
      → map (λ (t : Test V). t.params) (map (make_test show func n) dicts) ≡ dicts
  unfolding make_test
  make_tests-params show func n [] = refl
  make_tests-params show func n (d ∷ dicts) =
      ap (λ ds. d ∷ ds) (make_tests-params show func n dicts)

  name_apart :
      (show : Value V → Text) (func : Text) (n : ℕ) (d e : Dict V)
      → (n == 1) ≡ false
      → suffix show d ≢ suffix show e
      → (make_test show func n d).name ≢ (make_test show func n e).name
  unfolding make_test params_name
  name_apart show func n d e many ne same =
      ne (sym (joined-suffix show d) ∙ cancel func _ _ shown ∙ joined-suffix show e)
    where
      shown : func ++ joined (labels show d) ≡ func ++ joined (labels show e)
      shown = cc

  names_apart :
      (show : Value V → Text) (func : Text) (n : ℕ) (d : Dict V) (dicts : List (Dict V))
      → (n == 1) ≡ false
      → All (λ s. suffix show d ≢ s) (map (suffix show) dicts)
      → All
          (λ m. (make_test show func n d).name ≢ m)
          (test_names (map (make_test show func n) dicts))
  names_apart show func n d [] many h = tt
  names_apart show func n d (e ∷ dicts) many h =
      (name_apart show func n d e many h.0, names_apart show func n d dicts many h.1)

  many-Distinct :
      (show : Value V → Text) (func : Text) (n : ℕ) (dicts : List (Dict V))
      → (n == 1) ≡ false
      → Distinct (map (suffix show) dicts)
      → Distinct (test_names (map (make_test show func n) dicts))
  many-Distinct show func n [] many h = tt
  many-Distinct show func n (d ∷ dicts) many h =
      (names_apart show func n d dicts many h.0, many-Distinct show func n dicts many h.1)

  tests-Distinct :
      (show : Value V → Text) (func : Text) (dicts : List (Dict V))
      → Distinct (map (suffix show) dicts)
      → Distinct (test_names (map (make_test show func (length dicts)) dicts))
  tests-Distinct show func [] h = tt
  tests-Distinct show func (d ∷ []) h = (tt, tt)
  tests-Distinct show func (d ∷ e ∷ dicts) h =
      many-Distinct show func (length (d ∷ e ∷ dicts)) (d ∷ e ∷ dicts) (ground arith) h

  suffixes :
      (show : Value V → Text) (keys : List Text) (rs : List (List (Value V)))
      → map (suffix show) (map (zip keys) rs) ≡ tails show keys rs
  suffixes show keys [] = refl
  suffixes show keys (r ∷ rs) = ap (λ ss. suffix show (zip keys r) ∷ ss) (suffixes show keys rs)

  -- When the parameters are found and cast without an exception, and the values that are listed for
  -- each of them have different texts without "_", the decorated function becomes one test for each
  -- permutation of the values, in their order, under names that differ: none replaces another.
  pub testcase-tests :
      (show : Value V → Text) (raw : Value V) (func : Text) (required : Required V)
      (params : Dict V)
      → resolve raw func required [] ≡ some params
      → Told show params
      → (declared : Declared V) × (testcase show raw func required ≡ some declared)
        × (map (λ (t : Test V). t.params) (tests_of declared) ≡ permutations params)
        × Distinct (test_names (tests_of declared))
  unfolding testcase permutations
  testcase-tests show raw func required params found told =
      let dicts = permutations params in
      let tests = map (make_test show func (length dicts)) dicts in
      let apart : Distinct (test_names tests) = tests-Distinct show func dicts (
        subst Distinct (sym (suffixes show (names show params) (rows show params)))
          (rows-Distinct show params told)) in
      (
        declare_tests tests,
        rw found refl,
        rw (declare_tests-tests tests apart) (make_tests-params show func (length dicts) dicts),
        rw (declare_tests-tests tests apart) apart,
      )

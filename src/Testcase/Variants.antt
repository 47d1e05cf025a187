-- ===== src/Testcase/Variants.antt =====
-- forastero/bench.py, BaseBench.testcase: the permutations of parameter values.
use forastero.Prelude.{
  ℕ, ◌+◌, ◌*◌, ◌≡◌, refl, ap, ◌∙◌, List, [], ◌∷◌, ◌++◌, Bool, true, false, ◌&&◌, arith, map,
  if◌then◌else◌, All, All-append, Text,
}
use forastero.Parameters.{Value, Dict}
use forastero.Testcase.{choices, with_each, product, zip, permutations}

abbrev pub count_if : {A : Type 0} → (A → Bool) → List A → ℕ
count_if p [] = 0
count_if p (x ∷ xs) = (if p x then 1 else 0) + count_if p xs

count_if-append :
    {A : Type 0} (p : A → Bool) (xs ys : List A)
    → count_if p (xs ++ ys) ≡ count_if p xs + count_if p ys
count_if-append p [] ys = omega arith
count_if-append p (x ∷ xs) ys = omega (arith, count_if-append p xs ys)

count_if-map :
    {A B : Type 0} (p : B → Bool) (f : A → B) (xs : List A)
    → count_if p (map f xs) ≡ count_if (λ x. p (f x)) xs
count_if-map p f [] = refl
count_if-map p f (x ∷ xs) = omega (arith, count_if-map p f xs)

count_if-guard :
    {A : Type 0} (b : Bool) (p : A → Bool) (xs : List A)
    → count_if (λ x. b && p x) xs ≡ (if b then 1 else 0) * count_if p xs
count_if-guard true p xs = omega arith
count_if-guard false p [] = refl
count_if-guard false p (x ∷ xs) = omega (arith, count_if-guard false p xs)

All-map :
    {A B : Type 0} (P : B → Type 0) (f : A → B) (xs : List A)
    → All (λ x. P (f x)) xs
    → All P (map f xs)
All-map P f [] h = tt
All-map P f (x ∷ xs) h = (h.0, All-map P f xs h.1)

module _ {V : Type 0} where
  abbrev names : Dict V → List Text
  names params = map (λ (p : Text × Value V). p.0) params

  abbrev rows : Dict V → List (List (Value V))
  rows params = product (map (λ (p : Text × Value V). choices p.1) params)

  -- Every entry passes the test.
  abbrev pub all_pass : (Text → Value V → Bool) → Dict V → Bool
  all_pass p [] = true
  all_pass p ((key, value) ∷ params) = p key value && all_pass p params

  -- For each parameter the number of its values that pass, multiplied.
  abbrev pub ways : (Text → Value V → Bool) → Dict V → ℕ
  ways p [] = 1
  ways p ((key, value) ∷ params) = count_if (p key) (choices value) * ways p params

  with_each-count :
      (p : Text → Value V → Bool) (key : Text) (keys : List Text) (xs : List (Value V))
      (rests : List (List (Value V)))
      → count_if (λ row. all_pass p (zip (key ∷ keys) row)) (with_each xs rests)
        ≡ count_if (p key) xs * count_if (λ row. all_pass p (zip keys row)) rests
  unfolding with_each zip
  with_each-count p key keys [] rests = omega arith
  with_each-count p key keys (x ∷ xs) rests =
      rw
        (
          count_if-append (λ row. all_pass p (zip (key ∷ keys) row)) (map (λ r. x ∷ r) rests)
              (with_each xs rests),
          count_if-map (λ row. all_pass p (zip (key ∷ keys) row)) (λ r. x ∷ r) rests,
          count_if-guard (p key x) (λ row. all_pass p (zip keys row)) rests,
          with_each-count p key keys xs rests,
        )
        (grind arith)

  rows-count :
      (p : Text → Value V → Bool) (params : Dict V)
      → count_if (λ row. all_pass p (zip (names params) row)) (rows params) ≡ ways p params
  unfolding product
  rows-count p [] = (unfold zip in refl)
  rows-count p ((key, value) ∷ params) =
      with_each-count p key (names params) (choices value) (rows params)
      ∙ ap (λ n. count_if (p key) (choices value) * n) (rows-count p params)

  with_each-names :
      (key : Text) (keys : List Text) (xs : List (Value V)) (rests : List (List (Value V)))
      → All (λ row. names (zip keys row) ≡ keys) rests
      → All (λ row. names (zip (key ∷ keys) row) ≡ key ∷ keys) (with_each xs rests)
  unfolding with_each zip
  with_each-names key keys [] rests h = tt
  with_each-names key keys (x ∷ xs) rests h =
      All-append _ (map (λ rest. x ∷ rest) rests) _
        (All-map _ (λ rest. x ∷ rest) rests (grown rests h)) (with_each-names key keys xs rests h)
    where
      grown :
          (rests : List (List (Value V)))
          → All (λ row. names (zip keys row) ≡ keys) rests
          → All (λ row. names (zip (key ∷ keys) (x ∷ row)) ≡ key ∷ keys) rests
      grown [] h = tt
      grown (row ∷ rests) h = (ap (λ ks. key ∷ ks) h.0, grown rests h.1)

  rows-names :
      (params : Dict V) → All (λ row. names (zip (names params) row) ≡ names params) (rows params)
  unfolding product
  rows-names [] = (unfold zip in (refl, tt))
  rows-names ((key, value) ∷ params) =
      with_each-names key (names params) (choices value) (rows params) (rows-names params)

  -- Each permutation has the names of the parameters in their order, and each combination of their
  -- values comes exactly once: for any test on names and values, the permutations in which every
  -- entry passes are as many as the values that pass, multiplied over the parameters.
  pub permutations-count :
      (p : Text → Value V → Bool) (params : Dict V)
      → (count_if (all_pass p) (permutations params) ≡ ways p params)
        × All (λ variant. names variant ≡ names params) (permutations params)
  unfolding permutations
  permutations-count p params = (
    count_if-map (all_pass p) (zip (names params)) (rows params) ∙ rows-count p params,
    All-map _ (zip (names params)) (rows params) (rows-names params),
  )

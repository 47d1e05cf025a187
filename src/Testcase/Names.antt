-- ===== src/Testcase/Names.antt =====
-- forastero/bench.py, BaseBench.testcase: the names of a test's permutations.
use mathlib.Core.List.{map-append}
use forastero.Prelude.{
  ℕ, ◌≡◌, ◌≢◌, refl, sym, ap, ◌∙◌, List, [], ◌∷◌, ◌++◌, All, All-append, map, append-nil,
  append_assoc, Text, ◌⊎◌, inl, inr,
}
use forastero.Parameters.{Value, Dict}
use forastero.Testcase.{with_each, zip, labels, reduce, joined}

abbrev pub Distinct : List Text → Type 0
Distinct [] = Unit
Distinct (x ∷ xs) = All (λ y. x ≢ y) xs × Distinct xs

-- A text without "_".
abbrev pub Plain : Text → Type 0
Plain s = All (λ c. c ≢ 95) s

-- What may follow a value in a name.
abbrev Rest : Text → Type 0
Rest r = (r ≡ []) ⊎ ((t : Text) × (r ≡ 95 ∷ t))

pub cancel : (k r s : Text) → k ++ r ≡ k ++ s → r ≡ s
cancel [] r s h = h
cancel (c ∷ k) r s h = cancel k r s cc

no-Rest : (c : ℕ) (v r : Text) → c ≢ 95 → Rest r → r ≢ c ∷ v
no-Rest c v r ne (inl empty) h = cc
no-Rest c v r ne (inr (t, marked)) h = ne cc

split-Rest :
    (u v r s : Text) → Plain u → Plain v → Rest r → Rest s → u ++ r ≡ v ++ s → (u ≡ v) × (r ≡ s)
split-Rest [] [] r s pu pv hr hs h = (refl, h)
split-Rest [] (c ∷ v) r s pu pv hr hs h = absurd (no-Rest c (v ++ s) r pv.0 hr h)
split-Rest (c ∷ u) [] r s pu pv hr hs h = absurd (no-Rest c (u ++ r) s pu.0 hs (sym h))
split-Rest (c ∷ u) (d ∷ v) r s pu pv hr hs h =
    let (same, rest) = split-Rest u v r s pu.1 pv.1 hr hs cc in (cc, rest)

module _ {V : Type 0} (show : Value V → Text) where
  -- What follows the function's name.
  pub suffix : Dict V → Text
  suffix [] = []
  suffix ((key, val) ∷ params) = 95 ∷ (key ++ (95 ∷ (show val ++ suffix params)))

  suffix-Rest : (params : Dict V) → Rest (suffix params)
  unfolding suffix
  suffix-Rest [] = inl refl
  suffix-Rest ((key, val) ∷ params) = inr (_, refl)

  reduce-suffix : (x : Text) (params : Dict V) → reduce x (labels show params) ≡ x ++ suffix params
  unfolding reduce labels suffix
  reduce-suffix x [] = sym (append-nil x)
  reduce-suffix x ((key, val) ∷ params) =
      reduce-suffix (x ++ (95 ∷ (key ++ (95 ∷ show val)))) params ∙ simp append_assoc

  pub joined-suffix : (params : Dict V) → joined (labels show params) ≡ suffix params
  unfolding joined labels suffix
  joined-suffix [] = refl
  joined-suffix ((key, val) ∷ params) =
      ap (λ s. 95 ∷ s) (reduce-suffix (key ++ (95 ∷ show val)) params ∙ simp append_assoc)

  abbrev pub tail_name : List Text → List (Value V) → Text
  tail_name keys row = suffix (zip keys row)

  head_split :
      (key : Text) (keys : List Text) (x y : Value V) (r s : List (Value V))
      → Plain (show x)
      → Plain (show y)
      → tail_name (key ∷ keys) (x ∷ r) ≡ tail_name (key ∷ keys) (y ∷ s)
      → (show x ≡ show y) × (tail_name keys r ≡ tail_name keys s)
  unfolding suffix zip
  head_split key keys x y r s px py h =
      let behind : key ++ (95 ∷ (show x ++ tail_name keys r))
          ≡ key ++ (95 ∷ (show y ++ tail_name keys s)) =
        cc in
      let after = cancel key _ _ behind in
      split-Rest (show x) (show y) _ _ px py (suffix-Rest (zip keys r)) (suffix-Rest (zip keys s))
        cc

  abbrev pub tails : List Text → List (List (Value V)) → List Text
  tails keys rows = map (tail_name keys) rows

  abbrev pub PlainValues : List (Value V) → Type 0
  PlainValues xs = All (λ x. Plain (show x)) xs

  pub one_head :
      (key : Text) (keys : List Text) (x : Value V) (rests : List (List (Value V)))
      → Plain (show x)
      → Distinct (tails keys rests)
      → Distinct (tails (key ∷ keys) (map (λ s. x ∷ s) rests))
  one_head key keys x [] px d = tt
  one_head key keys x (r ∷ rests) px d = (apart rests d.0, one_head key keys x rests px d.1)
    where
      apart :
          (rests : List (List (Value V)))
          → All (λ y. tail_name keys r ≢ y) (tails keys rests)
          → All
              (λ y. tail_name (key ∷ keys) (x ∷ r) ≢ y)
              (tails (key ∷ keys) (map (λ s. x ∷ s) rests))
      apart [] h = tt
      apart (s ∷ rests) h = ((λ e. h.0 (head_split key keys x x r s px px e).1), apart rests h.1)

  other_head :
      (key : Text) (keys : List Text) (x y : Value V) (r : List (Value V))
      (rests : List (List (Value V)))
      → Plain (show x)
      → Plain (show y)
      → show x ≢ show y
      → All (λ n. tail_name (key ∷ keys) (x ∷ r) ≢ n) (tails (key ∷ keys) (map (λ s. y ∷ s) rests))
  other_head key keys x y r [] px py ne = tt
  other_head key keys x y r (s ∷ rests) px py ne =
      ((λ e. ne (head_split key keys x y r s px py e).0), other_head key keys x y r rests px py ne)

  pub other_heads :
      (key : Text) (keys : List Text) (x : Value V) (r : List (Value V)) (ys : List (Value V))
      (rests : List (List (Value V)))
      → Plain (show x)
      → PlainValues ys
      → All (λ t. show x ≢ t) (map show ys)
      → All (λ n. tail_name (key ∷ keys) (x ∷ r) ≢ n) (tails (key ∷ keys) (with_each ys rests))
  unfolding with_each
  other_heads key keys x r [] rests px pys ne = tt
  other_heads key keys x r (y ∷ ys) rests px pys ne =
      rw (map-append (tail_name (key ∷ keys)) (map (λ s. y ∷ s) rests) (with_each ys rests)) (
        All-append _ (tails (key ∷ keys) (map (λ s. y ∷ s) rests)) _
          (other_head key keys x y r rests px pys.0 ne.0)
          (other_heads key keys x r ys rests px pys.1 ne.1))

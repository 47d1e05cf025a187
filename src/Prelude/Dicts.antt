-- ===== src/Prelude/Dicts.antt =====
-- Python dictionaries as association lists, in the order of their keys.
use mathlib.Core.Path.{◌≡◌, refl}
use mathlib.Core.List.{List, [], ◌∷◌}
use mathlib.Core.Option.{Option, none, some}
use native.Mathlib.Omega.{arith}
use forastero.Prelude.Tests.{if◌then◌else◌}
use forastero.Prelude.Interfaces.{Eq, ◌=?=◌}

module _ {ℓ κ} {K : Type ℓ} {V : Type κ} ⦃e : Eq K⦄ where
  -- `table.get(k)`.
  unfoldable pub lookup : K → List (K × V) → Option V
  lookup k [] = none
  lookup k ((j, v) ∷ table) = if j =?= k then some v else lookup k table

  -- `table[k] = v`: a key that is there stays where it is.
  unfoldable pub insert : K → V → List (K × V) → List (K × V)
  insert k v [] = (k, v) ∷ []
  insert k v ((j, w) ∷ table) = if j =?= k then (j, v) ∷ table else (j, w) ∷ insert k v table

  pub lookup-insert :
      (k j : K) (v : V) (table : List (K × V))
      → lookup j (insert k v table) ≡ (if k =?= j then some v else lookup j table)
  unfolding lookup insert
  lookup-insert k j v [] = refl
  lookup-insert k j v ((i, w) ∷ table) =
      ground (arith, e.beq_iff k j, e.beq_iff i k, e.beq_iff i j, lookup-insert k j v table)

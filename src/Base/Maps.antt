-- ===== src/Base/Maps.antt =====
-- Dictionaries by text keys, and what is found in them after a change.
use Prim.Native.String.{String}
use mathlib.Core.Path.{◌≡◌, refl}
use mathlib.Core.Option.{Option, none, some}
use mathlib.Core.List.{List, [], ◌∷◌}
use native.Mathlib.Omega.{arith}
use text.Mathlib.Text.{◌==◌}
use text.Mathlib.TextEquality.{eq_iff}
use openagent_host_tools.Base.Tests.{if◌then◌else◌}

module _ {ℓ} {V : Type ℓ} where
  unfoldable pub find : String → List (String × V) → Option V
  find k [] = none
  find k ((j, v) ∷ m) = if j == k then some v else find k m

  unfoldable pub put : String → V → List (String × V) → List (String × V)
  put k v [] = (k, v) ∷ []
  put k v ((j, w) ∷ m) = if j == k then (j, v) ∷ m else (j, w) ∷ put k v m

  unfoldable pub pop : String → List (String × V) → List (String × V)
  pop k [] = []
  pop k ((j, v) ∷ m) = let rest = pop k m in if j == k then rest else (j, v) ∷ rest

  pub find-put :
      (k j : String) (v : V) (m : List (String × V))
      → find j (put k v m) ≡ (if k == j then some v else find j m)
  unfolding find put
  find-put k j v [] = refl
  find-put k j v ((i, w) ∷ m) = ground (arith, find-put k j v m, eq_iff i k, eq_iff i j, eq_iff k j)

  pub find-pop :
      (k j : String) (m : List (String × V))
      → find j (pop k m) ≡ (if k == j then none else find j m)
  unfolding find pop
  find-pop k j [] = ground arith
  find-pop k j ((i, w) ∷ m) = ground (arith, find-pop k j m, eq_iff i k, eq_iff i j, eq_iff k j)

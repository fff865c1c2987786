-- ===== src/Base/Lists.antt =====
-- Lists measured by native numbers, under the library's names, and membership of a text.
use Prim.Native.Nat.{ℕ, zero, suc, ◌+◌, ◌-◌}
use Prim.Native.String.{String}
use mathlib.Core.Path.{◌≡◌}
use mathlib.Core.Bool.{Bool, true, false, ◌||◌, ◌&&◌}
use mathlib.Core.List.{List, [], ◌∷◌, ◌++◌}
use native.Mathlib.Omega.{arith}
use text.Mathlib.Text.{◌==◌}
use text.Mathlib.TextEquality.{eq_iff}
use text.Mathlib.TextPositions.{eq_refl}
use openagent_host_tools.Base.Tests.{if◌then◌else◌, if-cases}

module _ {ℓ} {A : Type ℓ} where
  abbrev pub length : List A → ℕ
  length [] = 0
  length (x ∷ xs) = suc (length xs)

  abbrev pub take : ℕ → List A → List A
  take zero xs = []
  take (suc n) [] = []
  take (suc n) (x ∷ xs) = x ∷ take n xs

  abbrev pub drop : ℕ → List A → List A
  drop zero xs = xs
  drop (suc n) [] = []
  drop (suc n) (x ∷ xs) = drop n xs

  abbrev pub all : (A → Bool) → List A → Bool
  all p [] = true
  all p (x ∷ xs) = p x && all p xs

  abbrev pub All {κ} : (A → Type κ) → List A → Type κ
  All P [] = Unit
  All P (x ∷ xs) = P x × All P xs

  pub length-append : (xs ys : List A) → length (xs ++ ys) ≡ length xs + length ys
  length-append [] ys = omega arith
  length-append (x ∷ xs) ys = omega (arith, length-append xs ys)

  pub length-drop : (n : ℕ) (xs : List A) → length (drop n xs) ≡ length xs - n
  length-drop zero xs = omega arith
  length-drop (suc n) [] = omega arith
  length-drop (suc n) (x ∷ xs) = omega (arith, length-drop n xs)

-- `text in a set of texts`, and the set's add and discard, over a list with no repetitions.
abbrev pub member : String → List String → Bool
member s [] = false
member s (x ∷ xs) = x == s || member s xs

unfoldable pub add : String → List String → List String
add s xs = if member s xs then xs else xs ++ s ∷ []

unfoldable pub discard : String → List String → List String
discard s [] = []
discard s (x ∷ xs) = let rest = discard s xs in if x == s then rest else x ∷ rest

pub member-discard :
    (s t : String) (xs : List String)
    → member t (discard s xs) ≡ (if s == t then false else member t xs)
unfolding discard
member-discard s t [] = ground arith
member-discard s t (x ∷ xs) =
    ground (arith, member-discard s t xs, eq_iff x s, eq_iff x t, eq_iff s t)

member-snoc : (s : String) (xs : List String) → member s (xs ++ s ∷ []) ≡ true
member-snoc s [] = ground (arith, eq_refl s)
member-snoc s (x ∷ xs) = ground (arith, member-snoc s xs)

pub member-add_same : (s : String) (xs : List String) → member s (add s xs) ≡ true
unfolding add
member-add_same s xs =
    if-cases (λ ys. member s ys ≡ true) (member s xs) _ _ (λ known. known) (λ _. member-snoc s xs)

-- ===== src/Base/Numbers.antt =====
-- Finite sets of numbers, as lists with no repetitions: the sets of process objects.
use Prim.Native.Nat.{ℕ}
use mathlib.Core.Path.{◌≡◌}
use mathlib.Core.Bool.{Bool, true, false, ◌||◌}
use mathlib.Core.List.{List, [], ◌∷◌}
use native.Mathlib.Omega.{arith}
use openagent_host_tools.Base.Tests.{nat_eq, if◌then◌else◌}

abbrev pub has : ℕ → List ℕ → Bool
has n [] = false
has n (m ∷ ms) = nat_eq m n || has n ms

unfoldable pub insert : ℕ → List ℕ → List ℕ
insert n ms = if has n ms then ms else n ∷ ms

unfoldable pub without : ℕ → List ℕ → List ℕ
without n [] = []
without n (m ∷ ms) = let rest = without n ms in if nat_eq m n then rest else m ∷ rest

pub has-without :
    (n k : ℕ) (ms : List ℕ) → has k (without n ms) ≡ (if nat_eq n k then false else has k ms)
unfolding without
has-without n k [] = ground arith
has-without n k (m ∷ ms) = ground (arith, has-without n k ms)

pub has-insert :
    (n k : ℕ) (ms : List ℕ) → has k (insert n ms) ≡ (if nat_eq n k then true else has k ms)
unfolding insert
has-insert n k ms = ground (arith)

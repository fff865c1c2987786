-- ===== src/Base/Table.antt =====
-- Tables of rows, as the SQL statements of the ledgers use them: SELECT of the first row that fits,
-- UPDATE, DELETE and the count of the rows that an UPDATE would touch.
use Prim.Native.Nat.{ℕ, ◌+◌, ◌≤◌}
use mathlib.Core.Path.{◌≡◌, refl, ◌∙◌}
use mathlib.Core.Bool.{Bool, true, false, ◌&&◌}
use mathlib.Core.Option.{Option, none, some}
use mathlib.Core.List.{List, [], ◌∷◌, ◌++◌}
use native.Mathlib.Omega.{arith}
use openagent_host_tools.Base.Tests.{if◌then◌else◌}

module _ {ℓ} {R : Type ℓ} where
  unfoldable pub select_one : (R → Bool) → List R → Option R
  select_one q [] = none
  select_one q (r ∷ rs) = if q r then some r else select_one q rs

  unfoldable pub select_where : (R → Bool) → List R → List R
  select_where q [] = []
  select_where q (r ∷ rs) = let rest = select_where q rs in if q r then r ∷ rest else rest

  unfoldable pub update_where : (R → Bool) → (R → R) → List R → List R
  update_where q f [] = []
  update_where q f (r ∷ rs) = (if q r then f r else r) ∷ update_where q f rs

  unfoldable pub delete_where : (R → Bool) → List R → List R
  delete_where q [] = []
  delete_where q (r ∷ rs) = let rest = delete_where q rs in if q r then rest else r ∷ rest

  unfoldable pub count_where : (R → Bool) → List R → ℕ
  count_where q [] = 0
  count_where q (r ∷ rs) = (if q r then 1 else 0) + count_where q rs

  -- What a DELETE leaves of the row that a SELECT found, and how often a test counts it.
  abbrev pub spared : (R → Bool) → Option R → Option R
  spared test none = none
  spared test (some r) = if test r then none else some r

  -- What an UPDATE makes of the row that a SELECT found.
  abbrev pub updated : (R → Bool) → (R → R) → Option R → Option R
  updated test f none = none
  updated test f (some r) = some (if test r then f r else r)

  abbrev pub counted : (R → Bool) → Option R → ℕ
  counted test none = 0
  counted test (some r) = if test r then 1 else 0

  abbrev pub either_row : Option R → Option R → Option R
  either_row none o = o
  either_row (some r) o = some r

  module _ (q : R → Bool) where
    -- An UPDATE that keeps the key is seen through the SELECT.
    pub select_one-update_where :
        (test : R → Bool) (f : R → R) (rs : List R)
        → ((r : R) → q (f r) ≡ q r)
        → select_one q (update_where test f rs) ≡ updated test f (select_one q rs)
    unfolding select_one update_where
    select_one-update_where test f [] keeps = refl
    select_one-update_where test f (r ∷ rs) keeps =
        ground (arith, keeps r, select_one-update_where test f rs keeps)

    pub count_where-update_where :
        (test : R → Bool) (f : R → R) (rs : List R)
        → ((r : R) → q (f r) ≡ q r)
        → count_where q (update_where test f rs) ≡ count_where q rs
    unfolding count_where update_where
    count_where-update_where test f [] keeps = refl
    count_where-update_where test f (r ∷ rs) keeps =
        ground (arith, keeps r, count_where-update_where test f rs keeps)

    pub count_where-delete_where-le :
        (test : R → Bool) (rs : List R) → count_where q (delete_where test rs) ≤ count_where q rs
    unfolding count_where delete_where
    count_where-delete_where-le test [] = omega arith
    count_where-delete_where-le test (r ∷ rs) = ground (arith, count_where-delete_where-le test rs)

    pub count_where-append :
        (rs ss : List R) → count_where q (rs ++ ss) ≡ count_where q rs + count_where q ss
    unfolding count_where
    count_where-append [] ss = omega arith
    count_where-append (r ∷ rs) ss = omega (arith, count_where-append rs ss)

    pub count_where-none : (rs : List R) → select_one q rs ≡ none → count_where q rs ≡ 0
    unfolding count_where select_one
    count_where-none [] h = refl
    count_where-none (r ∷ rs) h = ground (arith, count_where-none rs)

    pub select_one_of_count : (rs : List R) → count_where q rs ≡ 0 → select_one q rs ≡ none
    unfolding count_where select_one
    select_one_of_count [] h = refl
    select_one_of_count (r ∷ rs) h = ground (arith, select_one_of_count rs)

    -- A DELETE that spares every row of the key is not seen through the SELECT.
    pub select_one-delete_where_frame :
        (test : R → Bool) (rs : List R)
        → ((r : R) → q r ≡ true → test r ≡ false)
        → select_one q (delete_where test rs) ≡ select_one q rs
    unfolding select_one delete_where
    select_one-delete_where_frame test [] spare = refl
    select_one-delete_where_frame test (r ∷ rs) spare =
        ground (arith, spare r, select_one-delete_where_frame test rs spare)

    -- With one row for the key, a DELETE takes that row or leaves it.
    pub select_one-delete_where :
        (test : R → Bool) (rs : List R)
        → count_where q rs ≤ 1
        → select_one q (delete_where test rs) ≡ spared test (select_one q rs)
    unfolding select_one delete_where count_where
    select_one-delete_where test [] one = refl
    select_one-delete_where test (r ∷ rs) one = ground (
      arith,
      select_one-delete_where test rs,
      count_where-delete_where-le test rs,
      select_one_of_count (delete_where test rs),
    )

    pub select_one-append :
        (rs ss : List R) → select_one q (rs ++ ss) ≡ either_row (select_one q rs) (select_one q ss)
    unfolding select_one
    select_one-append [] ss = refl
    select_one-append (r ∷ rs) ss = ground (arith, select_one-append rs ss)

    -- The rows an UPDATE touches, with one row for the key.
    pub count_where-and :
        (test : R → Bool) (rs : List R)
        → count_where q rs ≤ 1
        → count_where (λ r. q r && test r) rs ≡ counted test (select_one q rs)
    unfolding select_one count_where
    count_where-and test [] one = refl
    count_where-and test (r ∷ rs) one =
        ground (arith, count_where-and test rs, select_one_of_count rs)

    pub select_one_holds : (rs : List R) {r : R} → select_one q rs ≡ some r → q r ≡ true
    unfolding select_one
    select_one_holds [] h = cc
    select_one_holds (x ∷ rs) {r} h = ground (arith, select_one_holds rs {r = r})

    updated-and :
        (test : R → Bool) (f : R → R) (o : Option R)
        → ((r : R) → o ≡ some r → q r ≡ true)
        → updated (λ r. q r && test r) f o ≡ updated test f o
    updated-and test f none holds = refl
    updated-and test f (some r) holds = rw (holds r refl)

    spared-and :
        (test : R → Bool) (o : Option R)
        → ((r : R) → o ≡ some r → q r ≡ true)
        → spared (λ r. q r && test r) o ≡ spared test o
    spared-and test none holds = refl
    spared-and test (some r) holds = rw (holds r refl)

    -- UPDATE and DELETE whose WHERE clause names the key.
    pub select_one-update_where_key :
        (test : R → Bool) (f : R → R) (rs : List R)
        → ((r : R) → q (f r) ≡ q r)
        → select_one q (update_where (λ r. q r && test r) f rs) ≡ updated test f (select_one q rs)
    select_one-update_where_key test f rs keeps =
        select_one-update_where (λ r. q r && test r) f rs keeps
        ∙ updated-and test f (select_one q rs) (λ r e. select_one_holds rs e)

    pub select_one-delete_where_key :
        (test : R → Bool) (rs : List R)
        → count_where q rs ≤ 1
        → select_one q (delete_where (λ r. q r && test r) rs) ≡ spared test (select_one q rs)
    select_one-delete_where_key test rs one =
        select_one-delete_where (λ r. q r && test r) rs one
        ∙ spared-and test (select_one q rs) (λ r e. select_one_holds rs e)

    -- An UPDATE that spares every row of the key.
    pub select_one-update_where_frame :
        (test : R → Bool) (f : R → R) (rs : List R)
        → ((r : R) → q (f r) ≡ q r)
        → ((r : R) → q r ≡ true → test r ≡ false)
        → select_one q (update_where test f rs) ≡ select_one q rs
    unfolding select_one update_where
    select_one-update_where_frame test f [] keeps spare = refl
    select_one-update_where_frame test f (r ∷ rs) keeps spare =
        ground (arith, keeps r, spare r, select_one-update_where_frame test f rs keeps spare)

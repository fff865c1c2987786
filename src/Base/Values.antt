-- ===== src/Base/Values.antt =====
-- The values that cross the JSON boundary, as Python holds them after `json.loads`: None, bool,
-- int, float, str, list and dict. A float is written by its exact value, so that the tests of the
-- source (finite, equal to 0.0, integral) are decided. `foreign` is a value of any other Python
-- type, by that type's name. A dict is the list of its items, in insertion order.
use Prim.Native.Nat.{ℕ, zero}
use Prim.Native.String.{String}
use mathlib.Core.Bool.{Bool, true, false}
use mathlib.Core.Option.{Option, none, some}
use mathlib.Core.Path.{◌≡◌, refl}
use mathlib.Core.List.{List, [], ◌∷◌}
use native.Mathlib.Omega.{arith}
use text.Mathlib.Text.{◌==◌}
use text.Mathlib.TextEquality.{eq_iff}
use openagent_host_tools.Base.Tests.{if◌then◌else◌}
use openagent_host_tools.Base.Int.{ℤ, pos}

-- `fraction m k` is the non-integral float m / 2 ^ (k + 1), m odd.
pub data Float : Type 0 where
  nan : Float
  infinity : Bool → Float
  negative_zero : Float
  integral : ℤ → Float
  fraction : ℤ → ℕ → Float

mutual
  pub data Value : Type 0 where
    null : Value
    bool : Bool → Value
    int : ℤ → Value
    float : Float → Value
    str : String → Value
    arr : Items → Value
    obj : Fields → Value
    foreign : String → Value

  pub data Items : Type 0 where
    nil : Items
    cons : Value → Items → Items

  pub data Fields : Type 0 where
    end : Fields
    field : String → Value → Fields → Fields

-- `d.get(key)`, where none is the missing key.
unfoldable pub dict_get : String → Fields → Option Value
dict_get k end = none
dict_get k (field j v fs) = if j == k then some v else dict_get k fs

-- `d[key] = value`: an old key keeps its place.
unfoldable pub dict_set : String → Value → Fields → Fields
dict_set k v end = field k v end
dict_set k v (field j w fs) = if j == k then field j v fs else field j w (dict_set k v fs)

-- `{**d, **e}`.
unfoldable pub dict_merge : Fields → Fields → Fields
dict_merge d end = d
dict_merge d (field k v fs) = dict_merge (dict_set k v d) fs

-- The keys of a dict, `list(d)`.
unfoldable pub dict_keys : Fields → List String
dict_keys end = []
dict_keys (field k v fs) = k ∷ dict_keys fs

pub dict_get-dict_set :
    (k j : String) (v : Value) (fs : Fields)
    → dict_get j (dict_set k v fs) ≡ (if k == j then some v else dict_get j fs)
unfolding dict_get dict_set
dict_get-dict_set k j v end = refl
dict_get-dict_set k j v (field i w fs) =
    ground (arith, eq_iff k j, eq_iff i k, eq_iff i j, dict_get-dict_set k j v fs)

-- Whether a float is zero, for its truth value.
float_is_zero : Float → Bool
float_is_zero negative_zero = true
float_is_zero (integral (pos zero)) = true
float_is_zero f = false

-- `bool(value)`.
unfoldable pub truthy : Value → Bool
unfolding float_is_zero
truthy null = false
truthy (bool b) = b
truthy (int (pos zero)) = false
truthy (int _) = true
truthy (float f) = if float_is_zero f then false else true
truthy (str s) = if s == "" then false else true
truthy (arr nil) = false
truthy (arr (cons v vs)) = true
truthy (obj end) = false
truthy (obj (field k v fs)) = true
truthy (foreign t) = true

-- `a or b`
abbrev pub or_else : Value → Value → Value
or_else a b = if truthy a then a else b

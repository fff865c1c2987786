-- ===== src/Types.antt =====
-- src/openagent_host_tools/types.py: tool classifications and manifests, results and errors, and
-- their wire forms.
pub mod Worst
pub mod Classify
pub mod Wire
mod Tests
use Prim.Native.Nat.{compare, Ordering}
use openagent_host_tools.Base.{
  ℕ, String, Bool, true, false, not, ◌&&◌, ◌||◌, Option, none, some, List, [], ◌∷◌, ◌++◌, leb, ltb,
  if◌then◌else◌, ◌==◌, Value, null, bool, int, float, str, arr, obj, foreign, Items, nil, cons,
  Fields, end, field, dict_get, dict_set, dict_merge, truthy, HostError, Outcome, ok, raise, crash,
  ◌>>=◌, pos,
}
use Prim.Native.String.{compare as text_compare}
use Prim.Native.String.compare as compare_text
use Prim.Native.String

pub data ToolClassification : Type 0 where
  read_only idempotent mutating : ToolClassification

-- The value of the enumeration on the wire.
unfoldable pub classification_value : ToolClassification → String
classification_value read_only = "read_only"
classification_value idempotent = "idempotent"
classification_value mutating = "mutating"

unfoldable pub risk : ToolClassification → ℕ
risk read_only = 0
risk idempotent = 1
risk mutating = 2

-- A rule: an argument, and the classification of some of its values.
abbrev pub Rule : Type 0
Rule = String × List (String × ToolClassification)

pub record ToolManifest : Type 0 where
  pub name : String
  pub description : String
  pub input_schema : Value
  pub classification : ToolClassification
  pub classification_by_argument : List Rule

-- `values.get(value)`
unfoldable pub lookup_option :
    String → List (String × ToolClassification) → Option ToolClassification
lookup_option k [] = none
lookup_option k ((j, c) ∷ options) = if j == k then some c else lookup_option k options

-- What one rule adds to `matches`.
unfoldable pub match_value :
    Option Value → List (String × ToolClassification) → Option ToolClassification
unfolding lookup_option
match_value (some (str s)) options = lookup_option s options
match_value _ options = none

unfoldable pub match_rule : Fields → Rule → Option ToolClassification
unfolding match_value dict_get
match_rule arguments (argument, options) = match_value (dict_get argument arguments) options

unfoldable pub prepend :
    Option ToolClassification → List ToolClassification → List ToolClassification
prepend none cs = cs
prepend (some c) cs = c ∷ cs

unfoldable pub matches : Fields → List Rule → List ToolClassification
unfolding match_rule prepend
matches arguments [] = []
matches arguments (rule ∷ rules) = prepend (match_rule arguments rule) (matches arguments rules)

-- `max(matches, key=risk.__getitem__)`: the first of the greatest.
unfoldable pub max_by_risk : ToolClassification → List ToolClassification → ToolClassification
unfolding risk
max_by_risk best [] = best
max_by_risk best (c ∷ cs) = max_by_risk (if ltb (risk best) (risk c) then c else best) cs

unfoldable pub choose : ToolClassification → List ToolClassification → ToolClassification
unfolding max_by_risk
choose base [] = base
choose base (c ∷ cs) = max_by_risk c cs

unfoldable pub classification_for : ToolManifest → Fields → ToolClassification
unfolding choose matches
classification_for manifest arguments =
    choose manifest.classification (matches arguments manifest.classification_by_argument)

-- `sorted` of the items of a dict, whose keys differ, so that they decide.
module _ {ℓ} {V : Type ℓ} where
  unfoldable pub insert_item : String → V → List (String × V) → List (String × V)
  insert_item j v [] = (j, v) ∷ []
  insert_item j v ((i, w) ∷ m) =
      let rest = insert_item j v m in
      elim (text_compare i j) [
        | Ordering.lt ↦ (i, w) ∷ rest
        | Ordering.eq ↦ (j, v) ∷ (i, w) ∷ m
        | Ordering.gt ↦ (j, v) ∷ (i, w) ∷ m
      ]

  unfoldable pub sort_items : List (String × V) → List (String × V)
  unfolding insert_item
  sort_items [] = []
  sort_items ((k, v) ∷ m) = insert_item k v (sort_items m)

unfoldable pub options_to_wire : List (String × ToolClassification) → Fields
unfolding classification_value
options_to_wire [] = end
options_to_wire ((option, c) ∷ options) =
    field option (str (classification_value c)) (options_to_wire options)

unfoldable pub rules_to_wire : List Rule → Fields
unfolding options_to_wire sort_items
rules_to_wire [] = end
rules_to_wire ((argument, options) ∷ rules) =
    field argument (obj (options_to_wire (sort_items options))) (rules_to_wire rules)

abbrev pub with_rules : List Rule → Fields
with_rules [] = end
with_rules (rule ∷ rules) =
    field "classification_by_argument" (obj (rules_to_wire (sort_items (rule ∷ rules)))) end

-- `ToolManifest.to_wire`
unfoldable pub tool_to_wire : ToolManifest → Fields
unfolding rules_to_wire classification_value sort_items
tool_to_wire m = field "name" (str m.name) (
    field "description" (str m.description) (
      field "input_schema" m.input_schema (
        field "classification" (str (classification_value m.classification))
          (with_rules m.classification_by_argument))))

pub record ToolResult : Type 0 where
  pub content : Items
  -- None is null.
  pub structured_content : Value
  pub is_error : Bool
  pub meta : Fields
  pub extra : Fields

unfoldable pub text_result : String → Value → Bool → Fields → ToolResult
text_result text structured is_error meta = record {
  content = cons (obj (field "type" (str "text") (field "text" (str text) end))) nil;
  structured_content = structured;
  is_error = is_error;
  meta = meta;
  extra = end;
}

abbrev pub is_canonical : String → Bool
is_canonical key =
    key == "content" || key == "structuredContent" || key == "isError" || key == "_meta"

-- `value.get(key)`, where None stands for a missing key.
unfoldable pub get_value : String → Fields → Value
unfolding dict_get
get_value key fs = elim (dict_get key fs) [ none ↦ null | some v ↦ v ]

-- `list(value)` of a value that is true, or of the empty list.
key_items : Fields → Items
key_items end = nil
key_items (field k v fs) = cons (str k) (key_items fs)

char_items : String → Items
char_items String.[] = nil
char_items (String.◌∷◌ c s) = cons (str (String.◌∷◌ c String.[])) (char_items s)

unfoldable pub to_list : Value → Outcome Items
unfolding truthy key_items char_items
to_list (arr xs) = ok xs
to_list (obj fs) = ok (key_items fs)
to_list (str s) = ok (char_items s)
to_list v = if truthy v then crash "TypeError" else ok nil

-- The items of an element that `dict` takes for a pair.
unfoldable pub pair_items : Value → Outcome Items
unfolding key_items char_items
pair_items (arr xs) = ok xs
pair_items (str s) = ok (char_items s)
pair_items (obj fs) = ok (key_items fs)
pair_items v = crash "TypeError"

-- A pair is stored under its first item. A key that is no text, such as a number, has no place in
-- Fields, and its pair is left out.
unfoldable pub store_pair : Fields → Outcome Items → Outcome Fields
unfolding dict_set
store_pair fs (ok (cons (arr xs) (cons v nil))) = crash "TypeError"
store_pair fs (ok (cons (obj ys) (cons v nil))) = crash "TypeError"
store_pair fs (ok (cons (str k) (cons v nil))) = ok (dict_set k v fs)
store_pair fs (ok (cons k (cons v nil))) = ok fs
store_pair fs (ok xs) = crash "ValueError"
store_pair fs (raise e) = raise e
store_pair fs (crash t) = crash t

-- `dict(value)` of a value that is true, or of the empty dict.
unfoldable pub from_pairs : Fields → Items → Outcome Fields
unfolding pair_items store_pair
from_pairs fs nil = ok fs
from_pairs fs (cons x xs) =
    let next = λ (stored : Fields). from_pairs stored xs in
    elim (store_pair fs (pair_items x)) [
      | ok stored ↦ next stored
      | raise e ↦ raise e
      | crash t ↦ crash t
    ]

unfoldable pub to_dict : Value → Outcome Fields
unfolding truthy from_pairs char_items
to_dict (obj fs) = ok fs
to_dict (arr xs) = from_pairs end xs
to_dict (str s) = from_pairs end (char_items s)
to_dict v = if truthy v then crash "TypeError" else ok end

unfoldable pub drop_canonical : Fields → Fields
drop_canonical end = end
drop_canonical (field k v fs) =
    let rest = drop_canonical fs in if is_canonical k then rest else field k v rest

unfoldable pub is_error_of : Option Value → Bool
unfolding truthy
is_error_of none = false
is_error_of (some v) = truthy v

unfoldable pub from_wire : Fields → Outcome ToolResult
unfolding get_value to_list to_dict drop_canonical is_error_of dict_get
from_wire value = do
  content ← to_list (get_value "content" value)
  meta ← to_dict (get_value "_meta" value)
  ok (record {
    content = content;
    structured_content = get_value "structuredContent" value;
    is_error = is_error_of (dict_get "isError" value);
    meta = meta;
    extra = drop_canonical value;
  })

-- `value[key] = item` under a condition.
unfoldable pub set_if : Bool → String → Value → Fields → Fields
unfolding dict_set
set_if true k v fs = dict_set k v fs
set_if false k v fs = fs

unfoldable pub is_null : Value → Bool
is_null null = true
is_null _ = false

unfoldable pub is_empty : Fields → Bool
is_empty end = true
is_empty (field k v fs) = false

unfoldable pub to_wire : ToolResult → Fields
unfolding set_if is_null is_empty dict_set
to_wire r = set_if (not (is_empty r.meta)) "_meta" (obj r.meta) (
    set_if (not (is_null r.structured_content)) "structuredContent" r.structured_content
      (dict_set "isError" (bool r.is_error) (dict_set "content" (arr r.content) r.extra)))

unfoldable pub error_to_wire : HostError → Fields
unfolding set_if is_empty
error_to_wire e =
    set_if (not (is_empty e.details)) "data" (obj e.details)
      (field "code" (str e.code) (field "message" (str e.message) end))

unfoldable pub tool_error_result : HostError → ToolResult
unfolding text_result error_to_wire
tool_error_result e =
    text_result e.message null true (field "openagent/error" (obj (error_to_wire e)) end)

-- ===== src/Client/Agreement.antt =====
-- A client and the host classify the calls of a tool alike.
use openagent_host_tools.Base.{
  String, ◌≡◌, refl, ap, sym, ◌∙◌, Bool, true, false, Option, none, some, List, [], ◌∷◌, map, arith,
  ltb, if◌then◌else◌, ◌==◌, Value, null, bool, int, float, str, arr, obj, foreign, Fields, end,
  field, dict_get, truthy, or_else, eq_iff,
}
use openagent_host_tools.Base.Maps.{find}
use openagent_host_tools.Types.{
  ToolClassification, read_only, idempotent, mutating, classification_value, risk, Rule,
  ToolManifest, lookup_option, match_value, match_rule, prepend, matches, max_by_risk, choose,
  classification_for, get_value, insert_item, sort_items, options_to_wire, rules_to_wire,
  tool_to_wire, with_rules,
}
use openagent_host_tools.Types.Worst.{
  worst, both, both_left_comm, or_base, classification_for-worst,
}
use openagent_host_tools.Client.Rules.{
  is_classification, text_risk, match_text, add_match, text_matches, max_by_text_risk, choose_text,
  classification_for_arguments, text_by, wire_options, rules_of, wire_classification_rules,
  installed_classification, installed_rules, tool_classification,
}

-- Sorting does not change what is found.
lookup_option-insert :
    (k j : String) (c : ToolClassification) (m : List (String × ToolClassification))
    → lookup_option k (insert_item j c m) ≡ (if j == k then some c else lookup_option k m)
unfolding lookup_option insert_item
lookup_option-insert k j c [] = refl
lookup_option-insert k j c ((i, d) ∷ m) =
    ground (arith, lookup_option-insert k j c m, eq_iff i k, eq_iff j k, eq_iff i j)

lookup_option-sort :
    (k : String) (m : List (String × ToolClassification))
    → lookup_option k (sort_items m) ≡ lookup_option k m
unfolding lookup_option sort_items
lookup_option-sort k [] = refl
lookup_option-sort k ((j, c) ∷ m) =
    lookup_option-insert k j c (sort_items m)
    ∙ ap (λ o. if j == k then some c else o) (lookup_option-sort k m)

worst-insert :
    (arguments : Fields) (argument : String) (options : List (String × ToolClassification))
    (rules : List Rule)
    → worst arguments (insert_item argument options rules)
      ≡ both (match_rule arguments (argument, options)) (worst arguments rules)
unfolding insert_item worst
worst-insert arguments argument options [] = refl
worst-insert arguments argument options ((other, values) ∷ rules) = ground (
  arith,
  worst-insert arguments argument options rules,
  both_left_comm (match_rule arguments (argument, options)) (match_rule arguments (other, values))
      (worst arguments rules),
)

worst-sort :
    (arguments : Fields) (rules : List Rule)
    → worst arguments (sort_items rules) ≡ worst arguments rules
unfolding sort_items worst
worst-sort arguments [] = refl
worst-sort arguments ((argument, options) ∷ rules) =
    worst-insert arguments argument options (sort_items rules)
    ∙ ap (both (match_rule arguments (argument, options))) (worst-sort arguments rules)

-- The text of a classification, if any.
abbrev value_of : Option ToolClassification → Option String
value_of none = none
value_of (some c) = some (classification_value c)

is_classification-value :
    (c : ToolClassification) → is_classification (classification_value c) ≡ true
unfolding classification_value
is_classification-value read_only = refl
is_classification-value idempotent = refl
is_classification-value mutating = refl

find-wire_options :
    (text_of : Value → String) (k : String) (options : List (String × ToolClassification))
    → find k (wire_options text_of (options_to_wire options)) ≡ value_of (lookup_option k options)
unfolding find wire_options options_to_wire lookup_option
find-wire_options text_of k [] = refl
find-wire_options text_of k ((j, c) ∷ options) =
    rw (is_classification-value c) (ground (arith, find-wire_options text_of k options))

match_text-wire :
    (text_of : Value → String) (o : Option Value) (options : List (String × ToolClassification))
    → match_text o (wire_options text_of (options_to_wire (sort_items options)))
      ≡ value_of (match_value o options)
unfolding match_text match_value
match_text-wire text_of (some (str s)) options =
    find-wire_options text_of s (sort_items options) ∙ ap value_of (lookup_option-sort s options)
match_text-wire text_of none options = refl
match_text-wire text_of (some null) options = refl
match_text-wire text_of (some (bool b)) options = refl
match_text-wire text_of (some (int z)) options = refl
match_text-wire text_of (some (float f)) options = refl
match_text-wire text_of (some (arr vs)) options = refl
match_text-wire text_of (some (obj fs)) options = refl
match_text-wire text_of (some (foreign t)) options = refl

add_match-value :
    (o : Option ToolClassification) (cs : List ToolClassification)
    → add_match (value_of o) (map classification_value cs) ≡ map classification_value (prepend o cs)
unfolding add_match prepend
add_match-value none cs = refl
add_match-value (some c) cs = refl

text_matches-wire :
    (text_of : Value → String) (arguments : Fields) (rules : List Rule)
    → text_matches arguments (rules_of text_of (rules_to_wire rules))
      ≡ map classification_value (matches arguments rules)
unfolding text_matches rules_of rules_to_wire matches match_rule
text_matches-wire text_of arguments [] = refl
text_matches-wire text_of arguments ((argument, options) ∷ rules) =
    rw
      (
        match_text-wire text_of (dict_get argument arguments) options,
        text_matches-wire text_of arguments rules,
      )
      (add_match-value (match_value (dict_get argument arguments) options)
        (matches arguments rules))

text_risk-value : (c : ToolClassification) → text_risk (classification_value c) ≡ risk c
unfolding text_risk classification_value risk
text_risk-value read_only = refl
text_risk-value idempotent = refl
text_risk-value mutating = refl

if_value :
    (x : Bool) (b c : ToolClassification)
    → (if x then classification_value c else classification_value b)
      ≡ classification_value (if x then c else b)
if_value true b c = refl
if_value false b c = refl

-- The riskier of two texts is that of the riskier of two classifications.
riskier_lem :
    (b c : ToolClassification)
    → (if ltb (text_risk (classification_value b)) (text_risk (classification_value c))
        then classification_value c
        else classification_value b)
      ≡ classification_value (if ltb (risk b) (risk c) then c else b)
riskier_lem b c = rw (text_risk-value b, text_risk-value c) (if_value (ltb (risk b) (risk c)) b c)

max_by_text_risk-value :
    (b : ToolClassification) (cs : List ToolClassification)
    → max_by_text_risk (classification_value b) (map classification_value cs)
      ≡ classification_value (max_by_risk b cs)
unfolding max_by_text_risk max_by_risk
max_by_text_risk-value b [] = refl
max_by_text_risk-value b (c ∷ cs) =
    ap (λ d. max_by_text_risk d (map classification_value cs)) (riskier_lem b c)
    ∙ max_by_text_risk-value (if ltb (risk b) (risk c) then c else b) cs

choose_text-value :
    (base : ToolClassification) (cs : List ToolClassification)
    → choose_text (classification_value base) (map classification_value cs)
      ≡ classification_value (choose base cs)
unfolding choose_text choose
choose_text-value base [] = rw (is_classification-value base) refl
choose_text-value base (c ∷ cs) = max_by_text_risk-value c cs

-- The order of the rules does not matter.
sorted_lem :
    (m : ToolManifest) (arguments : Fields)
    → choose m.classification (matches arguments (sort_items m.classification_by_argument))
      ≡ classification_for m arguments
unfolding classification_for
sorted_lem m arguments =
    classification_for-worst
      (record m { classification_by_argument = sort_items m.classification_by_argument }) arguments
    ∙ ap (or_base m.classification) (worst-sort arguments m.classification_by_argument)
    ∙ sym (classification_for-worst m arguments)

rules_of-truthy :
    (text_of : Value → String) (fs : Fields)
    → (if truthy (obj fs) then rules_of text_of fs else []) ≡ rules_of text_of fs
unfolding truthy rules_of
rules_of-truthy text_of end = refl
rules_of-truthy text_of (field k v fs) = refl

-- What the client installs of the wire form of a tool, also of one that has no rules.
installed_lem :
    (text_of : Value → String) (rules : List Rule)
    → let wire = get_value "classification_by_argument" (with_rules rules) in
      (if truthy wire then wire_classification_rules text_of wire else [])
      ≡ rules_of text_of (rules_to_wire (sort_items rules))
unfolding get_value dict_get wire_classification_rules
installed_lem text_of [] = unfold truthy rules_of rules_to_wire sort_items in refl
installed_lem text_of (rule ∷ rules) =
    rules_of-truthy text_of (rules_to_wire (sort_items (rule ∷ rules)))

installed_rules-tool_to_wire :
    (text_of : Value → String) (m : ToolManifest)
    → installed_rules text_of (tool_to_wire m)
      ≡ rules_of text_of (rules_to_wire (sort_items m.classification_by_argument))
unfolding installed_rules tool_to_wire get_value dict_get
installed_rules-tool_to_wire text_of m = installed_lem text_of m.classification_by_argument

installed_classification-tool_to_wire :
    (text_of : Value → String) (m : ToolManifest)
    → installed_classification text_of (tool_to_wire m) ≡ classification_value m.classification
unfolding installed_classification tool_to_wire get_value dict_get truthy classification_value
installed_classification-tool_to_wire text_of m = decoded m.classification
  where
    decoded :
        (c : ToolClassification)
        → text_by text_of (or_else (str (classification_value c)) (str "mutating"))
          ≡ classification_value c
    decoded read_only = refl
    decoded idempotent = refl
    decoded mutating = refl

-- A client that has the wire form of a tool classifies every call of it as the host does.
pub tool_classification-tool_to_wire :
    (text_of : Value → String) (m : ToolManifest) (arguments : Fields)
    → tool_classification text_of (tool_to_wire m) arguments
      ≡ classification_value (classification_for m arguments)
unfolding tool_classification classification_for_arguments
tool_classification-tool_to_wire text_of m arguments =
    rw
      (
        installed_classification-tool_to_wire text_of m,
        installed_rules-tool_to_wire text_of m,
        text_matches-wire text_of arguments (sort_items m.classification_by_argument),
      )
      (choose_text-value m.classification
          (matches arguments (sort_items m.classification_by_argument))
        ∙ ap classification_value (sorted_lem m arguments))

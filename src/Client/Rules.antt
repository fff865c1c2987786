-- ===== src/Client/Rules.antt =====
-- src/openagent_host_tools/local_broker.py: how a client classifies a call by the wire form of the
-- tool, so as to know whether a lost call may be repeated.
use openagent_host_tools.Base.{
  ℕ, String, Bool, ◌||◌, Option, none, some, List, [], ◌∷◌, ltb, if◌then◌else◌, ◌==◌, Value, str,
  obj, Fields, end, field, dict_get, truthy, or_else,
}
use openagent_host_tools.Base.Maps.{find}
use openagent_host_tools.Types.{get_value}

abbrev pub is_classification : String → Bool
is_classification s = s == "read_only" || s == "idempotent" || s == "mutating"

-- `risk`, of the texts that are classifications.
unfoldable pub text_risk : String → ℕ
text_risk s = if s == "read_only" then 0 else if s == "idempotent" then 1 else 2

abbrev pub TextRule : Type 0
TextRule = String × List (String × String)

unfoldable pub match_text : Option Value → List (String × String) → Option String
unfolding find
match_text (some (str s)) options = find s options
match_text _ options = none

unfoldable pub add_match : Option String → List String → List String
add_match none cs = cs
add_match (some c) cs = c ∷ cs

unfoldable pub text_matches : Fields → List TextRule → List String
unfolding match_text add_match dict_get
text_matches arguments [] = []
text_matches arguments ((argument, options) ∷ rules) =
    add_match (match_text (dict_get argument arguments) options) (text_matches arguments rules)

unfoldable pub max_by_text_risk : String → List String → String
unfolding text_risk
max_by_text_risk best [] = best
max_by_text_risk best (c ∷ cs) =
    max_by_text_risk (if ltb (text_risk best) (text_risk c) then c else best) cs

unfoldable pub choose_text : String → List String → String
unfolding max_by_text_risk
choose_text base [] = if is_classification base then base else "mutating"
choose_text base (c ∷ cs) = max_by_text_risk c cs

-- `_classification_for_arguments`
unfoldable pub classification_for_arguments : String → List TextRule → Fields → String
unfolding choose_text text_matches
classification_for_arguments base rules arguments = choose_text base (text_matches arguments rules)

-- `str` of a value that is no text is `text_of`.
abbrev pub text_by : (Value → String) → Value → String
text_by text_of (str s) = s
text_by text_of v = text_of v

module _ (text_of : Value → String) where
  unfoldable pub wire_options : Fields → List (String × String)
  wire_options end = []
  wire_options (field option c options) =
      let rest = wire_options options in
      if is_classification (text_by text_of c) then (option, text_by text_of c) ∷ rest else rest

  unfoldable pub rules_of : Fields → List TextRule
  unfolding wire_options
  rules_of end = []
  rules_of (field argument (obj options) rules) = (argument, wire_options options) ∷ rules_of rules
  rules_of (field argument v rules) = rules_of rules

  -- `_wire_classification_rules`
  unfoldable pub wire_classification_rules : Value → List TextRule
  unfolding rules_of
  wire_classification_rules (obj rules) = rules_of rules
  wire_classification_rules _ = []

  -- What `_install_catalog` keeps of a tool: its classification, and its rules if it has any.
  unfoldable pub installed_classification : Fields → String
  unfolding get_value
  installed_classification tool =
      text_by text_of (or_else (get_value "classification" tool) (str "mutating"))

  unfoldable pub installed_rules : Fields → List TextRule
  unfolding get_value wire_classification_rules truthy
  installed_rules tool =
      let rules = get_value "classification_by_argument" tool in
      if truthy rules then wire_classification_rules rules else []

  -- `_ensure_tool_classification`, of a tool that the catalog has.
  unfoldable pub tool_classification : Fields → Fields → String
  unfolding classification_for_arguments installed_classification installed_rules
  tool_classification tool arguments =
      classification_for_arguments (installed_classification tool) (installed_rules tool) arguments

-- ===== src/Mcp/Catalog.antt =====
-- What the adapter makes of the answers to its first requests, `initialize` and `tools/list`, and
-- the calls of its tools. A placeholder is the tools that a packaged manifest names.
use openagent_host_tools.Base.{
  String, Bool, false, none, some, List, [], ◌∷◌, ◌==◌, if◌then◌else◌, Value, bool, str, obj,
  Fields, end, field, or_else, Outcome, ok, raise, crash,
}
use Prim.Native.String.{◌++◌ as text_append}
use openagent_host_tools.Types.{
  ToolClassification, read_only, idempotent, mutating, ToolManifest, Rule, ToolResult, get_value,
  to_dict, from_wire,
}
use openagent_host_tools.Mcp.{Adapter}

-- `annotations.get(key) is True`
abbrev is_true : Value → Bool
is_true (bool b) = b
is_true _ = false

unfoldable pub classification_of : Fields → ToolClassification
unfolding get_value
classification_of annotations =
    if is_true (get_value "readOnlyHint" annotations)
    then read_only
    else if is_true (get_value "idempotentHint" annotations)
    then idempotent
    else mutating

-- `raw.get("annotations") or {}`, whose `get` only a dict has.
unfoldable pub annotations_of : Value → Outcome Fields
annotations_of (obj fs) = ok fs
annotations_of _ = crash "AttributeError"

-- `self.placeholder.tool(name)`: its rules, by the name of the tool.
unfoldable pub fallback_rules : String → List ToolManifest → List Rule
fallback_rules name [] = []
fallback_rules name (t ∷ ts) =
    let rest = fallback_rules name ts in
    if t.name == name then t.classification_by_argument else rest

module _ (text_of : Value → String) (placeholder : List ToolManifest) where
  abbrev named : Fields → String
  named raw = text_of (or_else (get_value "name" raw) (str ""))

  unfoldable pub tool_manifest : Fields → Outcome ToolManifest
  unfolding classification_of annotations_of fallback_rules get_value to_dict
  tool_manifest raw = elim (annotations_of (or_else (get_value "annotations" raw) (obj end))) [
    | ok annotations ↦
        elim (to_dict
          (or_else (get_value "inputSchema" raw) (obj (field "type" (str "object") end)))) [
            | ok schema ↦ ok (record {
              name = named raw;
              description = text_of (or_else (get_value "description" raw) (str ""));
              input_schema = obj schema;
              classification = classification_of annotations;
              classification_by_argument = fallback_rules (named raw) placeholder;
            })
            | raise e ↦ raise e
            | crash t ↦ crash t
          ]
    | raise e ↦ raise e
    | crash t ↦ crash t
  ]

-- `call`, with `_request` of the adapter given as an argument.
unfoldable pub call :
    (String → Fields → Adapter → Adapter × Outcome Fields)
    → String
    → Fields
    → Adapter
    → Adapter × Outcome ToolResult
unfolding from_wire
call requested tool args a = elim a.process [
  | none ↦ (
    a,
    raise (record {
      code = "plugin_unavailable";
      message = text_append "MCP " (text_append a.shown_name " is not running");
      details = end;
    }),
  )
  | some p ↦
      let answer =
        requested "tools/call" (field "name" (str tool) (field "arguments" (obj args) end)) a in
      (
        answer.0,
        elim answer.1 [ ok fields ↦ from_wire fields | raise e ↦ raise e | crash t ↦ crash t ],
      )
]

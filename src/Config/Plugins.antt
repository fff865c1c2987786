-- ===== src/Config/Plugins.antt =====
-- `PluginSpec` and `PluginConfigStore` (src/openagent_host_tools/config.py): which plugins a registry
-- may hold. Names, keys and the other texts are texts of the wire.
use Prim.Native.Char.{code}
use openagent_host_tools.Base.{
  ℕ, zero, suc, String, Bool, true, false, not, ◌&&◌, ◌||◌, nat_eq, leb, Option, none, some, List,
  [], ◌∷◌, member, if◌then◌else◌, ◌==◌, Value, bool, int, str, arr, obj, Items, nil, cons, Fields,
  end, field, dict_get, truthy, or_else, Outcome, ok, raise, crash, pos, int_of, ℤ,
}
use openagent_host_tools.Types.{get_value, to_dict, to_list}

pub record PluginSpec : Type 0 where
  pub name : String
  pub command : Items
  pub env : Fields
  pub cwd : Option String
  pub enabled : Bool

abbrev is_lower_or_digit : ℕ → Bool
is_lower_or_digit c = (leb 97 c && leb c 122) || (leb 48 c && leb c 57)

-- `[a-z0-9_-]{0,n}`
unfoldable pub is_name_rest : ℕ → String → Bool
is_name_rest n String.[] = true
is_name_rest zero (String.◌∷◌ c s) = false
is_name_rest (suc n) (String.◌∷◌ c s) =
    (is_lower_or_digit (code c) || nat_eq (code c) 95 || nat_eq (code c) 45) && is_name_rest n s

-- `_NAME_RE.fullmatch`
unfoldable pub is_name : String → Bool
unfolding is_name_rest
is_name String.[] = false
is_name (String.◌∷◌ c s) = is_lower_or_digit (code c) && is_name_rest 63 s

abbrev pub is_part : Value → Bool
is_part (str s) = not (s == "")
is_part _ = false

unfoldable pub are_parts : Items → Bool
are_parts nil = true
are_parts (cons v vs) = is_part v && are_parts vs

abbrev pub is_nil : Items → Bool
is_nil nil = true
is_nil _ = false

abbrev pub is_str : Value → Bool
is_str (str s) = true
is_str _ = false

unfoldable pub are_strings : Fields → Bool
are_strings end = true
are_strings (field k v fs) = is_str v && are_strings fs

-- `validate`, whose errors are a ValueError each.
unfoldable pub is_valid : PluginSpec → Bool
unfolding is_name are_parts are_strings
is_valid p = is_name p.name && (not (is_nil p.command) && are_parts p.command) && are_strings p.env

unfoldable pub validated : PluginSpec → Outcome PluginSpec
unfolding is_valid
validated p = if is_valid p then ok p else crash "ValueError"

abbrev pub value_or : Value → Option Value → Value
value_or default none = default
value_or default (some v) = v

abbrev pub named : String → List PluginSpec → Bool
named s [] = false
named s (p ∷ ps) = p.name == s || named s ps

-- A plugin before those after it: its error comes first.
unfoldable pub first_of : Outcome PluginSpec → Outcome (List PluginSpec) → Outcome (List PluginSpec)
first_of (ok p) (ok ps) = ok (p ∷ ps)
first_of (ok p) (raise e) = raise e
first_of (ok p) (crash t) = crash t
first_of (raise e) r = raise e
first_of (crash t) r = crash t

-- The search of `load` for a name that comes twice.
unfoldable pub no_duplicates : List String → List PluginSpec → Bool
no_duplicates names [] = true
no_duplicates names (p ∷ ps) =
    let rest = no_duplicates (p.name ∷ names) ps in not (member p.name names) && rest

unfoldable pub check_unique : Outcome (List PluginSpec) → Outcome (List PluginSpec)
unfolding no_duplicates
check_unique (ok ps) = if no_duplicates [] ps then ok ps else crash "ValueError"
check_unique (raise e) = raise e
check_unique (crash t) = crash t

-- The values that an array of the file, or another value in its place, gives to a loop.
unfoldable pub iterated : Value → Outcome Items
iterated (arr vs) = ok vs
iterated v = crash "TypeError"

unfoldable pub parse_entries_of :
    (Items → Outcome (List PluginSpec)) → Outcome Items → Outcome (List PluginSpec)
unfolding check_unique
parse_entries_of parse (ok entries) = check_unique (parse entries)
parse_entries_of parse (raise e) = raise e
parse_entries_of parse (crash t) = crash t

module _ (text_of_other : Value → String) where
  -- `str(value)`
  abbrev text_of : Value → String
  text_of (str s) = s
  text_of v = text_of_other v

  -- `str(raw["cwd"]) if raw.get("cwd") else None`
  abbrev cwd_of : Value → Option String
  cwd_of v = if truthy v then some (text_of v) else none

  unfoldable pub built : Fields → Items → Fields → Outcome PluginSpec
  unfolding validated dict_get get_value truthy
  built raw command env = validated (record {
    name = text_of (value_or (str "") (dict_get "name" raw));
    command = command;
    env = env;
    cwd = cwd_of (get_value "cwd" raw);
    enabled = truthy (value_or (bool true) (dict_get "enabled" raw));
  })

  unfoldable pub with_env : Fields → Items → Outcome Fields → Outcome PluginSpec
  unfolding built
  with_env raw command (ok env) = built raw command env
  with_env raw command (raise e) = raise e
  with_env raw command (crash t) = crash t

  unfoldable pub with_command : Fields → Outcome Items → Outcome PluginSpec
  unfolding with_env to_dict get_value
  with_command raw (ok command) =
      with_env raw command (to_dict (or_else (get_value "env" raw) (obj end)))
  with_command raw (raise e) = raise e
  with_command raw (crash t) = crash t

  -- `PluginSpec.from_wire`
  unfoldable pub from_wire : Fields → Outcome PluginSpec
  unfolding with_command to_list get_value
  from_wire raw = with_command raw (to_list (or_else (get_value "command" raw) (arr nil)))

  unfoldable pub parse_entries : Items → Outcome (List PluginSpec)
  unfolding from_wire
  parse_entries nil = ok []
  parse_entries (cons (obj fs) vs) = first_of (from_wire fs) (parse_entries vs)
  parse_entries (cons v vs) = crash "AttributeError"

  -- `load` of a file that is there, from what `tomllib` reads of it.
  unfoldable pub load_version : Fields → Outcome ℤ → Outcome (List PluginSpec)
  unfolding parse_entries parse_entries_of iterated dict_get
  load_version raw (ok (pos (suc zero))) =
      parse_entries_of parse_entries
        (iterated (value_or (value_or (arr nil) (dict_get "plugins" raw)) (dict_get "mcp" raw)))
  load_version raw (ok z) = crash "ValueError"
  load_version raw (raise e) = raise e
  load_version raw (crash t) = crash t

  unfoldable pub load : Fields → Outcome (List PluginSpec)
  unfolding load_version int_of dict_get
  load raw = load_version raw (int_of (value_or (int (pos 1)) (dict_get "version" raw)))

-- `PluginSpec.to_wire`
abbrev pub is_end : Fields → Bool
is_end end = true
is_end _ = false

abbrev pub cwd_fields : Option String → Fields
cwd_fields none = end
cwd_fields (some s) = if s == "" then end else field "cwd" (str s) end

unfoldable pub to_wire : PluginSpec → Fields
to_wire p = field "name" (str p.name) (
    field "command" (arr p.command) (
      field "enabled" (bool p.enabled)
        (if is_end p.env then cwd_fields p.cwd else field "env" (obj p.env) (cwd_fields p.cwd))))

-- The tests of `save`, whose errors are a ValueError each: every plugin is valid, and the names
-- are distinct.
unfoldable pub all_valid : List PluginSpec → Bool
unfolding is_valid
all_valid [] = true
all_valid (p ∷ ps) = is_valid p && all_valid ps

unfoldable pub are_unique : List PluginSpec → Bool
are_unique [] = true
are_unique (p ∷ ps) = not (named p.name ps) && are_unique ps

unfoldable pub save : List PluginSpec → Outcome (List PluginSpec)
unfolding all_valid are_unique
save ps = if all_valid ps && are_unique ps then ok ps else crash "ValueError"

unfoldable pub entries_of : List PluginSpec → Items
unfolding to_wire
entries_of [] = nil
entries_of (p ∷ ps) = cons (obj (to_wire p)) (entries_of ps)

-- What the lines of `save` stand for, if TOML can read them: a table of the array `mcp` for each plugin.
unfoldable pub document : List PluginSpec → Fields
unfolding entries_of
document [] = field "version" (int (pos 1)) end
document (p ∷ ps) = field "version" (int (pos 1)) (field "mcp" (arr (entries_of (p ∷ ps))) end)

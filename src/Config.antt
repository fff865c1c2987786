-- ===== src/Config.antt =====
-- src/openagent_host_tools/config.py: the registry of plugins, its texts in TOML, and what may stand
-- in it. A text is the list of its code points.
pub mod Toml
pub mod Plugins
pub mod Registry
mod Tests
use openagent_host_tools.Base.{
  ℕ, Bool, true, false, not, ◌&&◌, ◌||◌, nat_eq, leb, ltb, Option, none, some, List, [], ◌∷◌, ◌++◌,
  if◌then◌else◌, all, length,
}

abbrev pub Text : Type 0
Text = List ℕ

-- `text.replace(old, new)` for a text `old` of one character.
unfoldable pub replace : ℕ → Text → Text → Text
replace old new [] = []
replace old new (c ∷ s) =
    let rest = replace old new s in if nat_eq c old then new ++ rest else c ∷ rest

-- `_toml_value` of a text
unfoldable pub toml_text : Text → Text
unfolding replace
toml_text s =
    b'"' ∷ (replace b'"' (b'\\' ∷ b'"' ∷ []) (replace b'\\' (b'\\' ∷ b'\\' ∷ []) s) ++ b'"' ∷ [])

-- The characters of a bare key.
abbrev pub is_bare_character : ℕ → Bool
is_bare_character c =
    (leb b'A' c && leb c b'Z')
    || (leb b'a' c && leb c b'z')
    || (leb b'0' c && leb c b'9')
    || nat_eq c b'_'
    || nat_eq c b'-'

abbrev pub is_bare : Text → Bool
is_bare [] = false
is_bare (c ∷ s) = is_bare_character c && all is_bare_character s

-- `_toml_key`
unfoldable pub toml_key : Text → Text
unfolding toml_text
toml_key s = if is_bare s then s else toml_text s

abbrev pub comma : Text
comma = b',' ∷ b' ' ∷ []

-- `", ".join`
unfoldable pub join : List Text → Text
join [] = []
join (t ∷ []) = t
join (t ∷ u ∷ ts) = t ++ (comma ++ join (u ∷ ts))

unfoldable pub toml_texts : List Text → List Text
unfolding toml_text
toml_texts [] = []
toml_texts (s ∷ ss) = toml_text s ∷ toml_texts ss

-- `_toml_value` of a list of texts
unfoldable pub toml_list : List Text → Text
unfolding join toml_texts
toml_list ss = b'[' ∷ (join (toml_texts ss) ++ b']' ∷ [])

unfoldable pub toml_items : List (Text × Text) → List Text
unfolding toml_key toml_text
toml_items [] = []
toml_items ((k, v) ∷ items) = (toml_key k ++ (b' ' ∷ b'=' ∷ b' ' ∷ toml_text v)) ∷ toml_items items

-- `_toml_value` of a dict of texts
unfoldable pub toml_table : List (Text × Text) → Text
unfolding join toml_items
toml_table items = b'{' ∷ (join (toml_items items) ++ b'}' ∷ [])

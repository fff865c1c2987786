-- ===== src/Config/Tests.antt =====
-- Texts and registries that are written and read.
use openagent_host_tools.Base.{
  ◌≡◌, refl, true, false, none, some, [], ◌∷◌, ◌++◌, str, nil, cons, end, field, ok, crash,
}
use openagent_host_tools.Config.{toml_text, toml_key, toml_list, toml_table}
use openagent_host_tools.Config.Toml.{read_text, read_text-toml_text}
use openagent_host_tools.Config.Plugins.{PluginSpec, save}

-- The text a"\ is written with two backslashes more.
toml_text_lem :
    toml_text (b'a' ∷ b'"' ∷ b'\\' ∷ []) ≡ b'"' ∷ b'a' ∷ b'\\' ∷ b'"' ∷ b'\\' ∷ b'\\' ∷ b'"' ∷ []
unfolding toml_text
toml_text_lem = refl

toml_list_lem :
    toml_list ((b'a' ∷ []) ∷ (b'b' ∷ []) ∷ [])
    ≡ b'[' ∷ b'"' ∷ b'a' ∷ b'"' ∷ b',' ∷ b' ' ∷ b'"' ∷ b'b' ∷ b'"' ∷ b']' ∷ []
unfolding toml_list
toml_list_lem = refl

toml_table_lem :
    toml_table ((b'K' ∷ [], b'v' ∷ []) ∷ [])
    ≡ b'{' ∷ b'K' ∷ b' ' ∷ b'=' ∷ b' ' ∷ b'"' ∷ b'v' ∷ b'"' ∷ b'}' ∷ []
unfolding toml_table
toml_table_lem = refl

toml_key_lem : toml_key (b'a' ∷ b' ' ∷ []) ≡ b'"' ∷ b'a' ∷ b' ' ∷ b'"' ∷ []
unfolding toml_key
toml_key_lem = refl

-- A text with a line feed does not read back.
line_feed_lem : read_text (toml_text (b'a' ∷ 10 ∷ [])) ≡ none
unfolding read_text toml_text
line_feed_lem = refl

read_text-toml_text_example :
    read_text (toml_text (b'a' ∷ b'"' ∷ []) ++ (10 ∷ [])) ≡ some (b'a' ∷ b'"' ∷ [], 10 ∷ [])
read_text-toml_text_example = read_text-toml_text (b'a' ∷ b'"' ∷ []) (10 ∷ []) refl

abbrev files : PluginSpec
files = record {
  name = "files";
  command = cons (str "node") (cons (str "files.js") nil);
  env = field "HOME" (str "/root") end;
  cwd = some "/srv";
  enabled = true;
}

abbrev clock : PluginSpec
clock = record {
  name = "clock-2";
  command = cons (str "clock") nil;
  env = end;
  cwd = none;
  enabled = false;
}

save_lem : save (files ∷ clock ∷ []) ≡ ok (files ∷ clock ∷ [])
unfolding save
save_lem = refl

save_twice : save (files ∷ files ∷ []) ≡ crash "ValueError"
unfolding save
save_twice = refl

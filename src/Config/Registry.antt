-- ===== src/Config/Registry.antt =====
-- What is saved to the registry of plugins is loaded again.
use openagent_host_tools.Base.{
  ◌≡◌, refl, ap, ◌∙◌, String, Bool, true, false, not, ◌&&◌, Option, none, some, List, [], ◌∷◌,
  member, ◌==◌, arith, eq_iff, &&-left, &&-right, Bool-cases, inl, inr, Value, Items, nil, cons,
  Fields, end, field, ok,
}
use openagent_host_tools.Config.Plugins.{
  PluginSpec, is_valid, validated, built, from_wire, to_wire, all_valid, named, are_unique, save,
  entries_of, document, load, parse_entries, first_of, no_duplicates, check_unique,
}

-- No plugin has the empty text as its directory, which stands for none in the file.
abbrev pub has_directory : Option String → Bool
has_directory none = true
has_directory (some s) = not (s == "")

abbrev pub have_directories : List PluginSpec → Bool
have_directories [] = true
have_directories (p ∷ ps) = has_directory p.cwd && have_directories ps

module _ (text_of_other : Value → String) where
  -- What is written of a plugin is built again, before it is checked.
  rebuilt :
      (name : String) (v : Value) (command : Items) (env : Fields) (cwd : Option String)
      (enabled : Bool)
      → has_directory cwd ≡ true
      → from_wire text_of_other (
          to_wire (record {
            name = name;
            command = cons v command;
            env = env;
            cwd = cwd;
            enabled = enabled;
          }))
        ≡ validated (record {
          name = name;
          command = cons v command;
          env = env;
          cwd = cwd;
          enabled = enabled;
        })
  unfolding from_wire to_wire built
  rebuilt name v command end none enabled d = refl
  rebuilt name v command end (some s) enabled d =
      let filled : (s == "") ≡ false = ground (arith, d) in simp filled
  rebuilt name v command (field k w fs) none enabled d = refl
  rebuilt name v command (field k w fs) (some s) enabled d =
      let filled : (s == "") ≡ false = ground (arith, d) in simp filled

  from_wire-to_wire :
      (name : String) (command : Items) (env : Fields) (cwd : Option String) (enabled : Bool)
      → let p : PluginSpec = record {
        name = name;
        command = command;
        env = env;
        cwd = cwd;
        enabled = enabled;
      } in
        is_valid p ≡ true → has_directory cwd ≡ true → from_wire text_of_other (to_wire p) ≡ ok p
  unfolding validated
  from_wire-to_wire name nil env cwd enabled v d = absurd (ground (arith, v))
  from_wire-to_wire name (cons w command) env cwd enabled v d =
      rebuilt name w command env cwd enabled d ∙ rw v refl

  parse_entries-entries_of :
      (ps : List PluginSpec)
      → all_valid ps ≡ true
      → have_directories ps ≡ true
      → parse_entries text_of_other (entries_of ps) ≡ ok ps
  unfolding parse_entries entries_of all_valid first_of
  parse_entries-entries_of [] v d = refl
  parse_entries-entries_of (p ∷ ps) v d =
      let one =
        from_wire-to_wire p.name p.command p.env p.cwd p.enabled
          (&&-left (is_valid p) (all_valid ps) v)
          (&&-left (has_directory p.cwd) (have_directories ps) d) in
      let rest =
        parse_entries-entries_of ps (&&-right (is_valid p) (all_valid ps) v)
          (&&-right (has_directory p.cwd) (have_directories ps) d) in
      λ i. first_of (one i) (rest i)

-- The names that come before are not among those to come.
abbrev apart : List String → List PluginSpec → Bool
apart [] ps = true
apart (n ∷ names) ps = not (named n ps) && apart names ps

apart-tail :
    (p : PluginSpec) (names : List String) (ps : List PluginSpec)
    → apart names (p ∷ ps) ≡ true
    → (member p.name names ≡ false) × (apart names ps ≡ true)
apart-tail p [] ps a = (refl, refl)
apart-tail p (n ∷ names) ps a =
    let rest = apart-tail p names ps (ground (arith, a)) in
    (ground (arith, a, rest.0, eq_iff p.name n, eq_iff n p.name), ground (arith, a, rest.1))

no_duplicates-are_unique :
    (names : List String) (ps : List PluginSpec)
    → apart names ps ≡ true
    → are_unique ps ≡ true
    → no_duplicates names ps ≡ true
unfolding no_duplicates are_unique
no_duplicates-are_unique names [] a u = refl
no_duplicates-are_unique names (p ∷ ps) a u =
    let (new, rest) = apart-tail p names ps a in
    ground (
      arith,
      new,
      no_duplicates-are_unique (p.name ∷ names) ps (ground (arith, rest, u)) (ground (arith, u)),
    )

saved : (ps : List PluginSpec) → save ps ≡ ok ps → (all_valid ps ≡ true) × (are_unique ps ≡ true)
unfolding save
saved ps s = elim (Bool-cases (all_valid ps && are_unique ps)) [
  | inl e ↦ (&&-left (all_valid ps) (are_unique ps) e, &&-right (all_valid ps) (are_unique ps) e)
  | inr e ↦ absurd (ground (arith, s, e))
]

-- The value that the lines of a saved registry stand for is loaded as the registry was, if no plugin
-- has the empty text as its directory, and if `tomllib` reads the lines as that value, which it
-- refuses to do where a text has a control character.
pub load-save :
    (text_of_other : Value → String) (ps : List PluginSpec)
    → save ps ≡ ok ps
    → have_directories ps ≡ true
    → load text_of_other (document ps) ≡ ok ps
unfolding load document check_unique parse_entries entries_of
load-save text_of_other [] s d = refl
load-save text_of_other (p ∷ ps) s d =
    let (valid, unique) = saved (p ∷ ps) s in
    ap check_unique (parse_entries-entries_of text_of_other (p ∷ ps) valid d)
    ∙ rw (no_duplicates-are_unique [] (p ∷ ps) refl unique) refl

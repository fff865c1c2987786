-- ===== src/Editor.antt =====
-- The edit and the search of `EditorServer` (src/openagent_host_tools/builtins/editor.py). A text is
-- the list of its code points; the reading and writing of files, paths, and the matching of patterns
-- are arguments.
pub mod Edit
pub mod Search
mod Tests
use Prim.Native.String.{◌++◌ as text_append}
use openagent_host_tools.Base.{
  ℕ, zero, suc, ◌+◌, ◌-◌, String, Bool, true, false, not, ◌&&◌, ◌||◌, ◌==◌, nat_eq, leb, ltb,
  Option, none, some, List, [], ◌∷◌, ◌++◌, length, take, drop, member, if◌then◌else◌, HostError,
  Outcome, ok, raise, crash, Fields, end,
}

abbrev pub Text : Type 0
Text = List ℕ

-- The line ends of a text as `read_text` gives them: every end of a line becomes a line feed.
unfoldable pub universal : Text → Text
universal [] = []
universal (c ∷ []) = if nat_eq c 13 then 10 ∷ [] else c ∷ []
universal (c ∷ d ∷ s) =
    let rest = universal (d ∷ s) in
    if nat_eq c 13 then if nat_eq d 10 then rest else 10 ∷ rest else c ∷ rest

unfoldable pub is_prefix : Text → Text → Bool
is_prefix [] s = true
is_prefix (c ∷ old) [] = false
is_prefix (c ∷ old) (d ∷ s) = nat_eq c d && is_prefix old s

-- `content.count(old)`: the number tells how many characters of an occurrence are still to pass.
unfoldable pub count : Text → ℕ → Text → ℕ
unfolding is_prefix
count old skip [] = 0
count old (suc skip) (c ∷ s) = count old skip s
count old zero (c ∷ s) =
    let found = suc (count old (length old - 1) s) in
    let other = count old zero s in if is_prefix old (c ∷ s) then found else other

-- `content.replace(old, new, limit)`
unfoldable pub replace : Text → Text → ℕ → ℕ → Text → Text
unfolding is_prefix
replace old new limit skip [] = []
replace old new limit (suc skip) (c ∷ s) = replace old new limit skip s
replace old new limit zero (c ∷ s) =
    let found = new ++ replace old new (limit - 1) (length old - 1) s in
    let other = c ∷ replace old new limit zero s in
    if ltb 0 limit && is_prefix old (c ∷ s) then found else other

pub record Edited : Type 0 where
  pub replacements : ℕ
  pub total_occurrences : ℕ

unfoldable pub editor_error : String → String → HostError
editor_error code message = record { code = code; message = message; details = end }

-- `_tool_edit` after its arguments have been read: the new file, if it is written, and the result.
-- A file that cannot be read or written is an error with its message.
unfoldable pub edited : Text → Text → Bool → Text → Option String → Option Text × Outcome Edited
unfolding count replace editor_error
edited old new replace_all content write_error =
    let total = count old zero content in
    if nat_eq total 0
    then (none, raise (editor_error "text_not_found" "old_string not found"))
    else elim write_error [
      | some error ↦ (none, raise (editor_error "editor_error" error))
      | none ↦ (
        some (replace old new (if replace_all then total else 1) zero content),
        ok (record { replacements = if replace_all then total else 1; total_occurrences = total }),
      )
    ]

unfoldable pub edit :
    Text → Text → Bool → Outcome Text → Option String → Option Text × Outcome Edited
unfolding universal edited
edit old new replace_all (ok raw) write_error =
    edited old new replace_all (universal raw) write_error
edit old new replace_all (raise e) write_error = (none, raise e)
edit old new replace_all (crash t) write_error = (none, raise (editor_error "editor_error" t))

-- What `_tool_grep` sees of a file below its root.
pub record Candidate : Type 0 where
  pub path : String
  pub relative : String
  pub parts : List String
  pub is_file : Bool
  pub size : ℕ
  pub lines : Option (List String)

pub record Match : Type 0 where
  pub file : String
  pub line : ℕ
  pub content : String
  pub context_before : List String
  pub context_after : List String

abbrev pub is_skipped_part : List String → Bool
is_skipped_part [] = false
is_skipped_part (p ∷ ps) = (p == ".git" || p == "node_modules" || p == "dist") || is_skipped_part ps

-- The lines of a file that is searched: none of one that is passed over.
unfoldable pub searched : (String → Bool) → Candidate → List String
searched fits c =
    if not c.is_file || is_skipped_part c.parts || not (fits c.relative) || ltb 10485760 c.size
    then []
    else elim c.lines [ none ↦ [] | some lines ↦ lines ]

module _ (search : String → Bool) (context limit : ℕ) where
  unfoldable pub match_at : String → List String → ℕ → String → Match
  match_at file lines index line = record {
    file = file;
    line = suc index;
    content = line;
    context_before = take (index - (index - context)) (drop (index - context) lines);
    context_after = take context (drop (suc index) lines);
  }

  -- The loop over the lines of a file, which the limit leaves.
  unfoldable pub scan : String → List String → ℕ → List String → List Match → List Match
  unfolding match_at
  scan file lines index [] matches = matches
  scan file lines index (l ∷ ls) matches =
      let longer = matches ++ match_at file lines index l ∷ [] in
      let more = scan file lines (suc index) ls longer in
      let other = scan file lines (suc index) ls matches in
      if search l then if leb limit (length longer) then longer else more else other

  -- The loop over the files.
  unfoldable pub grep : (String → Bool) → List Candidate → List Match → List Match
  unfolding scan searched
  grep fits [] matches = matches
  grep fits (c ∷ cs) matches =
      let rest = grep fits cs (scan c.path (searched fits c) 0 (searched fits c) matches) in
      if leb limit (length matches) then matches else rest

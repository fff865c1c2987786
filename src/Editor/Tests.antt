-- ===== src/Editor/Tests.antt =====
-- Edits of small texts, and a search.
use openagent_host_tools.Base.{
  zero, ◌≡◌, refl, String, true, false, none, some, List, [], ◌∷◌, ◌==◌, take, ok,
}
use openagent_host_tools.Editor.{Text, universal, is_prefix, count, edit, Candidate, grep}
use openagent_host_tools.Editor.Edit.{edit-first}
use openagent_host_tools.Editor.Search.{found_in, grep-take}

-- In a text with line ends of two characters, one edit writes all of them anew.
abbrev lines : Text
lines = b'a' ∷ 13 ∷ 10 ∷ b'b' ∷ 13 ∷ 10 ∷ []

universal_lem : universal lines ≡ b'a' ∷ 10 ∷ b'b' ∷ 10 ∷ []
unfolding universal
universal_lem = refl

count_lem : count (b'a' ∷ b'a' ∷ []) zero (b'a' ∷ b'a' ∷ b'a' ∷ b'a' ∷ b'a' ∷ []) ≡ 2
unfolding count
count_lem = refl

edit_all : edit (b'a' ∷ []) (b'x' ∷ b'a' ∷ []) true (ok (b'a' ∷ b'b' ∷ b'a' ∷ [])) none ≡ (
  some (b'x' ∷ b'a' ∷ b'b' ∷ b'x' ∷ b'a' ∷ []),
  ok (record { replacements = 2; total_occurrences = 2 }),
)
unfolding edit
edit_all = refl

earliest_lem : is_prefix (b'b' ∷ []) (b'a' ∷ 10 ∷ b'b' ∷ 10 ∷ []) ≡ false
unfolding is_prefix
earliest_lem = refl

earlier_lem : is_prefix (b'b' ∷ []) (10 ∷ b'b' ∷ 10 ∷ []) ≡ false
unfolding is_prefix
earlier_lem = refl

edit-first_example : edit (b'b' ∷ []) (b'c' ∷ []) false (ok lines) none ≡ (
  some (b'a' ∷ 10 ∷ b'c' ∷ 10 ∷ []),
  ok (record {
    replacements = 1;
    total_occurrences = count (b'b' ∷ []) zero (b'a' ∷ 10 ∷ b'b' ∷ 10 ∷ []);
  }),
)
edit-first_example =
    edit-first b'b' [] (b'c' ∷ []) (10 ∷ []) lines (b'a' ∷ 10 ∷ []) universal_lem
      (earliest_lem, (earlier_lem, _))

abbrev file : String → List String → Candidate
file path lines = record {
  path = path;
  relative = path;
  parts = path ∷ [];
  is_file = true;
  size = 10;
  lines = some lines;
}

abbrev files : List Candidate
files = file "a" ("x" ∷ "y" ∷ "x" ∷ []) ∷ file "b" ("x" ∷ []) ∷ []

grep_lem :
    grep (λ l. l == "x") 1 2 (λ f. true) files []
    ≡ (record {
      file = "a";
      line = 1;
      content = "x";
      context_before = [];
      context_after = "y" ∷ [];
    })
      ∷ (record {
        file = "a";
        line = 3;
        content = "x";
        context_before = "y" ∷ [];
        context_after = [];
      })
      ∷ []
unfolding grep
grep_lem = refl

grep-take_example :
    grep (λ l. l == "x") 1 2 (λ f. true) files []
    ≡ take 2 (found_in (λ l. l == "x") 1 2 (λ f. true) files)
grep-take_example = grep-take (λ l. l == "x") 1 2 (λ f. true) files

-- ===== src/Types/Tests.antt =====
-- The theorems of classifications and wire forms at concrete values.
use openagent_host_tools.Base.{
  ◌≡◌, refl, true, false, [], ◌∷◌, str, int, pos, bool, null, nil, cons, Fields, end, field, ok,
}
use openagent_host_tools.Types.{
  read_only, idempotent, mutating, Rule, ToolManifest, classification_for, ToolResult, to_wire,
  from_wire,
}
use openagent_host_tools.Types.Classify.{
  IsRestrictive, classification_for-IsRestrictive, IsRestrictive,
}
use openagent_host_tools.Types.Wire.{from_wire-to_wire}

abbrev by_action : Rule
by_action = ("action", ("screenshot", read_only) ∷ ("click", mutating) ∷ [])

abbrev by_mode : Rule
by_mode = ("mode", ("safe", idempotent) ∷ [])

abbrev computer : ToolManifest
computer = record {
  name = "computer";
  description = "";
  input_schema = null;
  classification = mutating;
  classification_by_argument = by_action ∷ by_mode ∷ [];
}

abbrev arguments : Fields
arguments = field "action" (str "screenshot") (field "mode" (str "safe") end)

safe_screenshot : classification_for computer arguments ≡ idempotent
unfolding classification_for
safe_screenshot = refl

no_action : classification_for computer end ≡ mutating
unfolding classification_for
no_action = refl

classification_for-IsRestrictive_example :
    IsRestrictive computer arguments (classification_for computer arguments)
classification_for-IsRestrictive_example = classification_for-IsRestrictive computer arguments

abbrev listing : ToolResult
listing = record {
  content = cons (str "a.txt") nil;
  structured_content = int (pos 1);
  is_error = false;
  meta = field "openagent/replayed" (bool true) end;
  extra = field "annotations" null end;
}

from_wire-to_wire_example : from_wire (to_wire listing) ≡ ok listing
from_wire-to_wire_example = from_wire-to_wire listing (refl, tt)

-- ===== src/Client/Tests.antt =====
-- A client that sends a mutating request, and loses the connection or gets the answer.
use openagent_host_tools.Base.{
  String, ◌≡◌, refl, true, some, List, [], ◌∷◌, Value, str, bool, obj, Fields, end, field, All,
}
use openagent_host_tools.Mcp.{waiting, result, exception}
use openagent_host_tools.Client.{Client, new_client, disconnect_error}
use openagent_host_tools.Client.Steps.{Event, starts, opens, frame, stops, fails, step, run}
use openagent_host_tools.Client.Histories.{IsServed, run-IsServed}
use openagent_host_tools.Client.Fates.{Origin, step-Origin}
use openagent_host_tools.Types.{
  ToolManifest, read_only, idempotent, mutating, classification_value, classification_for,
  tool_to_wire,
}
use openagent_host_tools.Client.Rules.{tool_classification}
use openagent_host_tools.Client.Agreement.{tool_classification-tool_to_wire}

abbrev shown_text : Value → String
shown_text (str s) = s
shown_text v = "1"

abbrev sending : List Event
sending = starts ∷ opens true ∷ []

abbrev sent_client : Client
sent_client = record {
  transport = some 1;
  connections = 1;
  listener = some 1;
  listening = 1 ∷ [];
  failing = [];
  requests =
      (record { id = "py-1"; transport = some 1; indeterminate = true; future = waiting }) ∷ [];
  next_id = 1;
}

run-sending : run shown_text sending new_client ≡ sent_client
unfolding run
run-sending = refl

abbrev granted : Fields
granted = field "id" (str "py-1") (field "ok" (bool true) (field "result" (obj end) end))

-- The answer comes.
step-frame :
    (step shown_text (frame 1 granted) sent_client).requests
    ≡ (record { id = "py-1"; transport = some 1; indeterminate = true; future = result end }) ∷ []
unfolding step
step-frame = refl

-- The connection is lost first.
abbrev losing : List Event
losing = starts ∷ opens true ∷ stops 1 ∷ fails 1 ∷ frame 1 granted ∷ []

run-losing :
    (run shown_text losing new_client).requests
    ≡ (record {
      id = "py-1";
      transport = some 1;
      indeterminate = true;
      future = exception (disconnect_error true);
    })
      ∷ []
unfolding run
run-losing = refl

run-IsServed_example : IsServed (run shown_text losing new_client)
run-IsServed_example = run-IsServed shown_text losing

step-Origin_example :
    All
      (Origin shown_text (frame 1 granted) sent_client)
      (step shown_text (frame 1 granted) sent_client).requests
step-Origin_example = step-Origin shown_text (frame 1 granted) sent_client

-- A browser tool that reads or clicks, by its argument.
abbrev browser : ToolManifest
browser = record {
  name = "browser";
  description = "drives a page";
  input_schema = obj end;
  classification = mutating;
  classification_by_argument =
      ("mode", ("safe", idempotent) ∷ [])
      ∷ ("action", ("read", read_only) ∷ ("click", mutating) ∷ [])
      ∷ [];
}

tool_classification_lem :
    tool_classification shown_text
      (tool_to_wire browser)
      (field "action" (str "read") (field "mode" (str "safe") end))
    ≡ "idempotent"
unfolding tool_classification tool_to_wire
tool_classification_lem = refl

tool_classification-tool_to_wire_example :
    tool_classification shown_text (tool_to_wire browser) (field "action" (str "read") end)
    ≡ classification_value (classification_for browser (field "action" (str "read") end))
tool_classification-tool_to_wire_example =
    tool_classification-tool_to_wire shown_text browser (field "action" (str "read") end)

-- ===== src/Host/Admit.antt =====
-- `_admit_call`, first half: what is checked before the claim.
use Prim.Native.Char.{code}
use Prim.Native.String.{◌++◌ as text_append}
use openagent_host_tools.Base.{
  is_space, String, Bool, true, false, not, ◌&&◌, Option, none, some, List, [], ◌∷◌, if◌then◌else◌,
  ◌==◌, member, Value, int, end, field, str, obj, bool, dict_get, HostError, Outcome, raise, crash,
  arr,
}
use openagent_host_tools.Types.{ToolManifest, ToolClassification, classification_for}
use openagent_host_tools.Host.{Kind, Provider, Host, Config, Call, find, audit_denial}
use openagent_host_tools.Host.Dispatch.{Env, Admission, consent_required, claim_key}

unfoldable pub is_blank : String → Bool
unfolding is_space
is_blank String.[] = true
is_blank (String.◌∷◌ ch s) = is_space (code ch) && is_blank s

-- A network id is a text that is not blank, or an int (a bool is one).
unfoldable pub is_network_id : Option Value → Bool
unfolding is_blank
is_network_id (some (str s)) = not (is_blank s)
is_network_id (some (int n)) = true
is_network_id (some (bool b)) = true
is_network_id _ = false

-- `_require_browser_network_context`, true where it returns.
unfoldable pub has_network_context : Option Value → Bool
unfolding is_network_id dict_get
has_network_context (some (obj fs)) = is_network_id (dict_get "network_id" fs)
has_network_context _ = false

unfoldable pub is_action : List String → Option Value → Bool
is_action actions (some (str s)) = member s actions
is_action actions _ = false

module _ (g : Config) (env : Env) (c : Call) where
  unfoldable pub denied : HostError → Host → Host × Outcome Admission
  denied e h = (audit_denial env.audit_time c e.code h, raise e)

  -- Whether the call starts or stops a screen recording.
  unfoldable pub is_recording_call : Bool
  unfolding is_action dict_get
  is_recording_call =
      c.server == "computer-control"
      && is_action ("start_screen_recording" ∷ "stop_screen_recording" ∷ [])
          (dict_get "action" c.args)

  abbrev pub is_other : Option String → Bool
  is_other none = false
  is_other (some owner) = not (owner == c.principal)

  unfoldable pub recording_mismatch : HostError
  recording_mismatch = record {
    code = "resource_owner_mismatch";
    message = "screen recording belongs to a different local client account";
    details = end;
  }

  -- A list or a dict has no hash, so that the test against the set raises.
  unfoldable pub is_unhashable : Option Value → Bool
  is_unhashable (some (arr vs)) = true
  is_unhashable (some (obj fs)) = true
  is_unhashable _ = false

  unfoldable pub is_recording_crash : Bool
  unfolding is_unhashable dict_get
  is_recording_crash = c.server == "computer-control" && is_unhashable (dict_get "action" c.args)

  -- The owner of a running recording is the only one to touch it.
  unfoldable pub check_recording : Kind → ToolClassification → Host → Host × Outcome Admission
  unfolding claim_key denied is_recording_call is_recording_crash
  check_recording kind k h =
      if is_recording_crash
      then (h, crash "TypeError")
      else if is_recording_call && is_other h.recording_owner
      then denied recording_mismatch h
      else claim_key g env c kind k h

  unfoldable pub is_unavailable : Option (Bool × Option String) → Bool
  is_unavailable none = false
  is_unavailable (some (available, reason)) = not available

  unfoldable pub reason_or : String → Option (Bool × Option String) → String
  reason_or default (some (available, some reason)) = if reason == "" then default else reason
  reason_or default _ = default

  unfoldable pub no_network_context : HostError
  no_network_context = record {
    code = "network_context_required";
    message = "agent-in-chrome requires a certified network id";
    details = end;
  }

  unfoldable pub plugin_unavailable : HostError
  unfolding reason_or
  plugin_unavailable = record {
    code = "plugin_unavailable";
    message = reason_or "agent-in-chrome is restarting for this account" env.principal_health;
    details = end;
  }

  -- The browser is bound to a certified network account, whose own process must be up.
  unfoldable pub check_browser : Kind → ToolClassification → Host → Host × Outcome Admission
  unfolding check_recording denied has_network_context is_unavailable
  check_browser kind k h =
      if not (c.server == "agent-in-chrome")
      then check_recording kind k h
      else if not (has_network_context env.parsed_principal)
      then denied no_network_context h
      else if is_unavailable env.principal_health
      then denied plugin_unavailable h
      else check_recording kind k h

  -- `manifest.tool(tool)`: the first of that name.
  unfoldable pub find_tool : List ToolManifest → Option ToolManifest
  find_tool [] = none
  find_tool (t ∷ ts) = if t.name == c.tool then some t else find_tool ts

  unfoldable pub tool_of : Option Provider → Option (Kind × ToolManifest)
  unfolding find_tool
  tool_of none = none
  tool_of (some p) = elim (find_tool p.tools) [ none ↦ none | some t ↦ some (p.kind, t) ]

  -- `self._health.get(server, {}).get("available", True)`
  unfoldable pub is_available : Option Bool → Bool
  is_available none = true
  is_available (some b) = b

  -- The provider and the tool, if the server is there, has the tool and is available.
  unfoldable pub resolve : Host → Option (Kind × ToolManifest)
  unfolding tool_of is_available find
  resolve h =
      if is_available (find c.server h.health) then tool_of (find c.server h.servers) else none

  unfoldable pub not_found : HostError
  not_found = record {
    code = "tool_not_found";
    message = text_append "no local tool " (text_append c.server (text_append "." c.tool));
    details = field "server" (str c.server) (field "tool" (str c.tool) end);
  }

  unfoldable pub resolved : Host → Option (Kind × ToolManifest) → Host × Outcome Admission
  unfolding check_browser denied
  resolved h none = denied not_found h
  resolved h (some (kind, t)) = check_browser kind (classification_for t c.args) h

  -- `if not self._started: await self.start()`
  unfoldable pub ensure_started : Host → Host
  ensure_started h = if h.started then h else record (env.start h) { started = true }

  unfoldable pub admit_call : Host → Host × Outcome Admission
  unfolding resolved resolve ensure_started denied
  admit_call h =
      if env.consent_first
      then resolved (ensure_started h) (resolve (ensure_started h))
      else denied (consent_required g "local tools are disabled on this device") h

-- ===== src/Control.antt =====
-- `dispatch_control` (src/openagent_host_tools/control.py): the requests of a control connection,
-- over an interface of the host. Python's `str` of a value that is no text, its `repr`, its `int`,
-- and the message of an exception that is no HostError are arguments.
pub mod Requests
pub mod Replies
mod Tests
use Prim.Native.String.{◌++◌ as text_append}
use openagent_host_tools.Base.{
  ℕ, String, Bool, true, false, not, ◌&&◌, ◌||◌, Option, none, some, if◌then◌else◌, ◌==◌, ℤ, pos,
  Value, null, bool, int, float, str, arr, obj, foreign, Fields, end, field, dict_get, dict_set,
  truthy, or_else, HostError, Outcome, ok, raise, crash,
}
use openagent_host_tools.Types.{ToolResult, to_wire, to_dict, get_value, error_to_wire}

-- The arguments that a `call` request gives to the host.
pub record ControlCall : Type 0 where
  pub server : String
  pub tool : String
  pub args : Fields
  pub principal : Value
  pub call_id : String
  pub idempotency_key : Option String
  -- None is null.
  pub deadline_ms : Value
  pub arguments_sha256 : Option String

-- The host, as the dispatcher knows it; `S` is its state.
pub record Operations (S : Type 0) : Type 0 where
  pub status : S → S × Outcome Fields
  pub catalog : S → S × Outcome Value
  pub set_consent : Bool → ℤ → S → S × Outcome Fields
  pub call : ControlCall → S → S × Outcome ToolResult
  pub cancel : String → S → S × Outcome Bool
  pub release_principal : Value → S → S × Outcome (Unit {0})
  pub ack_event : Value → String → S → S × Outcome Bool

pub record ControlReply : Type 0 where
  pub frame : Fields
  pub close : Bool

abbrev pub host_protocol : String
host_protocol = "openagent-host-tools/1"

unfoldable pub invalid : String → String → HostError
invalid code message = record { code = code; message = message; details = end }

-- `_success` and `_error`
unfoldable pub success : Value → Fields → Bool → ControlReply
success id result close = record {
  frame =
      field "id" id
        (field "type" (str "response") (field "ok" (bool true) (field "result" (obj result) end)));
  close = close;
}

unfoldable pub failure : Value → HostError → ControlReply
unfolding error_to_wire
failure id e = record {
  frame = field "id" id (
      field "type" (str "response")
        (field "ok" (bool false) (field "error" (obj (error_to_wire e)) end)));
  close = false;
}

-- `request_id is None or request_id == ""`
abbrev pub is_missing : Value → Bool
is_missing null = true
is_missing (str s) = s == ""
is_missing _ = false

abbrev pub is_text : String → Value → Bool
is_text t (str s) = s == t
is_text t _ = false

abbrev pub bool_of : Value → Option Bool
bool_of (bool b) = some b
bool_of _ = none

-- Continue with the result of a host operation.
abbrev pub then_reply : {S A B : Type 0} → (S → A → S × Outcome B) → S × Outcome A → S × Outcome B
then_reply k (s, ok a) = k s a
then_reply k (s, raise e) = (s, raise e)
then_reply k (s, crash t) = (s, crash t)

module _ (text_of_other : Value → String) where
  unfoldable pub text_of : Value → String
  text_of (str s) = s
  text_of v = text_of_other v

  -- `str(request[key]) if request.get(key) is not None else None`
  unfoldable pub text_or_none : Value → Option String
  unfolding text_of
  text_or_none null = none
  text_or_none v = some (text_of v)

module _ (q : Fields) where
  unfoldable pub request_id : Value
  unfolding get_value
  request_id = get_value "id" q

  unfoldable pub is_type : String → Bool
  unfolding get_value
  is_type name = is_text name (get_value "type" q)

  -- `request.get(key, default)`
  unfoldable pub get_or : String → Value → Value
  unfolding dict_get
  get_or key default = elim (dict_get key q) [ none ↦ default | some v ↦ v ]

  -- `str(request.get(key) or "")`
  unfoldable pub text_field : (Value → String) → String → String
  unfolding text_of get_value truthy
  text_field text_of_other key = text_of text_of_other (or_else (get_value key q) (str ""))

-- ===== src/Host/Calling.antt =====
-- `call` as a whole: its first checks, the admission, and the ending of the task.
use openagent_host_tools.Base.{
  strip, String, Bool, true, Option, none, some, List, [], ◌∷◌, if◌then◌else◌, ◌==◌, add, truthy,
  Value, null, obj, str, Fields, end, field, HostError, Outcome, ok, raise, crash,
}
use openagent_host_tools.Arguments.{arguments_sha256, fingerprint}
use openagent_host_tools.Types.{get_value, ToolResult}
use openagent_host_tools.Host.{Host, Config, Call}
use openagent_host_tools.Host.Dispatch.{Env, Admission, replayed, dispatched}
use openagent_host_tools.Host.Admit.{admit_call}
use openagent_host_tools.Host.Ending.{Ending, Clock, Deadline}
use openagent_host_tools.Host.Finish.{finish}

-- The principal of a call, as JSON gives it.
pub data Principal : Type 0 where
  text : String → Principal
  object : Fields → Principal
  other : Principal

unfoldable pub principal_error : String → HostError
principal_error message = record { code = "invalid_principal"; message = message; details = end }

-- The keys that make an account; a missing one is null.
unfoldable pub allowed_keys : Fields → List String → Fields
unfolding get_value
allowed_keys value [] = end
allowed_keys value (k ∷ ks) = field k (get_value k value) (allowed_keys value ks)

abbrev principal_keys : List String
principal_keys =
    "kind" ∷ "client_instance_id" ∷ "device_label" ∷ "account_id" ∷ "network_id"
    ∷ "client_account_id" ∷ "channel_id" ∷ "device_id" ∷ "generation" ∷ []

-- What the client asks for.
pub record Request : Type 0 where
  pub server : String
  pub tool : String
  pub args : Value
  pub principal : Principal
  pub call_id : Option String
  pub idempotency_key : Option String
  pub deadline : Deadline
  pub arguments_sha256 : Option String

-- `call_id or uuid.uuid4().hex`
abbrev pub id_or : String → Option String → String
id_or new_id none = new_id
id_or new_id (some id) = if id == "" then new_id else id

abbrev pub is_expected : String → Option String → Bool
is_expected actual none = true
is_expected actual (some expected) = expected == actual

unfoldable pub hash_mismatch : Option String → String → HostError
hash_mismatch expected actual = record {
  code = "arguments_hash_mismatch";
  message = "tool arguments do not match arguments_sha256";
  details =
      field "expected" (elim expected [ none ↦ null | some e ↦ str e ])
        (field "actual" (str actual) end);
}

-- `dumps` is `json.dumps` with sorted keys and no blanks, `sha256` the digest of a text, in hex, and
-- `new_id` what uuid4 gives.
module _ (dumps : Value → String) (sha256 : String → String) (new_id : String) where
  -- `_principal_id`
  unfoldable pub principal_id : Principal → Outcome String
  unfolding strip allowed_keys get_value truthy principal_error
  principal_id (text s) = ok (strip s)
  principal_id (object value) =
      if truthy (get_value "client_instance_id" value)
      then ok (dumps (obj (allowed_keys value principal_keys)))
      else raise (principal_error "principal.client_instance_id is required")
  principal_id other = raise (principal_error "principal must be a string or object")

  abbrev digest : Value → String
  digest v = sha256 (dumps v)

  unfoldable pub check_hash :
      Request → String → Fields → Host → Outcome String → Outcome String → Host × Outcome Call
  unfolding hash_mismatch add
  check_hash q principal args h (ok actual) (ok print) =
      if is_expected actual q.arguments_sha256
      then (
        record h { principals = add principal h.principals },
        ok (record {
          server = q.server;
          tool = q.tool;
          args = args;
          principal = principal;
          call_id = id_or new_id q.call_id;
          idempotency_key = q.idempotency_key;
          fingerprint = print;
          arguments_sha256 = actual;
        }),
      )
      else (h, raise (hash_mismatch q.arguments_sha256 actual))
  check_hash q principal args h (ok actual) (raise e) = (h, raise e)
  check_hash q principal args h (ok actual) (crash t) = (h, crash t)
  check_hash q principal args h (raise e) print = (h, raise e)
  check_hash q principal args h (crash t) print = (h, crash t)

  unfoldable pub check_args : Request → String → Host → Value → Host × Outcome Call
  unfolding check_hash arguments_sha256 fingerprint
  check_args q principal h (obj args) =
      check_hash q principal args h (arguments_sha256 digest args)
        (fingerprint digest q.server q.tool args)
  check_args q principal h _ = (
    h,
    raise
        (record { code = "invalid_arguments"; message = "args must be an object"; details = end }),
  )

  unfoldable pub check_principal : Request → Host → Outcome String → Host × Outcome Call
  unfolding check_args principal_error
  check_principal q h (ok p) =
      if p == ""
      then (h, raise (principal_error "principal is required"))
      else check_args q p h q.args
  check_principal q h (raise e) = (h, raise e)
  check_principal q h (crash t) = (h, crash t)

  -- The part of `call` before the admission.
  unfoldable pub open_call : Request → Host → Host × Outcome Call
  unfolding check_principal principal_id
  open_call q h = check_principal q h (principal_id q.principal)

-- The rest of `call`. What other coroutines do while the task runs is the argument `meanwhile`.
module _ (g : Config) (env : Env) (meanwhile : Host → Host) (clock : Clock) where
  unfoldable pub served :
      Call → Deadline → Ending → Host × Outcome Admission → Host × Outcome ToolResult
  unfolding finish
  served c deadline ending (h, ok (replayed r)) = (h, ok r)
  served c deadline ending (h, ok (dispatched a)) = finish g clock c a deadline ending (meanwhile h)
  served c deadline ending (h, raise e) = (h, raise e)
  served c deadline ending (h, crash t) = (h, crash t)

  unfoldable pub serve : Call → Deadline → Ending → Host → Host × Outcome ToolResult
  unfolding served admit_call
  serve c deadline ending h = served c deadline ending (admit_call g env c h)

-- ===== src/Control/Requests.antt =====
-- The requests of a control connection, one by one, and the clauses around them.
use Prim.Native.String.{◌++◌ as text_append}
use openagent_host_tools.Base.{
  String, true, false, not, ◌||◌, none, some, if◌then◌else◌, ◌==◌, ℤ, pos, Value, bool, int, str,
  obj, Fields, end, field, truthy, Outcome, ok, raise, crash, or_else,
}
use openagent_host_tools.Types.{to_wire, to_dict, get_value}
use openagent_host_tools.Control.{
  Operations, ControlReply, host_protocol, invalid, success, failure, is_missing, is_text, bool_of,
  then_reply, text_of, text_or_none, request_id, is_type, get_or, text_field,
}

module _ {S : Type 0} (host : Operations S) (text_of_other repr : Value → String)
    (int_of : Value → Outcome ℤ) (message_of : String → String) (q : Fields) where
  unfoldable pub initialize : S → S × Outcome Fields
  unfolding get_or invalid get_value
  initialize s =
      let protocol = get_or q "protocol" (str host_protocol) in
      if not (is_text host_protocol protocol)
      then (
        s,
        raise
            (invalid "unsupported_protocol" (text_append "unsupported protocol " (repr protocol))),
      )
      else then_reply
          (λ s' status. (
            s',
            ok (
                field "protocol" (str host_protocol) (
                  field "consent" (get_value "consent" status)
                    (field "config_path" (get_value "config_path" status) end))),
          ))
          (host.status s)

  unfoldable pub set_consent : S → S × Outcome Fields
  unfolding get_value get_or invalid
  set_consent s = elim (bool_of (get_value "enabled" q)) [
    | none ↦ (s, raise (invalid "invalid_request" "enabled must be boolean"))
    | some enabled ↦ elim (int_of (get_or q "consent_version" (int (pos 1)))) [
      | ok n ↦
          then_reply
            (λ s' consent.
              then_reply
                (λ s'' status.
                  (s'', ok (field "consent" (obj consent) (field "status" (obj status) end))))
                (host.status s'))
            (host.set_consent enabled n s)
      | raise e ↦ (s, raise e)
      | crash t ↦ (s, crash t)
    ]
  ]

  unfoldable pub call : S → S × Outcome Fields
  unfolding text_field text_of text_or_none request_id get_value to_dict truthy to_wire
  call s = elim (to_dict (or_else (get_value "args" q) (obj end))) [
    | ok args ↦
        then_reply (λ s' result. (s', ok (to_wire result)))
          (host.call
            (record {
              server = text_field q text_of_other "server";
              tool = text_field q text_of_other "tool";
              args = args;
              principal = or_else (get_value "principal" q) (str "local-control-client");
              call_id = text_of text_of_other (or_else (get_value "call_id" q) (request_id q));
              idempotency_key = text_or_none text_of_other (get_value "idempotency_key" q);
              deadline_ms = get_value "deadline_ms" q;
              arguments_sha256 = text_or_none text_of_other (get_value "arguments_sha256" q);
            })
            s)
    | raise e ↦ (s, raise e)
    | crash t ↦ (s, crash t)
  ]

  unfoldable pub cancel : S → S × Outcome Fields
  unfolding text_field
  cancel s =
      then_reply (λ s' b. (s', ok (field "cancelled" (bool b) end)))
        (host.cancel (text_field q text_of_other "call_id") s)

  unfoldable pub release_principal : S → S × Outcome Fields
  unfolding get_value truthy invalid
  release_principal s =
      if not (truthy (get_value "principal" q))
      then (s, raise (invalid "invalid_request" "principal is required"))
      else then_reply (λ s' _. (s', ok (field "released" (bool true) end)))
          (host.release_principal (get_value "principal" q) s)

  unfoldable pub ack_event : S → S × Outcome Fields
  unfolding get_value truthy text_field invalid
  ack_event s =
      if not (truthy (get_value "principal" q)) || text_field q text_of_other "shell_id" == ""
      then (s, raise (invalid "invalid_request" "principal and shell_id are required"))
      else then_reply (λ s' b. (s', ok (field "acknowledged" (bool b) end)))
          (host.ack_event (get_value "principal" q) (text_field q text_of_other "shell_id") s)

  -- The body of the `try`, but for the request `shutdown`.
  unfoldable pub answer : S → S × Outcome Fields
  unfolding initialize set_consent call cancel release_principal ack_event is_type invalid get_value
  answer s =
      if is_type q "initialize"
      then initialize s
      else if is_type q "catalog"
      then then_reply (λ s' servers. (s', ok (field "servers" servers end))) (host.catalog s)
      else if is_type q "status"
      then host.status s
      else if is_type q "set_consent"
      then set_consent s
      else if is_type q "call"
      then call s
      else if is_type q "cancel"
      then cancel s
      else if is_type q "release_principal"
      then release_principal s
      else if is_type q "ack_event"
      then ack_event s
      else (
        s,
        raise (
            invalid "unknown_request"
              (text_append "unknown request type " (repr (get_value "type" q)))),
      )

  -- The clauses of the `try`.
  unfoldable pub reply : S × Outcome Fields → S × ControlReply
  unfolding success failure invalid request_id
  reply (s, ok result) = (s, success (request_id q) result false)
  reply (s, raise e) = (s, failure (request_id q) e)
  reply (s, crash t) = (
    s,
    failure (request_id q) (
        if t == "CancelledError"
        then invalid "cancelled" "request cancelled"
        else invalid "host_error" (message_of t)),
  )

  unfoldable pub dispatch_control : S → S × ControlReply
  unfolding answer reply success is_type request_id invalid
  dispatch_control s =
      if is_missing (request_id q)
      then reply (s, raise (invalid "invalid_request" "id is required"))
      else if is_type q "shutdown"
      then (s, success (request_id q) (field "shutting_down" (bool true) end) true)
      else reply (answer s)

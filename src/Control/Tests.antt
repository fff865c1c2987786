-- ===== src/Control/Tests.antt =====
-- Requests to a host that counts the calls it gets.
use openagent_host_tools.Base.{
  ℕ, suc, ◌≡◌, refl, true, false, String, Value, null, int, str, Fields, end, field, ok, crash, not,
  ◌&&◌, Outcome, ℤ,
}
use openagent_host_tools.Types.{text_result, get_value}
use openagent_host_tools.Control.{Operations, is_missing, is_type}
use openagent_host_tools.Control.Requests.{dispatch_control}
use openagent_host_tools.Control.Replies.{IsReply, dispatch_control-IsReply}

abbrev counter : Operations ℕ
counter = record {
  status = λ n. (n, ok end);
  catalog = λ n. (n, ok null);
  set_consent = λ enabled version n. (n, ok end);
  call = λ c n. (suc n, ok (text_result c.tool null false end));
  cancel = λ id n. (n, ok false);
  release_principal = λ p n. (n, crash "CancelledError");
  ack_event = λ p s n. (n, ok true);
}

abbrev other_text : Value → String
other_text v = "?"

abbrev version_of : Value → Outcome ℤ
version_of (int n) = ok n
version_of v = crash "TypeError"

abbrev message_of : String → String
message_of t = t

abbrev call_request : Fields
call_request = field "id" (str "r1") (field "type" (str "call") (field "tool" (str "exec") end))

abbrev shutdown_request : Fields
shutdown_request = field "id" (str "r2") (field "type" (str "shutdown") end)

call_reaches_host :
    (dispatch_control counter other_text other_text version_of message_of call_request 0).0 ≡ 1
unfolding dispatch_control
call_reaches_host = refl

dispatch_control-IsReply_example :
    IsReply call_request
      (dispatch_control counter other_text other_text version_of message_of call_request 0).1
    × ((dispatch_control counter other_text other_text version_of message_of call_request 0).1.close
        ≡ (not (is_missing (get_value "id" call_request)) && is_type call_request "shutdown"))
dispatch_control-IsReply_example =
    dispatch_control-IsReply counter other_text other_text version_of message_of call_request 0

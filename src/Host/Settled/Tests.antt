-- ===== src/Host/Settled/Tests.antt =====
-- One request of a shell command, from its arrival to its end.
use openagent_host_tools.Base.{
  ◌≡◌, ◌==◌, false, refl, true, some, String, Value, none, raise, obj, str, field, end, ok,
}
use openagent_host_tools.Lease.Lock.{free}
use openagent_host_tools.Host.{find, effective_key}
use openagent_host_tools.Host.Ending.{
  returned, timed_out, malformed, deadline_error, deadline_seconds,
}
use openagent_host_tools.Host.Calling.{Request, text, principal_id, open_call, serve}
use openagent_host_tools.Host.Pending.{claims_key}
use openagent_host_tools.Host.Settled.{
  Settled, serve-Settled, late_deadline-claims_key, IsOpened, open_call-IsOpened,
}
use openagent_host_tools.Host.Tests.{
  config, exec_call, env, started_host, clock, one_second, exec_admitted, exec_dispatched,
  exec_result, no_rows-IsKeyed,
}

abbrev dumps : Value → String
dumps v = "{}"

abbrev sha256 : String → String
sha256 s = "00"

abbrev request : Request
request = record {
  server = "shell";
  tool = "exec";
  args = obj (field "command" (str "make") end);
  principal = text " ann ";
  call_id = some "c1";
  idempotency_key = some "k1";
  deadline = one_second;
  arguments_sha256 = some "00";
}

names_are_stripped : principal_id dumps sha256 "u1" (text " ann ") ≡ ok "ann"
unfolding principal_id
names_are_stripped = refl

open_call-IsOpened_example :
    IsOpened
      (λ v. sha256 (dumps v))
      request
      started_host
      (open_call dumps sha256 "u1" request started_host)
open_call-IsOpened_example = open_call-IsOpened dumps sha256 "u1" request started_host

one_second_left : deadline_seconds clock.deadline_time one_second ≡ ok (some 1000000)
unfolding deadline_seconds
one_second_left = refl

serve-Settled_example :
    Settled config
      (env true)
      (λ h. h)
      clock
      exec_call
      started_host
      (serve config
        (env true)
        (λ h. h)
        clock
        exec_call
        one_second
        (timed_out (returned exec_result))
        started_host).0
unfolding principal_id find effective_key
serve-Settled_example =
    serve-Settled config (env true) (λ h. h) clock exec_call one_second (some 1000000)
      (timed_out (returned exec_result)) started_host free refl no_rows-IsKeyed refl refl refl refl
      (λ x keyed. keyed) refl refl refl refl refl one_second_left

late :
    deadline_seconds clock.deadline_time malformed
    ≡ raise (deadline_error "invalid_deadline" "deadline_ms must be numeric")
unfolding deadline_seconds
late = refl

has_key : (effective_key exec_call == "") ≡ false
unfolding effective_key
has_key = refl

late_deadline-claims_key_example :
    let (after, answer) =
      serve config
        (env true)
        (λ h. h)
        clock
        exec_call
        malformed
        (returned exec_result)
        started_host in
    (answer ≡ raise (deadline_error "invalid_deadline" "deadline_ms must be numeric"))
    × (claims_key config exec_call after ≡ true)
    × (find "c1" after.active ≡ none)
late_deadline-claims_key_example =
    late_deadline-claims_key config (env true) (λ h. h) clock exec_call malformed
      (deadline_error "invalid_deadline" "deadline_ms must be numeric") (returned exec_result)
      started_host free exec_admitted refl no_rows-IsKeyed refl has_key exec_dispatched
      (λ x claimed. claimed) refl late

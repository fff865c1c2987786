-- ===== src/Host/Ending.antt =====
-- How the task of a call ends, its deadline, and the results that stand for failures.
use openagent_host_tools.Base.{
  ℕ, ◌-◌, String, true, Option, none, some, if◌then◌else◌, leb, ltb, ℤ, pos, negsuc, zero, suc, end,
  field, str, obj, null, HostError, Outcome, ok, raise, crash, Bool, true, false,
}
use Prim.Native.String.{◌++◌ as text_append}
use openagent_host_tools.Types.{ToolResult, text_result, tool_error_result}

-- How a task ends when it is waited for; `interrupted` if the waiting is cancelled.
pub data TaskEnd : Type 0 where
  returned : ToolResult → TaskEnd
  raised : HostError → TaskEnd
  failed : String → TaskEnd
  interrupted : TaskEnd

-- What the awaiting of the task gives. A task that is drained goes on to its end; `failed` is an
-- exception that is no HostError, with the code that it may have, and its message.
pub data Ending : Type 0 where
  returned : ToolResult → Ending
  raised : HostError → Ending
  failed : Option String → String → Ending
  timed_out : TaskEnd → Ending
  cancelled : TaskEnd → Ending

-- Readings of the clock while the ending is recorded, and whether the coroutine is cancelled while it
-- awaits the recording of a result in the ledger, or the leaving of the lease.
pub record Clock : Type 0 where
  pub deadline_time : ℕ
  pub ledger_time : ℕ
  pub audit_time : ℕ
  pub elapsed_ms : ℕ
  pub record_cancelled : Bool
  pub leave_cancelled : Bool

-- `deadline_ms`, in microseconds; `malformed` is what `float` refuses.
pub data Deadline : Type 0 where
  absent : Deadline
  malformed : Deadline
  at : ℤ → Deadline

unfoldable pub deadline_error : String → String → HostError
deadline_error code message = record { code = code; message = message; details = end }

abbrev pub expired : HostError
expired = record {
  code = "deadline_exceeded";
  message = "local tool deadline already expired";
  details = end;
}

-- The time left, also in microseconds: the value is an instant if it is over 10 ^ 10 ms.
unfoldable pub deadline_seconds : ℕ → Deadline → Outcome (Option ℕ)
unfolding deadline_error
deadline_seconds now absent = ok none
deadline_seconds now malformed =
    raise (deadline_error "invalid_deadline" "deadline_ms must be numeric")
deadline_seconds now (at (negsuc n)) = raise expired
deadline_seconds now (at (pos zero)) = raise expired
deadline_seconds now (at (pos (suc n))) =
    if ltb 10000000000000 (suc n)
    then if leb (suc n) now then raise expired else ok (some (suc n - now))
    else ok (some (suc n))

unfoldable pub failure_result : String → ToolResult
failure_result message = text_result (text_append "local tool error: " message) null true (
    field "openagent/error"
      (obj (field "code" (str "tool_error") (field "message" (str message) end))) end)

-- `_drain_mutation`
unfoldable pub drain_mutation : TaskEnd → Outcome ToolResult
unfolding failure_result
drain_mutation (returned r) = ok r
drain_mutation (raised e) = ok (tool_error_result e)
drain_mutation (failed message) = ok (failure_result message)
drain_mutation interrupted = crash "CancelledError"

-- Whether the waiting for a task that ends late is cancelled.
abbrev pub is_interrupted : Ending → Bool
is_interrupted (timed_out interrupted) = true
is_interrupted (cancelled interrupted) = true
is_interrupted _ = false

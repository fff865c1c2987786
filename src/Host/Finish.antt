-- ===== src/Host/Finish.antt =====
-- `call` from the awaiting of the task to the `finally` clause: how every ending of a task is
-- recorded in the ledger, the lease, the audit and the host's own registers.
use openagent_host_tools.Base.{
  ℕ, String, Bool, true, false, not, ◌&&◌, ◌||◌, Option, none, some, if◌then◌else◌, ◌==◌, add,
  discard, member, Value, Fields, end, field, str, bool, null, dict_get, dict_set, HostError,
  Outcome, ok, raise, crash,
}
use openagent_host_tools.Audit
use openagent_host_tools.Ledger
use openagent_host_tools.Types.{ToolResult, tool_error_result, to_wire}
use openagent_host_tools.Host.{
  Host, Config, Call, effective_key, pop, audit_row, mark_client_local, leave_call, abandon_claim,
}
use openagent_host_tools.Host.Dispatch.{Admitted, awaited}
use openagent_host_tools.Host.Ending.{
  TaskEnd, Ending, returned, raised, failed, timed_out, cancelled, Clock, Deadline, deadline_error,
  deadline_seconds, failure_result, drain_mutation,
}

-- A host, the outcome of the call, and `lease_indeterminate`.
abbrev pub Finished : Type 0
Finished = Host × Outcome ToolResult × Bool

abbrev indeterminate_code : String
indeterminate_code = "CLIENT_RESULT_INDETERMINATE"

unfoldable pub ambiguous : String → Fields → HostError
ambiguous message details = record {
  code = "idempotency_indeterminate";
  message = message;
  details = details;
}

unfoldable pub key_value : Call → Value
key_value c = if effective_key c == "" then null else str (effective_key c)

module _ (g : Config) (clock : Clock) (c : Call) (a : Admitted) where
  -- `claimed and effective_idempotency_key`
  unfoldable pub holds_claim : Bool
  holds_claim = a.claimed && not (effective_key c == "")

  unfoldable pub mark_claim : Host → Host
  mark_claim h = record h {
    ledger_rows =
        Ledger.mark_indeterminate_sync g.ledger c.principal (effective_key c) clock.ledger_time
          h.ledger_rows;
  }

  unfoldable pub complete_claim : ToolResult → Host → Host × Outcome (Unit {0})
  complete_claim r h =
      let (rows, answer) =
        Ledger.complete_sync g.ledger c.principal (effective_key c) clock.ledger_time (to_wire r)
          h.ledger_rows in
      (record h { ledger_rows = rows }, awaited clock.record_cancelled answer)

  unfoldable pub audit_end : String → Option String → Host → Host
  audit_end outcome code h = record h {
    audit =
        Audit.append clock.audit_time
          (audit_row c (some a.classification) outcome (some clock.elapsed_ms) code false) h.audit;
  }

  unfoldable pub is_external : Host → Bool
  is_external h = member c.server h.external_names

  -- An MCP failed after a mutation was dispatched to it.
  unfoldable pub end_ambiguous : String → String → Host → Finished
  unfolding holds_claim mark_claim audit_end ambiguous
  end_ambiguous message local_code h =
      let marked = if holds_claim then mark_claim h else h in
      (
        audit_end "indeterminate" (some indeterminate_code) marked,
        raise (
            ambiguous message (
              field "local_code" (str local_code)
                (field "manual_reconciliation_required" (bool true) end))),
        true,
      )

  -- `_update_resource_ownership`
  unfoldable pub own_recording : Option Value → Host → Host
  own_recording (some (str action)) h =
      if action == "start_screen_recording"
      then record h { recording_owner = some c.principal }
      else if action == "stop_screen_recording"
      then record h { recording_owner = none }
      else h
  own_recording _ h = h

  unfoldable pub update_resource_ownership : ToolResult → Host → Host
  unfolding own_recording dict_get
  update_resource_ownership r h =
      if not (c.server == "computer-control") || r.is_error
      then h
      else own_recording (dict_get "action" c.args) h

  -- The tail of `call`, once the result has its place in the ledger.
  unfoldable pub deliver : ToolResult → Host → Finished
  unfolding update_resource_ownership audit_end
  deliver r h =
      let result = mark_client_local r in
      (
        audit_end (if r.is_error then "tool_error" else "success") none
            (update_resource_ownership r h),
        ok result,
        false,
      )

  unfoldable pub concluded : ToolResult → Host × Outcome (Unit {0}) → Finished
  unfolding deliver dict_set
  concluded r (h, ok _) =
      deliver
        (record r {
          meta =
              dict_set "openagent/replayed" (bool false)
                (dict_set "openagent/idempotent" (bool true) r.meta);
        })
        h
  concluded r (h, raise e) = (h, raise e, false)
  concluded r (h, crash t) = (h, crash t, false)

  unfoldable pub conclude : ToolResult → Host → Finished
  unfolding holds_claim concluded complete_claim deliver
  conclude r h =
      if holds_claim
      then concluded r (complete_claim r h)
      else if a.mutates
      then deliver (record r { meta = dict_set "openagent/replaySafe" (bool false) r.meta }) h
      else deliver r h

  -- The error of a mutation that crossed its deadline or was cancelled.
  unfoldable pub late_error : String → HostError
  unfolding ambiguous key_value
  late_error message = ambiguous message (
      field "idempotency_key" (key_value c) (
        field "manual_reconciliation_required" (bool true)
          (field "result_recorded" (bool a.requires_drain) end)))

  unfoldable pub late_audit : String → Host → Host
  unfolding audit_end
  late_audit code h =
      if a.safe_retry
      then audit_end (if code == "cancelled" then "cancelled" else "timeout") (some code) h
      else audit_end "indeterminate" (some indeterminate_code) h

  -- After a drain: the ledger may have lost the claim.
  unfoldable pub drained : String → Outcome ToolResult → Host × Outcome (Unit {0}) → Finished
  unfolding late_audit
  drained code error (h, ok _) = (late_audit code h, error, false)
  drained code error (h, raise e) = (h, raise e, false)
  drained code error (h, crash t) = (h, crash t, false)

  -- A call that is drained, by what the task comes to; a cancelled waiting goes straight to the
  -- `finally` clause.
  unfoldable pub end_drained : String → Outcome ToolResult → Host → Outcome ToolResult → Finished
  unfolding holds_claim drained complete_claim late_audit
  end_drained code error h (ok definitive) =
      if holds_claim
      then drained code error (complete_claim definitive h)
      else (late_audit code h, error, false)
  end_drained code error h (raise e) = (h, raise e, false)
  end_drained code error h (crash t) = (h, crash t, false)

  -- A deadline or a cancellation: a thread-backed mutation is waited for and recorded, any other
  -- mutation is marked indeterminate, and a call that may be retried gives its claim back.
  unfoldable pub end_late : String → Outcome ToolResult → TaskEnd → Host → Finished
  unfolding holds_claim end_drained drain_mutation mark_claim late_audit
  end_late code error task h =
      if a.requires_drain
      then end_drained code error h (drain_mutation task)
      else if holds_claim
      then if a.safe_retry
        then (late_audit code (abandon_claim g c h), error, false)
        else (late_audit code (mark_claim h), error, true)
      else (late_audit code h, error, false)

  unfoldable pub timeout_error : Outcome ToolResult
  unfolding late_error deadline_error
  timeout_error =
      if a.safe_retry
      then raise (deadline_error "deadline_exceeded" "local tool deadline exceeded")
      else raise (late_error "the local mutation crossed its deadline after dispatch")

  unfoldable pub cancel_error : Outcome ToolResult
  unfolding late_error
  cancel_error =
      if a.safe_retry
      then crash "CancelledError"
      else raise (late_error "the local mutation was cancelled after dispatch")

  abbrev pub local_code : Option String → String
  local_code none = "tool_error"
  local_code (some code) = code

  unfoldable pub settle_ending : Ending → Host → Finished
  unfolding is_external end_ambiguous conclude end_late timeout_error cancel_error failure_result
  settle_ending (returned r) h = conclude r h
  settle_ending (raised e) h =
      if not a.safe_retry && is_external h
      then end_ambiguous "the local MCP failed after mutation dispatch" e.code h
      else conclude (tool_error_result e) h
  settle_ending (failed code message) h =
      if not a.safe_retry && is_external h
      then end_ambiguous "the local MCP disconnected after mutation dispatch" (local_code code) h
      else conclude (failure_result message) h
  settle_ending (timed_out task) h = end_late "deadline_exceeded" timeout_error task h
  settle_ending (cancelled task) h = end_late "cancelled" cancel_error task h

  -- The `finally` clause.
  unfoldable pub release : Bool → Host → Host
  unfolding leave_call add discard pop
  release lease_indeterminate h =
      let h' =
        if not a.lease_entered
        then h
        else if not lease_indeterminate
        then leave_call c h
        else record h { retained_lease_principals = add c.principal h.retained_lease_principals } in
      record h' {
        active = pop c.call_id h.active;
        active_principals = pop c.call_id h.active_principals;
        active_mutating = discard c.call_id h.active_mutating;
        uncancellable_active = discard c.call_id h.uncancellable_active;
      }

  -- A clause that is cancelled while it leaves the lease goes no further.
  unfoldable pub released : Finished → Host × Outcome ToolResult
  unfolding release leave_call
  released (h, outcome, lease_indeterminate) =
      if a.lease_entered && not lease_indeterminate && clock.leave_cancelled
      then (leave_call c h, crash "CancelledError")
      else (release lease_indeterminate h, outcome)

  unfoldable pub finish_timed : Outcome (Option ℕ) → Ending → Host → Host × Outcome ToolResult
  unfolding released settle_ending
  finish_timed (ok timeout) ending h = released (settle_ending ending h)
  finish_timed (raise e) ending h = released (h, raise e, false)
  finish_timed (crash t) ending h = released (h, crash t, false)

  -- `_deadline_seconds` stands in the outer `try`: its error goes straight to the `finally` clause.
  unfoldable pub finish : Deadline → Ending → Host → Host × Outcome ToolResult
  unfolding finish_timed deadline_seconds
  finish deadline ending h = finish_timed (deadline_seconds clock.deadline_time deadline) ending h

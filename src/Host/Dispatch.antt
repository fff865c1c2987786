-- ===== src/Host/Dispatch.antt =====
-- `_admit_call`, second half: the claim, the lease, the last reading of consent, and the dispatch,
-- with the clause that undoes the first two.
use Prim.Native.String.{◌++◌ as text_append}
use openagent_host_tools.Base.{
  ℕ, String, Bool, true, false, not, ◌&&◌, Option, none, some, if◌then◌else◌, ◌==◌, add, discard,
  Value, Fields, end, field, str, bool, dict_set, HostError, Outcome, ok, raise, crash,
}
use openagent_host_tools.Audit
use openagent_host_tools.Lease
use openagent_host_tools.Ledger
use openagent_host_tools.Ledger.{Row, Claim, new, replay}
use openagent_host_tools.Types.{ToolClassification, read_only, mutating, ToolResult, from_wire}
use openagent_host_tools.Host.{
  Kind, filesystem, editor, running, Host, Config, Call, effective_key, put, audit_row,
  audit_denial, mark_client_local, leave_call, abandon_claim,
}

-- What the call meets on its way: each read of the durable consent, each reading of a clock, the
-- effect of `start()` if the host has not started, and the answers about the network account.
pub record Env : Type 0 where
  pub consent_first : Bool
  pub consent_replay : Bool
  pub consent_dispatch : Bool
  pub start : Host → Host
  -- `json.loads(principal)`, or none where that raises.
  pub parsed_principal : Option Value
  -- The result of `availability_for_principal`, where the provider has that method.
  pub principal_health : Option (Bool × Option String)
  pub claim_time : ℕ
  pub enter_time : ℕ
  pub audit_time : ℕ
  pub elapsed_ms : ℕ
  -- Whether the coroutine is cancelled while it awaits the claim, the lease, or the leaving of the
  -- lease after a denial. The thread that runs the transaction goes on, and its answer is lost.
  pub claim_cancelled : Bool
  pub enter_cancelled : Bool
  pub abort_cancelled : Bool

-- `_AdmittedCall`
pub record Admitted : Type 0 where
  pub kind : Kind
  pub classification : ToolClassification
  pub mutates : Bool
  pub safe_retry : Bool
  pub claimed : Bool
  pub lease_entered : Bool
  pub requires_drain : Bool

-- The two results of `_admit_call`.
pub data Admission : Type 0 where
  replayed : ToolResult → Admission
  dispatched : Admitted → Admission

abbrev pub is_mutating : ToolClassification → Bool
is_mutating read_only = false
is_mutating _ = true

abbrev pub is_safe_retry : ToolClassification → Bool
is_safe_retry mutating = false
is_safe_retry _ = true

-- `isinstance(provider, (FilesystemServer, EditorServer))`
abbrev pub is_thread_backed : Kind → Bool
is_thread_backed filesystem = true
is_thread_backed editor = true
is_thread_backed _ = false

unfoldable pub consent_required : Config → String → HostError
consent_required g message = record {
  code = "consent_required";
  message = message;
  details = field "consent_path" (str g.consent_path) end;
}

-- The `finally` clause of a call that was not dispatched.
unfoldable pub abort : Config → Call → Bool → Bool → Host → Host
unfolding leave_call abandon_claim
abort g c claimed lease_entered h =
    let left = if lease_entered then leave_call c h else h in
    if claimed && not (effective_key c == "") then abandon_claim g c left else left

-- What an `await` of a thread gives.
abbrev pub awaited : {A : Type 0} → Bool → Outcome A → Outcome A
awaited is_cancelled answer = if is_cancelled then crash "CancelledError" else answer

-- Registration of the task.
unfoldable pub register : Call → Bool → Bool → Host → Host
unfolding put add
register c mutates drain h = record h {
  active = put c.call_id running h.active;
  active_principals = put c.call_id c.principal h.active_principals;
  active_mutating = if mutates then add c.call_id h.active_mutating else h.active_mutating;
  uncancellable_active =
      if drain then add c.call_id h.uncancellable_active else h.uncancellable_active;
}

module _ (g : Config) (env : Env) (c : Call) where
  -- From the last reading of consent to the dispatch.
  unfoldable pub dispatch : Kind → ToolClassification → Bool → Host → Host × Outcome Admission
  unfolding register abort leave_call
  dispatch kind k claimed h =
      let mutates = is_mutating k in
      let drain = mutates && is_thread_backed kind in
      if env.consent_dispatch
      then (
        register c mutates drain h,
        ok (
            dispatched (record {
              kind = kind;
              classification = k;
              mutates = mutates;
              safe_retry = is_safe_retry k;
              claimed = claimed;
              lease_entered = mutates;
              requires_drain = drain;
            })),
      )
      else if mutates && env.abort_cancelled
      then (
        leave_call c (audit_denial env.audit_time c "consent_required" h),
        crash "CancelledError",
      )
      else (
        abort g c claimed mutates (audit_denial env.audit_time c "consent_required" h),
        raise (consent_required g "local tools were disabled before dispatch"),
      )

  unfoldable pub entered :
      Kind → ToolClassification → Bool → Host → Outcome (Unit {0}) → Host × Outcome Admission
  unfolding dispatch abort discard
  entered kind k claimed h (ok _) =
      dispatch kind k claimed
        (record h { retained_lease_principals = discard c.principal h.retained_lease_principals })
  entered kind k claimed h (raise e) = (abort g c claimed false h, raise e)
  entered kind k claimed h (crash t) = (abort g c claimed false h, crash t)

  -- `if mutating: await self.lease.enter(…)`
  unfoldable pub enter_lease : Kind → ToolClassification → Bool → Host → Host × Outcome Admission
  unfolding dispatch entered
  enter_lease kind k claimed h =
      let (db, answer) =
        Lease.enter_sync g.lease_duration env.enter_time c.principal c.call_id
          (text_append c.server (text_append "." c.tool)) h.lease_db in
      if is_mutating k
      then entered kind k claimed (record h { lease_db = db }) (awaited env.enter_cancelled answer)
      else dispatch kind k claimed h

  -- A recorded result, after one more reading of consent.
  unfoldable pub replay_result :
      ToolClassification → Host → Outcome ToolResult → Host × Outcome Admission
  unfolding dict_set
  replay_result k h (ok r) =
      let result = mark_client_local (record r {
        meta =
            dict_set "openagent/replayed" (bool true)
              (dict_set "openagent/idempotent" (bool true) r.meta);
      }) in
      if env.consent_replay
      then (
        record h {
          audit =
              Audit.append env.audit_time
                (audit_row c (some k) "replay" (some env.elapsed_ms) none true) h.audit;
        },
        ok (replayed result),
      )
      else (
        audit_denial env.audit_time c "consent_required" h,
        raise (consent_required g "local tools are disabled on this device"),
      )
  replay_result k h (raise e) = (h, raise e)
  replay_result k h (crash t) = (h, crash t)

  unfoldable pub claimed_call :
      Kind → ToolClassification → Host → Outcome (Claim Fields) → Host × Outcome Admission
  unfolding enter_lease replay_result
  claimed_call kind k h (ok new) = enter_lease kind k true h
  claimed_call kind k h (ok (replay w)) = replay_result k h (from_wire w)
  claimed_call kind k h (raise e) = (
    record h {
      audit =
          Audit.append env.audit_time
            (audit_row c (some k) "error" (some env.elapsed_ms) (some e.code) false) h.audit;
    },
    raise e,
  )
  claimed_call kind k h (crash t) = (h, crash t)

  -- `if effective_idempotency_key: claim = await self.idempotency.claim(…)`
  unfoldable pub claim_key : Kind → ToolClassification → Host → Host × Outcome Admission
  unfolding enter_lease claimed_call
  claim_key kind k h =
      let (rows, answer) =
        Ledger.claim_sync g.ledger env.claim_time c.principal (effective_key c) c.fingerprint
          (is_safe_retry k) h.ledger_rows in
      if effective_key c == ""
      then enter_lease kind k false h
      else claimed_call kind k (record h { ledger_rows = rows })
          (awaited env.claim_cancelled answer)

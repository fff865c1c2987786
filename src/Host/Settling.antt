-- ===== src/Host/Settling.antt =====
-- What the recording of an ending leaves as it was, and that it resolves the claim.
use openagent_host_tools.Base.{
  Bool, ◌||◌, Value, str, dict_get, dict_set, bool, Bool-cases, inl, inr, String, true, false, not,
  ◌&&◌, ◌≡◌, refl, ap, Option, none, some, List, ◌==◌, Outcome, ok, raise, crash, if-cases, Fields,
  updated,
}
use openagent_host_tools.Audit.{Audit}
use openagent_host_tools.Ledger
use openagent_host_tools.Ledger.{Row, is_mine, completed}
use openagent_host_tools.Ledger.Entry.{
  entry, IsKeyed, claims, entry-mark_indeterminate_sync, complete_sync-mine, complete_sync-lost,
}
use openagent_host_tools.Types.{ToolResult, to_wire, tool_error_result}
use openagent_host_tools.Host.{Host, Config, Call, effective_key, abandon_claim}
use openagent_host_tools.Host.Dispatch.{Admitted}
use openagent_host_tools.Host.Ending.{
  TaskEnd, Ending, returned, raised, failed, timed_out, cancelled, interrupted, is_interrupted,
  Clock, drain_mutation, failure_result,
}
use openagent_host_tools.Host.Finish.{
  Finished, holds_claim, local_code, mark_claim, complete_claim, audit_end, is_external,
  end_ambiguous, own_recording, update_resource_ownership, deliver, concluded, conclude, late_audit,
  drained, end_drained, end_late, settle_ending,
}
use openagent_host_tools.Host.Pending.{claims_key, abandon-unclaimed}

module _ (g : Config) (clock : Clock) (c : Call) (a : Admitted) (before : Host)
    (broken : Bool) where
  -- The registers and the lease are untouched, and this process no longer holds the claim unless
  -- the recording is broken off.
  pub record Settles (after : Host) : Type 0 where
    pub active : after.active ≡ before.active
    pub active_principals : after.active_principals ≡ before.active_principals
    pub active_mutating : after.active_mutating ≡ before.active_mutating
    pub uncancellable : after.uncancellable_active ≡ before.uncancellable_active
    pub lease : after.lease_db ≡ before.lease_db
    pub retained : after.retained_lease_principals ≡ before.retained_lease_principals
    pub unclaimed : broken ≡ false → claims_key g c after ≡ false

  abbrev EndSettles : Finished → Type 0
  EndSettles f = Settles f.0

  recorded :
      (rows : List (Row Fields))
      → claims g.ledger (entry c.principal (effective_key c) rows) ≡ false
      → Settles (record before { ledger_rows = rows })
  recorded rows unclaimed = record {
    active = refl;
    active_principals = refl;
    active_mutating = refl;
    uncancellable = refl;
    lease = refl;
    retained = refl;
    unclaimed = λ _. unclaimed;
  }

  audited : (x : Host) (audit : Audit) → Settles x → Settles (record x { audit = audit })
  audited x audit s = record {
    active = s.active;
    active_principals = s.active_principals;
    active_mutating = s.active_mutating;
    uncancellable = s.uncancellable;
    lease = s.lease;
    retained = s.retained;
    unclaimed = s.unclaimed;
  }

  owned :
      (x : Host) (owner : Option String)
      → Settles x
      → Settles (record x { recording_owner = owner })
  owned x owner s = record {
    active = s.active;
    active_principals = s.active_principals;
    active_mutating = s.active_mutating;
    uncancellable = s.uncancellable;
    lease = s.lease;
    retained = s.retained;
    unclaimed = s.unclaimed;
  }

  -- The recording is broken off before anything is written.
  broken_off : (broken ≡ false → ⊥) → Settles before
  broken_off whole = record {
    active = refl;
    active_principals = refl;
    active_mutating = refl;
    uncancellable = refl;
    lease = refl;
    retained = refl;
    unclaimed = λ b. absurd (whole b);
  }

  whole_drain :
      (task : TaskEnd)
      → (task ≡ interrupted → broken ≡ true)
      → broken ≡ false
      → (r : ToolResult) × (drain_mutation task ≡ ok r)
  unfolding drain_mutation
  whole_drain (returned r) b whole = (r, refl)
  whole_drain (raised e) b whole = (tool_error_result e, refl)
  whole_drain (failed message) b whole = (failure_result message, refl)
  whole_drain interrupted b whole = absurd (cc (b refl, whole))

  module _ (keyed : IsKeyed before.ledger_rows)
      (holds : holds_claim g clock c a ≡ false → claims_key g c before ≡ false) where
    abandon-Settles : Settles (abandon_claim g c before)
    unfolding abandon_claim
    abandon-Settles = recorded _ (abandon-unclaimed g c before keyed)

    mark-Settles : Settles (mark_claim g clock c a before)
    unfolding mark_claim
    mark-Settles = recorded _ (
        rw
          (entry-mark_indeterminate_sync g.ledger c.principal (effective_key c) before.ledger_rows
            clock.ledger_time)
          (marked (entry c.principal (effective_key c) before.ledger_rows)))
      where
        marked :
            (o : Option (Row Fields))
            → claims g.ledger (
                updated
                  (is_mine g.ledger)
                  (λ r. record r {
                    state = Ledger.indeterminate;
                    updated_at = clock.ledger_time;
                    lease_until = none;
                  })
                  o)
              ≡ false
        marked none = refl
        marked (some r) =
            if-cases (λ x. is_mine g.ledger x ≡ false) (is_mine g.ledger r) _ r
              (λ _. unfold is_mine in refl) (λ other. other)

    lost :
        (w : Fields)
        → claims_key g c before ≡ false
        → claims g.ledger (
            entry c.principal
              (effective_key c)
              (Ledger.complete_sync g.ledger c.principal
                (effective_key c)
                clock.ledger_time
                w
                before.ledger_rows).0)
          ≡ false
    lost w other =
        rw
          (complete_sync-lost g.ledger c.principal (effective_key c) before.ledger_rows
            clock.ledger_time w keyed other)
          other

    complete-unclaimed :
        (w : Fields) (o : Option (Row Fields))
        → entry c.principal (effective_key c) before.ledger_rows ≡ o
        → claims g.ledger (
            entry c.principal
              (effective_key c)
              (Ledger.complete_sync g.ledger c.principal
                (effective_key c)
                clock.ledger_time
                w
                before.ledger_rows).0)
          ≡ false
    complete-unclaimed w none found = lost w (rw found refl)
    complete-unclaimed w (some r) found = elim (Bool-cases (is_mine g.ledger r)) [
      | inl mine ↦
          rw
            (complete_sync-mine g.ledger c.principal (effective_key c) before.ledger_rows
              clock.ledger_time w r keyed found mine).0
            (unfold completed is_mine in refl)
      | inr other ↦ lost w (rw found other)
    ]

    complete-Settles : (r : ToolResult) → Settles (complete_claim g clock c a r before).0
    unfolding complete_claim
    complete-Settles r = recorded _ (complete-unclaimed (to_wire r) _ refl)

    -- The tail of `call`.
    deliver-Settles : (r : ToolResult) (x : Host) → Settles x → Settles (deliver g clock c a r x).0
    unfolding deliver update_resource_ownership own_recording audit_end
    deliver-Settles r x s = audited _ _ (
        if-cases Settles (not (c.server == "computer-control") || r.is_error) x _ (λ _. s)
          (λ _. recording (dict_get "action" c.args)))
      where
        recording : (v : Option Value) → Settles (own_recording g clock c a v x)
        recording (some (str action)) =
            if-cases Settles (action == "start_screen_recording") _ _ (λ _. owned x _ s)
              (λ _.
                if-cases Settles (action == "stop_screen_recording") _ _ (λ _. owned x _ s)
                  (λ _. s))
        recording _ = s

    concluded-Settles :
        (r : ToolResult) (x : Host) (answer : Outcome (Unit {0}))
        → Settles x
        → Settles (concluded g clock c a r (x, answer)).0
    unfolding concluded
    concluded-Settles r x (ok _) s =
        deliver-Settles
          (record r {
            meta =
                dict_set "openagent/replayed" (bool false)
                  (dict_set "openagent/idempotent" (bool true) r.meta);
          })
          x s
    concluded-Settles r x (raise e) s = s
    concluded-Settles r x (crash t) s = s

    unheld : holds_claim g clock c a ≡ false → Settles before
    unheld none_held = recorded before.ledger_rows (holds none_held)

    conclude-Settles : (r : ToolResult) → Settles (conclude g clock c a r before).0
    unfolding conclude
    conclude-Settles r =
        if-cases EndSettles (holds_claim g clock c a) _ _
          (λ _. concluded-Settles r _ _ (complete-Settles r))
          (λ free.
            if-cases EndSettles a.mutates _ _
              (λ _.
                deliver-Settles
                  (record r { meta = dict_set "openagent/replaySafe" (bool false) r.meta }) before
                  (unheld free))
              (λ _. deliver-Settles r before (unheld free)))

    late_audit-Settles :
        (code : String) (x : Host) → Settles x → Settles (late_audit g clock c a code x)
    unfolding late_audit audit_end
    late_audit-Settles code x s =
        if-cases Settles a.safe_retry _ _ (λ _. audited x _ s) (λ _. audited x _ s)

    drained-Settles :
        (code : String) (error : Outcome ToolResult) (x : Host) (answer : Outcome (Unit {0}))
        → Settles x
        → Settles (drained g clock c a code error (x, answer)).0
    unfolding drained
    drained-Settles code error x (ok _) s = late_audit-Settles code x s
    drained-Settles code error x (raise e) s = s
    drained-Settles code error x (crash t) s = s

    end_drained-Settles :
        (code : String) (error : Outcome ToolResult) (o : Outcome ToolResult)
        → (broken ≡ false → (r : ToolResult) × (o ≡ ok r))
        → Settles (end_drained g clock c a code error before o).0
    unfolding end_drained
    end_drained-Settles code error (ok definitive) whole =
        if-cases EndSettles (holds_claim g clock c a) _ _
          (λ _. drained-Settles code error _ _ (complete-Settles definitive))
          (λ free. late_audit-Settles code before (unheld free))
    end_drained-Settles code error (raise e) whole = broken_off (λ b. cc ((whole b).1))
    end_drained-Settles code error (crash t) whole = broken_off (λ b. cc ((whole b).1))

    end_late-Settles :
        (code : String) (error : Outcome ToolResult) (task : TaskEnd)
        → (broken ≡ false → (r : ToolResult) × (drain_mutation task ≡ ok r))
        → Settles (end_late g clock c a code error task before).0
    unfolding end_late
    end_late-Settles code error task whole =
        if-cases EndSettles a.requires_drain _ _
          (λ _. end_drained-Settles code error (drain_mutation task) whole)
          (λ _.
            if-cases EndSettles (holds_claim g clock c a) _ _
              (λ _.
                if-cases EndSettles a.safe_retry _ _
                  (λ _. late_audit-Settles code _ abandon-Settles)
                  (λ _. late_audit-Settles code _ mark-Settles))
              (λ free. late_audit-Settles code before (unheld free)))

    end_ambiguous-Settles :
        (message local_code : String)
        → Settles (end_ambiguous g clock c a message local_code before).0
    unfolding end_ambiguous audit_end
    end_ambiguous-Settles message local_code =
        audited _ _
          (if-cases Settles (holds_claim g clock c a) _ _ (λ _. mark-Settles) (λ free. unheld free))

    -- Every ending of the task resolves the claim, unless the waiting for it is cancelled, and leaves the registers to the `finally` clause.
    pub settle_ending-Settles :
        (ending : Ending)
        → (is_interrupted ending ≡ true → broken ≡ true)
        → Settles (settle_ending g clock c a ending before).0
    unfolding settle_ending
    settle_ending-Settles (returned r) b = conclude-Settles r
    settle_ending-Settles (raised e) b =
        if-cases EndSettles (not a.safe_retry && is_external g clock c a before) _ _
          (λ _. end_ambiguous-Settles "the local MCP failed after mutation dispatch" e.code)
          (λ _. conclude-Settles (tool_error_result e))
    settle_ending-Settles (failed code message) b =
        if-cases EndSettles (not a.safe_retry && is_external g clock c a before) _ _
          (λ _.
            end_ambiguous-Settles "the local MCP disconnected after mutation dispatch"
              (local_code g clock c a code))
          (λ _. conclude-Settles (failure_result message))
    settle_ending-Settles (timed_out task) b =
        end_late-Settles "deadline_exceeded" _ task
          (whole_drain task (λ e. b (ap (λ x. is_interrupted (timed_out x)) e)))
    settle_ending-Settles (cancelled task) b =
        end_late-Settles "cancelled" _ task
          (whole_drain task (λ e. b (ap (λ x. is_interrupted (cancelled x)) e)))

-- ===== src/Host/Ended.antt =====
-- The endings of a call whose effect is uncertain, and what the `finally` clause does to the ledger,
-- the lease and the registers.
use openagent_host_tools.Base.{
  String, Bool, true, false, not, ◌&&◌, ◌≡◌, refl, sym, subst, ◌∙◌, ap, Option, none, some, List,
  [], ◌∷◌, if◌then◌else◌, ◌==◌, eq_iff, eq_refl, arith, Outcome, ok, raise, crash, if-cases, member,
  member-discard, add, bool, str, Value, dict_get, dict_set, ◌||◌,
}
use openagent_host_tools.Lease
use openagent_host_tools.Types.{ToolResult, tool_error_result}
use openagent_host_tools.Host.{Host, Config, Call, find, pop, leave_call, mark_client_local}
use openagent_host_tools.Host.Dispatch.{Admitted, awaited}
use openagent_host_tools.Host.Ending.{
  TaskEnd, Ending, returned, raised, failed, timed_out, cancelled, Clock, drain_mutation,
  failure_result,
}
use openagent_host_tools.Host.Finish.{
  Finished, holds_claim, own_recording, update_resource_ownership, is_external, end_ambiguous,
  deliver, concluded, conclude, drained, end_drained, end_late, settle_ending, release, released,
}

module _ {ℓ} {V : Type ℓ} where
  pub find-pop :
      (k j : String) (m : List (String × V))
      → find j (pop k m) ≡ (if k == j then none else find j m)
  unfolding find pop
  find-pop k j [] = ground arith
  find-pop k j ((i, v) ∷ m) = ground (arith, find-pop k j m, eq_iff i k, eq_iff i j, eq_iff k j)

  find-pop_same : (k : String) (m : List (String × V)) → find k (pop k m) ≡ none
  find-pop_same k m = ground (arith, find-pop k k m, eq_refl k)

module _ (g : Config) (clock : Clock) (c : Call) (a : Admitted) where
  -- The endings after which nobody knows whether the mutation took effect.
  unfoldable pub is_uncertain : Ending → Host → Bool
  is_uncertain (returned r) h = false
  is_uncertain (raised e) h = not a.safe_retry && is_external g clock c a h
  is_uncertain (failed code message) h = not a.safe_retry && is_external g clock c a h
  is_uncertain (timed_out task) h =
      not a.requires_drain && holds_claim g clock c a && not a.safe_retry
  is_uncertain (cancelled task) h =
      not a.requires_drain && holds_claim g clock c a && not a.safe_retry

  abbrev pub uncertain : Finished → Bool
  uncertain (h, outcome, lease_indeterminate) = lease_indeterminate

  abbrev pub outcome_of : Finished → Outcome ToolResult
  outcome_of (h, outcome, lease_indeterminate) = outcome

  concluded-certain :
      (r : ToolResult) (x : Host) (answer : Outcome (Unit {0}))
      → uncertain (concluded g clock c a r (x, answer)) ≡ false
  unfolding concluded deliver
  concluded-certain r x (ok _) = refl
  concluded-certain r x (raise e) = refl
  concluded-certain r x (crash t) = refl

  conclude-certain : (r : ToolResult) (h : Host) → uncertain (conclude g clock c a r h) ≡ false
  unfolding conclude deliver
  conclude-certain r h =
      if-cases (λ (f : Finished). uncertain f ≡ false) (holds_claim g clock c a) _ _
        (λ _. concluded-certain r _ _)
        (λ _.
          if-cases (λ (f : Finished). uncertain f ≡ false) a.mutates _ _ (λ _. refl) (λ _. refl))

  drained-certain :
      (code : String) (error : Outcome ToolResult) (x : Host) (answer : Outcome (Unit {0}))
      → uncertain (drained g clock c a code error (x, answer)) ≡ false
  unfolding drained
  drained-certain code error x (ok _) = refl
  drained-certain code error x (raise e) = refl
  drained-certain code error x (crash t) = refl

  end_drained-certain :
      (code : String) (error : Outcome ToolResult) (x : Host) (o : Outcome ToolResult)
      → uncertain (end_drained g clock c a code error x o) ≡ false
  unfolding end_drained
  end_drained-certain code error x (ok r) =
      if-cases (λ (f : Finished). uncertain f ≡ false) (holds_claim g clock c a) _ _
        (λ _. drained-certain code error _ _) (λ _. refl)
  end_drained-certain code error x (raise e) = refl
  end_drained-certain code error x (crash t) = refl

  end_late-uncertain :
      (code : String) (error : Outcome ToolResult) (task : TaskEnd) (h : Host)
      → uncertain (end_late g clock c a code error task h)
        ≡ (not a.requires_drain && holds_claim g clock c a && not a.safe_retry)
  unfolding end_late
  end_late-uncertain code error task h =
      ground (arith, end_drained-certain code error h (drain_mutation task))

  pub settle_ending-uncertain :
      (ending : Ending) (h : Host)
      → uncertain (settle_ending g clock c a ending h) ≡ is_uncertain ending h
  unfolding settle_ending is_uncertain end_ambiguous
  settle_ending-uncertain (returned r) h = conclude-certain r h
  settle_ending-uncertain (raised e) h = ground (arith, conclude-certain (tool_error_result e) h)
  settle_ending-uncertain (failed code message) h =
      ground (arith, conclude-certain (failure_result message) h)
  settle_ending-uncertain (timed_out task) h = end_late-uncertain "deadline_exceeded" _ task h
  settle_ending-uncertain (cancelled task) h = end_late-uncertain "cancelled" _ task h

  deliver-rows :
      (r : ToolResult) (x : Host) → (deliver g clock c a r x).0.ledger_rows ≡ x.ledger_rows
  unfolding deliver update_resource_ownership own_recording
  deliver-rows r x =
      if-cases (λ (y : Host). y.ledger_rows ≡ x.ledger_rows)
        (not (c.server == "computer-control") || r.is_error) _ _ (λ _. refl)
        (λ _. recording (dict_get "action" c.args))
    where
      recording : (v : Option Value) → (own_recording g clock c a v x).ledger_rows ≡ x.ledger_rows
      recording (some (str action)) = ground arith
      recording _ = refl

  release-rows : (b : Bool) (x : Host) → (release g clock c a b x).ledger_rows ≡ x.ledger_rows
  unfolding release
  release-rows b x =
      if-cases (λ (y : Host). y.ledger_rows ≡ x.ledger_rows) (not a.lease_entered) _ _ (λ _. refl)
        (λ _.
          if-cases (λ (y : Host). y.ledger_rows ≡ x.ledger_rows) (not b) _ _ (λ _. refl)
            (λ _. refl))

  pub release-lease :
      (b : Bool) (x : Host)
      → ((release g clock c a b x).lease_db ≡ (
          if a.lease_entered && not b
          then Lease.leave_sync c.principal c.call_id x.lease_db
          else x.lease_db))
        × ((release g clock c a b x).retained_lease_principals ≡ (
            if a.lease_entered && b
            then add c.principal x.retained_lease_principals
            else x.retained_lease_principals))
  unfolding release leave_call
  release-lease b x = ground arith

  pub left_lem :
      (f : Finished)
      → (a.lease_entered && not (uncertain f) && clock.leave_cancelled) ≡ true
      → ((leave_call c f.0).lease_db ≡ (
          if a.lease_entered && not (uncertain f)
          then Lease.leave_sync c.principal c.call_id f.0.lease_db
          else f.0.lease_db))
        × ((leave_call c f.0).retained_lease_principals ≡ (
            if a.lease_entered && uncertain f
            then add c.principal f.0.retained_lease_principals
            else f.0.retained_lease_principals))
  unfolding leave_call
  left_lem f cut = ground (arith, cut)

  -- The `finally` clause is cancelled while it leaves the lease.
  abbrev pub is_cut : Ending → Host → Bool
  is_cut ending h = a.lease_entered && not (is_uncertain ending h) && clock.leave_cancelled

  pub released-cases :
      (P : Host → Type 0) (f : Finished)
      → ((a.lease_entered && not (uncertain f) && clock.leave_cancelled) ≡ true
          → P (leave_call c f.0))
      → ((a.lease_entered && not (uncertain f) && clock.leave_cancelled) ≡ false
          → P (release g clock c a (uncertain f) f.0))
      → P (released g clock c a f).0
  unfolding released
  released-cases P (h, outcome, b) cut whole =
      if-cases (λ (r : Host × Outcome ToolResult). P r.0)
        (a.lease_entered && not b && clock.leave_cancelled) _ _ cut whole

  pub released-rows : (f : Finished) → (released g clock c a f).0.ledger_rows ≡ f.0.ledger_rows
  unfolding leave_call
  released-rows f =
      released-cases (λ x. x.ledger_rows ≡ f.0.ledger_rows) f (λ _. refl)
        (λ _. release-rows (uncertain f) f.0)

  -- What the registers of the host have of a call.
  abbrev pub Registered : Bool → Host → Host → Type 0
  Registered gone before after =
      (j : String)
      → (find j after.active ≡ (if c.call_id == j && gone then none else find j before.active))
        × (find j after.active_principals
            ≡ (if c.call_id == j && gone then none else find j before.active_principals))
        × (member j after.active_mutating
            ≡ (if c.call_id == j && gone then false else member j before.active_mutating))
        × (member j after.uncancellable_active
            ≡ (if c.call_id == j && gone then false else member j before.uncancellable_active))

  -- The registers before are those after the ending was recorded.
  pub settled-Registered :
      (gone : Bool) (h x y : Host)
      → x.active ≡ h.active
      → x.active_principals ≡ h.active_principals
      → x.active_mutating ≡ h.active_mutating
      → x.uncancellable_active ≡ h.uncancellable_active
      → Registered gone x y
      → Registered gone h y
  settled-Registered gone h x y active principals mutating uncancellable k j =
      let (k0, k1, k2, k3) = k j in
      (
        k0 ∙ ap (λ m. if c.call_id == j && gone then none else find j m) active,
        k1 ∙ ap (λ m. if c.call_id == j && gone then none else find j m) principals,
        k2 ∙ ap (λ m. if c.call_id == j && gone then false else member j m) mutating,
        k3 ∙ ap (λ m. if c.call_id == j && gone then false else member j m) uncancellable,
      )

  release-Registered : (b : Bool) (x : Host) → Registered true x (release g clock c a b x)
  unfolding release
  release-Registered b x j = (
    ground (arith, find-pop c.call_id j x.active),
    ground (arith, find-pop c.call_id j x.active_principals),
    ground (arith, member-discard c.call_id j x.active_mutating),
    ground (arith, member-discard c.call_id j x.uncancellable_active),
  )

  pub released-Registered :
      (f : Finished)
      → Registered
          (not (a.lease_entered && not (uncertain f) && clock.leave_cancelled))
          f.0
          (released g clock c a f).0
  unfolding leave_call
  released-Registered f =
      released-cases
        (Registered (not (a.lease_entered && not (uncertain f) && clock.leave_cancelled)) f.0) f
        (λ cut. rw cut (λ j. (ground arith, ground arith, ground arith, ground arith)))
        (λ whole. rw whole (release-Registered (uncertain f) f.0))

  -- The result of a first run, unless its recording is cancelled.
  abbrev pub first_result : ToolResult → Bool → Outcome ToolResult
  first_result r is_cancelled =
      if is_cancelled
      then crash "CancelledError"
      else ok (
          mark_client_local (record r {
            meta =
                dict_set "openagent/replayed" (bool false)
                  (dict_set "openagent/idempotent" (bool true) r.meta);
          }))

  pub concluded-rows :
      (r : ToolResult) (x : Host) (answer : Outcome (Unit {0}))
      → (concluded g clock c a r (x, answer)).0.ledger_rows ≡ x.ledger_rows
  unfolding concluded
  concluded-rows r x (ok _) =
      deliver-rows
        (record r {
          meta =
              dict_set "openagent/replayed" (bool false)
                (dict_set "openagent/idempotent" (bool true) r.meta);
        })
        x
  concluded-rows r x (raise e) = refl
  concluded-rows r x (crash t) = refl

  pub concluded-result :
      (r : ToolResult) (x : Host) (answer : Outcome (Unit {0}))
      → answer ≡ awaited clock.record_cancelled (ok tt)
      → (concluded g clock c a r (x, answer)).1 ≡ first_result r clock.record_cancelled
  concluded-result r x answer e =
      subst (λ o. (concluded g clock c a r (x, o)).1 ≡ first_result r clock.record_cancelled)
        (sym e) (by_flag clock.record_cancelled)
    where
      by_flag : (b : Bool) → (concluded g clock c a r (x, awaited b (ok tt))).1 ≡ first_result r b
      by_flag true = unfold concluded in refl
      by_flag false = unfold concluded deliver in refl

  pub released-result :
      (f : Finished)
      → (released g clock c a f).1 ≡ (
          if a.lease_entered && not (uncertain f) && clock.leave_cancelled
          then crash "CancelledError"
          else outcome_of f)
  unfolding released
  released-result f = ground arith

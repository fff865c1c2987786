-- ===== src/Host/Release.antt =====
-- What is left of a dispatched call when it has ended: its claim, its lease, and its registration.
use openagent_host_tools.Base.{
  ℕ, Bool, true, false, not, ◌&&◌, ◌≡◌, refl, subst, ◌∙◌, ap, Option, some, if◌then◌else◌, arith,
  Outcome, ok, raise, crash, HostError, Fields, add, bool, dict_set, ◌||◌,
}
use openagent_host_tools.Lease
use openagent_host_tools.Ledger.{Row, is_mine, completed}
use openagent_host_tools.Ledger.Entry.{entry, IsKeyed, complete_sync-mine}
use openagent_host_tools.Types.{ToolResult, to_wire}
use openagent_host_tools.Host.{Host, Config, Call, effective_key, mark_client_local}
use openagent_host_tools.Host.Dispatch.{Admitted, awaited}
use openagent_host_tools.Host.Ending.{
  Ending, returned, Clock, Deadline, deadline_seconds, is_interrupted,
}
use openagent_host_tools.Host.Finish.{
  Finished, holds_claim, complete_claim, concluded, conclude, settle_ending, released, finish_timed,
  finish,
}
use openagent_host_tools.Host.Pending.{claims_key}
use openagent_host_tools.Host.Settling.{settle_ending-Settles}
use openagent_host_tools.Host.Ended.{
  is_uncertain, uncertain, outcome_of, settle_ending-uncertain, released-rows, release-lease,
  left_lem, is_cut, released-cases, Registered, settled-Registered, released-Registered,
  first_result, concluded-rows, concluded-result, released-result,
}

module _ (g : Config) (clock : Clock) (c : Call) (a : Admitted) where
  -- When a dispatched call ends within a valid deadline, in a ledger that has one row for a key,
  -- and this process holds the claim of its key only if the call took it, then this process holds
  -- the claim no longer, whatever the ending, unless a drained call is cancelled again; and the host
  -- has no task, principal or mark of the call in its four registers, unless the call is cancelled
  -- while it leaves the lease, and what they have of other calls is as it was.
  pub finish_resolves :
      (deadline : Deadline) (timeout : Option ℕ) (ending : Ending) (h : Host)
      → IsKeyed h.ledger_rows
      → (holds_claim g clock c a ≡ false → claims_key g c h ≡ false)
      → deadline_seconds clock.deadline_time deadline ≡ ok timeout
      → let after = (finish g clock c a deadline ending h).0 in
        ((claims_key g c after && not (is_interrupted ending)) ≡ false)
        × Registered g clock c a (not (is_cut g clock c a ending h)) h after
  unfolding finish finish_timed
  finish_resolves deadline timeout ending h keyed holds timely =
      let s =
        settle_ending-Settles g clock c a h (is_interrupted ending) keyed holds ending (λ e. e) in
      let f = settle_ending g clock c a ending h in
      rw timely (
        rw (released-rows g clock c a f)
            (certain_free (is_interrupted ending) (claims_key g c f.0) s.unclaimed),
        subst
            (λ b.
              Registered g clock c a (not (a.lease_entered && not b && clock.leave_cancelled)) h
                (released g clock c a f).0)
            (settle_ending-uncertain g clock c a ending h)
            (settled-Registered g clock c a _ h f.0 (released g clock c a f).0 s.active
              s.active_principals s.active_mutating s.uncancellable
              (released-Registered g clock c a f)),
      )
    where
      certain_free : (b held : Bool) → (b ≡ false → held ≡ false) → (held && not b) ≡ false
      certain_free false held unclaimed = rw (unclaimed refl) refl
      certain_free true held unclaimed = ground arith

  -- When a dispatched call ends within a valid deadline, in a ledger that has one row for a key,
  -- and this process holds the claim of its key only if the call took it, then the lease that the
  -- call entered is left, except after an ending whose effect is unknown: then the lease stays
  -- until it expires, and its principal is retained.
  pub finish_leaves :
      (deadline : Deadline) (timeout : Option ℕ) (ending : Ending) (h : Host)
      → IsKeyed h.ledger_rows
      → (holds_claim g clock c a ≡ false → claims_key g c h ≡ false)
      → deadline_seconds clock.deadline_time deadline ≡ ok timeout
      → let after = (finish g clock c a deadline ending h).0 in
        (after.lease_db ≡ (
          if a.lease_entered && not (is_uncertain g clock c a ending h)
          then Lease.leave_sync c.principal c.call_id h.lease_db
          else h.lease_db))
        × (after.retained_lease_principals ≡ (
            if a.lease_entered && is_uncertain g clock c a ending h
            then add c.principal h.retained_lease_principals
            else h.retained_lease_principals))
  unfolding finish finish_timed
  finish_leaves deadline timeout ending h keyed holds timely =
      let s = settle_ending-Settles g clock c a h true keyed holds ending (λ _. refl) in
      let (lease, retained) = released-lease (settle_ending g clock c a ending h) in
      rw
        (timely, lease, retained, settle_ending-uncertain g clock c a ending h, s.lease, s.retained)
        (refl, refl)
    where
      -- Also a clause that is cut has left the lease.
      released-lease :
          (f : Finished)
          → ((released g clock c a f).0.lease_db ≡ (
              if a.lease_entered && not (uncertain g clock c a f)
              then Lease.leave_sync c.principal c.call_id f.0.lease_db
              else f.0.lease_db))
            × ((released g clock c a f).0.retained_lease_principals ≡ (
                if a.lease_entered && uncertain g clock c a f
                then add c.principal f.0.retained_lease_principals
                else f.0.retained_lease_principals))
      released-lease f =
          released-cases g clock c a
            (λ x.
              (x.lease_db ≡ (
                if a.lease_entered && not (uncertain g clock c a f)
                then Lease.leave_sync c.principal c.call_id f.0.lease_db
                else f.0.lease_db))
              × (x.retained_lease_principals ≡ (
                  if a.lease_entered && uncertain g clock c a f
                  then add c.principal f.0.retained_lease_principals
                  else f.0.retained_lease_principals)))
            f (λ cut. left_lem g clock c a f cut)
            (λ _. release-lease g clock c a (uncertain g clock c a f) f.0)

  -- In a ledger that has one row for a key, a result that comes within a valid deadline, to a call
  -- that took a claim that is still this process's, is recorded in the row of the key, and returned
  -- with the marks of a first run, unless the call is cancelled while it records the result or leaves
  -- the lease.
  pub finish_records :
      (deadline : Deadline) (timeout : Option ℕ) (r : ToolResult) (h : Host) (row : Row Fields)
      → IsKeyed h.ledger_rows
      → entry c.principal (effective_key c) h.ledger_rows ≡ some row
      → is_mine g.ledger row ≡ true
      → holds_claim g clock c a ≡ true
      → deadline_seconds clock.deadline_time deadline ≡ ok timeout
      → let (after, answer) = finish g clock c a deadline (returned r) h in
        (entry c.principal (effective_key c) after.ledger_rows
          ≡ some
              (completed g.ledger c.principal (effective_key c) clock.ledger_time (to_wire r) row))
        × (answer ≡ (
            if clock.record_cancelled || (a.lease_entered && clock.leave_cancelled)
            then crash "CancelledError"
            else ok (
                mark_client_local (record r {
                  meta =
                      dict_set "openagent/replayed"
                        (bool false)
                        (dict_set "openagent/idempotent" (bool true) r.meta);
                }))))
  unfolding finish finish_timed
  finish_records deadline timeout r h row keyed found mine holds timely =
      let (stored, answered) =
        complete_sync-mine g.ledger c.principal (effective_key c) h.ledger_rows clock.ledger_time
          (to_wire r) row keyed found mine in
      let f = settle_ending g clock c a (returned r) h in
      let same : f ≡ concluded g clock c a r (complete_claim g clock c a r h) =
        unfold settle_ending conclude in rw holds refl in
      let rows : f.0.ledger_rows ≡ (complete_claim g clock c a r h).0.ledger_rows =
        ap (λ (x : Finished). x.0.ledger_rows) same ∙ concluded-rows g clock c a r _ _ in
      let answer : outcome_of g clock c a f ≡ first_result g clock c a r clock.record_cancelled =
        ap (outcome_of g clock c a) same
        ∙ concluded-result g clock c a r _ _
            (unfold complete_claim in ap (awaited clock.record_cancelled) answered) in
      rw timely (
        ap (entry c.principal (effective_key c)) (released-rows g clock c a f ∙ rows)
            ∙ (unfold complete_claim in stored),
        released-result g clock c a f
            ∙ rw (settle_ending-uncertain g clock c a (returned r) h, answer)
                (unfold is_uncertain in
                  cut_short a.lease_entered clock.leave_cancelled clock.record_cancelled _),
      )
    where
      cut_short :
          (entered left recorded : Bool) (x : Outcome ToolResult)
          → (if entered && not false && left
              then crash "CancelledError"
              else if recorded
              then crash "CancelledError"
              else x)
            ≡ (if recorded || (entered && left) then crash "CancelledError" else x)
      cut_short entered left recorded x = ground arith

  -- A deadline that is malformed or has passed is noticed after the dispatch: the call raises that
  -- error, unless it is cancelled while it leaves the lease, and leaves the ledger as it is.
  pub late_deadline_lem :
      (deadline : Deadline) (e : HostError) (ending : Ending) (h : Host)
      → deadline_seconds clock.deadline_time deadline ≡ raise e
      → let (after, answer) = finish g clock c a deadline ending h in
        (answer
          ≡ (if a.lease_entered && clock.leave_cancelled then crash "CancelledError" else raise e))
        × (after.ledger_rows ≡ h.ledger_rows)
        × Registered g clock c a
            (not (a.lease_entered && not false && clock.leave_cancelled))
            h
            after
  unfolding finish finish_timed
  late_deadline_lem deadline e ending h late = rw late (
    unfold released in ground arith,
    released-rows g clock c a (h, raise e, false),
    released-Registered g clock c a (h, raise e, false),
  )

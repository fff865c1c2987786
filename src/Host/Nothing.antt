-- ===== src/Host/Nothing.antt =====
-- A call that is not dispatched leaves neither claim nor lease nor register behind.
use openagent_host_tools.Base.{
  ◌&&◌, ℕ, Bool, true, false, ◌≡◌, ◌≢◌, ◌⊎◌, inl, inr, refl, sym, ◌∙◌, subst, Option, none, some,
  ◌==◌, arith, Outcome, ok, raise, crash, if-cases, Fields,
}
use Prim.Native.String.{◌++◌ as text_append}
use openagent_host_tools.Ledger.{Row, new, replay, Claim, replayed}
use openagent_host_tools.Ledger.Entry.{entry, IsKeyed, claims}
use openagent_host_tools.Ledger.Claims.{claimed, verdict, entry-claim_sync}
use openagent_host_tools.Ledger.Keyed.{Event, step, step-IsKeyed}
use openagent_host_tools.Lease
use openagent_host_tools.Lease.Lock.{Lock, store}
use openagent_host_tools.Lease.Refine.{refused_enter-eq}
use openagent_host_tools.Types.{ToolClassification, ToolResult, from_wire}
use openagent_host_tools.Host.{Host, Config, Call, Kind, effective_key, audit_denial}
use openagent_host_tools.Host.Dispatch.{
  Env, Admitted, Admission, dispatched, dispatch, entered, enter_lease, replay_result, claimed_call,
  claim_key, is_mutating, is_safe_retry,
}
use openagent_host_tools.Host.Admit.{denied, ensure_started, admit_call}
use openagent_host_tools.Host.Admission.{admit_call-cases}
use openagent_host_tools.Host.Pending.{
  LeavesNothing, Pending, claims_key, pending, leave-enter, abandoned, abort-LeavesNothing, audited,
  renounced, waiting,
}

module _ (g : Config) (c : Call) where
  abbrev Unless : Host → Host × Outcome Admission → Type 0
  Unless before (after, r) =
      ((a : Admitted) → r ≢ ok (dispatched a)) → LeavesNothing g c before after

  granted-or_same :
      (now : ℕ) (retry_stale : Bool) (r : Row Fields)
      → ((claimed g.ledger now c.principal (effective_key c) c.fingerprint retry_stale (some r)).1
          ≡ ok new)
        ⊎ ((claimed g.ledger now c.principal (effective_key c) c.fingerprint retry_stale (some r)).0
            ≡ some r)
  unfolding claimed verdict replayed
  granted-or_same now retry_stale r = ground arith

  -- A claim that is not granted gives the claim to nobody.
  refused_claim :
      (now : ℕ) (retry_stale : Bool) (o : Option (Row Fields))
      → (claimed g.ledger now c.principal (effective_key c) c.fingerprint retry_stale o).1 ≢ ok new
      → claims g.ledger
          (claimed g.ledger now c.principal (effective_key c) c.fingerprint retry_stale o).0
        ≡ true
      → claims g.ledger o ≡ true
  unfolding claimed verdict
  refused_claim now retry_stale none refused mine = absurd (refused refl)
  refused_claim now retry_stale (some r) refused mine = elim (granted-or_same now retry_stale r) [
    | inl e ↦ absurd (refused e)
    | inr e ↦ (rw e at mine)
  ]

  module _ (before : Host) where
    dispatch-Unless :
        (env : Env) (kind : Kind) (k : ToolClassification) (claimed : Bool) (h : Host)
        → env.abort_cancelled ≡ false
        → Pending g c before claimed (is_mutating k) h
        → Unless before (dispatch g env c kind k claimed h)
    unfolding dispatch audit_denial
    dispatch-Unless env kind k claimed h whole p =
        if-cases (Unless before) env.consent_dispatch _ _
          (λ _ undispatched. absurd (undispatched _ refl))
          (λ _.
            if-cases (Unless before) (is_mutating k && env.abort_cancelled) _ _
              (λ cut. absurd (ground (arith, cut, whole)))
              (λ _ _.
                abort-LeavesNothing g c before claimed (is_mutating k) _
                  (audited g c before _ claimed (is_mutating k) h p)))

    entered-Unless :
        (env : Env) (kind : Kind) (k : ToolClassification) (fresh : Bool) (h : Host) (db : Lease.Db)
        (answer : Outcome (Unit {0}))
        → env.abort_cancelled ≡ false
        → Pending g c before fresh false h
        → is_mutating k ≡ true
        → (answer ≡ ok tt → Lease.leave_sync c.principal c.call_id db ≡ Lease.empty)
        → (((a : Unit {0}) → answer ≢ ok a) → db ≡ before.lease_db)
        → Unless before (entered g env c kind k fresh (record h { lease_db = db }) answer)
    unfolding entered
    entered-Unless env kind k fresh h db (ok _) whole p mutates freed kept =
        dispatch-Unless env kind k fresh _ whole (record {
          active = p.active;
          active_principals = p.active_principals;
          active_mutating = p.active_mutating;
          uncancellable = p.uncancellable;
          lease = λ reads. cc;
          entered_lease = λ _. freed refl;
          keyed = p.keyed;
          claimed_key = p.claimed_key;
          unclaimed = p.unclaimed;
        })
    entered-Unless env kind k fresh h db (raise e) whole p mutates freed kept = λ _.
        abandoned g c before fresh (record h { lease_db = db }) p.active p.active_principals
          p.active_mutating p.uncancellable (inl (kept (λ a. cc))) p.keyed p.claimed_key p.unclaimed
    entered-Unless env kind k fresh h db (crash t) whole p mutates freed kept = λ _.
        abandoned g c before fresh (record h { lease_db = db }) p.active p.active_principals
          p.active_mutating p.uncancellable (inl (kept (λ a. cc))) p.keyed p.claimed_key p.unclaimed

    module _ (l : Lock) (locked : before.lease_db ≡ store l) where
      enter_lease-Unless :
          (env : Env) (kind : Kind) (k : ToolClassification) (fresh : Bool) (h : Host)
          → env.enter_cancelled ≡ false
          → env.abort_cancelled ≡ false
          → Pending g c before fresh false h
          → Unless before (enter_lease g env c kind k fresh h)
      unfolding enter_lease
      enter_lease-Unless env kind k fresh h calm whole p =
          if-cases (Unless before) (is_mutating k) _ _
            (λ mutates. rw calm (
              entered-Unless env kind k fresh h _ _ whole p mutates
                (rw (p.lease refl ∙ locked) (
                  leave-enter g c g.lease_duration env.enter_time
                    (text_append c.server (text_append "." c.tool)) l))
                (λ refused.
                  refused_enter-eq g.lease_duration env.enter_time c.principal c.call_id
                    (text_append c.server (text_append "." c.tool)) h.lease_db refused
                  ∙ p.lease refl)))
            (λ reads. dispatch-Unless env kind k fresh h whole (rw reads p))

      replay_result-Unless :
          (env : Env) (k : ToolClassification) (h : Host) (r : Outcome ToolResult)
          → Pending g c before false false h
          → Unless before (replay_result g env c k h r)
      unfolding replay_result audit_denial
      replay_result-Unless env k h (ok r) p =
          if-cases (Unless before) env.consent_replay _ _
            (λ _ _. waiting g c before _ (audited g c before _ false false h p))
            (λ _ _. waiting g c before _ (audited g c before _ false false h p))
      replay_result-Unless env k h (raise e) p = λ _. waiting g c before h p
      replay_result-Unless env k h (crash t) p = λ _. waiting g c before h p

      claimed_call-Unless :
          (env : Env) (kind : Kind) (k : ToolClassification) (h : Host)
          (answer : Outcome (Claim Fields))
          → env.enter_cancelled ≡ false
          → env.abort_cancelled ≡ false
          → Pending g c before true false h
          → (answer ≢ ok new → claims_key g c h ≡ true → claims_key g c before ≡ true)
          → Unless before (claimed_call g env c kind k h answer)
      unfolding claimed_call
      claimed_call-Unless env kind k h (ok new) calm whole p other =
          enter_lease-Unless env kind k true h calm whole p
      claimed_call-Unless env kind k h (ok (replay w)) calm whole p other =
          replay_result-Unless env k h (from_wire w) (renounced g c before h p (other (λ e. cc)))
      claimed_call-Unless env kind k h (raise e) calm whole p other = λ _.
          waiting g c before _
            (audited g c before _ false false h (renounced g c before h p (other (λ e. cc))))
      claimed_call-Unless env kind k h (crash t) calm whole p other =
          λ _. waiting g c before h (renounced g c before h p (other (λ e. cc)))

      claim_key-Unless :
          (env : Env) (kind : Kind) (k : ToolClassification) (h : Host)
          → env.claim_cancelled ≡ false
          → env.enter_cancelled ≡ false
          → env.abort_cancelled ≡ false
          → Pending g c before false false h
          → Unless before (claim_key g env c kind k h)
      unfolding claim_key step
      claim_key-Unless env kind k h calm_claim calm whole p =
          if-cases (Unless before) (effective_key c == "") _ _
            (λ _. enter_lease-Unless env kind k false h calm whole p)
            λ keyed.
              let (row, answered) =
                entry-claim_sync g.ledger env.claim_time c.principal (effective_key c) c.fingerprint
                  (is_safe_retry k) h.ledger_rows p.keyed in
              rw calm_claim (
                claimed_call-Unless env kind k _ _ calm whole
                  (record {
                    active = p.active;
                    active_principals = p.active_principals;
                    active_mutating = p.active_mutating;
                    uncancellable = p.uncancellable;
                    lease = p.lease;
                    entered_lease = p.entered_lease;
                    keyed =
                        step-IsKeyed
                          (Event.claim g.ledger env.claim_time c.principal (effective_key c)
                            c.fingerprint (is_safe_retry k))
                          h.ledger_rows p.keyed;
                    claimed_key = λ _. keyed;
                    unclaimed = λ e. cc;
                  })
                  λ refused mine. p.unclaimed refl (
                    refused_claim env.claim_time (is_safe_retry k)
                      (entry c.principal (effective_key c) h.ledger_rows) (rw answered at refused)
                      (rw row at mine)))

  pub started-eq : (env : Env) (h : Host) → h.started ≡ true → ensure_started g env c h ≡ h
  unfolding ensure_started
  started-eq env h started = if-cases (λ x. x ≡ h) h.started _ _ (λ _. refl) (λ e. cc)

  -- In a started host whose ledger has one row for a key and whose lease tables store a lock, a
  -- call that is not cancelled while it awaits its claim or the lease, or while it leaves the lease
  -- after a denial, and that is not dispatched (denied, refused, replayed, or crashed), leaves the
  -- registers of calls as they were and the lease as it was or free; and if this process holds the
  -- claim of the call's key afterwards, it held it before.
  pub admit_call-LeavesNothing :
      (env : Env) (h : Host) (l : Lock)
      → h.started ≡ true
      → IsKeyed h.ledger_rows
      → h.lease_db ≡ store l
      → env.claim_cancelled ≡ false
      → env.enter_cancelled ≡ false
      → env.abort_cancelled ≡ false
      → ((a : Admitted) → (admit_call g env c h).1 ≢ ok (dispatched a))
      → LeavesNothing g c h (admit_call g env c h).0
  unfolding denied audit_denial
  admit_call-LeavesNothing env h l started keyed locked calm_claim calm_enter whole =
      let there =
        subst (Pending g c h false false) (sym (started-eq env h started)) (pending g c h keyed) in
      admit_call-cases g env c (Unless h) h
        (λ e _. waiting g c h _ (audited g c h _ false false h (pending g c h keyed)))
        (λ e _. waiting g c h _ (audited g c h _ false false (ensure_started g env c h) there))
        (λ t _. waiting g c h _ there)
        (λ kind k _.
          claim_key-Unless h l locked env kind k (ensure_started g env c h) calm_claim calm_enter
            whole there)

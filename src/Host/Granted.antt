-- ===== src/Host/Granted.antt =====
-- What a call holds when it is dispatched.
use Prim.Native.String.{◌++◌ as text_append}
use openagent_host_tools.Base.{
  implied, ◌&&◌, not, ◌⊎◌, inl, inr, ℕ, String, Bool, true, false, ◌≡◌, refl, sym, ◌∙◌, subst,
  Option, none, some, List, [], ◌∷◌, ◌==◌, eq_refl, arith, Outcome, ok, raise, crash, if-cases,
  Fields,
}
use openagent_host_tools.Lease
use openagent_host_tools.Lease.Lock.{Lock, Hold, held, store, owns}
use openagent_host_tools.Lease.Refine.{enter_sync-store}
use openagent_host_tools.Lease.Exclusion.{enter-owns}
use openagent_host_tools.Ledger.{is_mine, new_row, take_over, Row, new, replay, Claim, replayed}
use openagent_host_tools.Ledger.Entry.{entry, IsKeyed, claims}
use openagent_host_tools.Ledger.Keyed.{Event, step, step-IsKeyed}
use openagent_host_tools.Ledger.Claims.{claimed, verdict, entry-claim_sync}
use openagent_host_tools.Types.{ToolClassification, ToolResult, from_wire}
use openagent_host_tools.Host.{Host, Config, Call, Kind, running, effective_key, find, put}
use openagent_host_tools.Host.Dispatch.{
  Env, Admitted, Admission, dispatched, register, dispatch, entered, enter_lease, replay_result,
  claimed_call, claim_key, awaited, is_mutating, is_safe_retry,
}
use openagent_host_tools.Host.Admit.{denied, ensure_started, admit_call}
use openagent_host_tools.Host.Admission.{admit_call-cases}
use openagent_host_tools.Host.Pending.{claims_key}
use openagent_host_tools.Host.Nothing.{started-eq}

find-put : {V : Type 0} (k : String) (v : V) (m : List (String × V)) → find k (put k v m) ≡ some v
unfolding find put
find-put k v [] = ground (arith, eq_refl k)
find-put k v ((j, w) ∷ m) = ground (arith, find-put k v m)

module _ (g : Config) (c : Call) where
  -- The lease is stored as held by this call.
  abbrev pub HoldsLease : Lease.Db → Type 0
  HoldsLease db =
      (hold : Hold) × (db ≡ store (held hold)) × (owns c.principal c.call_id hold ≡ true)

  -- Both readings of consent were positive; the task is registered, for its principal; a call with
  -- a key holds the claim, and a mutating call the lease.
  pub record Granted (env : Env) (h : Host) (a : Admitted) : Type 0 where
    pub consent_first : env.consent_first ≡ true
    pub consent_dispatch : env.consent_dispatch ≡ true
    pub active : find c.call_id h.active ≡ some running
    pub active_principals : find c.call_id h.active_principals ≡ some c.principal
    pub claim_taken : a.claimed ≡ not (effective_key c == "")
    pub claim : (a.claimed && not (claims_key g c h)) ≡ false
    pub lease_taken : a.lease_entered ≡ is_mutating a.classification
    pub keyed : IsKeyed h.ledger_rows
    pub lease : (a.lease_entered ≡ false) ⊎ HoldsLease h.lease_db

  -- An answer that comes is the one that was given.
  awaited-ok : {A : Type 0} (b : Bool) (o : Outcome A) {x : A} → awaited b o ≡ ok x → o ≡ ok x
  awaited-ok {A = A} b o {x = x} =
      if-cases (λ (r : Outcome A). r ≡ ok x → o ≡ ok x) b _ _ (λ _ e. cc) (λ _ e. e)

  either : {A : Type 0} (b : Bool) → (b ≡ true → A) → (b ≡ false) ⊎ A
  either false h = inl refl
  either true h = inr (h refl)

  granted-claims :
      (now : ℕ) (retry_stale : Bool) (o : Option (Row Fields))
      → (claimed g.ledger now c.principal (effective_key c) c.fingerprint retry_stale o).1 ≡ ok new
      → claims g.ledger
          (claimed g.ledger now c.principal (effective_key c) c.fingerprint retry_stale o).0
        ≡ true
  unfolding claimed verdict replayed is_mine new_row take_over
  granted-claims now retry_stale none fresh = ground (arith, eq_refl g.ledger.owner_id)
  granted-claims now retry_stale (some r) fresh = ground (arith, eq_refl g.ledger.owner_id)

  enter-HoldsLease :
      (duration now : ℕ) (tool : String) (l : Lock)
      → (Lease.enter_sync duration now c.principal c.call_id tool (store l)).1 ≡ ok tt
      → HoldsLease (Lease.enter_sync duration now c.principal c.call_id tool (store l)).0
  enter-HoldsLease duration now tool l e =
      let (hold, now_held, mine) =
        enter-owns duration now c.principal c.call_id tool l (rw enter_sync-store at e) in
      (hold, rw (enter_sync-store c.principal c.call_id duration now tool l, now_held) refl, mine)

  module _ (env : Env) where
    abbrev GrantsWith : Host → Outcome Admission → Type 0
    GrantsWith h (ok (dispatched a)) = Granted env h a
    GrantsWith h _ = Unit

    abbrev Grants : Host × Outcome Admission → Type 0
    Grants (h, r) = GrantsWith h r

    module _ (consented : env.consent_first ≡ true) where
      dispatch-Grants :
          (kind : Kind) (k : ToolClassification) (taken : Bool) (h : Host)
          → taken ≡ not (effective_key c == "")
          → (taken ≡ true → claims_key g c h ≡ true)
          → (is_mutating k ≡ true → HoldsLease h.lease_db)
          → IsKeyed h.ledger_rows
          → Grants (dispatch g env c kind k taken h)
      unfolding dispatch register
      dispatch-Grants kind k taken h keyed claim lease rows =
          if-cases Grants env.consent_dispatch _ _
            (λ again. record {
              consent_first = consented;
              consent_dispatch = again;
              active = find-put c.call_id running h.active;
              active_principals = find-put c.call_id c.principal h.active_principals;
              claim_taken = keyed;
              claim = implied taken (claims_key g c h) claim;
              keyed = rows;
              lease_taken = refl;
              lease = either (is_mutating k) lease;
            })
            (λ _. if-cases Grants (is_mutating k && env.abort_cancelled) _ _ (λ _. tt) (λ _. tt))

      entered-Grants :
          (kind : Kind) (k : ToolClassification) (taken : Bool) (h : Host)
          (answer : Outcome (Unit {0}))
          → taken ≡ not (effective_key c == "")
          → (taken ≡ true → claims_key g c h ≡ true)
          → (answer ≡ ok tt → HoldsLease h.lease_db)
          → IsKeyed h.ledger_rows
          → Grants (entered g env c kind k taken h answer)
      unfolding entered
      entered-Grants kind k taken h (ok _) keyed claim lease rows =
          dispatch-Grants kind k taken _ keyed claim (λ _. lease refl) rows
      entered-Grants kind k taken h (raise e) keyed claim lease rows = tt
      entered-Grants kind k taken h (crash t) keyed claim lease rows = tt

      replay_result-Grants :
          (k : ToolClassification) (h : Host) (r : Outcome ToolResult)
          → Grants (replay_result g env c k h r)
      unfolding replay_result
      replay_result-Grants k h (ok r) = if-cases Grants env.consent_replay _ _ (λ _. tt) (λ _. tt)
      replay_result-Grants k h (raise e) = tt
      replay_result-Grants k h (crash t) = tt

      module _ (l : Lock) where
        enter_lease-Grants :
            (kind : Kind) (k : ToolClassification) (taken : Bool) (h : Host)
            → h.lease_db ≡ store l
            → taken ≡ not (effective_key c == "")
            → (taken ≡ true → claims_key g c h ≡ true)
            → IsKeyed h.ledger_rows
            → Grants (enter_lease g env c kind k taken h)
        unfolding enter_lease
        enter_lease-Grants kind k taken h locked keyed claim rows =
            if-cases Grants (is_mutating k) _ _
              (λ _.
                entered-Grants kind k taken _ _ keyed claim
                  (λ got.
                    let tool = text_append c.server (text_append "." c.tool) in
                    let holds : (Lease.enter_sync g.lease_duration env.enter_time c.principal
                            c.call_id tool h.lease_db).1
                          ≡ ok tt
                        → HoldsLease
                            (Lease.enter_sync g.lease_duration env.enter_time c.principal c.call_id
                              tool h.lease_db).0 =
                      rw locked (enter-HoldsLease g.lease_duration env.enter_time tool l) in
                    holds (awaited-ok env.enter_cancelled _ got))
                  rows)
              (λ reads. dispatch-Grants kind k taken h keyed claim (λ mutates. cc) rows)

        claimed_call-Grants :
            (kind : Kind) (k : ToolClassification) (h : Host) (answer : Outcome (Claim Fields))
            → h.lease_db ≡ store l
            → (effective_key c == "") ≡ false
            → (answer ≡ ok new → claims_key g c h ≡ true)
            → IsKeyed h.ledger_rows
            → Grants (claimed_call g env c kind k h answer)
        unfolding claimed_call
        claimed_call-Grants kind k h (ok new) locked keyed claim rows =
            enter_lease-Grants kind k true h locked (rw keyed refl) (λ _. claim refl) rows
        claimed_call-Grants kind k h (ok (replay w)) locked keyed claim rows =
            replay_result-Grants k h (from_wire w)
        claimed_call-Grants kind k h (raise e) locked keyed claim rows = tt
        claimed_call-Grants kind k h (crash t) locked keyed claim rows = tt

        claim_key-Grants :
            (kind : Kind) (k : ToolClassification) (h : Host)
            → h.lease_db ≡ store l
            → IsKeyed h.ledger_rows
            → Grants (claim_key g env c kind k h)
        unfolding claim_key step
        claim_key-Grants kind k h locked keyed =
            if-cases Grants (effective_key c == "") _ _
              (λ keyless.
                enter_lease-Grants kind k false h locked (rw keyless refl) (λ taken. cc) keyed)
              λ has_key.
                let (row, answered) =
                  entry-claim_sync g.ledger env.claim_time c.principal (effective_key c)
                    c.fingerprint (is_safe_retry k) h.ledger_rows keyed in
                claimed_call-Grants kind k _ _ locked has_key
                  (λ fresh. rw row (
                    granted-claims env.claim_time (is_safe_retry k)
                      (entry c.principal (effective_key c) h.ledger_rows)
                      (sym answered ∙ awaited-ok env.claim_cancelled _ fresh)))
                  (step-IsKeyed
                    (Event.claim g.ledger env.claim_time c.principal (effective_key c) c.fingerprint
                      (is_safe_retry k))
                    h.ledger_rows keyed)

  -- In a started host whose ledger has one row for a key and whose lease tables store a lock, a
  -- call is dispatched only if both readings of consent are positive; it then stands in the
  -- registers, this process has its claim if it has a key, it has the lease if it mutates, and the
  -- ledger still has one row for a key.
  pub admit_call-Granted :
      (env : Env) (h : Host) (l : Lock) (a : Admitted)
      → h.started ≡ true
      → IsKeyed h.ledger_rows
      → h.lease_db ≡ store l
      → (admit_call g env c h).1 ≡ ok (dispatched a)
      → Granted env (admit_call g env c h).0 a
  unfolding denied
  admit_call-Granted env h l a started keyed locked admitted =
      let same = started-eq g c env h started in
      let all : Grants env (admit_call g env c h) =
        admit_call-cases g env c (Grants env) h (λ e. tt) (λ e. tt) (λ t. tt)
          (λ kind k consented.
            claim_key-Grants env consented l kind k (ensure_started g env c h) (rw same locked)
              (rw same keyed)) in
      subst (GrantsWith env (admit_call g env c h).0) admitted all

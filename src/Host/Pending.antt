-- ===== src/Host/Pending.antt =====
-- A call on its way to its dispatch, and the clause that undoes what it did so far.
use openagent_host_tools.Base.{
  implied, ◌&&◌, not, ℕ, String, Bool, true, false, ◌≡◌, ◌⊎◌, inl, inr, refl, Option, none, some,
  if◌then◌else◌, ◌==◌, arith, ok, Fields, spared,
}
use openagent_host_tools.Audit
use openagent_host_tools.Ledger.{Row, is_mine}
use openagent_host_tools.Ledger.Entry.{entry, IsKeyed, claims, entry-abandon_sync}
use openagent_host_tools.Ledger.Claims.{claimed}
use openagent_host_tools.Lease
use openagent_host_tools.Lease.Lock
use openagent_host_tools.Lease.Lock.{Lock, Hold, free, held, store, owns}
use openagent_host_tools.Lease.Refine.{enter_sync-store, leave_sync-store}
use openagent_host_tools.Lease.Exclusion.{enter-owns}
use openagent_host_tools.Host.{Host, Config, Call, effective_key, leave_call, abandon_claim}
use openagent_host_tools.Host.Dispatch.{abort}

module _ (g : Config) (c : Call) where
  -- Whether this process holds the claim of the call's key.
  abbrev pub claims_key : Host → Bool
  claims_key h = claims g.ledger (entry c.principal (effective_key c) h.ledger_rows)

  -- The registers are as they were; the lease is as it was, or free; and a claim of the key that
  -- this process holds is one that it held before.
  pub record LeavesNothing (before after : Host) : Type 0 where
    pub active : after.active ≡ before.active
    pub active_principals : after.active_principals ≡ before.active_principals
    pub active_mutating : after.active_mutating ≡ before.active_mutating
    pub uncancellable : after.uncancellable_active ≡ before.uncancellable_active
    pub lease : (after.lease_db ≡ before.lease_db) ⊎ (after.lease_db ≡ Lease.empty)
    pub unclaimed : (claims_key after && not (claims_key before)) ≡ false

  pub abandon-unclaimed :
      (h : Host) → IsKeyed h.ledger_rows → claims_key (abandon_claim g c h) ≡ false
  unfolding abandon_claim
  abandon-unclaimed h keyed =
      rw (entry-abandon_sync g.ledger c.principal (effective_key c) h.ledger_rows keyed)
        (gone (entry c.principal (effective_key c) h.ledger_rows))
    where
      gone : (o : Option (Row Fields)) → claims g.ledger (spared (is_mine g.ledger) o) ≡ false
      gone none = refl
      gone (some r) = ground arith

  -- The lease that the call entered is free after its `leave`.
  pub leave-enter :
      (duration now : ℕ) (tool : String) (l : Lock)
      → (Lease.enter_sync duration now c.principal c.call_id tool (store l)).1 ≡ ok tt
      → Lease.leave_sync c.principal c.call_id
          (Lease.enter_sync duration now c.principal c.call_id tool (store l)).0
        ≡ Lease.empty
  unfolding Lock.leave
  leave-enter duration now tool l e =
      let (h, now_held, mine) =
        enter-owns duration now c.principal c.call_id tool l (rw enter_sync-store at e) in
      rw
        (
          enter_sync-store c.principal c.call_id duration now tool l,
          now_held,
          leave_sync-store c.principal c.call_id (held h),
          mine,
        )
        refl

  -- A call on its way, with what it has claimed and entered so far.
  pub record Pending (before : Host) (claimed lease_entered : Bool) (h : Host) : Type 0 where
    pub active : h.active ≡ before.active
    pub active_principals : h.active_principals ≡ before.active_principals
    pub active_mutating : h.active_mutating ≡ before.active_mutating
    pub uncancellable : h.uncancellable_active ≡ before.uncancellable_active
    pub lease : lease_entered ≡ false → h.lease_db ≡ before.lease_db
    pub entered_lease :
        lease_entered ≡ true → Lease.leave_sync c.principal c.call_id h.lease_db ≡ Lease.empty
    pub keyed : IsKeyed h.ledger_rows
    pub claimed_key : claimed ≡ true → (effective_key c == "") ≡ false
    pub unclaimed : claimed ≡ false → claims_key h ≡ true → claims_key before ≡ true

  module _ (before : Host) where
    pub abandoned :
        (claimed : Bool) (h : Host)
        → h.active ≡ before.active
        → h.active_principals ≡ before.active_principals
        → h.active_mutating ≡ before.active_mutating
        → h.uncancellable_active ≡ before.uncancellable_active
        → (h.lease_db ≡ before.lease_db) ⊎ (h.lease_db ≡ Lease.empty)
        → IsKeyed h.ledger_rows
        → (claimed ≡ true → (effective_key c == "") ≡ false)
        → (claimed ≡ false → claims_key h ≡ true → claims_key before ≡ true)
        → LeavesNothing before
            (if claimed && not (effective_key c == "") then abandon_claim g c h else h)
    abandoned false h active principals mutates uncancellable lease keyed key unclaimed = record {
      active = active;
      active_principals = principals;
      active_mutating = mutates;
      uncancellable = uncancellable;
      lease = lease;
      unclaimed = implied (claims_key h) (claims_key before) (unclaimed refl);
    }
    abandoned true h active principals mutates uncancellable lease keyed key unclaimed =
        rw (key refl) (
          unfold abandon_claim in
          record {
            active = active;
            active_principals = principals;
            active_mutating = mutates;
            uncancellable = uncancellable;
            lease = lease;
            unclaimed = rw (abandon-unclaimed h keyed) refl;
          })

    pub abort-LeavesNothing :
        (claimed lease_entered : Bool) (h : Host)
        → Pending before claimed lease_entered h
        → LeavesNothing before (abort g c claimed lease_entered h)
    unfolding abort
    abort-LeavesNothing claimed false h p =
        abandoned claimed h p.active p.active_principals p.active_mutating p.uncancellable
          (inl (p.lease refl)) p.keyed p.claimed_key p.unclaimed
    abort-LeavesNothing claimed true h p =
        abandoned claimed (leave_call c h) p.active p.active_principals p.active_mutating
          p.uncancellable (inr (p.entered_lease refl)) p.keyed p.claimed_key p.unclaimed

    pub audited :
        (a : Audit.Audit) (fresh lease_entered : Bool) (h : Host)
        → Pending before fresh lease_entered h
        → Pending before fresh lease_entered (record h { audit = a })
    audited a fresh lease_entered h p = record {
      active = p.active;
      active_principals = p.active_principals;
      active_mutating = p.active_mutating;
      uncancellable = p.uncancellable;
      lease = p.lease;
      entered_lease = p.entered_lease;
      keyed = p.keyed;
      claimed_key = p.claimed_key;
      unclaimed = p.unclaimed;
    }

    pub renounced :
        (h : Host)
        → Pending before true false h
        → (claims_key h ≡ true → claims_key before ≡ true)
        → Pending before false false h
    renounced h p unclaimed = record {
      active = p.active;
      active_principals = p.active_principals;
      active_mutating = p.active_mutating;
      uncancellable = p.uncancellable;
      lease = p.lease;
      entered_lease = p.entered_lease;
      keyed = p.keyed;
      claimed_key = λ e. cc;
      unclaimed = λ _. unclaimed;
    }

    pub waiting : (h : Host) → Pending before false false h → LeavesNothing before h
    unfolding abort
    waiting h p = abort-LeavesNothing false false h p

  pub pending : (h : Host) → IsKeyed h.ledger_rows → Pending h false false h
  pending h keyed = record {
    active = refl;
    active_principals = refl;
    active_mutating = refl;
    uncancellable = refl;
    lease = λ _. refl;
    entered_lease = λ e. cc;
    keyed = keyed;
    claimed_key = λ e. cc;
    unclaimed = λ _ mine. mine;
  }

-- ===== src/Lease/Exclusion.antt =====
-- What the lease is for: one mutation at a time on a machine, handed over at once when it ends.
use openagent_host_tools.Base.{
  ℕ, ◌+◌, ◌≤◌, ◌<◌, String, true, false, ◌≡◌, refl, ap, ◌∙◌, ◌&&◌, Option, none, some, List, [],
  ◌∷◌, ok, raise, HostError, arith, eq_iff, eq_refl, ◌==◌, All, length,
}
use openagent_host_tools.Lease.{Db, empty, LeaseRow, CallRow, enter_sync, leave_sync, lease_held}
use openagent_host_tools.Lease.Lock
use openagent_host_tools.Lease.Lock.{Hold, Lock, free, held, store, owns, lease_row, call_row}
use openagent_host_tools.Lease.Events.{Event, lock_step, run, lock_run}
use openagent_host_tools.Lease.Refine.{stored, enter_sync-store, leave_sync-store, run-store}

-- Every call in flight belongs to the holder of the lease and expires with it.
abbrev pub Belongs : Option LeaseRow → CallRow → Type 0
Belongs none c = ⊥
Belongs (some row) c = (c.holder ≡ row.holder) × (c.expires_at ≡ row.expires_at)

pub record IsSingle (db : Db) : Type 0 where
  pub one_call : length db.mutating_lease_calls ≤ 1
  pub owned : All (Belongs db.mutating_lease) db.mutating_lease_calls

store-IsSingle : (l : Lock) → IsSingle (store l)
store-IsSingle free = record { one_call = omega arith; owned = tt }
store-IsSingle (held h) = record { one_call = omega arith; owned = ((refl, refl), tt) }

-- After any history of transactions from an empty database, at most one call is in flight, and it
-- belongs to the holder of the lease and expires with the lease.
pub run-IsSingle : (duration : ℕ) (es : List Event) → IsSingle (run duration es empty).0
run-IsSingle duration es = rw (run-store duration es free) (store-IsSingle _)

-- The lock is held for this call, at least until the deadline.
abbrev Holds : String → String → ℕ → Lock → Type 0
Holds p c deadline free = ⊥
Holds p c deadline (held h) = (owns p c h ≡ true) × (deadline ≤ h.expires)

-- An event inside the term that began at `start`, which does not end the call `c` of `p`.
abbrev pub Spares : ℕ → ℕ → String → String → Event → Type 0
Spares duration start p c (Event.enter now p' c' tool) = (start ≤ now) × (now < start + duration)
Spares duration start p c (Event.renew now p' c') = (start ≤ now) × (now < start + duration)
Spares duration start p c (Event.leave p' c') = (p == p' && c == c') ≡ false
Spares duration start p c (Event.release p') = (p == p') ≡ false
Spares duration start p c (Event.status now) = (start ≤ now) × (now < start + duration)

module _ (duration start : ℕ) (p c : String) where
  lock_step-Holds :
      (e : Event) (l : Lock)
      → Spares duration start p c e
      → Holds p c (start + duration) l
      → Holds p c (start + duration) (lock_step duration e l).0
  unfolding lock_step Lock.enter Lock.renew Lock.leave Lock.release Lock.status
  lock_step-Holds e free q h = absurd h
  lock_step-Holds (Event.enter now p' c' tool) (held h) q k = ground (
    arith,
    eq_iff h.principal p,
    eq_iff h.call_id c,
    eq_iff h.principal p',
    eq_iff h.call_id c',
    eq_iff p' p,
    eq_iff c' c,
  )
  lock_step-Holds (Event.renew now p' c') (held h) q k = ground arith
  lock_step-Holds (Event.leave p' c') (held h) q k =
      ground (arith, eq_iff h.principal p, eq_iff h.call_id c)
  lock_step-Holds (Event.release p') (held h) q k = ground (arith, eq_iff h.principal p)
  lock_step-Holds (Event.status now) (held h) q k = ground arith

  lock_run-Holds :
      (es : List Event) (l : Lock)
      → All (Spares duration start p c) es
      → Holds p c (start + duration) l
      → Holds p c (start + duration) (lock_run duration es l).0
  unfolding lock_run
  lock_run-Holds [] l q h = h
  lock_run-Holds (e ∷ es) l q h =
      lock_run-Holds es (lock_step duration e l).0 q.1 (lock_step-Holds e l q.0 h)

  enter-Holds :
      (tool : String) (l : Lock)
      → (Lock.enter duration start p c tool l).1 ≡ ok tt
      → Holds p c (start + duration) (Lock.enter duration start p c tool l).0
  unfolding Lock.enter
  enter-Holds tool free e = ground (arith, eq_refl p, eq_refl c)
  enter-Holds tool (held h) e = ground (arith, eq_refl p, eq_refl c)

  -- A held lock refuses every other call before the deadline, and stays as it is.
  enter_refused :
      (now : ℕ) (p' c' tool : String) (l : Lock)
      → Holds p c (start + duration) l
      → now < start + duration
      → (p == p' && c == c') ≡ false
      → (e : HostError) × (Lock.enter duration now p' c' tool l ≡ (l, raise e))
        × (e.code ≡ "lease_held")
  unfolding Lock.enter lease_held
  enter_refused now p' c' tool free h in_term other = absurd h
  enter_refused now p' c' tool (held h) k in_term other = (
    lease_held now (lease_row h) (some (call_row h)),
    ground (arith, eq_iff h.principal p, eq_iff h.call_id c),
    refl,
  )

-- A call that entered owns the lock, and its `leave` frees it.
pub enter-owns :
    (duration start : ℕ) (p c tool : String) (l : Lock)
    → (Lock.enter duration start p c tool l).1 ≡ ok tt
    → (h : Hold) × ((Lock.enter duration start p c tool l).0 ≡ held h) × (owns p c h ≡ true)
enter-owns duration start p c tool l e =
    owned (Lock.enter duration start p c tool l).0 (enter-Holds duration start p c tool l e)
  where
    owned :
        (m : Lock)
        → Holds p c (start + duration) m
        → (h : Hold) × (m ≡ held h) × (owns p c h ≡ true)
    owned free k = absurd k
    owned (held h) k = (h, refl, k.0)

module _ (duration start : ℕ) (p c tool : String) (l : Lock) where
  exclusion_store :
      (enter_sync duration start p c tool (store l)).1 ≡ ok tt
      → (es : List Event) → All (Spares duration start p c) es
      → (now : ℕ) (p' c' tool' : String) → now < start + duration
      → (p == p' && c == c') ≡ false
      → let after = (run duration es (enter_sync duration start p c tool (store l)).0).0 in
        (e : HostError) × (enter_sync duration now p' c' tool' after ≡ (after, raise e))
        × (e.code ≡ "lease_held")
  exclusion_store entered es spared now p' c' tool' in_term other =
      let l' = (Lock.enter duration start p c tool l).0 in
      let mine = enter-Holds duration start p c tool l (rw enter_sync-store at entered) in
      let kept = lock_run-Holds duration start p c es l' spared mine in
      let (e, refused, code) =
        enter_refused duration start p c now p' c' tool' (lock_run duration es l').0 kept in_term
          other in
      (
        e,
        rw (enter_sync-store p c duration start tool l, run-store duration es l')
            (enter_sync-store p' c' duration now tool' (lock_run duration es l').0
              ∙ ap stored refused),
        code,
      )

  enter-leave :
      (now : ℕ) (p' c' tool' : String) (m : Lock)
      → Holds p c (start + duration) m
      → (Lock.enter duration now p' c' tool' (Lock.leave p c m)).1 ≡ ok tt
  unfolding Lock.enter Lock.leave
  enter-leave now p' c' tool' free h = absurd h
  enter-leave now p' c' tool' (held h) k = ground arith

  handover_store :
      (enter_sync duration start p c tool (store l)).1 ≡ ok tt
      → (es : List Event) → All (Spares duration start p c) es
      → (now : ℕ) (p' c' tool' : String)
      → let last = (run duration es (enter_sync duration start p c tool (store l)).0).0 in
        (enter_sync duration now p' c' tool' (leave_sync p c last)).1 ≡ ok tt
  handover_store entered es spared now p' c' tool' =
      let l' = (Lock.enter duration start p c tool l).0 in
      let mine = enter-Holds duration start p c tool l (rw enter_sync-store at entered) in
      let kept = lock_run-Holds duration start p c es l' spared mine in
      let last = (lock_run duration es l').0 in
      rw
        (
          enter_sync-store p c duration start tool l,
          run-store duration es l',
          leave_sync-store p c last,
          enter_sync-store,
        )
        (enter-leave now p' c' tool' last kept)

-- Once a call has the lease, and as long as its term of `duration` lasts and neither its `leave`
-- nor a `release` of its principal comes, every other call of whatever principal is refused with
-- `lease_held` and changes nothing, whatever else happens in between.
pub exclusion :
    (duration start : ℕ) (p c tool : String) (before : List Event)
    → let db = (run duration before empty).0 in
      (enter_sync duration start p c tool db).1 ≡ ok tt
      → (es : List Event) → All (Spares duration start p c) es
      → (now : ℕ) (p' c' tool' : String) → now < start + duration
      → (p == p' && c == c') ≡ false
      → let after = (run duration es (enter_sync duration start p c tool db).0).0 in
        (e : HostError) × (enter_sync duration now p' c' tool' after ≡ (after, raise e))
        × (e.code ≡ "lease_held")
exclusion duration start p c tool before entered es spared now p' c' tool' in_term other =
    let reached = run-store duration before free in
    rw reached (
      exclusion_store duration start p c tool (lock_run duration before free).0
        (rw reached at entered) es spared now p' c' tool' in_term other)

-- After a call entered the lease, and after any events inside its term that neither leave it nor
-- release its principal (renewals and refused calls among them), its `leave` hands the lease over:
-- any call that comes next enters, at whatever time.
pub handover :
    (duration start : ℕ) (p c tool : String) (before : List Event)
    → let db = (run duration before empty).0 in
      (enter_sync duration start p c tool db).1 ≡ ok tt
      → (es : List Event) → All (Spares duration start p c) es
      → (now : ℕ) (p' c' tool' : String)
      → let last = (run duration es (enter_sync duration start p c tool db).0).0 in
        (enter_sync duration now p' c' tool' (leave_sync p c last)).1 ≡ ok tt
handover duration start p c tool before entered es spared now p' c' tool' =
    let reached = run-store duration before free in
    rw reached (
      handover_store duration start p c tool (lock_run duration before free).0
        (rw reached at entered) es spared now p' c' tool')

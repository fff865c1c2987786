-- ===== src/Lease/Refine.antt =====
-- The transactions on the two tables implement the lock, for every call and every history.
use openagent_host_tools.Base.{
  ℕ, String, ◌≡◌, refl, List, [], ◌∷◌, ◌≢◌, ok, transaction_rolls_back, arith, eq_iff,
}
use openagent_host_tools.Lease.{
  Db, expire_locked, enter_row, enter_sync, renew_sync, leave_sync, release_sync, status_sync,
}
use openagent_host_tools.Lease.Lock
use openagent_host_tools.Lease.Lock.{Hold, Lock, free, held, store}
use openagent_host_tools.Lease.Events.{Event, step, lock_step, run, lock_run}

-- A lock with an answer, as the tables keep it.
abbrev pub stored {ℓ} : {A : Type ℓ} → Lock × A → Db × A
stored p = (store p.0, p.1)

module _ (principal call_id : String) where
  pub enter_sync-store :
      (duration now : ℕ) (tool : String) (l : Lock)
      → enter_sync duration now principal call_id tool (store l)
        ≡ stored (Lock.enter duration now principal call_id tool l)
  unfolding enter_sync Lock.enter
  enter_sync-store duration now tool free = refl
  enter_sync-store duration now tool (held h) =
      ground (arith, eq_iff h.principal principal, eq_iff h.call_id call_id)

  renew_sync-store :
      (duration now : ℕ) (l : Lock)
      → renew_sync duration now principal call_id (store l)
        ≡ stored (Lock.renew duration now principal call_id l)
  unfolding renew_sync Lock.renew
  renew_sync-store duration now free = refl
  renew_sync-store duration now (held h) = ground arith

  pub leave_sync-store :
      (l : Lock) → leave_sync principal call_id (store l) ≡ store (Lock.leave principal call_id l)
  unfolding leave_sync Lock.leave
  leave_sync-store free = refl
  leave_sync-store (held h) = ground arith

pub release_sync-store :
    (principal : String) (l : Lock)
    → release_sync principal (store l) ≡ store (Lock.release principal l)
unfolding release_sync Lock.release
release_sync-store principal free = refl
release_sync-store principal (held h) = ground arith

status_sync-store : (now : ℕ) (l : Lock) → status_sync now (store l) ≡ stored (Lock.status now l)
unfolding status_sync Lock.status
status_sync-store now free = refl
status_sync-store now (held h) = ground (arith, eq_iff h.principal h.principal)

pub step-store :
    (duration : ℕ) (e : Event) (l : Lock)
    → step duration e (store l) ≡ stored (lock_step duration e l)
unfolding step lock_step
step-store duration (Event.enter now p c tool) l = rw (enter_sync-store p c duration now tool l)
step-store duration (Event.renew now p c) l = rw (renew_sync-store p c duration now l)
step-store duration (Event.leave p c) l = rw (leave_sync-store p c l)
step-store duration (Event.release p) l = rw (release_sync-store p l)
step-store duration (Event.status now) l = rw (status_sync-store now l)

-- From tables that store a lock, every history of transactions gives the replies of the lock and
-- ends in the tables that store the lock's final state.
pub run-store :
    (duration : ℕ) (es : List Event) (l : Lock)
    → run duration es (store l) ≡ stored (lock_run duration es l)
unfolding run lock_run
run-store duration [] l = refl
run-store duration (e ∷ es) l =
    rw (step-store duration e l, run-store duration es (lock_step duration e l).0)

-- An `enter` that is refused leaves the tables as they were.
pub refused_enter-eq :
    (duration now : ℕ) (p c tool : String) (db : Db)
    → ((a : Unit {0}) → (enter_sync duration now p c tool db).1 ≢ ok a)
    → (enter_sync duration now p c tool db).0 ≡ db
unfolding enter_sync
refused_enter-eq duration now p c tool db refused =
    transaction_rolls_back
      (λ old.
        let old' = expire_locked now old in
        enter_row duration now p c tool old'.mutating_lease old')
      db refused

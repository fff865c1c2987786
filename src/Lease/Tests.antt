-- ===== src/Lease/Tests.antt =====
-- Runs of the lease on small histories, and the theorems at them.
use openagent_host_tools.Base.{ℕ, ◌≡◌, refl, ok, raise, HostError, List, [], ◌∷◌, arith}
use openagent_host_tools.Lease.{
  empty, enter_sync, renew_sync, leave_sync, release_sync, status_sync, Status,
}
use openagent_host_tools.Lease.Lock.{free}
use openagent_host_tools.Lease.Events.{Event, run, lock_run}
use openagent_host_tools.Lease.Refine.{stored, run-store}
use openagent_host_tools.Lease.Exclusion.{exclusion, handover}

program : Unit {0}
unfolding enter_sync renew_sync leave_sync release_sync status_sync run
program = tt

abbrev term : ℕ
term = 15000000

abbrev history : List Event
history =
    Event.enter 0 "ann" "c1" "shell.exec"
    ∷ Event.renew 5000000 "ann" "c1"
    ∷ Event.leave "ann" "c1"
    ∷ []

history_ends_free : (run term history empty).0 ≡ empty
unfolding program
history_ends_free = refl

status_while_held :
    (status_sync 1000 (enter_sync term 0 "ann" "c1" "shell.exec" empty).0).1
    ≡ Status.held "ann" 0 14999 (("c1", "shell.exec") ∷ [])
unfolding program
status_while_held = refl

enter_after_history :
    (enter_sync term 6000000 "ann" "c2" "editor.edit" (run term history empty).0).1 ≡ ok tt
unfolding program
enter_after_history = refl

run-store_example : run term history empty ≡ stored (lock_run term history free)
run-store_example = run-store term history free

abbrev meanwhile : List Event
meanwhile =
    Event.status 7000000 ∷ Event.enter 7000000 "bob" "c9" "shell.exec" ∷ Event.leave "bob" "c9" ∷ []

exclusion_example :
    let entered = (enter_sync term 6000000 "ann" "c2" "editor.edit" (run term history empty).0).0 in
    let after = (run term meanwhile entered).0 in
    (e : HostError) × (enter_sync term 8000000 "bob" "c3" "shell.exec" after ≡ (after, raise e))
    × (e.code ≡ "lease_held")
exclusion_example =
    exclusion term 6000000 "ann" "c2" "editor.edit" history enter_after_history meanwhile
      ((omega arith, omega arith), ((omega arith, omega arith), (refl, tt))) 8000000 "bob" "c3"
      "shell.exec" (omega arith) refl

handover_example :
    (enter_sync term 6000001 "bob" "c3" "shell.exec" (
      leave_sync "ann" "c2"
        (run term
          (Event.renew 6000000 "ann" "c2" ∷ [])
          (enter_sync term 6000000 "ann" "c2" "editor.edit" (run term history empty).0).0).0)).1
    ≡ ok tt
handover_example =
    handover term 6000000 "ann" "c2" "editor.edit" history enter_after_history
      (Event.renew 6000000 "ann" "c2" ∷ []) ((omega arith, omega arith), tt) 6000001 "bob" "c3"
      "shell.exec"

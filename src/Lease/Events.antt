-- ===== src/Lease/Events.antt =====
-- Calls of the lease from any number of processes, in the order in which the database takes them.
use openagent_host_tools.Base.{ℕ, String, Bool, List, [], ◌∷◌, Outcome}
use openagent_host_tools.Lease.{
  Db, Status, enter_sync, renew_sync, leave_sync, release_sync, status_sync,
}
use openagent_host_tools.Lease.Lock
use openagent_host_tools.Lease.Lock.{Lock}

pub data Event : Type 0 where
  enter : ℕ → String → String → String → Event
  renew : ℕ → String → String → Event
  leave : String → String → Event
  release : String → Event
  status : ℕ → Event

pub data Reply : Type 0 where
  entered : Outcome (Unit {0}) → Reply
  renewed : Bool → Reply
  returned : Reply
  shown : Status → Reply

-- What a transaction on the tables answers.
unfoldable pub step : ℕ → Event → Db → Db × Reply
step duration (enter now p c tool) db =
    let (db', r) = enter_sync duration now p c tool db in (db', entered r)
step duration (renew now p c) db = let (db', b) = renew_sync duration now p c db in (db', renewed b)
step duration (leave p c) db = (leave_sync p c db, returned)
step duration (release p) db = (release_sync p db, returned)
step duration (status now) db = let (db', s) = status_sync now db in (db', shown s)

-- What the lock answers.
unfoldable pub lock_step : ℕ → Event → Lock → Lock × Reply
lock_step duration (enter now p c tool) l =
    let (l', r) = Lock.enter duration now p c tool l in (l', entered r)
lock_step duration (renew now p c) l =
    let (l', b) = Lock.renew duration now p c l in (l', renewed b)
lock_step duration (leave p c) l = (Lock.leave p c l, returned)
lock_step duration (release p) l = (Lock.release p l, returned)
lock_step duration (status now) l = let (l', s) = Lock.status now l in (l', shown s)

-- A history, with its replies in order.
unfoldable pub run : ℕ → List Event → Db → Db × List Reply
unfolding step
run duration [] db = (db, [])
run duration (e ∷ es) db =
    let (db', r) = step duration e db in let (final, rs) = run duration es db' in (final, r ∷ rs)

unfoldable pub lock_run : ℕ → List Event → Lock → Lock × List Reply
unfolding lock_step
lock_run duration [] l = (l, [])
lock_run duration (e ∷ es) l =
    let (l', r) = lock_step duration e l in
    let (final, rs) = lock_run duration es l' in (final, r ∷ rs)

-- ===== src/Host/Lifecycle.antt =====
-- The operations of `CapabilityHost` that end calls from outside: `cancel`, the release of a
-- principal, the withdrawal of consent, and `close`. What the other coroutines do while the host
-- waits for calls to end is the argument `wait`. The withdrawal of consent and `close` hold the
-- admission lock all the time; `release_principal` holds it while it begins only, so that calls may
-- be admitted while it waits.
use openagent_host_tools.Base.{
  String, Bool, true, false, not, ◌&&◌, Option, none, some, List, [], ◌∷◌, if◌then◌else◌, ◌==◌,
  member, discard,
}
use openagent_host_tools.Events
use openagent_host_tools.Lease
use openagent_host_tools.Host.{Host, Task, cancelling, finished, find, put, pop}

-- `task.cancel()`, on the task of a call if it has one that is not done.
abbrev pub cancelled : Task → Task
cancelled finished = finished
cancelled _ = cancelling

unfoldable pub cancel_task : String → List (String × Task) → List (String × Task)
cancel_task call_id [] = []
cancel_task call_id ((id, task) ∷ tasks) =
    let rest = cancel_task call_id tasks in
    if id == call_id then (id, cancelled task) ∷ rest else (id, task) ∷ rest

abbrev pub is_done : Task → Bool
is_done finished = true
is_done _ = false

-- `cancel`, by the task of the call.
unfoldable pub cancel_found : String → Host → Option Task → Host × Bool
unfolding cancel_task
cancel_found call_id h none = (h, false)
cancel_found call_id h (some task) =
    if is_done task
    then (h, false)
    else if member call_id h.uncancellable_active
    then (h, true)
    else (record h { active = cancel_task call_id h.active }, true)

unfoldable pub cancel : String → Host → Host × Bool
unfolding cancel_found find
cancel call_id h = cancel_found call_id h (find call_id h.active)

-- The calls of a principal, in the order of `_active_principals`.
unfoldable pub calls_of : String → List (String × String) → List String
calls_of principal [] = []
calls_of principal ((id, owner) ∷ owners) =
    let rest = calls_of principal owners in if owner == principal then id ∷ rest else rest

-- The tasks of the given calls that `_begin_principal_release` cancels.
unfoldable pub cancel_mutating : List String → Host → Host
unfolding cancel_task
cancel_mutating [] h = h
cancel_mutating (id ∷ ids) h =
    let rest = cancel_mutating ids in
    if member id h.active_mutating && not (member id h.uncancellable_active)
    then rest (record h { active = cancel_task id h.active })
    else rest h

-- `_begin_principal_release`, with the calls that it returns to be waited for.
unfoldable pub begin_principal_release : String → Host → Host × List String
unfolding calls_of cancel_mutating
begin_principal_release principal h =
    let calls = calls_of principal h.active_principals in (cancel_mutating calls h, calls)

-- `_resource_owners` without what the principal owns.
abbrev pub disown : String → Option String → Option String
disown principal none = none
disown principal (some owner) = if owner == principal then none else some owner

-- `_finish_principal_release`, once the calls have ended, up to the release of the lease. The calls
-- of `stop_screen_recording` and of the providers' own `release_principal` change no state of the
-- host, and their errors are swallowed; what others do in those waits is part of `wait`.
unfoldable pub release_lease : String → Host → Host
release_lease principal h = record h {
  lease_db =
      if member principal h.retained_lease_principals
      then h.lease_db
      else Lease.release_sync principal h.lease_db;
}

-- Its rest.
unfoldable pub drop_principal : String → Host → Host
unfolding discard
drop_principal principal h = record h {
  principals = discard principal h.principals;
  events = Events.forget principal h.events;
  recording_owner = disown principal h.recording_owner;
}

-- `release_principal`; `pause` is what others do while the lease is released.
unfoldable pub release_principal :
    (List String → Host → Host) → (Host → Host) → String → Host → Host
unfolding begin_principal_release drop_principal release_lease
release_principal wait pause principal h =
    let (begun, calls) = begin_principal_release principal h in
    drop_principal principal (pause (release_lease principal (wait calls begun)))

-- `for call_id, task in list(self._active.items())`: every task that may be cancelled is.
unfoldable pub cancel_cancellable : List String → List (String × Task) → List (String × Task)
cancel_cancellable uncancellable [] = []
cancel_cancellable uncancellable ((id, task) ∷ tasks) =
    let rest = cancel_cancellable uncancellable tasks in
    if member id uncancellable then (id, task) ∷ rest else (id, cancelled task) ∷ rest

unfoldable pub cancel_all : Host → Host
unfolding cancel_cancellable
cancel_all h = record h { active = cancel_cancellable h.uncancellable_active h.active }

-- `_stop_external_locked`: the external servers are gone and not available.
unfoldable pub stop_external : List String → Host → Host
unfolding put pop
stop_external [] h = record h { external_names = [] }
stop_external (name ∷ names) h =
    stop_external names
      (record h { servers = pop name h.servers; health = put name false h.health })

unfoldable pub release_all : (List String → Host → Host) → (Host → Host) → List String → Host → Host
unfolding release_principal
release_all wait pause [] h = h
release_all wait pause (p ∷ ps) h = release_all wait pause ps (release_principal wait pause p h)

-- The part of `set_consent(False)` after the durable state is written.
unfoldable pub withdraw_consent :
    (List String → Host → Host) → (Host → Host) → (Host → Host) → Host → Host
unfolding cancel_all release_all stop_external
withdraw_consent wait pause gather h =
    let quiet = gather (cancel_all h) in
    let released = release_all wait pause quiet.principals quiet in
    stop_external released.external_names released

unfoldable pub release_leases : List String → Host → Host
release_leases [] h = h
release_leases (p ∷ ps) h =
    release_leases ps (record h { lease_db = Lease.release_sync p h.lease_db })

-- `close`
unfoldable pub close : (Host → Host) → Host → Host
unfolding cancel_all stop_external release_leases
close gather h =
    let quiet = gather (cancel_all h) in
    let stopped = stop_external quiet.external_names quiet in
    release_leases stopped.principals stopped

-- ===== src/Host/Departure.antt =====
-- What `cancel`, the release of a principal, the withdrawal of consent and `close` leave.
mod Tests
use openagent_host_tools.Base.{
  ℕ, String, Bool, true, false, not, ◌&&◌, ◌≡◌, refl, sym, ◌∙◌, ap, Option, none, some, List, [],
  ◌∷◌, All, if◌then◌else◌, ◌==◌, eq_iff, eq_refl, arith, if-cases, Bool-cases, inl, inr, member,
  member-discard, discard,
}
use openagent_host_tools.Events
use openagent_host_tools.Events.{Event, is_of, forget_of, forget}
use openagent_host_tools.Lease
use openagent_host_tools.Lease.Lock
use openagent_host_tools.Lease.Lock.{Lock, Hold, free, held, store}
use openagent_host_tools.Lease.Refine.{release_sync-store}
use openagent_host_tools.Host.{
  Host, Task, running, cancelling, finished, Config, Call, find, put, pop,
}
use openagent_host_tools.Host.Dispatch.{Env}
use openagent_host_tools.Host.Admit.{resolve, is_available}
use openagent_host_tools.Host.Ended.{find-pop}
use openagent_host_tools.Host.Lifecycle.{
  cancelled, cancel_task, is_done, cancel_found, cancel, begin_principal_release, drop_principal,
  release_lease, release_principal, disown, stop_external, cancel_all, release_leases, close,
  release_all, withdraw_consent,
}

abbrev pub is_live : Option Task → Bool
is_live none = false
is_live (some task) = not (is_done task)

abbrev pub cancelled_task : Option Task → Option Task
cancelled_task none = none
cancelled_task (some task) = some (cancelled task)

find-cancel_task :
    (id j : String) (tasks : List (String × Task))
    → find j (cancel_task id tasks)
      ≡ (if id == j then cancelled_task (find j tasks) else find j tasks)
unfolding find cancel_task
find-cancel_task id j [] = ground arith
find-cancel_task id j ((i, task) ∷ tasks) =
    ground (arith, find-cancel_task id j tasks, eq_iff i id, eq_iff i j, eq_iff id j)

-- What `cancel` of a call is to do to a host, and to answer.
abbrev pub IsCancelled : String → Host → Host × Bool → Type 0
IsCancelled id h (after, answer) =
    (answer ≡ is_live (find id h.active))
    × ((j : String)
        → find j after.active ≡ (
            if id == j && not (member id h.uncancellable_active)
            then cancelled_task (find j h.active)
            else find j h.active))

-- A task that is done stays done.
cancelled_task-dead : (o : Option Task) → is_live o ≡ false → cancelled_task o ≡ o
cancelled_task-dead none done = refl
cancelled_task-dead (some running) done = cc
cancelled_task-dead (some cancelling) done = cc
cancelled_task-dead (some finished) done = refl

dead_task-unchanged :
    (id j : String) (b : Bool) (tasks : List (String × Task))
    → is_live (find id tasks) ≡ false
    → find j tasks ≡ (if id == j && b then cancelled_task (find j tasks) else find j tasks)
dead_task-unchanged id j b tasks done =
    ground (arith, eq_iff id j, cancelled_task-dead (find id tasks) done)

cancel_found-IsCancelled :
    (id : String) (h : Host) (o : Option Task)
    → find id h.active ≡ o
    → IsCancelled id h (cancel_found id h o)
unfolding cancel_found
cancel_found-IsCancelled id h none found = (
  rw found refl,
  λ j. dead_task-unchanged id j (not (member id h.uncancellable_active)) h.active (rw found refl),
)
cancel_found-IsCancelled id h (some task) found =
    if-cases (IsCancelled id h) (is_done task) _ _
      (λ done. (
        rw (found, done) refl,
        λ j.
            dead_task-unchanged id j (not (member id h.uncancellable_active)) h.active
              (rw (found, done) refl),
      ))
      (λ live.
        if-cases (IsCancelled id h) (member id h.uncancellable_active) _ _
          (λ locked. (rw (found, live) refl, λ j. ground arith))
          (λ free. (rw (found, live) refl, λ j. ground (arith, find-cancel_task id j h.active))))

-- `cancel` answers whether the call has a task that is not done. It leaves every other call alone,
-- and its own too if that is a mutation that has to be waited for; any other live task it asks to
-- cancel.
pub cancel-IsCancelled : (id : String) (h : Host) → IsCancelled id h (cancel id h)
unfolding cancel
cancel-IsCancelled id h = cancel_found-IsCancelled id h (find id h.active) refl

forget_of-gone :
    (p : String) (m : List ((String × String) × Event))
    → All (λ entry. is_of p entry.1 ≡ false) (forget_of p m)
unfolding forget_of
forget_of-gone p [] = tt
forget_of-gone p ((k, e) ∷ m) =
    if-cases (All (λ entry. is_of p entry.1 ≡ false)) (is_of p e) _ _ (λ _. forget_of-gone p m)
      (λ other. (other, forget_of-gone p m))

-- The owner of a recording, if it is another principal.
disown-other :
    (p : String) (o : Option String)
    → ((disown p o ≡ some p) → ⊥)
      × ((q : String) → (q == p) ≡ false → o ≡ some q → disown p o ≡ some q)
disown-other p none = (λ e. cc, λ q other e. e)
disown-other p (some owner) = (
  if-cases (λ (x : Option String). x ≡ some p → ⊥) (owner == p) none (some owner) (λ _ e. cc)
      (λ other e. ground (arith, other, e, eq_iff owner p)),
  λ q other e. ground (arith, other, e, eq_iff owner p, eq_iff q p),
)

-- When a principal is released, whatever the other coroutines did while the host waited, it is no
-- principal of the host, owns no recording, and has no terminal event, and a recording of another
-- principal keeps its owner; and if the lease tables store a lock when its calls have ended, the
-- release frees the lock if it is the principal's, unless that is retained, and keeps another
-- principal's.
pub release_principal-drops :
    (wait : List String → Host → Host) (pause : Host → Host) (p : String) (h : Host) (l : Lock)
    → (wait (begin_principal_release p h).1 (begin_principal_release p h).0).lease_db ≡ store l
    → let waited = wait (begin_principal_release p h).1 (begin_principal_release p h).0 in
      let unlocked = release_lease p waited in
      let after = release_principal wait pause p h in
      (member p after.principals ≡ false)
      × ((after.recording_owner ≡ some p) → ⊥)
      × ((q : String)
          → (q == p) ≡ false
          → (pause unlocked).recording_owner ≡ some q
          → after.recording_owner ≡ some q)
      × All (λ entry. is_of p entry.1 ≡ false) after.events.terminal
      × (unlocked.lease_db
          ≡ store (if member p waited.retained_lease_principals then l else Lock.release p l))
unfolding release_principal drop_principal release_lease forget
release_principal-drops wait pause p h l locked =
    let (begun, calls) = begin_principal_release p h in
    let paused = pause (release_lease p (wait calls begun)) in
    let (disowned, others) = disown-other p paused.recording_owner in
    (
      ground (arith, member-discard p p paused.principals, eq_refl p),
      disowned,
      others,
      forget_of-gone p paused.events.terminal,
      ground (arith, release_sync-store p l),
    )

find-put :
    {V : Type 0} (k j : String) (v : V) (m : List (String × V))
    → find j (put k v m) ≡ (if k == j then some v else find j m)
unfolding find put
find-put k j v [] = refl
find-put k j v ((i, w) ∷ m) = ground (arith, find-put k j v m, eq_iff i k, eq_iff i j, eq_iff k j)

stop_external-find :
    (names : List String) (name : String) (h : Host)
    → (find name (stop_external names h).servers
        ≡ (if member name names then none else find name h.servers))
      × (find name (stop_external names h).health
          ≡ (if member name names then some false else find name h.health))
unfolding stop_external
stop_external-find [] name h = (refl, refl)
stop_external-find (n ∷ names) name h =
    let (servers, health) =
      stop_external-find names name
        (record h { servers = pop n h.servers; health = put n false h.health }) in
    (
      ground (arith, servers, find-pop n name h.servers),
      ground (arith, health, find-put n name false h.health),
    )

-- Once external servers are stopped, a call to any of them finds no tool, and a call to any other
-- server finds what it found before.
pub stop_external-resolve :
    (g : Config) (env : Env) (c : Call) (names : List String) (h : Host)
    → resolve g env c (stop_external names h)
      ≡ (if member c.server names then none else resolve g env c h)
unfolding resolve is_available
stop_external-resolve g env c names h =
    let (servers, health) = stop_external-find names c.server h in ground (arith, servers, health)

release_leases-free :
    (ps : List String) (h : Host)
    → h.lease_db ≡ Lease.empty
    → (release_leases ps h).lease_db ≡ Lease.empty
unfolding release_leases Lock.release
release_leases-free [] h free_now = free_now
release_leases-free (p ∷ ps) h free_now =
    release_leases-free ps _ (rw free_now (release_sync-store p free))

release_leases-held :
    (ps : List String) (h : Host) (hold : Hold)
    → h.lease_db ≡ store (held hold)
    → member hold.principal ps ≡ true
    → (release_leases ps h).lease_db ≡ Lease.empty
unfolding release_leases Lock.release
release_leases-held [] h hold locked known = cc
release_leases-held (p ∷ ps) h hold locked known = elim (Bool-cases (hold.principal == p)) [
  | inl mine ↦
      release_leases-free ps _ (rw locked (release_sync-store p (held hold) ∙ rw mine refl))
  | inr other ↦
      release_leases-held ps _ hold (rw locked (release_sync-store p (held hold) ∙ rw other refl))
        (ground (arith, eq_iff p hold.principal, eq_iff hold.principal p))
]

stop_external-kept :
    (names : List String) (h : Host)
    → ((stop_external names h).lease_db ≡ h.lease_db)
      × ((stop_external names h).principals ≡ h.principals)
unfolding stop_external
stop_external-kept [] h = (refl, refl)
stop_external-kept (n ∷ names) h = stop_external-kept names _

-- If the lease is held by a principal of the host when the tasks have ended, close frees it, also
-- if the principal is retained because the effect of a mutation is unknown.
pub close-frees_lease :
    (gather : Host → Host) (h : Host) (hold : Hold)
    → (gather (cancel_all h)).lease_db ≡ store (held hold)
    → member hold.principal (gather (cancel_all h)).principals ≡ true
    → (close gather h).lease_db ≡ Lease.empty
unfolding close
close-frees_lease gather h hold locked known =
    let quiet = gather (cancel_all h) in
    let (lease, principals) = stop_external-kept quiet.external_names quiet in
    release_leases-held (stop_external quiet.external_names quiet).principals
      (stop_external quiet.external_names quiet) hold (lease ∙ locked) (rw principals known)

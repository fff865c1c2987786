-- ===== src/Mcp/Watched.antt =====
-- Every request that waits is of a process whose watcher has still to run.
use openagent_host_tools.Base.{
  ℕ, String, ◌≡◌, refl, Bool, true, false, not, ◌||◌, ◌&&◌, Option, none, some, List, [], ◌∷◌,
  arith, leb, has, has-without, without, if◌then◌else◌, nat_eq, nat_eq_refl, HostError, Outcome, ok,
  raise, crash, if-cases,
}
use openagent_host_tools.Mcp.{
  Adapter, Pending, Future, waiting, result, exception, is_waiting, settle_future, fail_requests,
  fail_pending, pop_request, is_process, concerns, finish_request, spawned, completed, begin_stop,
  end_stop, watch_process, gone, schedule_restart, terminate, register, sent, request_of,
  begin_start, is_running, supervise_initial_failure, cancel_tasks, close_of, mark_unavailable,
  without_task,
}
use openagent_host_tools.Mcp.Reader.{set_future}
use openagent_host_tools.Mcp.Steps.{is_stopped}

-- A request does not wait, or its process is one of those given.
abbrev pub is_watched : List ℕ → Pending → Bool
is_watched ps r = not (is_waiting r.future) || has r.process ps

-- Each request that waits is of one of the given processes.
abbrev pub Watched : List ℕ → List Pending → Type 0
Watched ps [] = Unit {0}
Watched ps (r ∷ rs) = (is_watched ps r ≡ true) × Watched ps rs

-- No request of a process waits.
abbrev pub Settled : ℕ → List Pending → Type 0
Settled p [] = Unit {0}
Settled p (r ∷ rs) = ((nat_eq r.process p && is_waiting r.future) ≡ false) × Settled p rs

pub record IsWatched (a : Adapter) : Type 0 where
  pub waiting : Watched a.watching a.pending
  pub process : (p : ℕ) → is_process p a.process ≡ true → has p a.watching ≡ true

settled :
    (answer f : Future) → is_waiting answer ≡ false → is_waiting (settle_future answer f) ≡ false
settled answer waiting s = s
settled answer (result v) s = refl
settled answer (exception e) s = refl

pub fail-Watched :
    (e : HostError) (o : Option ℕ) (ps : List ℕ) (rs : List Pending)
    → Watched ps rs
    → Watched ps (fail_requests e o rs)
unfolding fail_requests
fail-Watched e o ps [] h = _
fail-Watched e o ps (r ∷ rs) h = (
  if-cases (λ r. is_watched ps r ≡ true) (concerns o r) _ _
      (λ _. ground (arith, settled (exception e) r.future)) (λ _. h.0),
  fail-Watched e o ps rs h.1,
)

pop-Watched :
    (id : ℕ) (ps : List ℕ) (rs : List Pending) → Watched ps rs → Watched ps (pop_request id rs)
unfolding pop_request
pop-Watched id ps [] h = _
pop-Watched id ps (r ∷ rs) h =
    if-cases (Watched ps) (nat_eq r.id id) _ _ (λ _. pop-Watched id ps rs h.1)
      (λ _. (h.0, pop-Watched id ps rs h.1))

pub set-Watched :
    (id : ℕ) (answer : Future) (ps : List ℕ) (rs : List Pending)
    → is_waiting answer ≡ false
    → Watched ps rs
    → Watched ps (set_future id answer rs)
unfolding set_future
set-Watched id answer ps [] s h = _
set-Watched id answer ps (r ∷ rs) s h = (
  if-cases (λ r. is_watched ps r ≡ true) (nat_eq r.id id) _ _
      (λ _. ground (arith, settled answer r.future)) (λ _. h.0),
  set-Watched id answer ps rs s h.1,
)

gone-Watched :
    (e : HostError) (p : ℕ) (ps : List ℕ) (rs : List Pending)
    → Watched ps rs
    → Watched (without p ps) (fail_requests e (some p) rs)
unfolding fail_requests
gone-Watched e p ps [] h = _
gone-Watched e p ps (r ∷ rs) h = (
  if-cases (λ r. is_watched (without p ps) r ≡ true) (nat_eq r.process p) _ _
      (λ _. ground (arith, settled (exception e) r.future))
      (λ other. ground (arith, h.0, has-without p r.process ps)),
  gone-Watched e p ps rs h.1,
)

more-Watched : (p : ℕ) (ps : List ℕ) (rs : List Pending) → Watched ps rs → Watched (p ∷ ps) rs
more-Watched p ps [] h = _
more-Watched p ps (r ∷ rs) h = (ground (arith, h.0), more-Watched p ps rs h.1)

-- A process that no watcher watches can go.
idle-Watched :
    (p : ℕ) (ps : List ℕ) (rs : List Pending)
    → has p ps ≡ false
    → Watched ps rs
    → Watched (without p ps) rs
idle-Watched p ps [] n h = _
idle-Watched p ps (r ∷ rs) n h =
    (ground (arith, h.0, n, has-without p r.process ps), idle-Watched p ps rs n h.1)

none-Watched :
    (e : HostError) (ps : List ℕ) (rs : List Pending) → Watched ps (fail_requests e none rs)
unfolding fail_requests
none-Watched e ps [] = _
none-Watched e ps (r ∷ rs) = (ground (arith, settled (exception e) r.future), none-Watched e ps rs)

pub start-IsWatched : (a : Adapter) → IsWatched a → IsWatched (begin_start a)
unfolding begin_start
start-IsWatched a w =
    if-cases IsWatched (is_running a) _ _ (λ _. w)
      (λ _. record { waiting = w.waiting; process = w.process })

schedule-IsWatched : (a : Adapter) → IsWatched a → IsWatched (schedule_restart a)
unfolding schedule_restart
schedule-IsWatched a w =
    if-cases IsWatched (a.closing || leb a.restart_limit a.restart_attempts) _ _ (λ _. w)
      (λ _.
        if-cases IsWatched a.restarting _ _
          (λ _. record { waiting = w.waiting; process = w.process })
          (λ _. record { waiting = w.waiting; process = w.process }))

pub spawned-IsWatched : (a : Adapter) → IsWatched a → IsWatched (spawned a)
unfolding spawned
spawned-IsWatched a w = record {
  waiting = more-Watched a.launches a.watching a.pending w.waiting;
  process = λ p h. ground (arith, w.process p, h);
}

pub finish-IsWatched : (id : ℕ) (a : Adapter) → IsWatched a → IsWatched (finish_request id a)
unfolding finish_request
finish-IsWatched id a w = record {
  waiting = pop-Watched id a.watching a.pending w.waiting;
  process = w.process;
}

register-IsWatched :
    (p : ℕ) (a : Adapter) → is_process p a.process ≡ true → IsWatched a → IsWatched (register p a)
unfolding register
register-IsWatched p a h w = record {
  waiting = (ground (arith, w.process p h), w.waiting);
  process = w.process;
}

sent-IsWatched : (a : Adapter) (r : Outcome (Unit {0})) → IsWatched a → IsWatched (sent a r).0
unfolding sent
sent-IsWatched a (ok _) w = w
sent-IsWatched a (raise e) w = finish-IsWatched a.next_id a w
sent-IsWatched a (crash t) w = finish-IsWatched a.next_id a w

pub request_of-IsWatched :
    (a : Adapter) (o : Option ℕ) → a.process ≡ o → IsWatched a → IsWatched (request_of a o).0
unfolding request_of
request_of-IsWatched a none e w = w
request_of-IsWatched a (some p) e w =
    sent-IsWatched (register p a) _ (register-IsWatched p a (rw e (nat_eq_refl p)) w)

-- What is left of `self.process` when one process goes.
pub is_process_left :
    (p q : ℕ) (o : Option ℕ)
    → is_process q (if is_process p o then none else o) ≡ (is_process q o && not (nat_eq p q))
is_process_left p q none = refl
is_process_left p q (some r) = ground arith

still_process :
    (p q : ℕ) (o : Option ℕ)
    → is_process q (if is_process p o then none else o) ≡ true
    → (is_process q o ≡ true) × (nat_eq p q ≡ false)
still_process p q none h = cc
still_process p q (some r) h = (ground arith, ground arith)

pub stop-IsWatched : (p : ℕ) (a : Adapter) → IsWatched a → IsWatched (begin_stop p a)
unfolding begin_stop terminate
stop-IsWatched p a w = record {
  waiting = w.waiting;
  process = λ q h. w.process q (still_process p q a.process h).0;
}

pub end_stop-IsWatched : (p : ℕ) (a : Adapter) → IsWatched a → IsWatched (end_stop p a)
unfolding end_stop fail_pending
end_stop-IsWatched p a w = record {
  waiting = fail-Watched _ (some p) a.watching a.pending w.waiting;
  process = w.process;
}

gone-IsWatched : (p : ℕ) (a : Adapter) → IsWatched a → IsWatched (gone p a)
unfolding gone fail_pending
gone-IsWatched p a w = record {
  waiting = gone-Watched _ p a.watching a.pending w.waiting;
  process = λ q h.
      let (old, other) = still_process p q a.process h in
      ground (arith, has-without p q a.watching, w.process q old, other);
}

mark-IsWatched : (e : String) (a : Adapter) → IsWatched a → IsWatched (mark_unavailable e a)
unfolding mark_unavailable
mark-IsWatched e a w = record { waiting = w.waiting; process = w.process }

pub watch-IsWatched :
    (p : ℕ) (status : String) (a : Adapter) → IsWatched a → IsWatched (watch_process p status a)
unfolding watch_process
watch-IsWatched p status a w =
    let left = gone-IsWatched p a w in
    if-cases IsWatched (has p a.expected_exits) _ _ (λ _. left)
      (λ _.
        if-cases IsWatched (gone p a).closing _ _ (λ _. left)
          (λ _.
            if-cases IsWatched (has p a.ready_processes) _ _
              (λ _.
                schedule-IsWatched (mark_unavailable _ (gone p a))
                  (mark-IsWatched _ (gone p a) left))
              (λ _. left)))

pub fail-IsWatched :
    (error : String) (a : Adapter) → IsWatched a → IsWatched (supervise_initial_failure error a)
unfolding supervise_initial_failure
fail-IsWatched error a w =
    if-cases IsWatched a.closing _ _ (λ _. w)
      (λ _. schedule-IsWatched (mark_unavailable error a) (mark-IsWatched error a w))

pub completed-IsWatched : (p : ℕ) (a : Adapter) → IsWatched a → IsWatched (completed p a).0
unfolding completed
completed-IsWatched p a w =
    let listed : IsWatched (record a { available = true; unavailable_reason = none }) = record {
      waiting = w.waiting;
      process = w.process;
    } in
    if-cases (λ (r : Adapter × Outcome (Unit {0})). IsWatched r.0) (is_process p a.process) _ _
      (λ _.
        if-cases (λ (r : Adapter × Outcome (Unit {0})). IsWatched r.0) (has p a.exited) _ _
          (λ _. listed) (λ _. record { waiting = w.waiting; process = w.process }))
      (λ _. listed)

cancelled-Watched :
    (o : Option ℕ) (a : Adapter)
    → Watched a.watching a.pending
    → is_stopped o a ≡ true
    → Watched (without_task o a.watching) a.pending
cancelled-Watched none a w h = w
cancelled-Watched (some p) a w h = idle-Watched p a.watching a.pending (ground arith) w

cancelled-process :
    (o : Option ℕ) (a : Adapter) (p : ℕ)
    → is_stopped o a ≡ true
    → has p a.watching ≡ true
    → has p (without_task o a.watching) ≡ true
cancelled-process none a p h w = w
cancelled-process (some q) a p h w = ground (arith, has-without q p a.watching, h, w)

pub cancel-IsWatched :
    (a : Adapter) → is_stopped a.tasks a ≡ true → IsWatched a → IsWatched (cancel_tasks a)
unfolding cancel_tasks
cancel-IsWatched a h w = record {
  waiting = cancelled-Watched a.tasks a w.waiting h;
  process = λ p e. cancelled-process a.tasks a p h (w.process p e);
}

pub close_of-IsWatched :
    (a : Adapter) (o : Option ℕ) → a.process ≡ o → IsWatched a → IsWatched (close_of a o)
unfolding close_of cancel_tasks fail_pending
close_of-IsWatched a none e w = record {
  waiting = none-Watched _ _ a.pending;
  process = λ p h. ground (arith, e, h);
}
close_of-IsWatched a (some p) e w = stop-IsWatched p a w

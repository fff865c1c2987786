-- ===== src/Mcp.antt =====
-- src/openagent_host_tools/mcp_stdio.py: the adapter of one external MCP server, its requests, and
-- the handlers of its coroutines, each from one `await` to the next. A process is the number of its
-- launch.
pub mod Reader
pub mod Steps
pub mod Watched
pub mod Histories
pub mod Lookup
pub mod Effects
pub mod Answers
pub mod Stranded
pub mod Restart
pub mod Rounds
pub mod Catalog
mod Tests
use Prim.Native.String
use Prim.Native.String.{◌++◌ as text_append}
use openagent_host_tools.Base.{
  ℕ, zero, suc, ◌+◌, ◌-◌, String, Bool, true, false, not, ◌||◌, Option, none, some, List, [], ◌∷◌,
  map, leb, nat_eq, if◌then◌else◌, has, insert, without, strip, ◌==◌, Fields, end, HostError,
  Outcome, ok, raise, crash,
}

pub data Future : Type 0 where
  waiting : Future
  result : Fields → Future
  exception : HostError → Future

-- An entry of `_pending` and of `_pending_process`, which have the same keys.
pub record Pending : Type 0 where
  pub id : ℕ
  pub process : ℕ
  pub future : Future

-- The state of an `MCPStdioServer`: `shown_name` is the name of its plugin as `repr` writes it,
-- `exited` the processes that have a return code, `reading` and `watching` those whose `_read_loop`
-- and `_watch_process` have still to end, and `tasks` the process of the tasks that `_reader` and
-- `_watcher` name.
pub record Adapter : Type 0 where
  pub shown_name : String
  pub restart_limit : ℕ
  pub process : Option ℕ
  pub launches : ℕ
  pub tasks : Option ℕ
  pub reading : List ℕ
  pub watching : List ℕ
  pub terminated : List ℕ
  pub exited : List ℕ
  pub pending : List Pending
  pub next_id : ℕ
  pub stderr_tail : String
  pub closing : Bool
  pub expected_exits : List ℕ
  pub ready_processes : List ℕ
  pub restart_attempts : ℕ
  pub restart_requested : Bool
  pub restarting : Bool
  pub available : Bool
  pub unavailable_reason : Option String

abbrev pub init : String → ℕ → Bool → Adapter
init shown_name restart_limit available = record {
  shown_name = shown_name;
  restart_limit = restart_limit;
  process = none;
  launches = 0;
  tasks = none;
  reading = [];
  watching = [];
  terminated = [];
  exited = [];
  pending = [];
  next_id = 0;
  stderr_tail = "";
  closing = false;
  expected_exits = [];
  ready_processes = [];
  restart_attempts = 0;
  restart_requested = false;
  restarting = false;
  available = available;
  unavailable_reason = none;
}

unfoldable pub text_length : String → ℕ
text_length String.[] = 0
text_length (String.◌∷◌ ch s) = suc (text_length s)

unfoldable pub text_drop : ℕ → String → String
text_drop zero s = s
text_drop (suc n) String.[] = String.[]
text_drop (suc n) (String.◌∷◌ ch s) = text_drop n s

-- `text[-n:]`, n positive
unfoldable pub last_characters : ℕ → String → String
unfolding text_length text_drop
last_characters n s = text_drop (text_length s - n) s

unfoldable pub disconnect_message : Adapter → String
unfolding strip
disconnect_message a =
    let tail = strip a.stderr_tail in
    text_append "MCP " (
      text_append a.shown_name
        (text_append " disconnected" (if tail == "" then "" else text_append ": " tail)))

unfoldable pub disconnected : Adapter → HostError
unfolding disconnect_message
disconnected a = record {
  code = "plugin_disconnected";
  message = disconnect_message a;
  details = end;
}

-- `self.process is process`
abbrev pub is_process : ℕ → Option ℕ → Bool
is_process p none = false
is_process p (some q) = nat_eq q p

abbrev pub is_waiting : Future → Bool
is_waiting waiting = true
is_waiting _ = false

-- `fail_pending` of the requests of one process, or of all.
abbrev pub concerns : Option ℕ → Pending → Bool
concerns none r = true
concerns (some p) r = nat_eq r.process p

abbrev pub settle_future : Future → Future → Future
settle_future answer waiting = answer
settle_future answer future = future

abbrev pub fail_request : HostError → Option ℕ → Pending → Pending
fail_request e process r =
    if concerns process r then record r { future = settle_future (exception e) r.future } else r

unfoldable pub fail_requests : HostError → Option ℕ → List Pending → List Pending
fail_requests e process rs = map (fail_request e process) rs

unfoldable pub fail_pending : Option ℕ → Adapter → Adapter
unfolding fail_requests disconnected
fail_pending process a = record a { pending = fail_requests (disconnected a) process a.pending }

-- `_send`: the guards of a frame for a process, or for the process of the adapter.
abbrev pub target : Option ℕ → Adapter → Option ℕ
target none a = a.process
target (some p) a = some p

unfoldable pub send : Option ℕ → Adapter → Outcome (Unit {0})
unfolding disconnected
send process a = elim (target process a) [
  | none ↦ raise (disconnected a)
  | some p ↦
      if is_process p a.process
      then if has p a.exited then raise (disconnected a) else ok _
      else raise (disconnected a)
]

-- The `finally` of `_request`: the entries of the request go.
unfoldable pub pop_request : ℕ → List Pending → List Pending
pop_request id [] = []
pop_request id (r ∷ rs) = let rest = pop_request id rs in if nat_eq r.id id then rest else r ∷ rest

unfoldable pub finish_request : ℕ → Adapter → Adapter
unfolding pop_request
finish_request id a = record a { pending = pop_request id a.pending }

-- `_request` up to the frame that it sends.
unfoldable pub register : ℕ → Adapter → Adapter
register p a =
    let id = suc a.next_id in
    record a {
      next_id = id;
      pending = (record { id = id; process = p; future = waiting }) ∷ a.pending;
    }

-- `_request` up to `await future`: the number of the request that waits, or the error that the
-- frame could not be sent.
unfoldable pub sent : Adapter → Outcome (Unit {0}) → Adapter × Outcome ℕ
unfolding finish_request
sent a (ok _) = (a, ok a.next_id)
sent a (raise e) = (finish_request a.next_id a, raise e)
sent a (crash t) = (finish_request a.next_id a, crash t)

unfoldable pub request_of : Adapter → Option ℕ → Adapter × Outcome ℕ
unfolding register send sent disconnected
request_of a none = (a, raise (disconnected a))
request_of a (some p) = sent (register p a) (send (some p) (register p a))

unfoldable pub request : Adapter → Adapter × Outcome ℕ
unfolding request_of
request a = request_of a a.process

-- `_launch` up to its first request, once the process runs.
unfoldable pub spawned : Adapter → Adapter
spawned a =
    let p = a.launches in
    record a {
      launches = suc p;
      process = some p;
      stderr_tail = "";
      tasks = some p;
      reading = p ∷ a.reading;
      watching = p ∷ a.watching;
    }

-- The end of `_launch`: the process is ready, or it went in the meantime and is stopped, which is
-- another step.
unfoldable pub completed : ℕ → Adapter → Adapter × Outcome (Unit {0})
unfolding insert disconnected
completed p a =
    let listed = record a { available = true; unavailable_reason = none } in
    if is_process p a.process
    then if has p a.exited
      then (listed, raise (disconnected listed))
      else (record listed { ready_processes = insert p a.ready_processes }, ok _)
    else (listed, raise (disconnected listed))

-- `if process.returncode is None: process.terminate()`
unfoldable pub terminate : ℕ → Adapter → Adapter
unfolding insert
terminate p a = record a {
  terminated = if has p a.exited then a.terminated else insert p a.terminated;
}

-- `_stop_process` up to its waits.
unfoldable pub begin_stop : ℕ → Adapter → Adapter
unfolding insert without terminate
begin_stop p a = terminate p (record a {
  expected_exits = insert p a.expected_exits;
  ready_processes = without p a.ready_processes;
  process = if is_process p a.process then none else a.process;
})

-- The rest of `_stop_process`, after the process and its watcher have ended.
unfoldable pub end_stop : ℕ → Adapter → Adapter
unfolding without fail_pending
end_stop p a = fail_pending (some p) (record a { expected_exits = without p a.expected_exits })

unfoldable pub schedule_restart : Adapter → Adapter
schedule_restart a =
    if a.closing || leb a.restart_limit a.restart_attempts
    then a
    else if a.restarting
    then record a { restart_requested = true }
    else record a { restarting = true }

-- `self.manifest = replace(self.manifest, available=False, unavailable_reason=…)`
unfoldable pub mark_unavailable : String → Adapter → Adapter
mark_unavailable reason a = record a { available = false; unavailable_reason = some reason }

unfoldable pub supervise_initial_failure : String → Adapter → Adapter
unfolding schedule_restart mark_unavailable
supervise_initial_failure error a =
    if a.closing then a else schedule_restart (mark_unavailable error a)

-- `_watch_process` after its wait; `status` is the return code as Python writes it.
unfoldable pub gone : ℕ → Adapter → Adapter
unfolding without fail_pending
gone p a = fail_pending (some p) (record a {
  watching = without p a.watching;
  expected_exits = without p a.expected_exits;
  ready_processes = without p a.ready_processes;
  process = if is_process p a.process then none else a.process;
})

unfoldable pub watch_process : ℕ → String → Adapter → Adapter
unfolding gone schedule_restart disconnect_message mark_unavailable
watch_process p status a =
    let left = gone p a in
    let reason =
      text_append (disconnect_message left) (text_append " (exit " (text_append status ")")) in
    if has p a.expected_exits
    then left
    else if left.closing
    then left
    else if has p a.ready_processes
    then schedule_restart (mark_unavailable reason left)
    else left

-- `_read_stderr`
unfoldable pub read_stderr : String → Adapter → Adapter
unfolding last_characters
read_stderr chunk a = record a {
  stderr_tail = last_characters 8192 (text_append a.stderr_tail chunk);
}

-- `close` before its waits; the restart task is cancelled.
unfoldable pub begin_close : Adapter → Adapter
begin_close a = record a { closing = true; restarting = false }

-- The end of `close`: the tasks that are not done are cancelled.
abbrev pub without_task : Option ℕ → List ℕ → List ℕ
without_task none ps = ps
without_task (some p) ps = without p ps

unfoldable pub cancel_tasks : Adapter → Adapter
unfolding without
cancel_tasks a = record a {
  reading = without_task a.tasks a.reading;
  watching = without_task a.tasks a.watching;
  tasks = none;
}

-- `close` after the restart task has ended: an adapter with no process is done with its requests
-- and tasks at once, one with a process begins to stop it.
unfoldable pub close_of : Adapter → Option ℕ → Adapter
unfolding begin_stop fail_pending cancel_tasks
close_of a none = cancel_tasks (fail_pending none a)
close_of a (some p) = begin_stop p a

unfoldable pub close_process : Adapter → Adapter
unfolding close_of
close_process a = close_of a a.process

-- `start` and `_restart_loop`: whether a process runs already.
abbrev pub is_running : Adapter → Bool
is_running a = elim a.process [ none ↦ false | some p ↦ not (has p a.exited) ]

unfoldable pub begin_start : Adapter → Adapter
begin_start a =
    if is_running a
    then a
    else record a { closing = false; restart_attempts = 0; restart_requested = false }

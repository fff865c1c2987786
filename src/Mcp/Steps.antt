-- ===== src/Mcp/Steps.antt =====
-- The histories of an adapter: what its coroutines, its processes and its callers do, one event
-- after another. An event whose coroutine does not wait there, or whose process cannot do it,
-- leaves the adapter as it is. No process is started while `close` waits for another to stop.
use openagent_host_tools.Base.{
  ℕ, suc, String, Bool, true, false, not, ◌&&◌, Option, none, some, List, [], ◌∷◌, ltb, has, insert,
  if◌then◌else◌, Value,
}
use openagent_host_tools.Mcp.{
  Adapter, request, finish_request, spawned, completed, begin_stop, end_stop, watch_process,
  read_stderr, supervise_initial_failure, begin_close, close_process, cancel_tasks, begin_start,
  is_running,
}
use openagent_host_tools.Mcp.Reader.{Frame, read_line}

pub data Event : Type 0 where
  starts launches requests attempts gives_up closes stops_for_close ends_close : Event
  finishes listed exits stops stopped : ℕ → Event
  line : ℕ → Frame → Event
  watched : ℕ → String → Event
  complains fails : String → Event

-- One round of `_restart_loop` begins.
unfoldable pub begin_attempt : Adapter → Adapter
begin_attempt a = record a { restart_attempts = suc a.restart_attempts; restart_requested = false }

-- Whether `_watch_process` of a process is still to run, and can.
abbrev pub can_watch : ℕ → Adapter → Bool
can_watch p a = has p a.exited && has p a.watching

-- Whether the waits of `_stop_process` are over.
abbrev pub can_stop : ℕ → Adapter → Bool
can_stop p a = has p a.exited && not (has p a.watching)

abbrev pub is_stopped : Option ℕ → Adapter → Bool
is_stopped none a = true
is_stopped (some p) a = not (has p a.watching)

module _ (text_of : Value → String) where
  unfoldable pub step : Event → Adapter → Adapter
  unfolding begin_attempt request finish_request spawned completed begin_stop end_stop watch_process
      read_stderr supervise_initial_failure begin_close close_process cancel_tasks begin_start
      read_line insert
  step starts a = begin_start a
  step launches a = if is_running a then a else spawned a
  step requests a = (request a).0
  step attempts a =
      if a.restarting && not a.closing && ltb a.restart_attempts a.restart_limit
      then begin_attempt a
      else a
  step gives_up a = record a { restarting = false }
  step closes a = begin_close a
  step stops_for_close a = close_process a
  step ends_close a = if is_stopped a.tasks a then cancel_tasks a else a
  step (finishes id) a = finish_request id a
  step (listed p) a = (completed p a).0
  step (exits p) a = if has p a.watching then record a { exited = insert p a.exited } else a
  step (stops p) a = begin_stop p a
  step (stopped p) a = if can_stop p a then end_stop p a else a
  step (line p f) a = if has p a.reading then read_line text_of p f a else a
  step (watched p status) a = if can_watch p a then watch_process p status a else a
  step (complains chunk) a = read_stderr chunk a
  step (fails error) a = supervise_initial_failure error a

  unfoldable pub run : List Event → Adapter → Adapter
  unfolding step
  run [] a = a
  run (e ∷ es) a = run es (step e a)

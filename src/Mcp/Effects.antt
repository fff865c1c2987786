-- ===== src/Mcp/Effects.antt =====
-- What an event does to the table of an adapter's requests.
use openagent_host_tools.Base.{
  ℕ, suc, String, ◌≡◌, refl, not, ◌&&◌, ◌||◌, Option, none, some, List, ◌∷◌, arith, ltb, leb, has,
  nat_eq, nat_eq_refl, subst, sym, Value, null, bool, int, float, str, arr, obj, foreign, Fields,
  Outcome, ok, raise, crash, if-cases, ℤ, pos, negsuc, int_of, HostError,
}
use openagent_host_tools.Types.{get_value, is_null}
use openagent_host_tools.Mcp.{
  Adapter, Pending, Future, waiting, is_waiting, fail_pending, fail_requests, pop_request,
  disconnected, request, request_of, register, sent, finish_request, begin_stop, end_stop,
  terminate, watch_process, gone, schedule_restart, mark_unavailable, supervise_initial_failure,
  completed, close_of, close_process, cancel_tasks, begin_start, begin_close, spawned, read_stderr,
  is_running, is_process,
}
use openagent_host_tools.Mcp.Reader.{
  Frame, oversized, end_of_stream, malformed, undecodable, message, Reading, continues, breaks,
  dies, answer_of, settle, deliver, respond, handle, read_frame, leave, read_line, pending_at,
  pending_get, set_future, is_caught,
}
use openagent_host_tools.Mcp.Steps.{
  Event, starts, launches, requests, attempts, gives_up, closes, stops_for_close, ends_close,
  finishes, listed, exits, stops, stopped, line, watched, complains, fails, step, begin_attempt,
  can_stop, can_watch, is_stopped,
}

-- The requests that change: none; those that fail with their process; those that their callers
-- leave; a new one; or the one that a line of its process answers.
pub data Effect (text_of : Value → String) (e : Event) (n : ℕ) (rs : List Pending)
    : List Pending → Type 0 where
  same : Effect text_of e n rs rs
  failed :
      (err : HostError) (o : Option ℕ)
      → err.code ≡ "plugin_disconnected"
      → Effect text_of e n rs (fail_requests err o rs)
  popped : (id : ℕ) → Effect text_of e n rs (pop_request id rs)
  added :
      (p : ℕ) → Effect text_of e n rs ((record { id = suc n; process = p; future = waiting }) ∷ rs)
  answered :
      (p id : ℕ) (value : Fields) (r : Pending) (f : Future)
      → e ≡ line p (message (obj value))
      → int_of (get_value "id" value) ≡ ok (pos id)
      → pending_at id rs ≡ some r
      → r.process ≡ p
      → answer_of text_of value ≡ ok f
      → Effect text_of e n rs (set_future r.id f rs)

module _ (text_of : Value → String) (e : Event) (a : Adapter) where
  -- The effect of reaching a state.
  abbrev Effects : Adapter → Type 0
  Effects b = Effect text_of e a.next_id a.pending b.pending

  schedule-Effects : (b : Adapter) → Effects b → Effects (schedule_restart b)
  unfolding schedule_restart
  schedule-Effects b f =
      if-cases Effects (b.closing || leb b.restart_limit b.restart_attempts) _ _ (λ _. f)
        (λ _. if-cases Effects b.restarting _ _ (λ _. f) (λ _. f))

  watch-Effects : (p : ℕ) (status : String) → Effects (watch_process p status a)
  unfolding watch_process gone fail_pending disconnected mark_unavailable
  watch-Effects p status =
      let left : Effects (gone p a) = failed _ (some p) refl in
      if-cases Effects (has p a.expected_exits) _ _ (λ _. left)
        (λ _.
          if-cases Effects (gone p a).closing _ _ (λ _. left)
            (λ _.
              if-cases Effects (has p a.ready_processes) _ _
                (λ _. schedule-Effects (mark_unavailable _ (gone p a)) left) (λ _. left)))

  completed-Effects : (p : ℕ) → Effects (completed p a).0
  unfolding completed
  completed-Effects p =
      if-cases (λ (r : Adapter × Outcome (Unit {0})). Effects r.0) (is_process p a.process) _ _
        (λ _.
          if-cases (λ (r : Adapter × Outcome (Unit {0})). Effects r.0) (has p a.exited) _ _
            (λ _. same) (λ _. same))
        (λ _. same)

  sent-Effects : (p : ℕ) (r : Outcome (Unit {0})) → Effects (sent (register p a) r).0
  unfolding sent register finish_request pop_request
  sent-Effects p (ok _) = added p
  sent-Effects p (raise err) = rw (nat_eq_refl (suc a.next_id)) (popped (suc a.next_id))
  sent-Effects p (crash t) = rw (nat_eq_refl (suc a.next_id)) (popped (suc a.next_id))

  request-Effects : (o : Option ℕ) → Effects (request_of a o).0
  unfolding request_of
  request-Effects none = same
  request-Effects (some p) = sent-Effects p _

  close-Effects : (o : Option ℕ) → Effects (close_of a o)
  unfolding close_of cancel_tasks fail_pending begin_stop terminate disconnected
  close-Effects none = failed _ none refl
  close-Effects (some p) = same

  -- What the handling of a line did, before the loop is left.
  abbrev Frames : Adapter × Reading → Type 0
  Frames (b, continues) = Effects b
  Frames (b, breaks) = b.pending ≡ a.pending
  Frames (b, dies t) = b.pending ≡ a.pending

  -- The loop is left with the requests as they were.
  failed_on :
      (err : HostError) (p : ℕ) (rs : List Pending)
      → err.code ≡ "plugin_disconnected"
      → rs ≡ a.pending
      → Effect text_of e a.next_id a.pending (fail_requests err (some p) rs)
  failed_on err p rs c f =
      subst (λ rs. Effect text_of e a.next_id a.pending (fail_requests err (some p) rs)) (sym f)
        (failed err (some p) c)

  leave-Effects : (p : ℕ) (r : Adapter × Reading) → Frames r → Effects (leave p r)
  unfolding leave fail_pending disconnected
  leave-Effects p (b, continues) f = f
  leave-Effects p (b, breaks) f = failed_on _ p b.pending refl f
  leave-Effects p (b, dies t) f = failed_on _ p b.pending refl f

  module _ (p : ℕ) (value : Fields) (is_line : e ≡ line p (message (obj value))) where
    settle-Frames :
        (id : ℕ) (r : Pending) (o : Outcome Future)
        → int_of (get_value "id" value) ≡ ok (pos id)
        → pending_at id a.pending ≡ some r
        → r.process ≡ p
        → answer_of text_of value ≡ o
        → Frames (settle r.id a o)
    unfolding settle
    settle-Frames id r (ok f) i g q h = answered p id value r f is_line i g q h
    settle-Frames id r (raise err) i g q h = refl
    settle-Frames id r (crash t) i g q h = refl

    deliver-Frames :
        (id : ℕ) (o : Option Pending)
        → int_of (get_value "id" value) ≡ ok (pos id)
        → pending_at id a.pending ≡ o
        → Frames (deliver text_of p value a o)
    unfolding deliver
    deliver-Frames id none i g = same
    deliver-Frames id (some r) i g =
        if-cases Frames (is_waiting r.future) _ _
          (λ _.
            if-cases Frames (nat_eq r.process p) _ _
              (λ q. settle-Frames id r _ i g (ground arith) refl) (λ _. same))
          (λ _. same)

    respond-Frames :
        (o : Outcome ℤ) → int_of (get_value "id" value) ≡ o → Frames (respond text_of p value a o)
    unfolding respond pending_get
    respond-Frames (ok (pos id)) i = deliver-Frames id (pending_at id a.pending) i refl
    respond-Frames (ok (negsuc n)) i = same
    respond-Frames (raise err) i = refl
    respond-Frames (crash t) i = if-cases Frames (is_caught t) _ _ (λ _. same) (λ _. refl)

    handle-Frames : Frames (handle text_of p value a (get_value "id" value))
    unfolding handle
    handle-Frames =
        if-cases Frames (is_null (get_value "id" value)) _ _ (λ _. same)
          (λ _. respond-Frames (int_of (get_value "id" value)) refl)

frame-Frames :
    (text_of : Value → String) (p : ℕ) (f : Frame) (a : Adapter)
    → Frames text_of (line p f) a (read_frame text_of p f a)
unfolding read_frame terminate
frame-Frames text_of p (oversized error) a = refl
frame-Frames text_of p end_of_stream a = refl
frame-Frames text_of p malformed a = same
frame-Frames text_of p (undecodable t) a = refl
frame-Frames text_of p (message (obj value)) a =
    handle-Frames text_of (line p (message (obj value))) a p value refl
frame-Frames text_of p (message null) a = same
frame-Frames text_of p (message (bool b)) a = same
frame-Frames text_of p (message (int z)) a = same
frame-Frames text_of p (message (float f)) a = same
frame-Frames text_of p (message (str s)) a = same
frame-Frames text_of p (message (arr vs)) a = same
frame-Frames text_of p (message (foreign t)) a = same

pub step-Effect :
    (text_of : Value → String) (e : Event) (a : Adapter)
    → Effect text_of e a.next_id a.pending (step text_of e a).pending
unfolding step request close_process begin_close read_stderr begin_attempt spawned finish_request
    begin_stop terminate end_stop fail_pending disconnected begin_start supervise_initial_failure
    mark_unavailable cancel_tasks read_line
step-Effect text_of starts a =
    if-cases (Effects text_of starts a) (is_running a) _ _ (λ _. same) (λ _. same)
step-Effect text_of launches a =
    if-cases (Effects text_of launches a) (is_running a) _ _ (λ _. same) (λ _. same)
step-Effect text_of requests a = request-Effects text_of requests a a.process
step-Effect text_of attempts a =
    if-cases (Effects text_of attempts a)
      (a.restarting && not a.closing && ltb a.restart_attempts a.restart_limit) _ _ (λ _. same)
      (λ _. same)
step-Effect text_of gives_up a = same
step-Effect text_of closes a = same
step-Effect text_of stops_for_close a = close-Effects text_of stops_for_close a a.process
step-Effect text_of ends_close a =
    if-cases (Effects text_of ends_close a) (is_stopped a.tasks a) _ _ (λ _. same) (λ _. same)
step-Effect text_of (finishes id) a = popped id
step-Effect text_of (listed p) a = completed-Effects text_of (listed p) a p
step-Effect text_of (exits p) a =
    if-cases (Effects text_of (exits p) a) (has p a.watching) _ _ (λ _. same) (λ _. same)
step-Effect text_of (stops p) a = same
step-Effect text_of (stopped p) a =
    if-cases (Effects text_of (stopped p) a) (can_stop p a) _ _ (λ _. failed _ (some p) refl)
      (λ _. same)
step-Effect text_of (line p f) a =
    if-cases (Effects text_of (line p f) a) (has p a.reading) _ _
      (λ _. leave-Effects text_of (line p f) a p _ (frame-Frames text_of p f a)) (λ _. same)
step-Effect text_of (watched p status) a =
    if-cases (Effects text_of (watched p status) a) (can_watch p a) _ _
      (λ _. watch-Effects text_of (watched p status) a p status) (λ _. same)
step-Effect text_of (complains chunk) a = same
step-Effect text_of (fails error) a =
    if-cases (Effects text_of (fails error) a) a.closing _ _ (λ _. same)
      (λ _. schedule-Effects text_of (fails error) a (mark_unavailable error a) same)

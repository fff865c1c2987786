-- ===== src/Mcp/Histories.antt =====
-- The invariant of `Watched` in every history of an adapter.
use openagent_host_tools.Base.{
  ℕ, String, ◌≡◌, refl, false, not, ◌&&◌, Option, none, some, List, [], ◌∷◌, ltb, has, nat_eq,
  Value, null, bool, int, float, str, arr, obj, foreign, Fields, Outcome, ok, raise, crash,
  if-cases, ℤ, int_of, end, without, dict_get, or_else,
}
use openagent_host_tools.Types.{get_value, is_null}
use openagent_host_tools.Mcp.{
  Adapter, Pending, Future, is_waiting, fail_pending, begin_close, terminate, read_stderr, request,
  close_process, is_running,
}
use openagent_host_tools.Mcp.Reader.{
  Frame, oversized, end_of_stream, malformed, undecodable, message, Reading, continues, breaks,
  dies, answer_of, error_of, plugin_error, settle, result_of, answer_by, deliver, respond, handle,
  read_frame, leave, read_line, pending_get, is_caught,
}
use openagent_host_tools.Mcp.Steps.{
  Event, starts, launches, requests, attempts, gives_up, closes, stops_for_close, ends_close,
  finishes, listed, exits, stops, stopped, line, watched, complains, fails, step, run,
  begin_attempt, can_stop, can_watch, is_stopped,
}
use openagent_host_tools.Mcp.Watched.{
  IsWatched, set-Watched, fail-Watched, start-IsWatched, spawned-IsWatched, finish-IsWatched,
  request_of-IsWatched, stop-IsWatched, end_stop-IsWatched, watch-IsWatched, fail-IsWatched,
  completed-IsWatched, cancel-IsWatched, close_of-IsWatched,
}

-- No answer leaves a request waiting.
abbrev IsAnswer : Outcome Future → Type 0
IsAnswer (ok f) = is_waiting f ≡ false
IsAnswer (raise e) = Unit {0}
IsAnswer (crash t) = Unit {0}

result_of-IsAnswer : (o : Outcome Fields) → IsAnswer (result_of o)
unfolding result_of
result_of-IsAnswer (ok fs) = refl
result_of-IsAnswer (raise e) = _
result_of-IsAnswer (crash t) = _

settle-IsWatched :
    (id : ℕ) (a : Adapter) (o : Outcome Future)
    → IsAnswer o
    → IsWatched a
    → IsWatched (settle id a o).0
unfolding settle
settle-IsWatched id a (ok f) s w = record {
  waiting = set-Watched id f a.watching a.pending s w.waiting;
  process = w.process;
}
settle-IsWatched id a (raise e) s w = w
settle-IsWatched id a (crash t) s w = w

ends-IsWatched :
    (p : ℕ) (a : Adapter)
    → IsWatched a
    → IsWatched (fail_pending (some p) (record a { reading = without p a.reading }))
unfolding fail_pending
ends-IsWatched p a w = record {
  waiting = fail-Watched _ (some p) a.watching a.pending w.waiting;
  process = w.process;
}

leave-IsWatched : (p : ℕ) (a : Adapter) (r : Reading) → IsWatched a → IsWatched (leave p (a, r))
unfolding leave
leave-IsWatched p a continues w = w
leave-IsWatched p a breaks w = ends-IsWatched p a w
leave-IsWatched p a (dies t) w = ends-IsWatched p a w

terminate-IsWatched : (p : ℕ) (a : Adapter) → IsWatched a → IsWatched (terminate p a)
unfolding terminate
terminate-IsWatched p a w = record { waiting = w.waiting; process = w.process }

module _ (text_of : Value → String) where
  error_of-IsAnswer : (v : Value) → IsAnswer (error_of text_of v)
  unfolding error_of plugin_error
  error_of-IsAnswer null = _
  error_of-IsAnswer (bool b) = _
  error_of-IsAnswer (int z) = _
  error_of-IsAnswer (float f) = _
  error_of-IsAnswer (str s) = _
  error_of-IsAnswer (arr vs) = _
  error_of-IsAnswer (obj fs) = refl
  error_of-IsAnswer (foreign t) = _

  answer_by-IsAnswer : (value : Fields) (o : Option Value) → IsAnswer (answer_by text_of value o)
  unfolding answer_by
  answer_by-IsAnswer value (some error) = error_of-IsAnswer (or_else error (obj end))
  answer_by-IsAnswer value none = result_of-IsAnswer _

  answer_of-IsAnswer : (value : Fields) → IsAnswer (answer_of text_of value)
  unfolding answer_of
  answer_of-IsAnswer value = answer_by-IsAnswer value (dict_get "error" value)

  deliver-IsWatched :
      (p : ℕ) (value : Fields) (a : Adapter) (o : Option Pending)
      → IsWatched a
      → IsWatched (deliver text_of p value a o).0
  unfolding deliver
  deliver-IsWatched p value a none w = w
  deliver-IsWatched p value a (some r) w =
      if-cases (λ (r : Adapter × Reading). IsWatched r.0) (is_waiting r.future) _ _
        (λ _.
          if-cases (λ (r : Adapter × Reading). IsWatched r.0) (nat_eq r.process p) _ _
            (λ _. settle-IsWatched r.id a _ (answer_of-IsAnswer value) w) (λ _. w))
        (λ _. w)

  respond-IsWatched :
      (p : ℕ) (value : Fields) (a : Adapter) (o : Outcome ℤ)
      → IsWatched a
      → IsWatched (respond text_of p value a o).0
  unfolding respond
  respond-IsWatched p value a (ok id) w = deliver-IsWatched p value a (pending_get id a.pending) w
  respond-IsWatched p value a (raise e) w = w
  respond-IsWatched p value a (crash t) w =
      if-cases (λ (r : Adapter × Reading). IsWatched r.0) (is_caught t) _ _ (λ _. w) (λ _. w)

  handle-IsWatched :
      (p : ℕ) (value : Fields) (a : Adapter) (id : Value)
      → IsWatched a
      → IsWatched (handle text_of p value a id).0
  unfolding handle
  handle-IsWatched p value a id w =
      if-cases (λ (r : Adapter × Reading). IsWatched r.0) (is_null id) _ _ (λ _. w)
        (λ _. respond-IsWatched p value a (int_of id) w)

  frame-IsWatched :
      (p : ℕ) (f : Frame) (a : Adapter) → IsWatched a → IsWatched (read_frame text_of p f a).0
  unfolding read_frame
  frame-IsWatched p (oversized error) a w =
      terminate-IsWatched p _ (record { waiting = w.waiting; process = w.process })
  frame-IsWatched p end_of_stream a w = w
  frame-IsWatched p malformed a w = w
  frame-IsWatched p (undecodable t) a w = w
  frame-IsWatched p (message (obj value)) a w = handle-IsWatched p value a (get_value "id" value) w
  frame-IsWatched p (message null) a w = w
  frame-IsWatched p (message (bool b)) a w = w
  frame-IsWatched p (message (int z)) a w = w
  frame-IsWatched p (message (float f)) a w = w
  frame-IsWatched p (message (str s)) a w = w
  frame-IsWatched p (message (arr vs)) a w = w
  frame-IsWatched p (message (foreign t)) a w = w

  line-IsWatched :
      (p : ℕ) (f : Frame) (a : Adapter) → IsWatched a → IsWatched (read_line text_of p f a)
  unfolding read_line
  line-IsWatched p f a w =
      leave-IsWatched p (read_frame text_of p f a).0 (read_frame text_of p f a).1
        (frame-IsWatched p f a w)

  step-IsWatched : (e : Event) (a : Adapter) → IsWatched a → IsWatched (step text_of e a)
  unfolding step request close_process begin_close read_stderr begin_attempt
  step-IsWatched starts a w = start-IsWatched a w
  step-IsWatched launches a w =
      if-cases IsWatched (is_running a) _ _ (λ _. w) (λ _. spawned-IsWatched a w)
  step-IsWatched requests a w = request_of-IsWatched a a.process refl w
  step-IsWatched attempts a w =
      if-cases IsWatched (a.restarting && not a.closing && ltb a.restart_attempts a.restart_limit) _
        _ (λ _. record { waiting = w.waiting; process = w.process }) (λ _. w)
  step-IsWatched gives_up a w = record { waiting = w.waiting; process = w.process }
  step-IsWatched closes a w = record { waiting = w.waiting; process = w.process }
  step-IsWatched stops_for_close a w = close_of-IsWatched a a.process refl w
  step-IsWatched ends_close a w =
      if-cases IsWatched (is_stopped a.tasks a) _ _ (λ s. cancel-IsWatched a s w) (λ _. w)
  step-IsWatched (finishes id) a w = finish-IsWatched id a w
  step-IsWatched (listed p) a w = completed-IsWatched p a w
  step-IsWatched (exits p) a w =
      if-cases IsWatched (has p a.watching) _ _
        (λ _. record { waiting = w.waiting; process = w.process }) (λ _. w)
  step-IsWatched (stops p) a w = stop-IsWatched p a w
  step-IsWatched (stopped p) a w =
      if-cases IsWatched (can_stop p a) _ _ (λ _. end_stop-IsWatched p a w) (λ _. w)
  step-IsWatched (line p f) a w =
      if-cases IsWatched (has p a.reading) _ _ (λ _. line-IsWatched p f a w) (λ _. w)
  step-IsWatched (watched p status) a w =
      if-cases IsWatched (can_watch p a) _ _ (λ _. watch-IsWatched p status a w) (λ _. w)
  step-IsWatched (complains chunk) a w = record { waiting = w.waiting; process = w.process }
  step-IsWatched (fails error) a w = fail-IsWatched error a w

  pub run-IsWatched : (es : List Event) (a : Adapter) → IsWatched a → IsWatched (run text_of es a)
  unfolding run
  run-IsWatched [] a w = w
  run-IsWatched (e ∷ es) a w = run-IsWatched es (step text_of e a) (step-IsWatched e a w)

-- ===== src/Mcp/Stranded.antt =====
-- What an exception in `_read_loop` leaves behind: a process that is still in use, and that no task
-- reads any more.
use openagent_host_tools.Base.{
  ℕ, suc, String, ◌≡◌, refl, ◌∙◌, ap, true, false, Option, none, some, List, arith, has,
  has-without, without, nat_eq, nat_eq_refl, Value, null, bool, int, float, str, arr, obj, foreign,
  Fields, Outcome, ok, raise, crash, if-cases, ℤ, int_of,
}
use openagent_host_tools.Types.{get_value, is_null}
use openagent_host_tools.Mcp.{
  Adapter, Pending, Future, is_waiting, is_process, fail_pending, fail_requests, disconnected,
  request, request_of, register, sent, send,
}
use openagent_host_tools.Mcp.Reader.{
  Frame, oversized, end_of_stream, malformed, undecodable, message, Reading, continues, breaks,
  dies, settle, deliver, respond, handle, read_frame, leave, read_line, pending_get, is_caught,
}
use openagent_host_tools.Mcp.Steps.{line, step}

-- An exception leaves the adapter as it was.
abbrev Unmoved : Adapter → Adapter × Reading → Type 0
Unmoved a (b, continues) = Unit {0}
Unmoved a (b, breaks) = Unit {0}
Unmoved a (b, dies t) = b ≡ a

-- A frame for the process of the adapter, which has not exited, is sent.
send-current :
    (p : ℕ) (b : Adapter)
    → is_process p b.process ≡ true
    → has p b.exited ≡ false
    → send (some p) b ≡ ok _
unfolding send
send-current p b current alive = rw (current, alive) refl

request-current :
    (p : ℕ) (b : Adapter)
    → b.process ≡ some p
    → has p b.exited ≡ false
    → request b ≡ (register p b, ok (suc b.next_id))
unfolding request request_of register sent
request-current p b current alive =
    ap (request_of b) current
    ∙ ap (sent (register p b))
        (send-current p (register p b) (ap (is_process p) current ∙ nat_eq_refl p) alive)

not_read : (p : ℕ) (ps : List ℕ) → has p (without p ps) ≡ false
not_read p ps = ground (arith, has-without p p ps)

module _ (text_of : Value → String) (p : ℕ) (a : Adapter) where
  settle-Unmoved : (id : ℕ) (o : Outcome Future) → Unmoved a (settle id a o)
  unfolding settle
  settle-Unmoved id (ok f) = _
  settle-Unmoved id (raise e) = refl
  settle-Unmoved id (crash t) = refl

  deliver-Unmoved : (value : Fields) (o : Option Pending) → Unmoved a (deliver text_of p value a o)
  unfolding deliver
  deliver-Unmoved value none = _
  deliver-Unmoved value (some r) =
      if-cases (Unmoved a) (is_waiting r.future) _ _
        (λ _. if-cases (Unmoved a) (nat_eq r.process p) _ _ (λ _. settle-Unmoved r.id _) (λ _. _))
        (λ _. _)

  respond-Unmoved : (value : Fields) (o : Outcome ℤ) → Unmoved a (respond text_of p value a o)
  unfolding respond
  respond-Unmoved value (ok id) = deliver-Unmoved value (pending_get id a.pending)
  respond-Unmoved value (raise e) = refl
  respond-Unmoved value (crash t) = if-cases (Unmoved a) (is_caught t) _ _ (λ _. _) (λ _. refl)

  frame-Unmoved : (f : Frame) → Unmoved a (read_frame text_of p f a)
  unfolding read_frame handle
  frame-Unmoved (oversized error) = _
  frame-Unmoved end_of_stream = _
  frame-Unmoved malformed = _
  frame-Unmoved (undecodable t) = refl
  frame-Unmoved (message (obj value)) =
      if-cases (Unmoved a) (is_null (get_value "id" value)) _ _ (λ _. _)
        (λ _. respond-Unmoved value (int_of (get_value "id" value)))
  frame-Unmoved (message null) = _
  frame-Unmoved (message (bool b)) = _
  frame-Unmoved (message (int z)) = _
  frame-Unmoved (message (float f)) = _
  frame-Unmoved (message (str s)) = _
  frame-Unmoved (message (arr vs)) = _
  frame-Unmoved (message (foreign t)) = _

  -- The adapter once the loop has raised.
  abbrev pub abandoned : Adapter
  abandoned = record a {
    reading = without p a.reading;
    pending = fail_requests (disconnected a) (some p) a.pending;
  }

  leave-abandoned :
      (r : Adapter × Reading) (t : String) → r.1 ≡ dies t → Unmoved a r → leave p r ≡ abandoned
  unfolding leave fail_pending disconnected
  leave-abandoned (b, continues) t d u = cc
  leave-abandoned (b, breaks) t d u = cc
  leave-abandoned (b, dies s) t d u = ap (λ c. leave p (c, dies s)) u

  -- A line whose handling raises an exception ends the loop and fails the requests of its process,
  -- and changes nothing else: if it was the process of the adapter and had not exited, it still is,
  -- it was not asked to end, the adapter is as available as before, the next request is accepted,
  -- and no line that the process writes then is read.
  pub read_line-stranded :
      (f : Frame) (t : String)
      → (read_frame text_of p f a).1 ≡ dies t
      → a.process ≡ some p
      → has p a.exited ≡ false
      → (read_line text_of p f a ≡ abandoned)
        × (request abandoned ≡ (register p abandoned, ok (suc a.next_id)))
        × ((g : Frame) → step text_of (line p g) (register p abandoned) ≡ register p abandoned)
  unfolding read_line step register
  read_line-stranded f t d current alive = (
    leave-abandoned (read_frame text_of p f a) t d (frame-Unmoved f),
    request-current p abandoned current alive,
    λ g. rw (not_read p a.reading) refl,
  )

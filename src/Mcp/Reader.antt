-- ===== src/Mcp/Reader.antt =====
-- `_read_loop`: what the adapter does with one line that a process writes to its standard output.
use openagent_host_tools.Base.{
  ℕ, String, Bool, ◌||◌, ◌==◌, Option, none, some, List, [], ◌∷◌, map, nat_eq, without,
  if◌then◌else◌, Value, str, obj, Fields, end, field, dict_get, or_else, int_of, ℤ, pos, negsuc,
  Outcome, ok, raise, crash,
}
use Prim.Native.String.{◌++◌ as text_append}
use openagent_host_tools.Types.{get_value, to_dict, is_null}
use openagent_host_tools.Mcp.{
  Adapter, Pending, Future, result, exception, is_waiting, settle_future, fail_pending,
  last_characters, terminate,
}

-- What `readline` and `json.loads` give of a line: a line above the limit, with the text of the
-- error; the end; a line that `json.loads` refuses with a `JSONDecodeError`; one that it refuses
-- with another exception, such as the `UnicodeDecodeError` of bytes that are no UTF-8; and a value.
pub data Frame : Type 0 where
  oversized : String → Frame
  end_of_stream : Frame
  malformed : Frame
  undecodable : String → Frame
  message : Value → Frame

-- How the handling of a line ends: the loop goes on, or is left by `break` or by an exception.
pub data Reading : Type 0 where
  continues : Reading
  breaks : Reading
  dies : String → Reading

-- `self._pending.get(id)`, for an id as `int` gives it.
unfoldable pub pending_at : ℕ → List Pending → Option Pending
pending_at id [] = none
pending_at id (r ∷ rs) = let rest = pending_at id rs in if nat_eq r.id id then some r else rest

unfoldable pub pending_get : ℤ → List Pending → Option Pending
unfolding pending_at
pending_get (pos id) rs = pending_at id rs
pending_get (negsuc n) rs = none

-- `future.set_result` or `future.set_exception` of the future at an id, which is not done.
abbrev pub set_entry : ℕ → Future → Pending → Pending
set_entry id answer r =
    if nat_eq r.id id then record r { future = settle_future answer r.future } else r

unfoldable pub set_future : ℕ → Future → List Pending → List Pending
set_future id answer rs = map (set_entry id answer) rs

-- The clause `except (TypeError, ValueError)`.
abbrev pub is_caught : String → Bool
is_caught t = t == "TypeError" || t == "ValueError"

unfoldable pub result_of : Outcome Fields → Outcome Future
result_of (ok fields) = ok (result fields)
result_of (raise e) = raise e
result_of (crash t) = crash t

unfoldable pub settle : ℕ → Adapter → Outcome Future → Adapter × Reading
unfolding set_future
settle id a (ok answer) = (record a { pending = set_future id answer a.pending }, continues)
settle id a (raise e) = (a, dies "HostError")
settle id a (crash t) = (a, dies t)

-- The `finally` of the loop.
unfoldable pub leave : ℕ → Adapter × Reading → Adapter
unfolding fail_pending without
leave p (a, continues) = a
leave p (a, breaks) = fail_pending (some p) (record a { reading = without p a.reading })
leave p (a, dies t) = fail_pending (some p) (record a { reading = without p a.reading })

module _ (text_of : Value → String) where
  -- The error of an answer that is a dict.
  unfoldable pub plugin_error : Fields → Future
  unfolding get_value
  plugin_error error = exception (record {
    code = "plugin_error";
    message = text_of (or_else (get_value "message" error) (str "MCP request failed"));
    details =
        field "mcp_code" (get_value "code" error) (field "mcp_data" (get_value "data" error) end);
  })

  -- What a message makes of the future that it answers.
  unfoldable pub error_of : Value → Outcome Future
  unfolding plugin_error
  error_of (obj error) = ok (plugin_error error)
  error_of _ = crash "AttributeError"

  unfoldable pub answer_by : Fields → Option Value → Outcome Future
  unfolding error_of get_value to_dict result_of
  answer_by value (some error) = error_of (or_else error (obj end))
  answer_by value none = result_of (to_dict (or_else (get_value "result" value) (obj end)))

  unfoldable pub answer_of : Fields → Outcome Future
  unfolding answer_by dict_get
  answer_of value = answer_by value (dict_get "error" value)

  unfoldable pub deliver : ℕ → Fields → Adapter → Option Pending → Adapter × Reading
  unfolding settle answer_of
  deliver p value a none = (a, continues)
  deliver p value a (some r) =
      if is_waiting r.future
      then if nat_eq r.process p then settle r.id a (answer_of value) else (a, continues)
      else (a, continues)

  -- `int(request_id)`, whose TypeError and ValueError are caught.
  unfoldable pub respond : ℕ → Fields → Adapter → Outcome ℤ → Adapter × Reading
  unfolding deliver pending_get
  respond p value a (ok id) = deliver p value a (pending_get id a.pending)
  respond p value a (raise e) = (a, dies "HostError")
  respond p value a (crash t) = if is_caught t then (a, continues) else (a, dies t)

  unfoldable pub handle : ℕ → Fields → Adapter → Value → Adapter × Reading
  unfolding respond int_of is_null
  handle p value a id = if is_null id then (a, continues) else respond p value a (int_of id)

  unfoldable pub read_frame : ℕ → Frame → Adapter → Adapter × Reading
  unfolding handle get_value last_characters terminate
  read_frame p (oversized error) a = (
    terminate p (record a {
      stderr_tail =
          last_characters 8192 (text_append "MCP stdout frame exceeded 134217728 bytes: " error);
    }),
    breaks,
  )
  read_frame p end_of_stream a = (a, breaks)
  read_frame p malformed a = (a, continues)
  read_frame p (undecodable t) a = (a, dies t)
  read_frame p (message (obj value)) a = handle p value a (get_value "id" value)
  read_frame p (message _) a = (a, continues)

  unfoldable pub read_line : ℕ → Frame → Adapter → Adapter
  unfolding leave read_frame
  read_line p f a = leave p (read_frame p f a)

-- ===== src/Client.antt =====
-- src/openagent_host_tools/local_broker.py: the requests of a `LocalCapabilityClient`, and what
-- becomes of them when an answer comes or a connection is lost, each handler from one `await` to the
-- next. A connection is the number of its `start`.
pub mod Steps
pub mod Histories
pub mod Fates
pub mod Rules
pub mod Agreement
mod Tests
use Prim.Native.String.{◌++◌ as text_append}
use openagent_host_tools.Base.{
  ℕ, suc, String, Bool, true, false, ◌&&◌, Option, none, some, List, [], ◌∷◌, map, nat_eq, has,
  without, if◌then◌else◌, ◌==◌, Value, str, int, obj, Fields, end, field, truthy, or_else,
  HostError, Outcome, ok, raise, crash, pos,
}
use openagent_host_tools.Types.{get_value, to_dict}
use openagent_host_tools.Mcp.{
  Future, waiting, result, exception, is_waiting, settle_future, is_process,
}

-- A request: its entries in `_pending`, in `_pending_transport` (none if it has no entry there) and
-- in `_indeterminate_on_disconnect`.
pub record Request : Type 0 where
  pub id : String
  pub transport : Option ℕ
  pub indeterminate : Bool
  pub future : Future

-- `listener` is the connection of the task that `_listener` names, `listening` the connections whose
-- `_listen` has still to end, and `failing` those that `_connection_lost` has detached and whose
-- requests it has still to fail.
pub record Client : Type 0 where
  pub transport : Option ℕ
  pub connections : ℕ
  pub listener : Option ℕ
  pub listening : List ℕ
  pub failing : List ℕ
  pub requests : List Request
  pub next_id : ℕ

abbrev pub new_client : Client
new_client = record {
  transport = none;
  connections = 0;
  listener = none;
  listening = [];
  failing = [];
  requests = [];
  next_id = 0;
}

-- `self._listener is not None and not self._listener.done()`
unfoldable pub is_listening : Client → Option ℕ → Bool
is_listening c none = false
is_listening c (some p) = has p c.listening

-- `start` with a broker that accepts the connection, under the lock of the lifecycle.
unfoldable pub connect : Client → Client
connect c =
    let n = suc c.connections in
    record c { transport = some n; connections = n; listener = some n; listening = n ∷ c.listening }

unfoldable pub start_from : Client → Option ℕ → Client
unfolding connect is_listening
start_from c none = connect c
start_from c (some p) = if is_listening c c.listener then c else connect c

unfoldable pub start : Client → Client
unfolding start_from
start c = start_from c c.transport

-- `_disconnect_error`
unfoldable pub disconnect_error : Bool → HostError
disconnect_error true = record {
  code = "CLIENT_RESULT_INDETERMINATE";
  message = "local broker disconnected after tool dispatch; the effect may have occurred";
  details = field "local_code" (str "broker_disconnected") end;
}
disconnect_error false = record {
  code = "broker_disconnected";
  message = "local broker disconnected";
  details = end;
}

-- `_connection_lost` under the lock, in the task of the listener or in another.
unfoldable pub detach : Bool → ℕ → Client → Client
detach by_listener p c =
    if is_process p c.transport
    then record c {
      transport = none;
      listener = if by_listener && is_process p c.listener then none else c.listener;
      failing = p ∷ c.failing;
    }
    else c

-- The rest of `_connection_lost`, after the connection is closed and the sinks are told.
abbrev pub fail_affected : ℕ → Request → Request
fail_affected p r =
    if is_process p r.transport
    then record r { future = settle_future (exception (disconnect_error r.indeterminate)) r.future }
    else r

unfoldable pub fail_requests : ℕ → Client → Client
unfolding without
fail_requests p c =
    if has p c.failing
    then record c { failing = without p c.failing; requests = map (fail_affected p) c.requests }
    else c

-- The `finally` of `_listen`.
unfoldable pub end_listening : ℕ → Client → Client
unfolding detach without
end_listening p c =
    if has p c.listening then detach true p (record c { listening = without p c.listening }) else c

-- The `finally` of `_request`.
unfoldable pub drop_request : String → List Request → List Request
drop_request id [] = []
drop_request id (r ∷ rs) = let rest = drop_request id rs in if r.id == id then rest else r ∷ rest

-- A future at an id is set, if it is not done.
abbrev pub set_answer : String → Future → Request → Request
set_answer id answer r =
    if r.id == id then record r { future = settle_future answer r.future } else r

unfoldable pub request_at : String → List Request → Option Request
request_at id [] = none
request_at id (r ∷ rs) = let rest = request_at id rs in if r.id == id then some r else rest

unfoldable pub result_answer : Outcome Fields → Outcome Future
result_answer (ok fields) = ok (result fields)
result_answer (raise e) = raise e
result_answer (crash t) = crash t

-- An answer is given to the future; an exception ends the listener.
unfoldable pub give : ℕ → String → Outcome Future → Client → Client
unfolding end_listening
give p id (ok f) c = record c { requests = map (set_answer id f) c.requests }
give p id (raise e) c = end_listening p c
give p id (crash t) c = end_listening p c

module _ (text_of : Value → String) where
  -- `_request` up to the sending; without a connection its assertion fails.
  unfoldable pub open_request : Bool → Client → Client
  open_request indeterminate c =
      let id = text_append "py-" (text_of (int (pos (suc c.next_id)))) in
      record c {
        next_id = suc c.next_id;
        requests =
            (record {
              id = id;
              transport = c.transport;
              indeterminate = indeterminate;
              future = waiting;
            })
            ∷ c.requests;
      }

  -- The error that a response bears.
  unfoldable pub error_with : Fields → Outcome Fields → Outcome Future
  unfolding get_value
  error_with error (ok details) = ok (
      exception (record {
        code = text_of (or_else (get_value "code" error) (str "host_error"));
        message = text_of (or_else (get_value "message" error) (str "local broker request failed"));
        details = details;
      }))
  error_with error (raise e) = raise e
  error_with error (crash t) = crash t

  unfoldable pub error_answer : Value → Outcome Future
  unfolding error_with get_value to_dict
  error_answer (obj error) = error_with error (to_dict (or_else (get_value "data" error) (obj end)))
  error_answer _ = crash "AttributeError"

  unfoldable pub answer : Fields → Outcome Future
  unfolding error_answer result_answer get_value to_dict truthy
  answer frame =
      if truthy (get_value "ok" frame)
      then result_answer (to_dict (or_else (get_value "result" frame) (obj end)))
      else error_answer (or_else (get_value "error" frame) (obj end))

  unfoldable pub respond_to : ℕ → Fields → Client → Option Request → Client
  unfolding give answer
  respond_to p frame c none = c
  respond_to p frame c (some r) = if is_waiting r.future then give p r.id (answer frame) c else c

  -- `_listen`: a frame of a connection that is no event.
  unfoldable pub respond : ℕ → Fields → Client → Client
  unfolding respond_to request_at get_value
  respond p frame c =
      if has p c.listening
      then respond_to p frame c
          (request_at (text_of (or_else (get_value "id" frame) (str ""))) c.requests)
      else c

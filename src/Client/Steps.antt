-- ===== src/Client/Steps.antt =====
-- The histories of a client: the pieces of its coroutines, in any order.
use openagent_host_tools.Base.{
  ℕ, String, Bool, false, List, [], ◌∷◌, Value, Fields, if-cases, map, All, ◌==◌,
}
use openagent_host_tools.Client.{
  Request, Client, start, detach, fail_requests, end_listening, drop_request, open_request, respond,
}

-- What happens next: a `start`; a request that is sent, and that may not be repeated if its flag is
-- true; a sending that fails; a frame that is no event, of a connection; the end of a connection's
-- listener; the rest of `_connection_lost`; a caller that leaves its request.
pub data Event : Type 0 where
  starts : Event
  opens : Bool → Event
  breaks : ℕ → Event
  frame : ℕ → Fields → Event
  stops : ℕ → Event
  fails : ℕ → Event
  leaves : String → Event

module _ (text_of : Value → String) where
  unfoldable pub step : Event → Client → Client
  unfolding start open_request detach respond end_listening fail_requests drop_request
  step starts c = start c
  step (opens indeterminate) c = open_request text_of indeterminate c
  step (breaks p) c = detach false p c
  step (frame p fs) c = respond text_of p fs c
  step (stops p) c = end_listening p c
  step (fails p) c = fail_requests p c
  step (leaves id) c = record c { requests = drop_request id c.requests }

  unfoldable pub run : List Event → Client → Client
  unfolding step
  run [] c = c
  run (e ∷ es) c = run es (step e c)

-- Lists of requests, all with a property.
pub All-weaken :
    (P Q : Request → Type 0) (rs : List Request) → ((r : Request) → P r → Q r) → All P rs → All Q rs
All-weaken P Q [] f w = _
All-weaken P Q (r ∷ rs) f w = (f r w.0, All-weaken P Q rs f w.1)

pub All-map :
    (P Q : Request → Type 0) (g : Request → Request) (rs : List Request)
    → ((r : Request) → P r → Q (g r))
    → All P rs
    → All Q (map g rs)
All-map P Q g [] f w = _
All-map P Q g (r ∷ rs) f w = (f r w.0, All-map P Q g rs f w.1)

pub All-drop :
    (P : Request → Type 0) (id : String) (rs : List Request) → All P rs → All P (drop_request id rs)
unfolding drop_request
All-drop P id [] w = _
All-drop P id (r ∷ rs) w =
    if-cases (All P) (r.id == id) _ _ (λ _. All-drop P id rs w.1) (λ _. (w.0, All-drop P id rs w.1))

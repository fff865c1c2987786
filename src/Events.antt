-- ===== src/Events.antt =====
-- The events of `CapabilityHost` (src/openagent_host_tools/host.py): the sinks that subscribe, and
-- the terminal events of shells, which are kept until a client acknowledges them. An event is given
-- by the fields that the host reads, which are texts, and the rest of its dictionary; a sink by a
-- name. Each operation returns what it hands to which sink; what a sink raises is swallowed.
pub mod Kept
mod Tests
use openagent_host_tools.Base.{
  ℕ, String, Bool, true, false, not, ◌&&◌, Option, none, some, is_some, List, [], ◌∷◌, map,
  if◌then◌else◌, ◌==◌, Fields, add, discard,
}

pub record Event : Type 0 where
  pub kind : String
  pub principal : Option String
  pub shell_id : String
  pub rest : Fields

pub record Events : Type 0 where
  pub sinks : List String
  pub terminal : List ((String × String) × Event)

abbrev pub init : Events
init = record { sinks = []; terminal = [] }

abbrev pub is_key : String → String → String × String → Bool
is_key p s (q, t) = q == p && t == s

-- The dictionary of terminal events, by principal and shell.
unfoldable pub get : String → String → List ((String × String) × Event) → Option Event
get p s [] = none
get p s ((k, e) ∷ m) = if is_key p s k then some e else get p s m

unfoldable pub set :
    String → String → Event → List ((String × String) × Event) → List ((String × String) × Event)
set p s e [] = ((p, s), e) ∷ []
set p s e ((k, d) ∷ m) = if is_key p s k then (k, e) ∷ m else (k, d) ∷ set p s e m

unfoldable pub remove :
    String → String → List ((String × String) × Event) → List ((String × String) × Event)
remove p s [] = []
remove p s ((k, e) ∷ m) = let rest = remove p s m in if is_key p s k then rest else (k, e) ∷ rest

-- `str(event.get("principal") or "")`
abbrev pub owner : Event → String
owner e = elim e.principal [ none ↦ "" | some p ↦ p ]

abbrev pub is_terminal : Event → Bool
is_terminal e = e.kind == "shell_completed" && not (e.shell_id == "")

-- `_emit_event`
unfoldable pub emit : Event → Events → Events × List (String × Event)
unfolding set
emit e es = (
  if is_terminal e then record es { terminal = set (owner e) e.shell_id e es.terminal } else es,
  map (λ sink. (sink, e)) es.sinks,
)

-- `subscribe_events`: a new sink gets all the terminal events.
unfoldable pub subscribe : String → Events → Events × List (String × Event)
unfolding add
subscribe sink es =
    (record es { sinks = add sink es.sinks }, map (λ entry. (sink, entry.1)) es.terminal)

unfoldable pub unsubscribe : String → Events → Events
unfolding discard
unsubscribe sink es = record es { sinks = discard sink es.sinks }

-- `ack_event`
unfoldable pub ack : String → String → Events → Events × Bool
unfolding get remove
ack p s es = (record es { terminal = remove p s es.terminal }, is_some (get p s es.terminal))

-- `event.get("principal") == principal_id`
abbrev pub is_of : String → Event → Bool
is_of p e = elim e.principal [ none ↦ false | some q ↦ q == p ]

-- What `_finish_principal_release` does to the terminal events.
unfoldable pub forget_of :
    String → List ((String × String) × Event) → List ((String × String) × Event)
forget_of p [] = []
forget_of p ((k, e) ∷ m) = let rest = forget_of p m in if is_of p e then rest else (k, e) ∷ rest

unfoldable pub forget : String → Events → Events
unfolding forget_of
forget p es = record es { terminal = forget_of p es.terminal }

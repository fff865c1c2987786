-- ===== src/Events/Kept.antt =====
-- A terminal event is delivered to every sink until it is acknowledged.
use openagent_host_tools.Base.{
  String, true, false, ◌&&◌, ◌≡◌, refl, ◌∙◌, ap, none, some, List, [], ◌∷◌, map, All, eq_iff,
  eq_refl, arith, if-cases, Bool-cases, inl, inr,
}
use mathlib.Core.List.{Memᴰ}
use openagent_host_tools.Events.{
  Event, Events, is_key, get, set, remove, owner, is_terminal, emit, subscribe, unsubscribe, ack,
  is_of, forget_of, forget,
}

pub data Step : Type 0 where
  emitted : Event → Step
  subscribed : String → Step
  unsubscribed : String → Step
  acknowledged : String → String → Step
  forgotten : String → Step

unfoldable pub step : Step → Events → Events
step (emitted e) es = (emit e es).0
step (subscribed sink) es = (subscribe sink es).0
step (unsubscribed sink) es = unsubscribe sink es
step (acknowledged p s) es = (ack p s es).0
step (forgotten p) es = forget p es

unfoldable pub run : List Step → Events → Events
unfolding step
run [] es = es
run (s ∷ ss) es = run ss (step s es)

-- The steps that leave the event of a key: no later terminal event of the key, no acknowledgement
-- of it, and no release of its principal.
abbrev pub Spares : Event → Step → Type 0
Spares e (emitted d) = (is_terminal d && is_key (owner e) e.shell_id (owner d, d.shell_id)) ≡ false
Spares e (subscribed sink) = Unit
Spares e (unsubscribed sink) = Unit
Spares e (acknowledged p s) = is_key (owner e) e.shell_id (p, s) ≡ false
Spares e (forgotten p) = is_of p e ≡ false

get-set :
    (p s : String) (e : Event) (m : List ((String × String) × Event))
    → get p s (set p s e m) ≡ some e
unfolding get set
get-set p s e [] = ground (arith, eq_refl p, eq_refl s)
get-set p s e (((q, t), d) ∷ m) = ground (arith, get-set p s e m)

get-set_other :
    (p s q t : String) (e : Event) (m : List ((String × String) × Event))
    → is_key p s (q, t) ≡ false
    → get p s (set q t e m) ≡ get p s m
unfolding get set
get-set_other p s q t e [] other = ground arith
get-set_other p s q t e (((q', t'), d) ∷ m) other =
    ground
      (arith, get-set_other p s q t e m other, eq_iff q' q, eq_iff t' t, eq_iff q' p, eq_iff t' s)

get-remove_other :
    (p s q t : String) (m : List ((String × String) × Event))
    → is_key p s (q, t) ≡ false
    → get p s (remove q t m) ≡ get p s m
unfolding get remove
get-remove_other p s q t [] other = refl
get-remove_other p s q t (((q', t'), d) ∷ m) other =
    ground
      (arith, get-remove_other p s q t m other, eq_iff q' q, eq_iff t' t, eq_iff q' p, eq_iff t' s)

get-remove : (p s : String) (m : List ((String × String) × Event)) → get p s (remove p s m) ≡ none
unfolding get remove
get-remove p s [] = refl
get-remove p s (((q, t), d) ∷ m) = ground (arith, get-remove p s m)

get-forget_of :
    (p s q : String) (e : Event) (m : List ((String × String) × Event))
    → get p s m ≡ some e
    → is_of q e ≡ false
    → get p s (forget_of q m) ≡ some e
unfolding get forget_of
get-forget_of p s q e [] found other = cc
get-forget_of p s q e (((q', t'), d) ∷ m) found other = ground (arith, get-forget_of p s q e m)

-- The event is the terminal event of its key.
abbrev Keeps : Event → Events → Type 0
Keeps e es = get (owner e) e.shell_id es.terminal ≡ some e

step-Keeps : (e : Event) (s : Step) (es : Events) → Spares e s → Keeps e es → Keeps e (step s es)
unfolding step emit subscribe unsubscribe ack forget
step-Keeps e (emitted d) es spared kept =
    if-cases (Keeps e) (is_terminal d) _ es
      (λ terminal.
        get-set_other (owner e) e.shell_id (owner d) d.shell_id d es.terminal
          (rw terminal at spared)
        ∙ kept)
      (λ _. kept)
step-Keeps e (subscribed sink) es spared kept = kept
step-Keeps e (unsubscribed sink) es spared kept = kept
step-Keeps e (acknowledged p s) es spared kept =
    get-remove_other (owner e) e.shell_id p s es.terminal spared ∙ kept
step-Keeps e (forgotten p) es spared kept =
    get-forget_of (owner e) e.shell_id p e es.terminal kept spared

run-Keeps :
    (e : Event) (steps : List Step) (es : Events)
    → All (Spares e) steps
    → Keeps e es
    → Keeps e (run steps es)
unfolding run
run-Keeps e [] es spared kept = kept
run-Keeps e (s ∷ steps) es (first, rest) kept =
    run-Keeps e steps (step s es) rest (step-Keeps e s es first kept)

-- Whether a list of deliveries has one of the event to the sink.
abbrev pub Delivered : String → Event → List (String × Event) → Type 0
Delivered sink e ds = Memᴰ (sink, e) ds

get-Delivered :
    (p s sink : String) (e : Event) (m : List ((String × String) × Event))
    → get p s m ≡ some e
    → Delivered sink e (map (λ entry. (sink, entry.1)) m)
unfolding get
get-Delivered p s sink e [] found = cc
get-Delivered p s sink e ((k, d) ∷ m) found = elim (Bool-cases (is_key p s k)) [
  | inl here ↦ Memᴰ.head (same sink (rw here at found))
  | inr elsewhere ↦ Memᴰ.tail (get-Delivered p s sink e m (rw elsewhere at found))
]
  where
    same : (x : String) → some d ≡ some e → ◌≡◌ {A = String × Event} (x, e) (x, d)
    same x h = let back : e ≡ d = cc in ap (λ y. (x, y)) back

-- After a terminal event was emitted, and whatever comes then but a later terminal event of that
-- shell, its acknowledgement or the release of its principal, a sink that subscribes gets the
-- event; the acknowledgement succeeds then, and only once.
pub terminal_event-kept :
    (e : Event) (steps : List Step) (es : Events) (sink : String)
    → is_terminal e ≡ true
    → All (Spares e) steps
    → let now = run steps (emit e es).0 in
      let acked = (ack (owner e) e.shell_id now).0 in
      Delivered sink e (subscribe sink now).1
      × ((ack (owner e) e.shell_id now).1 ≡ true)
      × ((ack (owner e) e.shell_id acked).1 ≡ false)
unfolding subscribe ack
terminal_event-kept e steps es sink terminal spared =
    let first : Keeps e (emit e es).0 =
      unfold emit in rw terminal (get-set (owner e) e.shell_id e es.terminal) in
    let kept = run-Keeps e steps (emit e es).0 spared first in
    (
      get-Delivered (owner e) e.shell_id sink e (run steps (emit e es).0).terminal kept,
      rw kept refl,
      rw (get-remove (owner e) e.shell_id (run steps (emit e es).0).terminal) refl,
    )

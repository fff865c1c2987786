-- ===== src/Mcp/Answers.antt =====
-- What becomes of the requests of an adapter: how each is answered, and when it waits no more.
use openagent_host_tools.Base.{
  ℕ, suc, ◌≤◌, String, ◌≡◌, ◌⊎◌, refl, subst, sym, Bool, true, false, Option, some, List, [], ◌∷◌,
  arith, has, nat_eq, Value, obj, Fields, ok, if-cases, pos, int_of, HostError, inl, inr,
}
use openagent_host_tools.Types.{get_value}
use openagent_host_tools.Mcp.{
  Adapter, Pending, Future, waiting, result, exception, is_waiting, init, fail_requests,
  fail_request, settle_future, concerns,
}
use openagent_host_tools.Mcp.Reader.{message, answer_of, pending_at, set_entry, set_future}
use openagent_host_tools.Mcp.Steps.{Event, line, step, run}
use openagent_host_tools.Mcp.Watched.{Watched, Settled}
use openagent_host_tools.Mcp.Lookup.{there, pending_at-id, pending_at-map, pending_at-pop}
use openagent_host_tools.Mcp.Effects.{Effect, same, failed, popped, added, answered, step-Effect}
use openagent_host_tools.Mcp.Histories.{run-IsWatched}

Watched-Settled :
    (p : ℕ) (ps : List ℕ) (rs : List Pending) → has p ps ≡ false → Watched ps rs → Settled p rs
Watched-Settled p ps [] h w = _
Watched-Settled p ps (r ∷ rs) h w = (ground (arith, w.0, h), Watched-Settled p ps rs h w.1)

-- In no history of a new adapter does a request wait for a process that its watcher has seen end,
-- or that was never started.
pub gone-Settled :
    (text_of : Value → String) (name : String) (limit : ℕ) (available : Bool) (es : List Event)
    (p : ℕ)
    → has p (run text_of es (init name limit available)).watching ≡ false
    → Settled p (run text_of es (init name limit available)).pending
gone-Settled text_of name limit available es p h =
    let w =
      run-IsWatched text_of es (init name limit available)
        (record { waiting = _; process = λ q e. cc }) in
    Watched-Settled p _ _ h w.waiting

-- What an event makes of a request that its table still has: the same; a failure with its process,
-- or the answer of a line that its own process wrote with its id, if it was waiting.
pub data Answered (text_of : Value → String) (e : Event) (r : Pending) : Pending → Type 0 where
  kept : Answered text_of e r r
  lost :
      (err : HostError)
      → is_waiting r.future ≡ true
      → err.code ≡ "plugin_disconnected"
      → Answered text_of e r (record r { future = exception err })
  answered_by :
      (value : Fields) (f : Future)
      → is_waiting r.future ≡ true
      → e ≡ line r.process (message (obj value))
      → int_of (get_value "id" value) ≡ ok (pos r.id)
      → answer_of text_of value ≡ ok f
      → Answered text_of e r (record r { future = f })

-- A future is settled once.
settled_once :
    (answer f : Future)
    → ((is_waiting f ≡ true) × (settle_future answer f ≡ answer)) ⊎ (settle_future answer f ≡ f)
settled_once answer waiting = inl (refl, refl)
settled_once answer (result v) = inr refl
settled_once answer (exception x) = inr refl

-- A request whose future is settled, if the answer is a legitimate one.
settle-Answered :
    (text_of : Value → String) (e : Event) (answer : Future) (r : Pending)
    → (is_waiting r.future ≡ true → Answered text_of e r (record r { future = answer }))
    → Answered text_of e r (record r { future = settle_future answer r.future })
settle-Answered text_of e answer r k = elim (settled_once answer r.future) [
  | inl (w, s) ↦ subst (λ f. Answered text_of e r (record r { future = f })) (sym s) (k w)
  | inr s ↦ subst (λ f. Answered text_of e r (record r { future = f })) (sym s) kept
]

fail_request-id : (err : HostError) (o : Option ℕ) (r : Pending) → (fail_request err o r).id ≡ r.id
fail_request-id err o r =
    if-cases (λ (s : Pending). s.id ≡ r.id) (concerns o r) _ _ (λ _. refl) (λ _. refl)

set_entry-id : (id : ℕ) (f : Future) (r : Pending) → (set_entry id f r).id ≡ r.id
set_entry-id id f r =
    if-cases (λ (s : Pending). s.id ≡ r.id) (nat_eq r.id id) _ _ (λ _. refl) (λ _. refl)

Effect-Answered :
    (text_of : Value → String) (e : Event) (n id : ℕ) (rs rs' : List Pending) (r r' : Pending)
    → id ≤ n
    → Effect text_of e n rs rs'
    → pending_at id rs ≡ some r
    → pending_at id rs' ≡ some r'
    → Answered text_of e r r'
unfolding fail_requests set_future
Effect-Answered text_of e n id rs rs' r r' b same h g =
    let e_same : r ≡ r' = cc (h, g) in subst (Answered text_of e r) e_same kept
Effect-Answered text_of e n id rs rs' r r' b (failed err o c) h g =
    subst (Answered text_of e r)
      (sym (pending_at-map (fail_request err o) id rs r r' (fail_request-id err o) h g))
      (if-cases (Answered text_of e r) (concerns o r) _ _
        (λ _. settle-Answered text_of e (exception err) r (λ w. lost err w c)) (λ _. kept))
Effect-Answered text_of e n id rs rs' r r' b (popped j) h g =
    let e_same : r ≡ r' = ground (arith, h, g, pending_at-pop j id rs) in
    subst (Answered text_of e r) e_same kept
Effect-Answered text_of e n id rs rs' r r' b (added p) h g =
    let e_same : r ≡ r' = cc (
      h,
      g,
      there id (record { id = suc n; process = p; future = waiting }) rs (ground (arith, b)),
    ) in
    subst (Answered text_of e r) e_same kept
Effect-Answered text_of e n id rs rs' r r' b (answered p j value s f is_line i found owner ans) h
      g =
    subst (Answered text_of e r)
      (sym (pending_at-map (set_entry s.id f) id rs r r' (set_entry-id s.id f) h g))
      (if-cases (Answered text_of e r) (nat_eq r.id s.id) _ _
        (λ same_id. settle-Answered text_of e f r (λ w.
          let same_entry : s ≡ r =
            ground
              (arith, same_id, h, found, pending_at-id id rs r h, pending_at-id j rs s found) in
          answered_by value f w (cc (is_line, owner, same_entry))
            (cc (i, same_entry, pending_at-id j rs s found)) ans))
        (λ _. kept))

-- Every event of an adapter treats a request whose id was given out so: if the table still has it,
-- it is the same, or it was waiting and fails as `plugin_disconnected`, or it was waiting and has
-- what the source makes of a line that its own process wrote with its id.
pub step-Answered :
    (text_of : Value → String) (e : Event) (a : Adapter) (id : ℕ) (r r' : Pending)
    → id ≤ a.next_id
    → pending_at id a.pending ≡ some r
    → pending_at id (step text_of e a).pending ≡ some r'
    → Answered text_of e r r'
step-Answered text_of e a id r r' b h g =
    Effect-Answered text_of e a.next_id id a.pending _ r r' b (step-Effect text_of e a) h g

-- ===== src/Client/Histories.antt =====
-- Which requests of a client still wait, in every history.
use openagent_host_tools.Base.{
  ℕ, suc, String, ◌≡◌, refl, ap, Bool, true, false, Option, none, some, List, [], ◌∷◌, arith, has,
  without, Value, Fields, Outcome, ok, raise, crash, if-cases, All, ◌||◌, ◌==◌, nat_eq_refl,
  has-without, subst, HostError,
}
use openagent_host_tools.Mcp.{
  Future, waiting, result, exception, is_waiting, settle_future, is_process,
}
use openagent_host_tools.Client.{
  Request, Client, new_client, is_listening, connect, start_from, start, disconnect_error, detach,
  fail_affected, fail_requests, end_listening, set_answer, open_request, give, respond_to, respond,
}
use openagent_host_tools.Client.Steps.{
  Event, starts, opens, breaks, frame, stops, fails, leaves, step, run, All-weaken, All-map,
  All-drop,
}

-- A connection that is served: that of the client, or one whose requests are still to fail.
abbrev pub is_served : Option ℕ → List ℕ → Option ℕ → Bool
is_served current failing none = true
is_served current failing (some p) = is_process p current || has p failing

-- A request that waits has a connection that is served, or none.
abbrev pub Served : Option ℕ → List ℕ → Request → Type 0
Served current failing r = is_waiting r.future ≡ true → is_served current failing r.transport ≡ true

-- The listener of the connection runs.
abbrev pub Heard : Option ℕ → List ℕ → Option ℕ → Type 0
Heard none listening listener = Unit
Heard (some p) listening listener = (has p listening ≡ true) × (listener ≡ some p)

pub record IsServed (c : Client) : Type 0 where
  pub heard : Heard c.transport c.listening c.listener
  pub waiting : All (Served c.transport c.failing) c.requests

settle_future-waiting : (f g : Future) → is_waiting (settle_future f g) ≡ true → is_waiting g ≡ true
settle_future-waiting f waiting h = refl
settle_future-waiting f (result v) h = h
settle_future-waiting f (exception e) h = h

-- A connection that is made serves the requests that were served without one.
connect-IsServed : (c : Client) → c.transport ≡ none → IsServed c → IsServed (connect c)
unfolding connect
connect-IsServed c e w = record {
  heard = (ground (arith, nat_eq_refl (suc c.connections)), refl);
  waiting =
      All-weaken (Served c.transport c.failing) (Served (some (suc c.connections)) c.failing)
        c.requests (λ r s h. sent_over r.transport (s h)) w.waiting;
}
  where
    sent_over :
        (o : Option ℕ)
        → is_served c.transport c.failing o ≡ true
        → is_served (some (suc c.connections)) c.failing o ≡ true
    sent_over none s = refl
    sent_over (some p) s =
        let pending : has p c.failing ≡ true =
          subst (λ t. is_served t c.failing (some p) ≡ true) e s in
        ground (arith, pending)

start_from-IsServed :
    (c : Client) (o : Option ℕ) → c.transport ≡ o → IsServed c → IsServed (start_from c o)
unfolding start_from is_listening
start_from-IsServed c none e w = connect-IsServed c e w
start_from-IsServed c (some p) e w =
    if-cases IsServed (is_listening c c.listener) _ _ (λ _. w)
      (λ silent.
        let heard = subst (λ t. Heard t c.listening c.listener) e w.heard in
        absurd (cc (silent, ap (is_listening c) heard.1, heard.0)))

-- A connection that is lost is none of the client any more, and its requests are to fail.
detach-IsServed :
    (by_listener : Bool) (p : ℕ) (c : Client)
    → (is_process p c.transport ≡ false → Heard c.transport c.listening c.listener)
    → All (Served c.transport c.failing) c.requests
    → IsServed (detach by_listener p c)
unfolding detach
detach-IsServed by_listener p c k w =
    if-cases IsServed (is_process p c.transport) _ _
      (λ is. record {
        heard = _;
        waiting =
            All-weaken (Served c.transport c.failing) (Served none (p ∷ c.failing)) c.requests
              (λ r s h. lost c.transport r.transport is (s h)) w;
      })
      (λ other. record { heard = k other; waiting = w })
  where
    lost :
        (t o : Option ℕ)
        → is_process p t ≡ true
        → is_served t c.failing o ≡ true
        → is_served none (p ∷ c.failing) o ≡ true
    lost t none is s = refl
    lost (some q) (some k) is s = ground (arith, is, s)
    lost none (some k) is s = ground (arith, is)

end_listening-IsServed : (p : ℕ) (c : Client) → IsServed c → IsServed (end_listening p c)
unfolding end_listening
end_listening-IsServed p c w =
    if-cases IsServed (has p c.listening) _ _
      (λ _.
        detach-IsServed true p (record c { listening = without p c.listening })
          (still c.transport w.heard) w.waiting)
      (λ _. w)
  where
    still :
        (t : Option ℕ)
        → Heard t c.listening c.listener
        → is_process p t ≡ false
        → Heard t (without p c.listening) c.listener
    still none h other = _
    still (some q) h other = (ground (arith, has-without p q c.listening, h.0, other), h.1)

-- When the requests of a connection fail, none of them waits any more.
fail_requests-IsServed : (p : ℕ) (c : Client) → IsServed c → IsServed (fail_requests p c)
unfolding fail_requests
fail_requests-IsServed p c w =
    if-cases IsServed (has p c.failing) _ _
      (λ _. record {
        heard = w.heard;
        waiting =
            All-map (Served c.transport c.failing) (Served c.transport (without p c.failing))
              (fail_affected p) c.requests failed w.waiting;
      })
      (λ _. w)
  where
    settled : (e : HostError) (f : Future) → is_waiting (settle_future (exception e) f) ≡ false
    settled e waiting = refl
    settled e (result v) = refl
    settled e (exception d) = refl

    kept :
        (t o : Option ℕ)
        → is_process p o ≡ false
        → is_served t c.failing o ≡ true
        → is_served t (without p c.failing) o ≡ true
    kept t none other s = refl
    kept none (some k) other s = ground (arith, has-without p k c.failing, other, s)
    kept (some q) (some k) other s = ground (arith, has-without p k c.failing, other, s)

    failed :
        (r : Request)
        → Served c.transport c.failing r
        → Served c.transport (without p c.failing) (fail_affected p r)
    failed r s =
        if-cases (Served c.transport (without p c.failing)) (is_process p r.transport) _ _
          (λ _ h. absurd (cc (h, settled (disconnect_error r.indeterminate) r.future)))
          (λ other h. kept c.transport r.transport other (s h))

give-IsServed :
    (p : ℕ) (id : String) (o : Outcome Future) (c : Client) → IsServed c → IsServed (give p id o c)
unfolding give
give-IsServed p id (ok f) c w = record {
  heard = w.heard;
  waiting =
      All-map (Served c.transport c.failing) (Served c.transport c.failing) (set_answer id f)
        c.requests
        (λ r s.
          if-cases (Served c.transport c.failing) (r.id == id) _ _
            (λ _ h. s (settle_future-waiting f r.future h)) (λ _. s))
        w.waiting;
}
give-IsServed p id (raise e) c w = end_listening-IsServed p c w
give-IsServed p id (crash t) c w = end_listening-IsServed p c w

respond_to-IsServed :
    (text_of : Value → String) (p : ℕ) (fs : Fields) (c : Client) (o : Option Request)
    → IsServed c
    → IsServed (respond_to text_of p fs c o)
unfolding respond_to
respond_to-IsServed text_of p fs c none w = w
respond_to-IsServed text_of p fs c (some r) w =
    if-cases IsServed (is_waiting r.future) _ _ (λ _. give-IsServed p r.id _ c w) (λ _. w)

step-IsServed :
    (text_of : Value → String) (e : Event) (c : Client) → IsServed c → IsServed (step text_of e c)
unfolding step start open_request respond
step-IsServed text_of starts c w = start_from-IsServed c c.transport refl w
step-IsServed text_of (opens indeterminate) c w = record {
  heard = w.heard;
  waiting = (λ _. own c.transport, w.waiting);
}
  where
    own : (t : Option ℕ) → is_served t c.failing t ≡ true
    own none = refl
    own (some p) = ground (arith, nat_eq_refl p)
step-IsServed text_of (breaks p) c w = detach-IsServed false p c (λ _. w.heard) w.waiting
step-IsServed text_of (frame p fs) c w =
    if-cases IsServed (has p c.listening) _ _ (λ _. respond_to-IsServed text_of p fs c _ w) (λ _. w)
step-IsServed text_of (stops p) c w = end_listening-IsServed p c w
step-IsServed text_of (fails p) c w = fail_requests-IsServed p c w
step-IsServed text_of (leaves id) c w = record {
  heard = w.heard;
  waiting = All-drop _ id c.requests w.waiting;
}

kept-IsServed :
    (text_of : Value → String) (es : List Event) (c : Client)
    → IsServed c
    → IsServed (run text_of es c)
unfolding run
kept-IsServed text_of [] c w = w
kept-IsServed text_of (e ∷ es) c w =
    kept-IsServed text_of es (step text_of e c) (step-IsServed text_of e c w)

-- In every history of a new client, a request that waits was sent over the connection of the
-- client, or over a lost one whose requests are still to fail, or over none; and while the client
-- has a connection, its listener runs.
pub run-IsServed :
    (text_of : Value → String) (es : List Event) → IsServed (run text_of es new_client)
run-IsServed text_of es = kept-IsServed text_of es new_client (record { heard = _; waiting = _ })

-- ===== src/Client/Fates.antt =====
-- What one event makes of the requests of a client.
use openagent_host_tools.Base.{
  ℕ, String, ◌≡◌, ◌⊎◌, inl, inr, refl, ap, subst, ◌∙◌, Bool, true, false, Option, none, some, List,
  [], ◌∷◌, arith, has, without, Value, str, Fields, Outcome, ok, raise, crash, if-cases, map, All,
  ◌==◌, or_else, eq_iff, sym, if◌then◌else◌, HostError, truthy, null, bool, int, float, arr, obj,
  foreign, end,
}
use openagent_host_tools.Types.{get_value, to_dict}
use openagent_host_tools.Mcp.{
  Future, waiting, result, exception, is_waiting, settle_future, is_process,
}
use openagent_host_tools.Client.{
  Request, Client, is_listening, connect, start_from, start, disconnect_error, detach,
  fail_affected, fail_requests, end_listening, set_answer, request_at, open_request, answer,
  result_answer, error_with, error_answer, give, respond_to, respond,
}
use openagent_host_tools.Client.Steps.{
  Event, starts, opens, breaks, frame, stops, fails, leaves, step, All-weaken, All-map, All-drop,
}

abbrev pub is_result : Future → Bool
is_result (result v) = true
is_result _ = false

-- An outcome that is an answer is a result if the flag is true, and else an error.
abbrev IsAnswer : Bool → Outcome Future → Type 0
IsAnswer b (ok f) = is_result f ≡ b
IsAnswer b _ = Unit {0}

-- What an event makes of a request: the same; the error of a lost connection, if it was waiting and
-- was sent over the connection that is being failed; or what a frame with its id says.
pub data Fate (text_of : Value → String) (e : Event) (r : Request) : Request → Type 0 where
  kept : Fate text_of e r r
  lost :
      (p : ℕ)
      → is_waiting r.future ≡ true
      → e ≡ fails p
      → is_process p r.transport ≡ true
      → (err : HostError)
      → err.code
        ≡ (if r.indeterminate then "CLIENT_RESULT_INDETERMINATE" else "broker_disconnected")
      → Fate text_of e r (record r { future = exception err })
  answered :
      (p : ℕ) (fs : Fields) (f : Future)
      → is_waiting r.future ≡ true
      → e ≡ frame p fs
      → r.id ≡ text_of (or_else (get_value "id" fs) (str ""))
      → is_result f ≡ truthy (get_value "ok" fs)
      → answer text_of fs ≡ ok f
      → Fate text_of e r (record r { future = f })

abbrev pub In : Request → List Request → Type 0
In r [] = ⊥
In r (s ∷ rs) = (r ≡ s) ⊎ In r rs

-- A request was opened by the event, and waits for the connection of the client; or it is what the
-- event makes of an earlier one.
pub data Origin (text_of : Value → String) (e : Event) (c : Client) (r' : Request) : Type 0 where
  opened :
      (indeterminate : Bool)
      → e ≡ opens indeterminate
      → r'.indeterminate ≡ indeterminate
      → r'.transport ≡ c.transport
      → r'.future ≡ waiting
      → Origin text_of e c r'
  earlier : (r : Request) → In r c.requests → Fate text_of e r r' → Origin text_of e c r'

All-In : (rs : List Request) → All (λ r. In r rs) rs
All-In [] = _
All-In (r ∷ rs) =
    (inl refl, All-weaken (λ s. In s rs) (λ s. In s (r ∷ rs)) rs (λ s i. inr i) (All-In rs))

-- A future is settled once.
settle-Fate :
    (text_of : Value → String) (e : Event) (f g : Future) (r : Request)
    → r.future ≡ g
    → (is_waiting r.future ≡ true → Fate text_of e r (record r { future = f }))
    → Fate text_of e r (record r { future = settle_future f g })
settle-Fate text_of e f waiting r h k = k (ap is_waiting h)
settle-Fate text_of e f (result v) r h k =
    subst (λ g. Fate text_of e r (record r { future = g })) h kept
settle-Fate text_of e f (exception x) r h k =
    subst (λ g. Fate text_of e r (record r { future = g })) h kept

request_at-id :
    (id : String) (rs : List Request) (r : Request) → request_at id rs ≡ some r → r.id ≡ id
unfolding request_at
request_at-id id [] r h = absurd (cc h)
request_at-id id (s ∷ rs) r h = ground (arith, h, request_at-id id rs r, eq_iff s.id id)

disconnect_error-code :
    (indeterminate : Bool)
    → (disconnect_error indeterminate).code
      ≡ (if indeterminate then "CLIENT_RESULT_INDETERMINATE" else "broker_disconnected")
unfolding disconnect_error
disconnect_error-code true = refl
disconnect_error-code false = refl

-- An answer is a result just when its frame says ok.
result_answer-IsAnswer : (o : Outcome Fields) → IsAnswer true (result_answer o)
unfolding result_answer
result_answer-IsAnswer (ok fields) = refl
result_answer-IsAnswer (raise e) = tt
result_answer-IsAnswer (crash t) = tt

error_with-IsAnswer :
    (text_of : Value → String) (error : Fields) (o : Outcome Fields)
    → IsAnswer false (error_with text_of error o)
unfolding error_with
error_with-IsAnswer text_of error (ok fields) = refl
error_with-IsAnswer text_of error (raise e) = tt
error_with-IsAnswer text_of error (crash t) = tt

error_answer-IsAnswer :
    (text_of : Value → String) (v : Value) → IsAnswer false (error_answer text_of v)
unfolding error_answer
error_answer-IsAnswer text_of (obj error) = error_with-IsAnswer text_of error _
error_answer-IsAnswer text_of null = tt
error_answer-IsAnswer text_of (bool b) = tt
error_answer-IsAnswer text_of (int z) = tt
error_answer-IsAnswer text_of (float x) = tt
error_answer-IsAnswer text_of (str s) = tt
error_answer-IsAnswer text_of (arr vs) = tt
error_answer-IsAnswer text_of (foreign t) = tt

answer-is_result :
    (text_of : Value → String) (fs : Fields) (f : Future)
    → answer text_of fs ≡ ok f
    → is_result f ≡ truthy (get_value "ok" fs)
unfolding answer
answer-is_result text_of fs f given = subst (IsAnswer (truthy (get_value "ok" fs))) given (
    if-cases (IsAnswer (truthy (get_value "ok" fs))) (truthy (get_value "ok" fs)) _ _
      (λ yes.
        subst
          (λ b. IsAnswer b (result_answer (to_dict (or_else (get_value "result" fs) (obj end)))))
          (sym yes) (result_answer-IsAnswer _))
      (λ no.
        subst (λ b. IsAnswer b (error_answer text_of (or_else (get_value "error" fs) (obj end))))
          (sym no) (error_answer-IsAnswer text_of (or_else (get_value "error" fs) (obj end)))))

module _ (text_of : Value → String) (e : Event) (c : Client) where
  abbrev Origins : Client → Type 0
  Origins d = All (Origin text_of e c) d.requests

  unchanged : Origins c
  unchanged =
      All-weaken (λ r. In r c.requests) (Origin text_of e c) c.requests (λ r i. earlier r i kept)
        (All-In c.requests)

  -- All requests are changed by a function.
  mapped :
      (g : Request → Request)
      → ((r : Request) → Fate text_of e r (g r))
      → All (Origin text_of e c) (map g c.requests)
  mapped g k =
      All-map (λ r. In r c.requests) (Origin text_of e c) g c.requests (λ r i. earlier r i (k r))
        (All-In c.requests)

  detach-Origins :
      (by_listener : Bool) (p : ℕ) (d : Client) → Origins d → Origins (detach by_listener p d)
  unfolding detach
  detach-Origins by_listener p d w =
      if-cases Origins (is_process p d.transport) _ _ (λ _. w) (λ _. w)

  end_listening-Origins : (p : ℕ) → Origins (end_listening p c)
  unfolding end_listening
  end_listening-Origins p =
      if-cases Origins (has p c.listening) _ _
        (λ _. detach-Origins true p (record c { listening = without p c.listening }) unchanged)
        (λ _. unchanged)

  start_from-Origins : (o : Option ℕ) → Origins (start_from c o)
  unfolding start_from connect
  start_from-Origins none = unchanged
  start_from-Origins (some p) =
      if-cases Origins (is_listening c c.listener) _ _ (λ _. unchanged) (λ _. unchanged)

  fail_requests-Origins : (p : ℕ) → e ≡ fails p → Origins (fail_requests p c)
  unfolding fail_requests
  fail_requests-Origins p h =
      if-cases Origins (has p c.failing) _ _
        (λ _. mapped (fail_affected p) λ r.
          if-cases (Fate text_of e r) (is_process p r.transport) _ _
            (λ of_p.
              settle-Fate text_of e _ r.future r refl
                (λ w. lost p w h of_p _ (disconnect_error-code r.indeterminate)))
            (λ _. kept))
        (λ _. unchanged)

  give-Origins :
      (p : ℕ) (fs : Fields) (s : Request) (o : Outcome Future)
      → e ≡ frame p fs
      → s.id ≡ text_of (or_else (get_value "id" fs) (str ""))
      → answer text_of fs ≡ o
      → Origins (give p s.id o c)
  unfolding give
  give-Origins p fs s (ok f) is_frame found a = mapped (set_answer s.id f) λ r.
      if-cases (Fate text_of e r) (r.id == s.id) _ _
        (λ same.
          let same_id : r.id ≡ s.id = ground (arith, same, eq_iff r.id s.id) in
          settle-Fate text_of e f r.future r refl
            (λ w. answered p fs f w is_frame (same_id ∙ found) (answer-is_result text_of fs f a) a))
        (λ _. kept)
  give-Origins p fs s (raise x) is_frame found a = end_listening-Origins p
  give-Origins p fs s (crash t) is_frame found a = end_listening-Origins p

  respond_to-Origins :
      (p : ℕ) (fs : Fields) (o : Option Request)
      → e ≡ frame p fs
      → request_at (text_of (or_else (get_value "id" fs) (str ""))) c.requests ≡ o
      → Origins (respond_to text_of p fs c o)
  unfolding respond_to
  respond_to-Origins p fs none is_frame h = unchanged
  respond_to-Origins p fs (some s) is_frame h =
      if-cases Origins (is_waiting s.future) _ _
        (λ _. give-Origins p fs s _ is_frame (request_at-id _ c.requests s h) refl) (λ _. unchanged)

-- Every request that a client has after an event was opened by it, and waits for the connection of
-- the client; or it was there and is the same; or it was waiting, and fails with its connection: as
-- indeterminate if it may not be repeated, and as disconnected otherwise; or it was waiting, and has
-- what a frame with its id says.
pub step-Origin :
    (text_of : Value → String) (e : Event) (c : Client)
    → All (Origin text_of e c) (step text_of e c).requests
unfolding step start open_request respond
step-Origin text_of starts c = start_from-Origins text_of starts c c.transport
step-Origin text_of (opens indeterminate) c =
    (opened indeterminate refl refl refl refl, unchanged text_of (opens indeterminate) c)
step-Origin text_of (breaks p) c =
    detach-Origins text_of (breaks p) c false p c (unchanged text_of (breaks p) c)
step-Origin text_of (frame p fs) c =
    if-cases (Origins text_of (frame p fs) c) (has p c.listening) _ _
      (λ _. respond_to-Origins text_of (frame p fs) c p fs _ refl refl)
      (λ _. unchanged text_of (frame p fs) c)
step-Origin text_of (stops p) c = end_listening-Origins text_of (stops p) c p
step-Origin text_of (fails p) c = fail_requests-Origins text_of (fails p) c p refl
step-Origin text_of (leaves id) c = All-drop _ id c.requests (unchanged text_of (leaves id) c)

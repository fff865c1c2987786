-- ===== src/Control/Replies.antt =====
-- What a control connection can rely on.
use openagent_host_tools.Base.{
  String, Bool, true, false, not, ◌&&◌, ◌||◌, ◌≡◌, refl, ◌∙◌, if◌then◌else◌, ◌⊎◌, inl, inr, is_some,
  some, if-cases, arith, Value, bool, str, Fields, dict_get, Outcome, ok, raise, crash, ℤ,
}
use openagent_host_tools.Types.{get_value}
use openagent_host_tools.Control.{
  Operations, ControlReply, success, failure, invalid, is_missing, request_id, is_type,
}
use openagent_host_tools.Control.Requests.{answer, reply, dispatch_control}

-- A response frame to a request: its id, and a result, or an error.
abbrev pub IsReply : Fields → ControlReply → Type 0
IsReply q r =
    (dict_get "id" r.frame ≡ some (get_value "id" q))
    × (dict_get "type" r.frame ≡ some (str "response"))
    × ((dict_get "ok" r.frame ≡ some (bool true)) × (is_some (dict_get "result" r.frame) ≡ true)
        ⊎ (dict_get "ok" r.frame ≡ some (bool false)) × (is_some (dict_get "error" r.frame) ≡ true))

-- A test that does not hold, in a chain of tests of which none does.
skip :
    {A : Type 0} (P : A → Type 0) (b rest : Bool) (x y : A)
    → not (b || rest) ≡ true
    → (not rest ≡ true → P y)
    → P (if b then x else y)
skip P true rest x y none holds = cc
skip P false rest x y none holds = holds none

module _ {S : Type 0} (host : Operations S) (text_of_other repr : Value → String)
    (int_of : Value → Outcome ℤ) (message_of : String → String) (q : Fields) where
  abbrev dispatched : S → S × ControlReply
  dispatched s = dispatch_control host text_of_other repr int_of message_of q s

  abbrev has_type : String → Bool
  has_type name = is_type q name

  -- The requests that reach the host.
  abbrev pub is_known : Bool
  is_known =
      has_type "initialize"
      || (has_type "catalog"
          || (has_type "status"
              || (has_type "set_consent"
                  || (has_type "call"
                      || (has_type "cancel"
                          || (has_type "release_principal" || has_type "ack_event"))))))

  abbrev Answers : S × ControlReply → Type 0
  Answers (s, r) = IsReply q r

  reply-IsReply :
      (s : S) (r : Outcome Fields)
      → Answers (reply host text_of_other repr int_of message_of q (s, r))
  unfolding reply success failure request_id dict_get
  reply-IsReply s (ok result) = (refl, refl, inl (refl, refl))
  reply-IsReply s (raise e) = (refl, refl, inr (refl, refl))
  reply-IsReply s (crash t) = (refl, refl, inr (refl, refl))

  abbrev answers : S → S × Outcome Fields
  answers s = answer host text_of_other repr int_of message_of q s

  reply-close :
      (s : S) (r : Outcome Fields)
      → (reply host text_of_other repr int_of message_of q (s, r)).1.close ≡ false
  unfolding reply success failure
  reply-close s (ok result) = refl
  reply-close s (raise e) = refl
  reply-close s (crash t) = refl

  reply-state :
      (s : S) (r : Outcome Fields)
      → (reply host text_of_other repr int_of message_of q (s, r)).0 ≡ s
  unfolding reply
  reply-state s (ok result) = refl
  reply-state s (raise e) = refl
  reply-state s (crash t) = refl

  unknown-answer : (s : S) → not is_known ≡ true → (answers s).0 ≡ s
  unfolding answer
  unknown-answer s unknown = skip Same (has_type "initialize") _ _ _ unknown λ n1.
      skip Same (has_type "catalog") _ _ _ n1 λ n2. skip Same (has_type "status") _ _ _ n2 λ n3.
        skip Same (has_type "set_consent") _ _ _ n3 λ n4. skip Same (has_type "call") _ _ _ n4 λ n5.
          skip Same (has_type "cancel") _ _ _ n5 λ n6.
            skip Same (has_type "release_principal") _ _ _ n6
              λ n7. if-cases Same (has_type "ack_event") _ _ (λ here. cc) (λ _. refl)
    where
      Same : S × Outcome Fields → Type 0
      Same p = p.0 ≡ s

  -- Every request gets one reply, with its id, that is a result or an error, whatever the host does;
  -- the reply closes the connection just when it is to a shutdown request with an id.
  pub dispatch_control-IsReply :
      (s : S)
      → IsReply q (dispatched s).1
        × ((dispatched s).1.close ≡ (not (is_missing (get_value "id" q)) && has_type "shutdown"))
  unfolding dispatch_control success dict_get request_id
  dispatch_control-IsReply s = (
    if-cases Answers (is_missing (get_value "id" q)) _ _
        (λ _. reply-IsReply s (raise (invalid "invalid_request" "id is required")))
        (λ _.
          if-cases Answers (has_type "shutdown") _ _ (λ _. (refl, refl, inl (refl, refl)))
            (λ _. reply-IsReply (answers s).0 (answers s).1)),
    ground (arith, reply-close (answers s).0 (answers s).1),
  )

  -- A request without an id or of no known type does not reach the host.
  pub dispatch_control-refused :
      (s : S) → (is_missing (get_value "id" q) || not is_known) ≡ true → (dispatched s).0 ≡ s
  unfolding dispatch_control answer reply request_id
  dispatch_control-refused s refused =
      if-cases (λ (p : S × ControlReply). p.0 ≡ s) (is_missing (get_value "id" q)) _ _
        (λ _. reply-state s (raise (invalid "invalid_request" "id is required")))
        (λ named.
          if-cases (λ (p : S × ControlReply). p.0 ≡ s) (has_type "shutdown") _ _ (λ _. refl)
            (λ _. reply-state (answers s).0 (answers s).1 ∙ unknown-answer s (rw named at refused)))

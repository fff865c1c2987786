-- ===== src/Host/Settled.antt =====
-- A call from its request to its end.
mod Tests
use openagent_host_tools.Base.{
  subst, ℕ, String, Bool, true, false, not, ◌&&◌, ◌≡◌, ◌≢◌, refl, sym, ◌∙◌, ap, Option, none, some,
  List, if◌then◌else◌, ◌==◌, arith, eq_refl, eq_iff, if-cases, Bool-cases, inl, inr, member,
  member-add_same, Value, null, bool, int, float, str, arr, obj, foreign, Fields, Outcome, ok,
  raise, crash, HostError,
}
use openagent_host_tools.Ledger.Entry.{IsKeyed}
use openagent_host_tools.Lease.Lock.{Lock, store}
use openagent_host_tools.Arguments.{arguments_sha256, fingerprint}
use openagent_host_tools.Types.{ToolResult}
use openagent_host_tools.Host.{Host, Config, Call, Task, effective_key, find}
use openagent_host_tools.Host.Dispatch.{Env, Admitted, Admission, replayed, dispatched}
use openagent_host_tools.Host.Admit.{admit_call}
use openagent_host_tools.Host.Ending.{Ending, is_interrupted, Clock, Deadline, deadline_seconds}
use openagent_host_tools.Host.Finish.{holds_claim, finish}
use openagent_host_tools.Host.Pending.{claims_key, LeavesNothing}
use openagent_host_tools.Host.Nothing.{admit_call-LeavesNothing}
use openagent_host_tools.Host.Granted.{Granted, admit_call-Granted}
use openagent_host_tools.Host.Ended.{is_uncertain}
use openagent_host_tools.Host.Release.{finish_resolves, late_deadline_lem}
use openagent_host_tools.Host.Calling.{
  Request, Principal, is_expected, hash_mismatch, check_hash, check_args, check_principal,
  principal_id, open_call, served, serve,
}

-- A claim that is not held afterwards unless the recording was interrupted.
free :
    (after before interrupted : Bool)
    → interrupted ≡ false
    → (after && not interrupted) ≡ false
    → (after && not before) ≡ false
free after before interrupted whole h = ground (arith, whole, h)

-- A `finally` clause that is not cancelled drops the call from a register.
dropped :
    {V : Type 0} (id : String) (entered certain cancelled : Bool) (o o' : Option V)
    → cancelled ≡ false
    → o ≡ (if id == id && not (entered && certain && cancelled) then none else o')
    → o ≡ none
dropped id entered certain cancelled o o' calm h = ground (arith, h, calm, eq_refl id)

module _ (g : Config) (env : Env) (meanwhile : Host → Host) (clock : Clock) (c : Call) where
  -- This process does not hold the claim of the call afterwards unless it did before, and the call
  -- is not registered.
  abbrev pub Settled : Host → Host → Type 0
  Settled before after =
      ((claims_key g c after && not (claims_key g c before)) ≡ false)
      × (find c.call_id after.active ≡ none)
      × (find c.call_id after.active_principals ≡ none)

  -- In a started host whose ledger has one row for a key and whose lease tables store a lock, a
  -- call that is in no register, has a key and a valid deadline, and is not cancelled while it
  -- awaits its claim or the lease, nor again while it is drained, nor while it leaves the lease,
  -- after a denial or at its end, leaves neither its claim nor a registration behind, whether it is
  -- denied, refused, replayed, crashed, or run to any other ending of its task, whatever the other
  -- coroutines do to the host meanwhile, as long as they keep one row for a key; a claim of the key
  -- that this process holds at the end is one that it held before.
  pub serve-Settled :
      (deadline : Deadline) (timeout : Option ℕ) (ending : Ending) (h : Host) (l : Lock)
      → h.started ≡ true
      → IsKeyed h.ledger_rows
      → h.lease_db ≡ store l
      → find c.call_id h.active ≡ none
      → find c.call_id h.active_principals ≡ none
      → (effective_key c == "") ≡ false
      → ((x : Host) → IsKeyed x.ledger_rows → IsKeyed (meanwhile x).ledger_rows)
      → env.claim_cancelled ≡ false
      → env.enter_cancelled ≡ false
      → env.abort_cancelled ≡ false
      → is_interrupted ending ≡ false
      → clock.leave_cancelled ≡ false
      → deadline_seconds clock.deadline_time deadline ≡ ok timeout
      → Settled h (serve g env meanwhile clock c deadline ending h).0
  unfolding serve
  serve-Settled deadline timeout ending h l started keyed locked fresh fresh_principal has_key keeps
        calm_claim calm_enter calm_abort whole calm_leave timely =
      by_admission (admit_call g env c h).1 refl
    where
      not_run :
          ((a : Admitted) → (admit_call g env c h).1 ≢ ok (dispatched a))
          → Settled h (admit_call g env c h).0
      not_run undispatched =
          let n =
            admit_call-LeavesNothing g c env h l started keyed locked calm_claim calm_enter
              calm_abort undispatched in
          (n.unclaimed, rw n.active fresh, rw n.active_principals fresh_principal)

      run :
          (a : Admitted)
          → (admit_call g env c h).1 ≡ ok (dispatched a)
          → Settled h (finish g clock c a deadline ending (meanwhile (admit_call g env c h).0)).0
      run a admitted =
          let n = admit_call-Granted g c env h l a started keyed locked admitted in
          let during = meanwhile (admit_call g env c h).0 in
          let held : holds_claim g clock c a ≡ true =
            unfold holds_claim in rw (n.claim_taken, has_key) refl in
          let (unclaimed, gone) =
            finish_resolves g clock c a deadline timeout ending (meanwhile (admit_call g env c h).0)
              (keeps (admit_call g env c h).0 n.keyed) (λ e. cc) timely in
          (
            free _ _ _ whole unclaimed,
            dropped c.call_id a.lease_entered (not (is_uncertain g clock c a ending during)) _ _ _
                calm_leave (gone c.call_id).0,
            dropped c.call_id a.lease_entered (not (is_uncertain g clock c a ending during)) _ _ _
                calm_leave (gone c.call_id).1,
          )

      by_admission :
          (r : Outcome Admission)
          → (admit_call g env c h).1 ≡ r
          → Settled h
              (served g env meanwhile clock c deadline ending ((admit_call g env c h).0, r)).0
      by_admission (ok (replayed r)) e = unfold served in not_run (λ a e'. cc)
      by_admission (ok (dispatched a)) e = unfold served in run a e
      by_admission (raise e') e = unfold served in not_run (λ a e''. cc)
      by_admission (crash t) e = unfold served in not_run (λ a e''. cc)

  -- In a started host whose ledger has one row for a key and whose lease tables store a lock, a
  -- call with a key that is dispatched, whose deadline is malformed or has passed, and that is not
  -- cancelled while it leaves the lease, raises the error of the deadline and is registered no longer,
  -- but this process still holds the claim of
  -- its key, if the other coroutines do not take it away meanwhile.
  pub late_deadline-claims_key :
      (deadline : Deadline) (e : HostError) (ending : Ending) (h : Host) (l : Lock) (a : Admitted)
      → h.started ≡ true
      → IsKeyed h.ledger_rows
      → h.lease_db ≡ store l
      → (effective_key c == "") ≡ false
      → (admit_call g env c h).1 ≡ ok (dispatched a)
      → ((x : Host) → claims_key g c x ≡ true → claims_key g c (meanwhile x) ≡ true)
      → clock.leave_cancelled ≡ false
      → deadline_seconds clock.deadline_time deadline ≡ raise e
      → let (after, answer) = serve g env meanwhile clock c deadline ending h in
        (answer ≡ raise e) × (claims_key g c after ≡ true) × (find c.call_id after.active ≡ none)
  unfolding serve
  late_deadline-claims_key deadline e ending h l a started keyed locked has_key admitted keeps calm
        late =
      let n = admit_call-Granted g c env h l a started keyed locked admitted in
      let claimed : claims_key g c (admit_call g env c h).0 ≡ true =
        ground (arith, n.claim, n.claim_taken, has_key) in
      let (answered, rows, gone) =
        late_deadline_lem g clock c a deadline e ending (meanwhile (admit_call g env c h).0) late in
      subst
        (λ r.
          let (after, answer) =
            served g env meanwhile clock c deadline ending ((admit_call g env c h).0, r) in
          (answer ≡ raise e) × (claims_key g c after ≡ true) × (find c.call_id after.active ≡ none))
        (sym admitted)
        (unfold served in
          (
            answered ∙ raised a.lease_entered,
            rw rows (keeps _ claimed),
            dropped c.call_id a.lease_entered (not false) _ _ _ calm (gone c.call_id).0,
          ))
    where
      raised :
          (entered : Bool)
          → ◌≡◌ {A = Outcome ToolResult}
              (if entered && clock.leave_cancelled then crash "CancelledError" else raise e)
              (raise e)
      raised entered = ground (arith, calm)

-- What the first checks of `call` are to do: a call that they let through has a principal, which
-- the host then knows, arguments whose digest is the expected one if there is one, and changes
-- nothing else of the host's calls; a request that they refuse changes nothing.
abbrev pub IsOpened : (Value → String) → Request → Host → Host × Outcome Call → Type 0
IsOpened digest q h (after, ok c) =
    ((c.principal == "") ≡ false)
    × (member c.principal after.principals ≡ true)
    × (q.args ≡ obj c.args)
    × (arguments_sha256 digest c.args ≡ ok c.arguments_sha256)
    × ((d : String) → q.arguments_sha256 ≡ some d → d ≡ c.arguments_sha256)
    × (fingerprint digest q.server q.tool c.args ≡ ok c.fingerprint)
    × (after.active ≡ h.active)
    × (after.ledger_rows ≡ h.ledger_rows)
    × (after.lease_db ≡ h.lease_db)
IsOpened digest q h (after, r) = after ≡ h

expected-same :
    (actual : String) (o : Option String)
    → is_expected actual o ≡ true
    → (d : String) → o ≡ some d
    → d ≡ actual
expected-same actual none h d e = cc
expected-same actual (some x) h d e = ground (arith, h, e, eq_iff x actual)

module _ (dumps : Value → String) (sha256 : String → String) (new_id : String) (q : Request)
    (h : Host) where
  abbrev digest : Value → String
  digest v = sha256 (dumps v)

  check_hash-IsOpened :
      (p : String) (args : Fields) (d f : Outcome String)
      → (p == "") ≡ false
      → q.args ≡ obj args
      → arguments_sha256 digest args ≡ d
      → fingerprint digest q.server q.tool args ≡ f
      → IsOpened digest q h (check_hash dumps sha256 new_id q p args h d f)
  unfolding check_hash
  check_hash-IsOpened p args (ok actual) (ok print) named given hashed printed =
      if-cases (IsOpened digest q h) (is_expected actual q.arguments_sha256) _ _
        (λ expected. (
          named,
          member-add_same p h.principals,
          given,
          hashed,
          expected-same actual q.arguments_sha256 expected,
          printed,
          refl,
          refl,
          refl,
        ))
        (λ _. refl)
  check_hash-IsOpened p args (ok actual) (raise e) named given hashed printed = refl
  check_hash-IsOpened p args (ok actual) (crash t) named given hashed printed = refl
  check_hash-IsOpened p args (raise e) f named given hashed printed = refl
  check_hash-IsOpened p args (crash t) f named given hashed printed = refl

  check_args-IsOpened :
      (p : String) (v : Value)
      → (p == "") ≡ false
      → q.args ≡ v
      → IsOpened digest q h (check_args dumps sha256 new_id q p h v)
  unfolding check_args
  check_args-IsOpened p (obj args) named given =
      check_hash-IsOpened p args _ _ named given refl refl
  check_args-IsOpened p null named given = refl
  check_args-IsOpened p (bool b) named given = refl
  check_args-IsOpened p (int n) named given = refl
  check_args-IsOpened p (float f) named given = refl
  check_args-IsOpened p (str s) named given = refl
  check_args-IsOpened p (arr vs) named given = refl
  check_args-IsOpened p (foreign t) named given = refl

  check_principal-IsOpened :
      (p : Outcome String) → IsOpened digest q h (check_principal dumps sha256 new_id q h p)
  unfolding check_principal
  check_principal-IsOpened (ok p) =
      if-cases (IsOpened digest q h) (p == "") _ _ (λ _. refl)
        (λ named. check_args-IsOpened p q.args named refl)
  check_principal-IsOpened (raise e) = refl
  check_principal-IsOpened (crash t) = refl

  -- A request that passes the first checks has a principal, which the host then knows, and
  -- arguments whose digest is the expected one if one is given; its registered tasks, the ledger
  -- and the lease are as they were. A request that does not pass leaves the whole host as it was.
  pub open_call-IsOpened : IsOpened digest q h (open_call dumps sha256 new_id q h)
  unfolding open_call
  open_call-IsOpened = check_principal-IsOpened (principal_id dumps sha256 new_id q.principal)

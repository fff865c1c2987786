-- ===== src/Shell/Access.antt =====
-- Who can act on a job in the background: only its own principal.
use openagent_host_tools.Base.{
  ℕ, String, ◌≡◌, ◌≢◌, refl, sym, ap, eq_false, ◌∙◌, subst, Bool, true, false, not, Option, none,
  some, List, [], ◌∷◌, arith, if◌then◌else◌, if-cases, ◌==◌, eq_iff, null, bool, str, obj, Fields,
  end, Outcome, ok, raise, crash, Bool-cases, inl, inr, or_else, truthy,
}
use openagent_host_tools.Shell.Arguments.{get_or, require_string, integer_arg}
use openagent_host_tools.Shell.Jobs.{
  Job, Jobs, owner_mismatch, found_job, get_job, put_job, is_foreign, admit_job, job_of, read_job,
  with_ok,
}
use openagent_host_tools.Shell.Tools.{
  Runtime, optional_text, compiled, shell_output, shell_input, shell_kill, is_env, delivered,
  signalled, is_signal,
}
use openagent_host_tools.Shell.Server.{shell_exec, exec_background, started, entered, call}

get_job-put_job :
    (id j : String) (job : Job) (jobs : Jobs)
    → get_job j (put_job id job jobs) ≡ (if id == j then some job else get_job j jobs)
unfolding get_job put_job
get_job-put_job id j job [] = refl
get_job-put_job id j job ((k, old) ∷ jobs) =
    ground (arith, get_job-put_job id j job jobs, eq_iff k id, eq_iff k j, eq_iff id j)

module _ (s : String) (jobs : Jobs) where
  -- The job at an id is the one that it was.
  abbrev Keeps : Jobs × Outcome Fields → Type 0
  Keeps (after, r) = get_job s after ≡ get_job s jobs

  with_ok-Keeps :
      {A : Type 0} (after : Jobs) (k : A → Jobs × Outcome Fields) (o : Outcome A)
      → get_job s after ≡ get_job s jobs
      → ((a : A) → o ≡ ok a → Keeps (k a))
      → Keeps (with_ok after k o)
  with_ok-Keeps after k (ok a) h c = c a refl
  with_ok-Keeps after k (raise e) h c = h
  with_ok-Keeps after k (crash t) h c = h

  put-Keeps :
      (id : String) (job : Job)
      → (id == s) ≡ false
      → get_job s (put_job id job jobs) ≡ get_job s jobs
  put-Keeps id job other = ground (arith, get_job-put_job id s job jobs, other)

  module _ (r : Runtime) (p q : String) (theirs : Job) (args : Fields)
      (at : get_job s jobs ≡ some theirs) (owner : theirs.principal ≡ some q)
      (foreign : p ≢ q) where
    refused : job_of r.repr (some p) s jobs ≡ raise owner_mismatch
    unfolding job_of found_job admit_job
    refused =
        ap (found_job r.repr (some p) s) at
        ∙ ap (λ o. if is_foreign o p then raise owner_mismatch else ok theirs) owner
        ∙ ap (λ b. if not b then raise owner_mismatch else ok theirs)
            (eq_false q p (λ e. foreign (sym e)))

    -- What a principal is admitted to is at another id.
    admitted_elsewhere :
        (id : String) (job : Job) → job_of r.repr (some p) id jobs ≡ ok job → (id == s) ≡ false
    admitted_elsewhere id job h = elim (Bool-cases (id == s)) [
      | inl e ↦
          let same : id ≡ s = ground (arith, eq_iff id s, e) in
          absurd (cc (refused, subst (λ i. job_of r.repr (some p) i jobs ≡ ok job) same h))
      | inr e ↦ e
    ]

    -- A change of the job that a principal is admitted to.
    admitted-Keeps :
        (id : String) (k : Job → Jobs × Outcome Fields)
        → ((job : Job) → (id == s) ≡ false → Keeps (k job))
        → Keeps (with_ok jobs k (job_of r.repr (some p) id jobs))
    admitted-Keeps id k c =
        with_ok-Keeps jobs k (job_of r.repr (some p) id jobs) refl
          (λ job h. c job (admitted_elsewhere id job h))

    delivered-Keeps :
        (got : Job × (List ℕ × List ℕ)) (after : Jobs)
        → get_job s after ≡ get_job s jobs
        → Keeps (delivered r (some p) args got after)
    unfolding delivered
    delivered-Keeps got after h =
        with_ok-Keeps after _ (optional_text "filter" (get_or null "filter" args)) h
          (λ pattern _. with_ok-Keeps after _ (compiled r (some p) args pattern) h (λ search _. h))

    signalled-Keeps :
        (signal id : String) (job : Job)
        → (id == s) ≡ false
        → Keeps (signalled r (some p) args signal id job jobs)
    unfolding signalled
    signalled-Keeps signal id job other =
        if-cases Keeps (is_signal r (some p) args signal) _ _ (λ _. put-Keeps id _ other)
          (λ _. refl)

    output-Keeps : Keeps (shell_output r (some p) args jobs)
    unfolding shell_output
    output-Keeps = with_ok-Keeps jobs _ (require_string args "shell_id" false) refl (λ id h.
        admitted-Keeps id _ (λ job other.
          delivered-Keeps (read_job (truthy (get_or (bool true) "since_last" args)) job) _
            (put-Keeps id _ other)))

    input-Keeps : Keeps (shell_input r (some p) args jobs)
    unfolding shell_input
    input-Keeps = with_ok-Keeps jobs _ (require_string args "shell_id" false) refl (λ id h.
        admitted-Keeps id _ (λ job other.
          with_ok-Keeps jobs _ (require_string args "text" true) refl
            (λ text t. if-cases Keeps job.is_running _ _ (λ _. put-Keeps id _ other) (λ _. refl))))

    kill-Keeps : Keeps (shell_kill r (some p) args jobs)
    unfolding shell_kill
    kill-Keeps = with_ok-Keeps jobs _ (require_string args "shell_id" false) refl (λ id h.
        admitted-Keeps id _ (λ job other.
          signalled-Keeps (r.upper (r.text_of (get_or (str "TERM") "signal" args))) id job other))

    entered-Keeps :
        (id : String) (job : Job) → (id == s) ≡ false → Keeps (entered r (some p) args id job jobs)
    unfolding entered
    entered-Keeps id job other = put-Keeps id job other

    started-Keeps :
        (id : String) (job : Job) (stdin : Option String) (alive : Bool)
        → (id == s) ≡ false
        → Keeps (started r (some p) args id job stdin jobs alive)
    unfolding started
    started-Keeps id job none alive other = entered-Keeps id job other
    started-Keeps id job (some text) alive other =
        if-cases Keeps (text == "") _ _ (λ _. entered-Keeps id job other)
          (λ _.
            if-cases Keeps alive _ _ (λ _. entered-Keeps id _ other) (λ _. put-Keeps id job other))

    background-Keeps :
        (id command : String) (stdin : Option String)
        → (id == s) ≡ false
        → Keeps (exec_background r (some p) args id command stdin jobs)
    unfolding exec_background
    background-Keeps id command stdin other =
        with_ok-Keeps jobs _ (optional_text "description" (get_or null "description" args)) refl
          (λ description _.
            with_ok-Keeps jobs _ (r.start command) refl
              (λ alive _. started-Keeps id _ stdin alive other))

    exec-Keeps : (id : String) → (id == s) ≡ false → Keeps (shell_exec r (some p) args id jobs)
    unfolding shell_exec
    exec-Keeps id other =
        with_ok-Keeps jobs _ (require_string args "command" false) refl (λ command _.
          with_ok-Keeps jobs _ (r.resolve (get_or null "cwd" args)) refl (λ cwd _.
            if-cases Keeps (is_env (or_else (get_or null "env" args) (obj end))) _ _
              (λ _.
                with_ok-Keeps jobs _ (integer_arg r.text_of_number "timeout" 1 1800000 args 120000)
                  refl
                  (λ timeout _.
                    with_ok-Keeps jobs _ (optional_text "stdin" (get_or null "stdin" args)) refl
                      (λ stdin _.
                        if-cases Keeps (truthy (get_or (bool false) "run_in_background" args)) _ _
                          (λ _. background-Keeps id command stdin other) (λ _. refl))))
              (λ _. refl)))

    -- Whatever tool a principal calls with whatever arguments, the background job of another
    -- principal stays as it was, if a shell that is started has another id.
    pub call-Keeps :
        (tool id : String)
        → id ≢ s
        → get_job s (call r (some p) args tool id jobs).0 ≡ get_job s jobs
    unfolding call
    call-Keeps tool id new =
        if-cases Keeps (tool == "shell_exec") _ _ (λ _. exec-Keeps id (eq_false id s new))
          (λ _.
            if-cases Keeps (tool == "shell_output") _ _ (λ _. output-Keeps)
              (λ _.
                if-cases Keeps (tool == "shell_input") _ _ (λ _. input-Keeps)
                  (λ _.
                    if-cases Keeps (tool == "shell_kill") _ _ (λ _. kill-Keeps)
                      (λ _.
                        if-cases Keeps (tool == "shell_list") _ _ (λ _. refl)
                          (λ _.
                            if-cases Keeps (tool == "shell_which") _ _ (λ _. refl) (λ _. refl))))))

    -- A call that reads, feeds or ends the background job of another principal is refused, and
    -- changes nothing.
    pub call-refused :
        (id : String)
        → require_string args "shell_id" false ≡ ok s
        → (call r (some p) args "shell_output" id jobs ≡ (jobs, raise owner_mismatch))
          × (call r (some p) args "shell_input" id jobs ≡ (jobs, raise owner_mismatch))
          × (call r (some p) args "shell_kill" id jobs ≡ (jobs, raise owner_mismatch))
    unfolding call shell_output shell_input shell_kill
    call-refused id h = (rw (h, refused) refl, rw (h, refused) refl, rw (h, refused) refl)

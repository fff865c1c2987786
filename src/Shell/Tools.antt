-- ===== src/Shell/Tools.antt =====
-- The tools of `ShellServer` (src/openagent_host_tools/builtins/shell.py), over the jobs in the
-- background, for the principal that calls.
use Prim.Native.String.{◌++◌ as text_append}
use openagent_host_tools.Base.{
  ℕ, String, Bool, true, false, not, ◌&&◌, ◌||◌, ◌⊎◌, inl, inr, Option, none, some, List, [], ◌∷◌,
  if◌then◌else◌, ◌==◌, pos, Value, null, bool, int, str, obj, Fields, end, field, truthy, or_else,
  HostError, Outcome, ok, raise,
}
use openagent_host_tools.Shell.Arguments.{invalid_arguments, get_or, require_string}
use openagent_host_tools.Shell.Jobs.{
  Job, Jobs, put_job, job_of, read_job, text_or_null, output_result, with_ok,
}

-- What the tools use of the standard library, and of the process of a job: `compile` gives
-- the error of a pattern or its search; `start` is the start of a process, whose errors become
-- `shell_error`, and whether it still runs when its stdin is written; `run` is a run in the foreground;
-- `kill` is what a signal and the end of the job's reader do to the job.
pub record Runtime : Type 0 where
  pub repr : String → String
  pub text_of : Value → String
  pub text_of_number : ℕ → String
  pub upper : String → String
  pub ends_with_newline : String → Bool
  pub utf8_length : String → ℕ
  pub decode : List ℕ → String
  pub compile : String → String ⊎ (String → Bool)
  pub splitlines : String → List String
  pub which : String → Option String
  pub resolve : Value → Outcome String
  pub start : String → Outcome Bool
  pub run : String → ℕ → Option String → Outcome Fields
  pub kill : String → Job → Job
  pub now : ℕ

unfoldable pub join_lines : List String → String
join_lines [] = ""
join_lines (l ∷ []) = l
join_lines (l ∷ m ∷ ls) = text_append l (text_append "\n" (join_lines (m ∷ ls)))

unfoldable pub select : (String → Bool) → List String → List String
select p [] = []
select p (l ∷ ls) = let rest = select p ls in if p l then l ∷ rest else rest

-- `isinstance(env, dict)` with texts only
unfoldable pub are_texts : Fields → Bool
are_texts end = true
are_texts (field k (str s) fs) = are_texts fs
are_texts (field k v fs) = false

unfoldable pub is_env : Value → Bool
unfolding are_texts
is_env (obj fs) = are_texts fs
is_env v = false

-- A text, or None: an argument that may be left out.
unfoldable pub optional_text : String → Value → Outcome (Option String)
unfolding invalid_arguments
optional_text name null = ok none
optional_text name (str s) = ok (some s)
optional_text name v = raise (invalid_arguments (text_append name " must be a string"))

abbrev pub is_empty_text : Option String → Bool
is_empty_text none = true
is_empty_text (some s) = s == ""

module _ (r : Runtime) (principal : Option String) (args : Fields) where
  -- The lines of a delta that the filter finds.
  abbrev filtered : Option (String → Bool) → String → String
  filtered none delta = delta
  filtered (some search) delta = join_lines (select search (r.splitlines delta))

  unfoldable pub output_by : Option (String → Bool) → Job × (List ℕ × List ℕ) → Fields
  unfolding output_result join_lines select
  output_by search (job, (out, err)) =
      output_result (filtered search (r.decode out)) (filtered search (r.decode err)) job

  unfoldable pub compiled : Option String → Outcome (Option (String → Bool))
  unfolding invalid_arguments
  compiled none = ok none
  compiled (some pattern) = elim (r.compile pattern) [
    | inl error ↦ raise (invalid_arguments (text_append "invalid filter regex: " error))
    | inr search ↦ ok (some search)
  ]

  -- The rest of `shell_output` once the cursors of the job have moved.
  unfoldable pub delivered : Job × (List ℕ × List ℕ) → Jobs → Jobs × Outcome Fields
  unfolding optional_text compiled output_by get_or
  delivered got jobs =
      with_ok jobs
        (λ (pattern : Option String).
          with_ok jobs (λ search. (jobs, ok (output_by search got))) (compiled pattern))
        (optional_text "filter" (get_or null "filter" args))

  unfoldable pub shell_output : Jobs → Jobs × Outcome Fields
  unfolding require_string get_or job_of read_job put_job delivered truthy
  shell_output jobs =
      with_ok jobs
        (λ (id : String).
          with_ok jobs
            (λ (job : Job).
              let got = read_job (truthy (get_or (bool true) "since_last" args)) job in
              delivered got (put_job id got.0 jobs))
            (job_of r.repr principal id jobs))
        (require_string args "shell_id" false)

  -- What `write_stdin` writes.
  abbrev payload : String → String
  payload text =
      if truthy (get_or (bool true) "press_enter" args) && not (r.ends_with_newline text)
      then text_append text "\n"
      else text

  unfoldable pub not_running : String → HostError
  not_running id = record {
    code = "shell_not_running";
    message = text_append "shell " (text_append id " is not running");
    details = end;
  }

  unfoldable pub shell_input : Jobs → Jobs × Outcome Fields
  unfolding require_string job_of put_job not_running get_or truthy
  shell_input jobs =
      with_ok jobs
        (λ (id : String).
          with_ok jobs
            (λ (job : Job).
              with_ok jobs
                (λ (text : String).
                  if job.is_running
                  then (
                    put_job id (record job { stdin = payload text ∷ job.stdin }) jobs,
                    ok (field "bytes_written" (int (pos (r.utf8_length (payload text)))) end),
                  )
                  else (jobs, raise (not_running job.shell_id)))
                (require_string args "text" true))
            (job_of r.repr principal id jobs))
        (require_string args "shell_id" false)

  abbrev pub is_signal : String → Bool
  is_signal s = s == "TERM" || s == "INT" || s == "KILL"

  abbrev killed : String → Job → Job
  killed signal job = if job.is_running then r.kill signal job else job

  unfoldable pub kill_result : String → Job → Fields
  kill_result signal job = field "killed" (bool true) (
      field "exit_code" job.exit_code
        (field "signal" (or_else (text_or_null job.signal) (str signal)) end))

  unfoldable pub signalled : String → String → Job → Jobs → Jobs × Outcome Fields
  unfolding put_job kill_result invalid_arguments
  signalled signal id job jobs =
      if is_signal signal
      then (put_job id (killed signal job) jobs, ok (kill_result signal (killed signal job)))
      else (jobs, raise (invalid_arguments (text_append "unsupported signal: " signal)))

  unfoldable pub shell_kill : Jobs → Jobs × Outcome Fields
  unfolding require_string job_of get_or signalled
  shell_kill jobs =
      with_ok jobs
        (λ (id : String).
          with_ok jobs
            (λ (job : Job).
              signalled (r.upper (r.text_of (get_or (str "TERM") "signal" args))) id job jobs)
            (job_of r.repr principal id jobs))
        (require_string args "shell_id" false)

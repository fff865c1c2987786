-- ===== src/Shell/Server.antt =====
-- The rest of `ShellServer` (src/openagent_host_tools/builtins/shell.py): the start of a command, the
-- list of the jobs, `shell_which`, and the release of a principal. Times are whole milliseconds of
-- natural numbers.
use Prim.Native.String.{◌++◌ as text_append}
use Prim.Native.Char.{code}
use openagent_host_tools.Base.{
  ℕ, zero, ◌-◌, String, Bool, true, false, ◌||◌, nat_eq, Option, none, some, is_some, List, [], ◌∷◌,
  if◌then◌else◌, ◌==◌, pos, Value, null, bool, int, str, arr, obj, Items, nil, cons, Fields, end,
  field, truthy, or_else, HostError, Outcome, ok, raise, crash,
}
use openagent_host_tools.Shell.{init}
use openagent_host_tools.Shell.Arguments.{invalid_arguments, get_or, require_string, integer_arg}
use openagent_host_tools.Shell.Jobs.{
  Job, Jobs, put_job, pop_job, is_owned, account_required, text_or_null, with_ok,
}
use openagent_host_tools.Shell.Tools.{
  Runtime, is_env, optional_text, shell_output, shell_input, shell_kill,
}

unfoldable pub has_separator : String → Bool
has_separator String.[] = false
has_separator (String.◌∷◌ ch s) = (nat_eq (code ch) 47 || nat_eq (code ch) 92) || has_separator s

-- `killed` is a job that a signal ended, `completed` one that ended by itself.
abbrev pub state_of : Job → String
state_of job =
    if job.is_running then "running" else if is_some job.signal then "killed" else "completed"

abbrev pub or_time : Option ℕ → ℕ → ℕ
or_time none now = now
or_time (some zero) now = now
or_time (some t) now = t

unfoldable pub listed : ℕ → Job → Value
listed now job = obj (
    field "shell_id" (str job.shell_id) (
      field "command" (str job.command) (
        field "state" (str (state_of job)) (
          field "started_at" (int (pos job.started_at)) (
            field "runtime_ms"
              (int (pos (or_time job.completed_at now - or_time (some job.started_at) now)))
              (field "stdout_bytes" (int (pos job.streams.stdout.total)) (
                field "stderr_bytes" (int (pos job.streams.stderr.total))
                  (field "exit_code" job.exit_code (field "session_id" null end)))))))))

-- The jobs of a principal, in the order of the dictionary.
unfoldable pub jobs_of : String → Jobs → List Job
jobs_of principal [] = []
jobs_of principal ((id, job) ∷ jobs) =
    let rest = jobs_of principal jobs in if is_owned principal job then job ∷ rest else rest

unfoldable pub items_of : ℕ → List Job → Items
unfolding listed
items_of now [] = nil
items_of now (job ∷ jobs) = cons (listed now job) (items_of now jobs)

-- `release_principal` after the jobs have been stopped, whose ending nobody can read any more.
unfoldable pub pop_jobs : List Job → Jobs → Jobs
unfolding pop_job
pop_jobs [] jobs = jobs
pop_jobs (job ∷ stopped) jobs = pop_jobs stopped (pop_job job.shell_id jobs)

unfoldable pub release_principal : String → Jobs → Jobs
unfolding jobs_of pop_jobs
release_principal principal jobs = pop_jobs (jobs_of principal jobs) jobs

module _ (r : Runtime) (principal : Option String) (args : Fields) where
  unfoldable pub shell_list : Jobs → Outcome Fields
  unfolding optional_text get_or account_required jobs_of items_of
  shell_list jobs = elim (optional_text "session_id" (get_or null "session_id" args)) [
    | raise e ↦ raise e
    | crash t ↦ crash t
    | ok _ ↦ elim principal [
      | none ↦ raise (account_required "listing")
      | some p ↦ ok (field "shells" (arr (items_of r.now (jobs_of p jobs))) end)
    ]
  ]

  unfoldable pub shell_which : Outcome Fields
  unfolding require_string has_separator invalid_arguments
  shell_which = elim (require_string args "command" false) [
    | raise e ↦ raise e
    | crash t ↦ crash t
    | ok command ↦
        if has_separator command
        then raise (invalid_arguments "command must be a bare program name (no path separator)")
        else elim (r.which command) [
          | none ↦ ok (field "available" (bool false) end)
          | some path ↦ ok (
              field "available" (bool true)
                (if path == "" then end else field "path" (str path) end))
        ]
  ]

  abbrev new_job : String → String → Value → Job
  new_job id command description = record {
    shell_id = id;
    command = command;
    principal = principal;
    description = description;
    streams = init;
    stdout_cursor = 0;
    stderr_cursor = 0;
    is_running = true;
    exit_code = null;
    signal = none;
    stdin = [];
    started_at = r.now;
    completed_at = none;
  }

  unfoldable pub entered : String → Job → Jobs → Jobs × Outcome Fields
  unfolding put_job
  entered id job jobs = (
    put_job id job jobs,
    ok (
        field "shell_id" (str id) (
          field "started_at" (int (pos job.started_at)) (field "description" job.description end))),
  )

  -- The rest of a start in the background once the process runs: the text for its stdin is written
  -- if it still does.
  unfoldable pub started : String → Job → Option String → Jobs → Bool → Jobs × Outcome Fields
  unfolding put_job entered
  started id job none jobs alive = entered id job jobs
  started id job (some text) jobs alive =
      if text == ""
      then entered id job jobs
      else if alive
      then entered id (record job { stdin = text ∷ [] }) jobs
      else (put_job id job jobs, crash "RuntimeError")

  unfoldable pub exec_background : String → String → Option String → Jobs → Jobs × Outcome Fields
  unfolding optional_text get_or started
  exec_background id command stdin jobs =
      with_ok jobs
        (λ description.
          with_ok jobs
            (λ alive. started id (new_job id command (text_or_null description)) stdin jobs alive)
            (r.start command))
        (optional_text "description" (get_or null "description" args))

  unfoldable pub invalid_env : HostError
  unfolding invalid_arguments
  invalid_env = invalid_arguments "env must be an object of string values"

  -- `shell_exec`, where `id` is the new id of the shell.
  unfoldable pub shell_exec : String → Jobs → Jobs × Outcome Fields
  unfolding require_string is_env invalid_env integer_arg optional_text get_or truthy
      exec_background
  shell_exec id jobs =
      with_ok jobs
        (λ (command : String).
          with_ok jobs
            (λ (cwd : String).
              if is_env (or_else (get_or null "env" args) (obj end))
              then with_ok jobs
                  (λ (timeout : ℕ).
                    with_ok jobs
                      (λ (stdin : Option String).
                        if truthy (get_or (bool false) "run_in_background" args)
                        then exec_background id command stdin jobs
                        else (jobs, r.run command timeout stdin))
                      (optional_text "stdin" (get_or null "stdin" args)))
                  (integer_arg r.text_of_number "timeout" 1 1800000 args 120000)
              else (jobs, raise invalid_env))
            (r.resolve (get_or null "cwd" args)))
        (require_string args "command" false)

  unfoldable pub tool_not_found : String → HostError
  tool_not_found tool = record {
    code = "tool_not_found";
    message = text_append "shell has no tool " (r.repr tool);
    details = end;
  }

  -- `call`
  unfoldable pub call : String → String → Jobs → Jobs × Outcome Fields
  unfolding shell_exec shell_output shell_input shell_kill shell_list shell_which tool_not_found
  call tool id jobs =
      if tool == "shell_exec"
      then shell_exec id jobs
      else if tool == "shell_output"
      then shell_output r principal args jobs
      else if tool == "shell_input"
      then shell_input r principal args jobs
      else if tool == "shell_kill"
      then shell_kill r principal args jobs
      else if tool == "shell_list"
      then (jobs, shell_list jobs)
      else if tool == "shell_which"
      then (jobs, shell_which)
      else (jobs, raise (tool_not_found tool))

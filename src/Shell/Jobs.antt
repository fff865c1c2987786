-- ===== src/Shell/Jobs.antt =====
-- The background jobs of `ShellServer` (src/openagent_host_tools/builtins/shell.py). The process of
-- a job is seen by its output, its ending and what was written to its stdin; a signal is the argument
-- `kill`. A result is the value that `json_result` wraps.
use Prim.Native.String.{◌++◌ as text_append}
use openagent_host_tools.Base.{
  ℕ, String, Bool, false, not, Option, none, some, List, [], ◌∷◌, ltb, if◌then◌else◌, ◌==◌, pos,
  Value, null, bool, int, str, Fields, end, field, HostError, Outcome, ok, raise, crash,
}
use openagent_host_tools.Shell.{Streams, read}

-- `_Background` with its `BackgroundShell`.
pub record Job : Type 0 where
  pub shell_id : String
  pub command : String
  pub principal : Option String
  pub description : Value
  pub streams : Streams
  pub stdout_cursor : ℕ
  pub stderr_cursor : ℕ
  pub is_running : Bool
  pub exit_code : Value
  pub signal : Option String
  pub stdin : List String
  pub started_at : ℕ
  pub completed_at : Option ℕ

abbrev pub Jobs : Type 0
Jobs = List (String × Job)

-- `self._background.get`, `self._background[shell_id] = job` and `self._background.pop`.
unfoldable pub get_job : String → Jobs → Option Job
get_job id [] = none
get_job id ((j, job) ∷ jobs) = let rest = get_job id jobs in if j == id then some job else rest

unfoldable pub put_job : String → Job → Jobs → Jobs
put_job id job [] = (id, job) ∷ []
put_job id job ((j, old) ∷ jobs) =
    let rest = put_job id job jobs in if j == id then (j, job) ∷ jobs else (j, old) ∷ rest

unfoldable pub pop_job : String → Jobs → Jobs
pop_job id [] = []
pop_job id ((j, job) ∷ jobs) =
    let rest = pop_job id jobs in if j == id then rest else (j, job) ∷ rest

-- `job.principal is not None and job.principal != principal`
abbrev pub is_foreign : Option String → String → Bool
is_foreign none principal = false
is_foreign (some owner) principal = not (owner == principal)

abbrev pub is_owned : String → Job → Bool
is_owned principal job = elim job.principal [ none ↦ false | some owner ↦ owner == principal ]

unfoldable pub owner_mismatch : HostError
owner_mismatch = record {
  code = "resource_owner_mismatch";
  message = "background shell belongs to a different local client account";
  details = end;
}

unfoldable pub account_required : String → HostError
account_required what = record {
  code = "account_context_required";
  message =
      text_append "background shell " (text_append what " requires a local account principal");
  details = end;
}

-- `_job`; the principal is that of the call.
module _ (repr : String → String) where
  unfoldable pub not_found : String → HostError
  not_found id = record {
    code = "shell_not_found";
    message = text_append "unknown shell id " (repr id);
    details = end;
  }

  unfoldable pub admit_job : Option String → Job → Outcome Job
  unfolding account_required owner_mismatch
  admit_job none job = raise (account_required "access")
  admit_job (some principal) job =
      if is_foreign job.principal principal then raise owner_mismatch else ok job

  unfoldable pub found_job : Option String → String → Option Job → Outcome Job
  unfolding not_found admit_job
  found_job principal id none = raise (not_found id)
  found_job principal id (some job) = admit_job principal job

  unfoldable pub job_of : Option String → String → Jobs → Outcome Job
  unfolding get_job found_job
  job_of principal id jobs = found_job principal id (get_job id jobs)

-- The bytes that a read gives since the last one, or from the start, and the job once it is read;
-- `shell_output` decodes those of each stream by themselves.
unfoldable pub read_job : Bool → Job → Job × (List ℕ × List ℕ)
unfolding read
read_job since_last job =
    if since_last
    then (
      record job {
        stdout_cursor = job.streams.stdout.total;
        stderr_cursor = job.streams.stderr.total;
      },
      read job.stdout_cursor job.stderr_cursor job.streams,
    )
    else (job, read 0 0 job.streams)

abbrev pub text_or_null : Option String → Value
text_or_null none = null
text_or_null (some s) = str s

unfoldable pub output_result : String → String → Job → Fields
output_result stdout_delta stderr_delta job = field "stdout_delta" (str stdout_delta) (
    field "stderr_delta" (str stderr_delta) (
      field "still_running" (bool job.is_running) (
        field "exit_code" job.exit_code (
          field "signal" (text_or_null job.signal) (
            field "stdout_bytes_total" (int (pos job.streams.stdout.total)) (
              field "stderr_bytes_total" (int (pos job.streams.stderr.total)) (
                field "truncated_stdout" (bool (ltb 0 job.streams.stdout.dropped))
                  (field "truncated_stderr" (bool (ltb 0 job.streams.stderr.dropped)) end))))))))

-- Continue with a value, or end with the error and the jobs as they are.
abbrev pub with_ok : {A B : Type 0} → Jobs → (A → Jobs × Outcome B) → Outcome A → Jobs × Outcome B
with_ok jobs k (ok a) = k a
with_ok jobs k (raise e) = (jobs, raise e)
with_ok jobs k (crash t) = (jobs, crash t)

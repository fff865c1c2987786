-- ===== src/Shell/Scenes.antt =====
-- Two principals with jobs in the background.
use Prim.Native.Char.{Char}
use Prim.Native.String.{◌++◌ as text_append}
use Prim.Native.String.append as append_text
use openagent_host_tools.Base.{
  ◌++◌, ap, sym, ◌∙◌, nat_eq, ℕ, String, ◌≡◌, refl, inl, inr, Bool, true, false, if◌then◌else◌,
  none, some, List, [], ◌∷◌, arith, ◌==◌, eq_iff, null, str, Fields, end, field, ok, raise,
}
use openagent_host_tools.Shell.{init, append}
use openagent_host_tools.Shell.Arguments.{require_string, invalid_arguments}
use openagent_host_tools.Shell.Jobs.{Job, Jobs, get_job}
use openagent_host_tools.Shell.Tools.{Runtime}
use openagent_host_tools.Shell.Server.{call, release_principal}
use openagent_host_tools.Shell.Access.{call-Keeps}
use openagent_host_tools.Shell.Deltas.{IsRead, read_texts, read_texts-written}

abbrev runtime : Runtime
runtime = record {
  repr = λ s. s;
  text_of = λ v. elim v [ str s ↦ s | _ ↦ "?" ];
  text_of_number = λ n. "n";
  upper = λ s. s;
  ends_with_newline = λ s. false;
  utf8_length = λ s. 1;
  decode = λ bytes. elim bytes [ [] ↦ "" | _ ∷ _ ↦ "text" ];
  compile = λ s. if s == "(" then inl "missing )" else inr (λ l. true);
  splitlines = λ s. s ∷ [];
  which = λ s. none;
  resolve = λ v. ok "/";
  start = λ s. ok true;
  run = λ s t i. ok end;
  kill = λ s job. record job { is_running = false; signal = some s };
  now = 1000;
}

abbrev job : String → String → Job
job id principal = record {
  shell_id = id;
  command = "make";
  principal = some principal;
  description = null;
  streams = append (104 ∷ 105 ∷ []) false init;
  stdout_cursor = 0;
  stderr_cursor = 0;
  is_running = true;
  exit_code = null;
  signal = none;
  stdin = [];
  started_at = 900;
  completed_at = none;
}

abbrev jobs : Jobs
jobs = ("sh_a", job "sh_a" "ann") ∷ ("sh_b", job "sh_b" "bob") ∷ []

abbrev killing : Fields
killing = field "shell_id" (str "sh_b") end

-- Bob ends his job.
call-own :
    get_job "sh_b" (call runtime (some "bob") killing "shell_kill" "sh_c" jobs).0
    ≡ some (record (job "sh_b" "bob") { is_running = false; signal = some "TERM" })
unfolding call get_job append
call-own = refl

bob : get_job "sh_b" jobs ≡ some (job "sh_b" "bob")
unfolding get_job
bob = refl

call-Keeps_example :
    get_job "sh_b" (call runtime (some "ann") killing "shell_kill" "sh_c" jobs).0
    ≡ get_job "sh_b" jobs
call-Keeps_example =
    call-Keeps "sh_b" jobs runtime "ann" "bob" (job "sh_b" "bob") killing bob refl
      (λ e. ground (arith, eq_iff "ann" "bob", e)) "shell_kill" "sh_c"
      (λ e. ground (arith, eq_iff "sh_c" "sh_b", e))

killing_lem : require_string killing "shell_id" false ≡ ok "sh_b"
unfolding require_string
killing_lem = refl

release_principal_lem : release_principal "ann" jobs ≡ ("sh_b", job "sh_b" "bob") ∷ []
unfolding release_principal append
release_principal_lem = refl

-- A read whose filter is no regular expression fails, and the next read is empty.
abbrev filtering : Fields
filtering = field "shell_id" (str "sh_b") (field "filter" (str "(") end)

call-lost : call runtime (some "bob") filtering "shell_output" "sh_c" jobs ≡ (
  ("sh_a", job "sh_a" "ann") ∷ ("sh_b", record (job "sh_b" "bob") { stdout_cursor = 2 }) ∷ [],
  raise (invalid_arguments "invalid filter regex: missing )"),
)
unfolding call append
call-lost = refl

-- A new job writes twice, and is read after each.
abbrev rounds : List (List (List ℕ × Bool))
rounds = ((104 ∷ [], false) ∷ (33 ∷ [], true) ∷ []) ∷ ((105 ∷ [], false) ∷ []) ∷ []

abbrev new_job : Job
new_job = record (job "sh_d" "ann") { streams = init }

new_job-IsRead : IsRead [] [] new_job
new_job-IsRead = record {
  out_kept = record { buffer = refl; total = refl; dropped = refl };
  err_kept = record { buffer = refl; total = refl; dropped = refl };
  out_read = refl;
  err_read = refl;
}

-- A reading of two letters and a mark.
abbrev letter : ℕ → Char
letter b = if nat_eq b 104 then "h" else if nat_eq b 105 then "i" else "!"

abbrev spell : List ℕ → String
spell [] = String.[]
spell (b ∷ bs) = String.◌∷◌ (letter b) (spell bs)

spell-append : (xs ys : List ℕ) → spell (xs ++ ys) ≡ text_append (spell xs) (spell ys)
spell-append [] ys = sym (append_text.nil (spell ys))
spell-append (x ∷ xs) ys =
    ap (λ t. String.◌∷◌ (letter x) t) (spell-append xs ys)
    ∙ sym (append_text.cons (letter x) (spell xs) (spell ys))

read_texts-written_example : read_texts spell rounds new_job ≡ ("hi", "!")
read_texts-written_example =
    read_texts-written spell refl (λ xs ys plain. spell-append xs ys) rounds [] [] new_job
      new_job-IsRead (omega arith) (omega arith)

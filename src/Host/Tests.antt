-- ===== src/Host/Tests.antt =====
-- One call of the shell through the host, and the theorems at it.
use openagent_host_tools.Base.{
  ◌&&◌, not, Fields, dict_set, bool, ◌≡◌, ◌≢◌, refl, true, false, Bool, none, some, [], ◌∷◌, arith,
  ok, end, field, str, null, pos, obj, select_one, update_where, delete_where, count_where,
}
use openagent_host_tools.Audit
use openagent_host_tools.Events
use openagent_host_tools.Lease
use openagent_host_tools.Lease.Lock.{free}
use openagent_host_tools.Ledger
use openagent_host_tools.Ledger.{Row, completed}
use openagent_host_tools.Ledger.Entry.{entry, IsKeyed}
use openagent_host_tools.Ledger.Keyed.{Event, step, step-IsKeyed}
use openagent_host_tools.Types.{mutating, classification_for, ToolResult, text_result, to_wire}
use openagent_host_tools.Host.{mark_client_local, Host, Config, Call, shell, Provider, running}
use openagent_host_tools.Host.Dispatch.{Env, Admitted, dispatched}
use openagent_host_tools.Host.Admit.{admit_call}
use openagent_host_tools.Host.Ending.{returned, timed_out, Clock, Deadline, at, deadline_seconds}
use openagent_host_tools.Host.Finish.{finish, holds_claim}
use openagent_host_tools.Host.Pending.{claims_key, LeavesNothing}
use openagent_host_tools.Host.Nothing.{admit_call-LeavesNothing}
use openagent_host_tools.Host.Granted.{Granted, admit_call-Granted}
use openagent_host_tools.Host.Ended.{is_cut, Registered, is_uncertain}
use openagent_host_tools.Host.Release.{finish_resolves, finish_leaves, finish_records}

program : Unit {0}
unfolding admit_call finish Ledger.claim_sync Lease.enter_sync Lease.leave_sync Ledger.is_key
    Ledger.is_mine Ledger.is_stale Ledger.new_row select_one update_where delete_where count_where
    classification_for
program = tt

abbrev pub config : Config
config = record {
  ledger = record { owner_id = "a1"; result_ttl = 86400000000; inflight_lease = 30000000 };
  lease_duration = 15000000;
  consent_path = "/home/ann/.openagent/consent.json";
}

abbrev pub exec_call : Call
exec_call = record {
  server = "shell";
  tool = "exec";
  args = field "command" (str "make") end;
  principal = "ann";
  call_id = "c1";
  idempotency_key = some "k1";
  fingerprint = "f1";
  arguments_sha256 = "00";
}

abbrev shell_server : Provider
shell_server = record {
  kind = shell;
  tools =
      record {
        name = "exec";
        description = "Run a command.";
        input_schema = obj end;
        classification = mutating;
        classification_by_argument = [];
      }
      ∷ [];
}

abbrev pub started_host : Host
started_host = record {
  ledger_rows = [];
  lease_db = Lease.empty;
  audit = Audit.empty;
  started = true;
  servers = ("shell", shell_server) ∷ [];
  health = [];
  external_names = [];
  active = [];
  active_principals = [];
  active_mutating = [];
  uncancellable_active = [];
  retained_lease_principals = [];
  principals = "ann" ∷ [];
  recording_owner = none;
  events = Events.init;
}

-- Consent holds at the start, and is lost before the dispatch if `kept` is false.
abbrev pub env : Bool → Env
env kept = record {
  consent_first = true;
  consent_replay = true;
  consent_dispatch = kept;
  start = λ h. h;
  parsed_principal = none;
  principal_health = none;
  claim_time = 1000;
  enter_time = 1001;
  audit_time = 1002;
  elapsed_ms = 0;
  claim_cancelled = false;
  enter_cancelled = false;
  abort_cancelled = false;
}

abbrev pub exec_admitted : Admitted
exec_admitted = record {
  kind = shell;
  classification = mutating;
  mutates = true;
  safe_retry = false;
  claimed = true;
  lease_entered = true;
  requires_drain = false;
}

pub no_rows-IsKeyed : IsKeyed {W = _} started_host.ledger_rows
unfolding count_where
no_rows-IsKeyed p k = omega arith

pub exec_dispatched :
    (admit_call config (env true) exec_call started_host).1 ≡ ok (dispatched exec_admitted)
unfolding program
exec_dispatched = refl

not_dispatched :
    (a : Admitted) → (admit_call config (env false) exec_call started_host).1 ≢ ok (dispatched a)
unfolding program
not_dispatched a e = cc

admit_call-LeavesNothing_example :
    LeavesNothing config exec_call started_host
      (admit_call config (env false) exec_call started_host).0
admit_call-LeavesNothing_example =
    admit_call-LeavesNothing config exec_call (env false) started_host free refl no_rows-IsKeyed
      refl refl refl refl not_dispatched

admit_call-Granted_example :
    Granted config exec_call
      (env true)
      (admit_call config (env true) exec_call started_host).0
      exec_admitted
admit_call-Granted_example =
    admit_call-Granted config exec_call (env true) started_host free exec_admitted refl
      no_rows-IsKeyed refl exec_dispatched

abbrev exec_row : Row Fields
exec_row = Ledger.new_row config.ledger 1000 "ann" "k1" "f1"

-- The host while the command runs.
abbrev exec_host : Host
exec_host = record started_host {
  ledger_rows = exec_row ∷ [];
  lease_db = (Lease.enter_sync config.lease_duration 1001 "ann" "c1" "shell.exec" Lease.empty).0;
  active = ("c1", running) ∷ [];
  active_principals = ("c1", "ann") ∷ [];
  active_mutating = "c1" ∷ [];
}

exec_host_after_dispatch : (admit_call config (env true) exec_call started_host).0 ≡ exec_host
unfolding program
exec_host_after_dispatch = refl

exec_host-IsKeyed : IsKeyed exec_host.ledger_rows
unfolding program step
exec_host-IsKeyed =
    step-IsKeyed {W = Fields} (Event.claim config.ledger 1000 "ann" "k1" "f1" false) []
      no_rows-IsKeyed

abbrev pub clock : Clock
clock = record {
  deadline_time = 2000;
  ledger_time = 3000;
  audit_time = 3001;
  elapsed_ms = 2;
  record_cancelled = false;
  leave_cancelled = false;
}

exec_claimed : holds_claim config clock exec_call exec_admitted ≡ true
unfolding program
exec_claimed = refl

abbrev pub one_second : Deadline
one_second = at (pos 1000000)

one_second_left : deadline_seconds clock.deadline_time one_second ≡ ok (some 1000000)
unfolding program
one_second_left = refl

abbrev pub exec_result : ToolResult
exec_result = text_result "done" null false end

finish_records_example :
    let (after, answer) =
      finish config clock exec_call exec_admitted one_second (returned exec_result) exec_host in
    (entry "ann" "k1" after.ledger_rows
      ≡ some (completed config.ledger "ann" "k1" 3000 (to_wire exec_result) exec_row))
    × (answer
        ≡ ok (
            mark_client_local (record exec_result {
              meta =
                  dict_set "openagent/replayed"
                    (bool false)
                    (dict_set "openagent/idempotent" (bool true) end);
            })))
unfolding program text_result
finish_records_example =
    finish_records config clock exec_call exec_admitted one_second (some 1000000) exec_result
      exec_host exec_row exec_host-IsKeyed refl refl exec_claimed one_second_left

abbrev after_time_out : Host
after_time_out =
    (finish config clock exec_call exec_admitted one_second (timed_out (returned exec_result))
      exec_host).0

claim_is_held :
    holds_claim config clock exec_call exec_admitted ≡ false
    → claims_key config exec_call exec_host ≡ false
unfolding program
claim_is_held e = cc

finish_resolves_example :
    ((claims_key config exec_call after_time_out && not false) ≡ false)
    × Registered config clock exec_call exec_admitted
        (not (
          is_cut config clock exec_call exec_admitted (timed_out (returned exec_result)) exec_host))
        exec_host
        after_time_out
finish_resolves_example =
    finish_resolves config clock exec_call exec_admitted one_second (some 1000000)
      (timed_out (returned exec_result)) exec_host exec_host-IsKeyed claim_is_held one_second_left

finish_leaves_example :
    (after_time_out.lease_db ≡ exec_host.lease_db)
    × (after_time_out.retained_lease_principals ≡ "ann" ∷ [])
unfolding program is_uncertain
finish_leaves_example =
    finish_leaves config clock exec_call exec_admitted one_second (some 1000000)
      (timed_out (returned exec_result)) exec_host exec_host-IsKeyed claim_is_held one_second_left

-- A call that is cancelled while it awaits its claim leaves the claim behind: this process holds it
-- afterwards, and nothing will give it back.
claim_cancelled_lem :
    claims_key config exec_call
      (admit_call config (record (env true) { claim_cancelled = true }) exec_call started_host).0
    ≡ true
unfolding program
claim_cancelled_lem = refl

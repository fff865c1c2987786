-- ===== src/Host.antt =====
-- `CapabilityHost` of src/openagent_host_tools/host.py: the state of one host process with the two
-- databases, and what admission and completion of a call share.
pub mod Dispatch
pub mod Admit
pub mod Ending
pub mod Finish
pub mod Admission
pub mod Pending
pub mod Nothing
pub mod Settling
pub mod Ended
pub mod Release
pub mod Granted
pub mod Calling
pub mod Settled
pub mod Lifecycle
pub mod Departure
mod Tests
use Prim.Native.String.{◌++◌ as text_append}
use openagent_host_tools.Base.{
  ℕ, String, Bool, true, false, Option, none, some, List, [], ◌∷◌, ◌++◌, if◌then◌else◌, ◌==◌,
  Fields, end, field, str, obj, bool, dict_keys, dict_set, HostError, Outcome, ok, raise, crash,
}
unfoldable pub use openagent_host_tools.Base.Maps.{find, put, pop}
use openagent_host_tools.Audit
use openagent_host_tools.Audit.{Audit}
use openagent_host_tools.Events.{Events}
use openagent_host_tools.Lease
use openagent_host_tools.Lease.{Db}
use openagent_host_tools.Ledger
use openagent_host_tools.Ledger.{Row, Ledger}
use openagent_host_tools.Types.{ToolManifest, ToolClassification, ToolResult, classification_value}

-- The classes of capability servers: the three built-ins, and MCP processes.
pub data Kind : Type 0 where
  filesystem editor shell external : Kind

pub record Provider : Type 0 where
  pub kind : Kind
  pub tools : List ToolManifest

-- An asyncio task: running, asked to cancel, or done.
pub data Task : Type 0 where
  running cancelling finished : Task

pub record Host : Type 0 where
  pub ledger_rows : List (Row Fields)
  pub lease_db : Db
  pub audit : Audit
  pub started : Bool
  pub servers : List (String × Provider)
  pub health : List (String × Bool)
  pub external_names : List String
  pub active : List (String × Task)
  pub active_principals : List (String × String)
  pub active_mutating : List String
  pub uncancellable_active : List String
  pub retained_lease_principals : List String
  pub principals : List String
  -- `_resource_owners[("computer-control", "screen-recording")]`, its only key.
  pub recording_owner : Option String
  pub events : Events

pub record Config : Type 0 where
  pub ledger : Ledger
  pub lease_duration : ℕ
  pub consent_path : String

-- What `call` hands on about one invocation, once its arguments are checked.
pub record Call : Type 0 where
  pub server : String
  pub tool : String
  pub args : Fields
  pub principal : String
  pub call_id : String
  pub idempotency_key : Option String
  pub fingerprint : String
  pub arguments_sha256 : String

-- `idempotency_key or call_id`
unfoldable pub effective_key : Call → String
effective_key c = elim c.idempotency_key [
  | none ↦ c.call_id
  | some k ↦ if k == "" then c.call_id else k
]

-- An audit row about this call.
unfoldable pub audit_row :
    Call → Option ToolClassification → String → Option ℕ → Option String → Bool → Audit.Entry
audit_row c classification outcome duration_ms error_code replayed = record {
  call_id = c.call_id;
  principal = c.principal;
  server = c.server;
  tool = c.tool;
  classification = elim classification [ none ↦ none | some k ↦ some (classification_value k) ];
  outcome = outcome;
  argument_keys = dict_keys c.args;
  duration_ms = duration_ms;
  error_code = error_code;
  replayed = replayed;
  arguments_sha256 = some c.arguments_sha256;
}

unfoldable pub audit_denial : ℕ → Call → String → Host → Host
unfolding audit_row
audit_denial now c code h = record h {
  audit = Audit.append now (audit_row c none "denied" none (some code) false) h.audit;
}

unfoldable pub mark_client_local : ToolResult → ToolResult
mark_client_local r = record r {
  meta =
      dict_set "openagent/pathSemantics" (str "client-local")
        (dict_set "openagent/location" (str "client") r.meta);
}

-- `self.lease.leave(principal, call_id)`
unfoldable pub leave_call : Call → Host → Host
leave_call c h = record h { lease_db = Lease.leave_sync c.principal c.call_id h.lease_db }

unfoldable pub abandon_claim : Config → Call → Host → Host
unfolding effective_key
abandon_claim g c h = record h {
  ledger_rows = Ledger.abandon_sync g.ledger c.principal (effective_key c) h.ledger_rows;
}

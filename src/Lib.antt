-- ===== src/Lib.antt =====
-- A model of openagent-host-tools, the local capability host: a process that offers tools of this
-- computer (files, an editor, a shell, external MCP servers) to a client, one call at a time for
-- mutations, with durable consent, an idempotency ledger and an audit log.
--
-- A call goes through `CapabilityHost.call` (src/openagent_host_tools/host.py). `_admit_call` reads
-- the consent, finds the tool, classifies the call by its arguments, claims the call's key in the
-- ledger, enters the lease if the call mutates, reads the consent once more and starts the task.
-- `call` then waits for the task and records its ending. The ledger and the lease are tables of a
-- database that other host processes share.
--
-- The parts, with the files of the source (below src/openagent_host_tools/):
--   Base      helpers: tests of numbers, lists, tables of rows with their WHERE clauses, JSON values,
--             HostError, outcomes (returned, a HostError, another exception), and the connection
--             block of sqlite3, which commits or rolls back.
--   Lease     lease.py, `MutatingLease`: `enter_sync` … `status_sync` are the transactions; Lock is
--             the lock that they implement, Refine the proof, Events and Exclusion the histories.
--   Ledger    idempotency.py, `IdempotencyLedger`: `claim_sync` … `mark_indeterminate_sync`; Entry and
--             Claims say what each does to the row of a key, Keyed, Once, Replay and Owners are about
--             histories of any number of processes.
--   Types     types.py: classification of calls (`classification_for`), tools, results and errors with
--             their wire forms; Classify and Worst are about the first, Wire about the last.
--   Audit     audit.py, `AuditLedger`: `append`, `recent`.
--   Arguments idempotency.py: `_normalize_json_numbers`, `arguments_sha256`, `fingerprint`.
--   Shell     shell_core.py, `BackgroundShell`: its bounded output streams (`append`, `read`), in
--             Output; builtins/shell.py and builtins/_util.py: Arguments, Jobs, Tools and Server are
--             the tools over the table of background jobs, Access says who can act on a job, Deltas
--             what the reads of a job give.
--   Events    host.py: `subscribe_events`, `_emit_event`, `ack_event`, and the terminal events of
--             shells that are kept for late subscribers.
--   Host      host.py: the state of one host with its databases. Admit and Dispatch are the two
--             halves of `_admit_call`, Ending and Finish are `call` from the waiting for the task to
--             its `finally` clause. Admission, Pending, Nothing and Granted are about the first,
--             Settling, Ended and Release about the second. Calling is `call` as a whole, with its first
--             checks and `_principal_id`, and Settled is about it. Lifecycle
--             has `cancel`, `release_principal`, the withdrawal of consent and `close`, and
--             Departure is about them.
--   Control   control.py, `dispatch_control`, over an interface of the host (`Operations`):
--             Requests has the requests, Replies what a connection can rely on.
--   Mcp       mcp_stdio.py, `MCPStdioServer`: the adapter of one external server. Reader is
--             `_read_loop`, Steps the histories of the pieces between the awaits of its coroutines;
--             Watched and Histories have their invariant, Lookup and Effects what an event does to
--             the requests, Answers and Stranded what a caller meets. Restart is `_restart_loop` and
--             Rounds its termination, Catalog `_tool_manifest` and `call`.
--   Pool      mcp_stdio.py, `PerPrincipalMCPPool` and `_PortLease`: one adapter and one port for each
--             account; Isolation and Histories say that accounts stay apart.
--   Config    config.py: the texts of TOML values (Toml), and which plugins a registry may hold, with
--             `save` and `load` (Plugins, Registry).
--   Editor    builtins/editor.py: `edit` of a text (Edit) and the loops of `grep` (Search).
--   Client    local_broker.py, `LocalCapabilityClient`: its requests and the loss of a connection.
--             Steps has the pieces between the awaits, Histories their invariant, Fates what an event
--             makes of the requests, Rules how it classifies a call of a tool that its
--             catalog has, Agreement that the host does so too.
--   Consent   consent.py, `ConsentStore`: `load`, `set_enabled`; Closed is about them.
--
-- Time is counted in microseconds of natural numbers (the times of shells and the delays of restarts
-- in milliseconds), so that a clock never runs before 0. A
-- transaction is one step, since each begins with BEGIN IMMEDIATE; the five seconds that it may
-- wait for the database are not modelled. Everything is a total function by recursion on lists and
-- values, but for the restart loop, whose fuel counts its rounds: more than the attempts that the
-- limit still allows are enough. A dict that `dict` makes of pairs
-- keeps those with text keys only. JSON text is not modelled: the ledger keeps the wire form of a result,
-- and the text that `json.dumps` makes of a value, like SHA-256 and uuid4, is a parameter.
--
-- What a call meets from outside is a parameter: Host.Dispatch.Env has each reading of consent and
-- of a clock, the parsed principal, the health of the browser and the effect of `start`;
-- Host.Ending.Ending is how the awaited task ends. What other coroutines do while the host waits is
-- an argument of `serve` and of the operations of Lifecycle; the renewal of claims and leases by a
-- running call is left out there, but its transactions are in the histories of Lease and Ledger. A
-- deadline is a whole number of microseconds; NaN and infinite deadlines are left out.
-- A call may be cancelled while it awaits its claim, the lease, its task, the task that is drained,
-- the recording of its result, or the leaving of the lease (after a denial, or at its end); a
-- cancellation while a denial, a mark or an audit row is written is left out.
--
-- An adapter of an external server meets its processes, its callers and its own coroutines as a list
-- of events (Mcp.Steps.Event), in any order; the order of the first two requests of a launch, their
-- timeouts and the writing to pipes are left to the events.
--
-- The histories of a client leave out `close`, the frames that are events, with the sinks and the
-- cached catalog (but for what Client.Rules reads of one tool), and a `start` that fails; what the
-- lock of the lifecycle covers is one step.
--
-- Not modelled: the supervision of external servers by the host and the catalog probe of the pool, the
-- stdio server, the server of the local broker, the bridge, the files of the configuration as texts,
-- the file system tools, the sidecars, and the scripts, as well as the tools' own effects on files and
-- processes.
pub mod Base
pub mod Lease
pub mod Ledger
pub mod Types
pub mod Audit
pub mod Arguments
pub mod Shell
pub mod Events
pub mod Host
pub mod Control
pub mod Mcp
pub mod Pool
pub mod Config
pub mod Consent
pub mod Editor
pub mod Client

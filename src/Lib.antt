-- ===== src/Lib.antt =====
-- Cuartel is a desktop host for coding agents that run in sandboxed machines. This library models
-- the parts of it that decide, in crates/cuartel-core and crates/cuartel-terminal, and proves what
-- they promise.
--
-- Session.antt models crates/cuartel-core/src/session.rs: `next_state`, `apply_at` and the history.
-- Workflow.antt models crates/cuartel-core/src/workflow.rs: the methods of `WorkflowExecution`.
-- Pipeline.antt models crates/cuartel-core/src/pipeline.rs: the methods of `PipelineRun`, and in
-- Pipeline/Topo `validate` and `topological_sort`.
-- Agent.antt models crates/cuartel-core/src/agent.rs: the agent types, in Agent/Harness the trait
-- `AgentHarness`, in Agent/Parse and Agent/Builtin its four implementations, and in Agent/Registry
-- `HarnessRegistry`. The crate `serde_json` is the interface `Json`.
-- Credentials.antt models crates/cuartel-core/src/credential_store.rs: `has`, `env_for_harness` and
-- the stores in memory (Credentials/Memory) and over the crate `keyring` (Credentials/Keychain,
-- with the interface `Keyring` and its laws), compared in Credentials/Refines.
-- Availability.antt models crates/cuartel-core/src/availability.rs: `probe_harness` on a harness,
-- with a credential store as the source of what is set, and `probe_registry`.
-- FilePassing.antt models crates/cuartel-core/src/file_passing.rs: `plan_transfers`.
-- Cron.antt models crates/cuartel-core/src/cron.rs: Cron/Parse the parser and `Display`, Cron/Tick
-- `next_tick`, Cron/Jobs `ScheduledJob`. The crate `chrono` is the interface of Cron/Calendar.
-- Gateway.antt models crates/cuartel-core/src/auth_gateway: Gateway/Rules is rules.rs,
-- Gateway/Firewall is firewall.rs, Gateway/Proxy is the handling of one request in proxy.rs with
-- the events of audit.rs, and Gateway/Policy is crates/cuartel-core/src/firewall.rs, which checks
-- the configuration of the gateway and the ports that a sandbox asks for.
-- Grid.antt models crates/cuartel-terminal/src/grid.rs: the screen, its scrollback and the calls of
-- the escape-sequence parser. The parser itself is the crate `vte`; a run is a list of its calls.
-- Overlay.antt models crates/cuartel-core/src/overlay.rs: `text_hunks` over the crate `similar`, which
-- is the interface of Overlay/Similar, `diff_trees`, in Overlay/Unified `to_unified_string`, and in
-- Overlay/Utf8 `str::from_utf8`. Its hunks are those that Review.antt applies.
-- Mount.antt models crates/cuartel-core/src/workspace_mount.rs: `normalized_mount_point`,
-- `vm_path_for_rel`, `walk` and `collect_mount_plan` on a directory as a value, with names as bytes,
-- and in Mount/Batches the batches of `mount_workspace`.
-- Review.antt models crates/cuartel-core/src/review.rs: `apply_hunks`, `plan_review` and
-- `execute_review`, on the data types of crates/cuartel-core/src/overlay.rs. Reading and changing
-- the file system are arguments.
-- Common.antt passes on the library's names, with lists over native numbers, a `BTreeMap`, the
-- bits of a number and the methods of `str`.
--
-- A method on `&mut self` is a function that returns the new value and the method's result, or
-- `none` where the code panics. A `DateTime<Utc>` is a number, and what `Utc::now()` returns is an
-- argument. A character is its number. The loop over the parameters of CSI m has fuel, their count,
-- and the loop over the queue of `topological_sort` the number of ids; both are proved to be
-- enough. `parse_field_value` of cron.rs has the depth of its calls for fuel, three, and the search of
-- `next_tick` the number of minutes in its window; that both are enough is part of what is proved
-- of them. Every other loop is by structure.
-- The crates `http` and `hyper` are the interface of Gateway/Http: operations on header maps, with
-- their documented laws. A header's name is taken in its canonical, lower-case form, and of several
-- values under one name only the first is seen. The credential store, the upstream and the parsers of addresses are
-- arguments of the proxy. The time of an event and the body of a request are left out.
-- Not modelled: drawing, processes, sockets, database access and serialisation.
pub mod Common
pub mod Agent
pub mod Session
pub mod Workflow
pub mod Pipeline
pub mod Grid
pub mod Gateway
pub mod Review
pub mod Credentials
pub mod Availability
pub mod Cron
pub mod FilePassing
pub mod Overlay
pub mod Mount

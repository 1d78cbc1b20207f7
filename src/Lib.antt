-- ===== src/Lib.antt =====
-- Uprava lets a user run coding agents on several machines: a server (Core) keeps projects, sessions
-- and jobs, and a daemon on each machine (Node) runs the agents and the workspace commands. Core sends
-- commands to a node; the node carries each out, records its result and sends events back, which it
-- keeps in an outbox until Core acknowledges them. This library models the node's side of that, the
-- protocol the two share, what Core checks of a task before it sends it, and how Core takes events in.
--
-- Prelude: texts as lists of code points, hash maps as association lists, 64-bit signed integers.
--
-- Protocol (crates/uprava-protocol/src): the identifiers and references (Reference), the states and
-- kinds (Domain), the records of work trees, tasks, commands, events and responses (Workspace, Task,
-- Command, Event, Response), JSON documents (Json), and `EventPayload::from_json` (Payload).
--
-- Node (crates/uprava-node/src/runtime):
--   State, Merge      `NodeLocalState`, its counters, and `merge_command_state_from`
--                     (persistence/state.rs)
--   Store             the task that owns the state: `run_node_state_store`,
--                     `apply_node_state_mutation`, `compact_for_persistence` (persistence/state.rs)
--   Outbox            acknowledgements, retention and the runtime states
--                     (application/execution.rs)
--   Cancellation      `ExecutionCancellationRegistry` and its keys (application/dispatch.rs,
--                     tool_runtime.rs)
--   Events, Causal    the events that commands produce (provider.rs, workspace.rs,
--                     application/execution.rs)
--   Metadata          what a start remembers about a runtime (application/execution.rs)
--   Execution         `prepare_command_dispatch_with_live_socket` (application/execution.rs)
--   Git, Warnings     `parse_git_porcelain_v2` and `resource_warnings_for_snapshot` (support.rs)
--   Workspace         the inspector's paths and the hunks of its diffs (workspace.rs)
--   Task              bounded output, quoting, the sandbox daemon's stream (Task.Stream) and the
--                     state events of a task (task.rs)
--   Terminal          a terminal's task, its replay, and a client that attaches (terminal.rs); a turn
--                     of the task's loop is one step, and a history is a sequence of steps
--
-- Server (crates/uprava-server/src):
--   Task              the validation of a task request (runtime/application/task.rs)
--   Support           `AppError`, `scope_key`, `actor_identity` (runtime/support.rs,
--                     runtime/application/projection.rs)
--   Tables, Rows      the tables that events are projected into (persistence/migrations.rs)
--   Projection        turns and approvals (persistence/event.rs)
--   Updates           task runs, runtimes, sessions and placements (persistence/event.rs,
--                     runtime/application/task.rs, coordination.rs)
--   Apply             `apply_event_projection_on_connection` (runtime/application/coordination.rs)
--   Records, Ingest   the transaction of `accept_node_event` (runtime/application/coordination.rs)
--   Publication       `accept_node_event` and `drain_event_publication_outbox`
--                     (persistence/event.rs); taking events in and publishing are the steps of a
--                     relation on the tables
--   Ownership         `validate_event_owner` (runtime/transport/node.rs)
--   Control           the batch of events of `handle_node_control_frame`
--                     (runtime/transport/node.rs)
--
-- A command is dispatched in four steps, each a module here: the registry of cancellations takes its
-- key (Cancellation), a snapshot of the state is taken from its owner (Store), the command is carried
-- out on the snapshot (Execution, with Metadata, Events, Causal and Outbox), and the changed snapshot
-- is merged into the owner's state (Merge), which is written to disk (Store).
--
-- An event goes the other way: Control checks a batch of the node, Ownership whose the events are,
-- Ingest stores and projects each in one transaction (Apply, Records), Publication hands it to the
-- browsers, and the acknowledged identifiers empty the node's outbox (Outbox).
--
-- A table is the list of its rows in the order in which they were inserted, with the columns that the
-- modelled statements read or write. The keys, unique indexes, checks and foreign keys that these
-- statements can run against are written out: as errors, where no clause resolves the conflict (the
-- events of a scope and of a session, `approvals_turn_idx`, `project_placements_identity_idx`, the
-- states of a task run, the session of an approval or of a message), and otherwise as the clause
-- says. A transaction that fails leaves the tables as they were. The locks around taking in and
-- publishing make each a step of its own.
--
-- State is passed explicitly: an operation that takes `&mut` returns the new value beside its
-- result, in the order of a tuple (state, result). Errors are a sum with the error on the left, or
-- an `Option`; `unreachable!` is `none`. Loops over a vector are recursions on the list, so no fuel
-- is needed, except for decimal digits, where the number itself bounds them, and for the loop that
-- takes frames off a buffer, where the length of the buffer does: each turn takes a delimiter off
-- it. Counters and sums that a state could drive past 64 bits keep their wrap-around or saturation,
-- and sequence numbers are `i64`; the lengths of texts and lists that are in memory, and sums of a
-- few of them, are plain numbers. The order in which a hash map or a hash set iterates is that of
-- the list, or a parameter.
--
-- What other programs do is a parameter: the codecs that serde derives, the clock and the fresh
-- identifiers (Outbox.Host, Protocol.Payload.Serde, Causal.ResponseSerde), channels of tokio
-- (Cancellation.Watch, with the laws that its documentation states), the database of the node
-- (Store.Disk), the server's codecs (Server.Projection.Codecs, where an encoded event is decoded to
-- one of the same identifier), whether a broadcast has a receiver (Server.Publication.Publisher),
-- decoding and the pty (Terminal.TerminalHost, Task.Stream.StreamHost), and the file system,
-- providers, sandboxes and tools (Execution.Executors).
--
-- Not modelled: the rest of the server (the dispatch of commands, sessions, jobs, tools, plugins,
-- projections for the browser, the other control frames and the generation of a connection, metrics
-- in memory), the web application, the queues and sockets of the node, the
-- SQL text, the provider processes, the pty of a terminal, the calls of the sandboxes of tasks, and
-- the access to the file system.
pub mod Prelude
pub mod Protocol
pub mod Node
pub mod Server
pub mod Examples

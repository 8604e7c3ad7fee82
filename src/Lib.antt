-- ===== src/Lib.antt =====
-- A model of piqo-server, a server that runs agent sessions. All of a session's history is a log of
-- events; its state is a projection of that log, and every change goes through appending events.
--
-- The parts and how they interact:
--
-- * Core models the crate piqo-core. Core/Phases, Orchestration, Context, Permissions, Event and
--   Errors hold the data of piqo-core/src/session.rs, orchestration.rs, context.rs, permissions.rs and
--   event_log.rs, with the source's names. `Value` of serde_json is the parameter `V`; what is relied
--   on of its equality is Core/Json.
-- * Core/EventLog models `EventLog` (event_log.rs): `append`, `append_for_session`, `last_id`,
--   `replay_from`, `fork_at`. Ids are u64, and the next id wraps around.
-- * Core/SessionState models `SessionState` (session.rs): `transition` and the methods over it, and
--   `apply`. The state after an error is returned beside the error.
-- * Core/Projection models `SessionProjection` (session.rs). Its child Apply holds `apply`, one clause
--   for each arm; what an arm does to its part of the state is in Messages, Agents, Requests, Runs,
--   ToolCalls and Facts. Where the source writes before it fails, so does the model. Queue holds
--   `active_run`, `queued_runs` and `ready_action_run`; the stable sort of the standard library is an
--   insertion sort. Revisions are u64 and wrap around, as a release build's do.
-- * Provider/Bodies models piqo-provider/src/body.rs: `merge_request_bodies`. The object view of a JSON
--   value is a parameter with the laws that are relied on.
-- * Server/Admission models `AdmissionController` (piqo-server/src/supervisor.rs): `reserve` and
--   `release`, each one step under the controller's lock.
-- * Server/ToolPermissions models `AgentPermissions` and `merge_permissions` (piqo-server/src/config.rs),
--   `permission_setting` and `most_restrictive_permission` (supervisor.rs) and the names of native tools
--   (piqo-tools/src/lib.rs). Its child Evaluate models `evaluate_tool_permissions` (supervisor.rs) up to
--   the events that it appends: the settings in force, the rule that the store has for a tool, the new
--   request ids and the answer to a denied call are given to it.
-- * Server/Sse models `find_sse_frame_end` and the loop that takes frames off a stream's buffer
--   (supervisor.rs, in `execute_run`). What the loop's body does with a frame is given: it parses the
--   frame, persists its deltas, and answers whether the loop goes on, which it does not after invalid
--   UTF-8, an error of the parser or of the store, or a tool call that requires action. The loop has the
--   buffer's length for fuel; each pass takes a delimiter, which has two bytes at least, so it is enough.
-- * Server/Truncation models `truncate_utf8` (supervisor.rs) on the bytes of a text; its loop goes down by
--   structural recursion.
-- * Server/Storage models the log of one session in the database (piqo-server/src/storage.rs):
--   `create_session_with_retention`, `append_events`, `project` and `validate_all`, with the row of
--   `sessions`, the rows of `events` and the projection cache. A failed transaction writes nothing. A row
--   of `events` is the event itself: that its JSON reads back is serde's. Ids of rows have no bound here;
--   the database's integers end at 2^63, as the guard on the revision says.
-- * Server/Supervisor models `SessionSupervisor` (supervisor.rs) as steps on one state: the sessions of
--   the database with their logs and cached projections, the permission rules and agent links, the events
--   that were published, the places of pending runs, the tokens of active runs, the projects and those
--   under deletion, and the spawned workers. `append`, `append_many`, `projection` and the guards are in
--   Supervisor itself. Queueing has `queue_run`, `retry` and `resume`; Submitting `submit_tool_result`;
--   Resolving `deny_permission`, and `resolve_permission` up to where an approved native tool executes;
--   Processing one turn of `process_session` up to where a run executes; Finishing `interrupt_message` and
--   the `match` of `finish_run`; Delivering `deliver_child_result` up to where the parent's queue is
--   processed; Stopping `interrupt_remaining_runs`, `resume_ready_actions_after_restart` and
--   `cancel_session_for_project_deletion`, `shutdown` in two steps, before and after it waits for the
--   workers, and `delete_project` up to where it waits. A method is one step there: calls that overlap are
--   not interleaved, although methods that hold no lock can be. Its child Overlapping takes appends to one
--   session apart for that: the read of the cache, the transaction (`append_events` of storage.rs), the
--   write of the cache and each publication are steps of their own, in any order of the calls; Alone ties
--   them to the model of `append_events`. The clock, UUIDs, the form of `RunRequest` in JSON, the bytes of
--   a text, the JSON of an agent's result, the configuration's limits and its resolution of a provider are
--   given (`Outside`). Calls has the methods as calls in any order; Primitives is the interface between
--   the steps that write to the state and what every method keeps.
-- * Server/PermissionRules models the table of rules (storage.rs); Server/Storage/Recovery what
--   `recover_running_sessions` does to one session; Server/Storage/Forking what `fork_session` makes of a
--   parent's rows, with the child's id and the clock given. The title and the project, which nothing here
--   reads, are not in the row.
-- * Prelude holds shared helpers: Boolean tests, lists, results, steps on a state that may fail
--   (Prelude/Steps), and `BTreeMap` as an association list in the order of its keys (Prelude/Map), with
--   the order of strings that the library gives. A `HashMap` whose order is not observed is such a map
--   too.
-- * Tests holds runs on concrete data.
--
-- Not modelled: the run supervisor's cancellation, delegation of a run to a child session and execution of
-- runs and tools; the HTTP API; the configuration's files and validation; the parsing of provider events;
-- native tools and MCP; the command line client. Input and output, SQL execution, serialization and locks
-- are libraries'.
pub mod Prelude
pub mod Core
pub mod Provider
pub mod Server
pub mod Tests

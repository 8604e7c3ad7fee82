-- ===== src/Core/Projection/Apply.antt =====
-- `SessionProjection::apply`: one event of the log, and the whole of it.
pub mod Phase
pub mod Effects
pub mod Transcript
pub mod Refused
pub mod WellFormed
pub mod Requests
pub mod Histories
pub mod Accepted
pub mod Quiet
pub mod Renaming
use piqo_server.Prelude.{
  ℕ, String, Bool, true, false, Option, none, some, List, [], ◌∷◌, Result, ok, err,
}
use piqo_server.Prelude.Map.{Map}
use piqo_server.Core.Json.{Json}
use piqo_server.Core.Context.{no_context}
use piqo_server.Core.Errors.{ProjectionError}
use piqo_server.Core.Event.{
  EventId, SemanticEvent, session_forked, message_started, message_content_appended,
  message_completed, message_interrupted, run_queued, run_started, run_attempt_started,
  run_attempt_failed, run_completed, run_failed, run_cancelled, run_interrupted,
  run_requires_action, queue_paused, queue_resumed, tool_call_emitted, tool_execution_started,
  tool_result, agent_phase_changed, permission_requested, permission_resolved, agent_spawned,
  agent_finished, agent_context_captured, agent_result_delivered, context_fact_recorded,
  context_compacted, context_compaction_failed, context_compaction_bypassed,
}
use piqo_server.Core.Phases.{failed, cancelled, interrupted}
use piqo_server.Core.SessionState
use piqo_server.Core.SessionState.{Outcome}
use piqo_server.Core.Projection.{
  SessionProjection, MessageProjection, RunProjection, PermissionProjection,
}
use piqo_server.Core.Projection.Messages.{
  start_message, append_content, complete_message, interrupt_message,
}
use piqo_server.Core.Projection.Agents.{
  Agents, spawn_agent, change_agent_phase, agent_finished_arm, agent_context_captured_arm,
  agent_result_delivered_arm,
}
use piqo_server.Core.Projection.Requests.{request_permission, resolve_permission}
use piqo_server.Core.Projection.ToolCalls.{emit_call, edit_call, claim_execution, record_result}
use piqo_server.Core.Projection.Runs.{
  edit_run, queue_run, start_run, start_attempt, fail_attempt, require_action, set_run_terminal,
  complete_run,
}
use piqo_server.Core.Projection.Facts.{
  record_fact, compacted, compaction_failed, compaction_bypassed,
}

unfoldable pub new : {V : Type 0} → String → SessionProjection V
unfolding SessionState.new no_context
new session_id = record {
  state = SessionState.new session_id;
  messages = [];
  agents = [];
  agent_instances = [];
  pending_permissions = [];
  runs = [];
  queue_paused = false;
  context = no_context;
}

module _ {V : Type 0} where
  -- The arms write to one part of the projection, and only where they succeed.
  unfoldable pub put_messages :
      SessionProjection V
      → Result ProjectionError (List (MessageProjection V))
      → SessionProjection V × Outcome ProjectionError
  put_messages p (ok messages) = (record p { messages = messages }, ok tt)
  put_messages p (err e) = (p, err e)

  unfoldable pub put_requests :
      SessionProjection V
      → Result ProjectionError (Map (PermissionProjection V))
      → SessionProjection V × Outcome ProjectionError
  put_requests p (ok pending) = (record p { pending_permissions = pending }, ok tt)
  put_requests p (err e) = (p, err e)

  -- `paused` is what `queue_paused` becomes
  unfoldable pub put_runs :
      Bool
      → SessionProjection V
      → Result ProjectionError (Map (RunProjection V))
      → SessionProjection V × Outcome ProjectionError
  put_runs paused p (ok runs) = (record p { runs = runs; queue_paused = paused }, ok tt)
  put_runs paused p (err e) = (p, err e)

  -- the arms that touch agents write both maps, also where they fail
  unfoldable pub put_agents :
      SessionProjection V
      → Agents V × Outcome ProjectionError
      → SessionProjection V × Outcome ProjectionError
  put_agents p (a, outcome) =
      (record p { agents = a.phases; agent_instances = a.instances }, outcome)

  unfoldable pub agents_of : SessionProjection V → Agents V
  agents_of p = record { phases = p.agents; instances = p.agent_instances }

module _ {V : Type 0} ⦃j : Json V⦄ where
  -- the `match event` of `SessionProjection::apply`
  unfoldable pub project_event :
      SessionProjection V
      → EventId
      → SemanticEvent V
      → SessionProjection V × Outcome ProjectionError
  unfolding put_messages put_requests put_runs put_agents agents_of
  project_event p event_id (message_started message_id agent_id role author) =
      put_messages p (start_message event_id message_id agent_id role author p.messages)
  project_event p event_id (message_content_appended message_id block) =
      put_messages p (append_content event_id message_id block p.messages)
  project_event p event_id (message_completed message_id) =
      put_messages p (complete_message event_id message_id p.messages)
  project_event p event_id (message_interrupted message_id) =
      put_messages p (interrupt_message event_id message_id p.messages)
  project_event p event_id (agent_spawned agent_id parent_id link config_revision) =
      put_agents p (spawn_agent agent_id parent_id link config_revision (agents_of p))
  project_event p event_id (agent_phase_changed agent_id phase) =
      put_agents p (change_agent_phase agent_id phase (agents_of p), ok tt)
  project_event p event_id (agent_finished agent_id result) =
      put_agents p (agent_finished_arm agent_id result (agents_of p))
  project_event p event_id (agent_context_captured agent_id references) =
      put_agents p (agent_context_captured_arm agent_id references (agents_of p))
  project_event p event_id (agent_result_delivered agent_id parent_run_id parent_call_id result) =
      put_agents p (agent_result_delivered_arm agent_id result (agents_of p))
  project_event p event_id
        (permission_requested request_id run_id call_id agent_id tool_name arguments) =
      put_requests p (
        request_permission request_id run_id call_id agent_id tool_name arguments
          p.pending_permissions)
  project_event p event_id (permission_resolved request_id decision source scope rule_id reason) =
      put_requests p (resolve_permission request_id decision p.pending_permissions)
  project_event p event_id (run_queued run_id retry_of provider model request) =
      put_runs p.queue_paused p (queue_run run_id retry_of provider model request p.runs)
  project_event p event_id (run_started run_id attempt_id attempt) =
      put_runs false p (edit_run run_id (start_run run_id attempt_id attempt) p.runs)
  project_event p event_id (run_completed run_id usage) =
      put_runs p.queue_paused p (complete_run run_id usage p.runs)
  project_event p event_id (run_attempt_started run_id attempt_id attempt) =
      put_runs p.queue_paused p (edit_run run_id (start_attempt run_id attempt_id attempt) p.runs)
  project_event p event_id (run_failed run_id error) =
      put_runs true p (set_run_terminal run_id failed (some error) p.runs)
  project_event p event_id (run_cancelled run_id reason) =
      put_runs true p (set_run_terminal run_id cancelled none p.runs)
  project_event p event_id (run_interrupted run_id reason) =
      put_runs true p (set_run_terminal run_id interrupted (some reason) p.runs)
  project_event p event_id (run_requires_action run_id call_ids) =
      put_runs true p (edit_run run_id (require_action run_id) p.runs)
  project_event p event_id
        (tool_call_emitted run_id assistant_message_id call_id agent_id tool_name arguments
          raw_arguments native) =
      put_runs p.queue_paused p (
        edit_run run_id
          (emit_call assistant_message_id call_id agent_id tool_name arguments raw_arguments native)
          p.runs)
  project_event p event_id (tool_execution_started run_id call_id execution_id) =
      put_runs p.queue_paused p
        (edit_run run_id (edit_call call_id (claim_execution call_id execution_id)) p.runs)
  project_event p event_id (tool_result run_id call_id agent_id tool_name result) =
      put_runs p.queue_paused p
        (edit_run run_id (edit_call call_id (record_result call_id result)) p.runs)
  project_event p event_id (run_attempt_failed run_id attempt_id error retryable) =
      put_runs p.queue_paused p (edit_run run_id (fail_attempt error) p.runs)
  project_event p event_id queue_paused = (record p { queue_paused = true }, ok tt)
  project_event p event_id queue_resumed = (record p { queue_paused = false }, ok tt)
  project_event p event_id (session_forked parent_session_id at_event_id) =
      (record p { queue_paused = true }, ok tt)
  project_event p event_id (context_fact_recorded fact) =
      (record p { context = record_fact fact p.context }, ok tt)
  project_event p event_id (context_compacted run_id artifact) =
      (record p { context = compacted artifact p.context }, ok tt)
  project_event p event_id (context_compaction_failed run_id artifact_id code) =
      (record p { context = compaction_failed code p.context }, ok tt)
  project_event p event_id (context_compaction_bypassed run_id reason) =
      (record p { context = compaction_bypassed reason p.context }, ok tt)
  project_event p event_id _ = (p, ok tt)

  -- `self.state.apply(event_id, event)?` first; an error of it ends the call
  after_state :
      SessionProjection V
      → EventId
      → SemanticEvent V
      → SessionState.SessionState × Outcome ProjectionError
      → SessionProjection V × Outcome ProjectionError
  after_state p event_id event (state, ok tt) =
      project_event (record p { state = state }) event_id event
  after_state p event_id event (state, err e) = (record p { state = state }, err e)

  unfoldable pub apply :
      SessionProjection V
      → EventId
      → SemanticEvent V
      → SessionProjection V × Outcome ProjectionError
  unfolding after_state
  apply p event_id event = after_state p event_id event (SessionState.apply p.state event_id event)

-- ===== src/Core/Projection/Apply/WellFormed.antt =====
-- Every event keeps the shape of the projection, and so does every history.
use piqo_server.Prelude.{
  String, Bool, true, false, ◌≡◌, refl, Option, none, some, List, Result, ok, err, arith,
}
use piqo_server.Prelude.Map.{Map}
use piqo_server.Prelude.Map.Fits.{Fits, Fits-nil}
use piqo_server.Core.Json.{Json}
use piqo_server.Core.Phases.{RunStatus, failed, cancelled, interrupted}
use piqo_server.Core.Errors.{ProjectionError}
use piqo_server.Core.Event.{
  EventId, SemanticEvent, message_started, message_content_appended, message_completed,
  message_interrupted, run_queued, run_started, run_attempt_started, run_attempt_failed,
  run_completed, run_failed, run_cancelled, run_interrupted, run_requires_action, tool_call_emitted,
  tool_execution_started, tool_result, permission_requested, permission_resolved, agent_spawned,
  agent_phase_changed, agent_finished, agent_context_captured, agent_result_delivered,
}
use piqo_server.Core.SessionState
use piqo_server.Core.SessionState.{Outcome}
use piqo_server.Core.Projection.{
  SessionProjection, MessageProjection, RunProjection, PermissionProjection,
}
use piqo_server.Core.Projection.Shape.{IsWellFormed, RunFits, RequestFits, InstanceFits, Distinct}
use piqo_server.Core.Projection.Messages.{
  start_message, append_content, complete_message, interrupt_message,
}
use piqo_server.Core.Projection.Messages.Ids.{
  start_message-Distinct, append_content-Distinct, complete_message-Distinct,
  interrupt_message-Distinct,
}
use piqo_server.Core.Projection.Agents.{
  Agents, spawn_agent, change_agent_phase, agent_finished_arm, agent_context_captured_arm,
  agent_result_delivered_arm,
}
use piqo_server.Core.Projection.Agents.Fitting.{
  spawn_agent-Fits, agent_finished_arm-Fits, agent_context_captured_arm-Fits,
  agent_result_delivered_arm-Fits,
}
use piqo_server.Core.Projection.Requests.Fitting.{request_permission-Fits, resolve_permission-Fits}
use piqo_server.Core.Projection.Requests.{request_permission, resolve_permission}
use piqo_server.Core.Projection.ToolCalls.{emit_call, edit_call, claim_execution, record_result}
use piqo_server.Core.Projection.Runs.{
  edit_run, queue_run, start_run, start_attempt, fail_attempt, require_action, set_run_terminal,
  complete_run,
}
use piqo_server.Core.Projection.Runs.Fitting.{
  KeepsFit, start_run-KeepsFit, start_attempt-KeepsFit, fail_attempt-KeepsFit,
  require_action-KeepsFit, emit_call-KeepsFit, edit_call-KeepsFit, claim_execution-call_id,
  record_result-call_id, edit_run-Fits, queue_run-Fits, set_run_terminal-Fits, complete_run-Fits,
}
use piqo_server.Core.Projection.Apply.{
  put_messages, put_requests, put_runs, put_agents, agents_of, project_event, after_state, new,
  apply,
}
use piqo_server.Core.Projection.Apply.Histories.{Later, now, then}

module _ {V : Type 0} where
  with_messages :
      (p : SessionProjection V) (r : Result ProjectionError (List (MessageProjection V)))
      → IsWellFormed p
      → ((ns : List (MessageProjection V)) → r ≡ ok ns → Distinct ns)
      → IsWellFormed (put_messages p r).0
  unfolding put_messages
  with_messages p (ok ns) w d = record {
    runs_fit = w.runs_fit;
    requests_fit = w.requests_fit;
    instances_fit = w.instances_fit;
    messages_distinct = d ns refl;
  }
  with_messages p (err e) w d = w

  with_requests :
      (p : SessionProjection V) (r : Result ProjectionError (Map (PermissionProjection V)))
      → IsWellFormed p
      → ((m : Map (PermissionProjection V)) → r ≡ ok m → Fits RequestFits m)
      → IsWellFormed (put_requests p r).0
  unfolding put_requests
  with_requests p (ok m) w f = record {
    runs_fit = w.runs_fit;
    requests_fit = f m refl;
    instances_fit = w.instances_fit;
    messages_distinct = w.messages_distinct;
  }
  with_requests p (err e) w f = w

  with_runs :
      (paused : Bool) (p : SessionProjection V) (r : Result ProjectionError (Map (RunProjection V)))
      → IsWellFormed p
      → ((m : Map (RunProjection V)) → r ≡ ok m → Fits RunFits m)
      → IsWellFormed (put_runs paused p r).0
  unfolding put_runs
  with_runs paused p (ok m) w f = record {
    runs_fit = f m refl;
    requests_fit = w.requests_fit;
    instances_fit = w.instances_fit;
    messages_distinct = w.messages_distinct;
  }
  with_runs paused p (err e) w f = w

  with_edit :
      (paused : Bool) (p : SessionProjection V) (id : String)
      (change : RunProjection V → Result ProjectionError (RunProjection V))
      → IsWellFormed p
      → KeepsFit change
      → IsWellFormed (put_runs paused p (edit_run id change p.runs)).0
  with_edit paused p id change w keep =
      with_runs paused p (edit_run id change p.runs) w
        (λ m h. edit_run-Fits id change p.runs keep w.runs_fit h)

  with_end :
      (paused : Bool) (p : SessionProjection V) (id : String) (status : RunStatus)
      (error : Option String)
      → IsWellFormed p
      → IsWellFormed (put_runs paused p (set_run_terminal id status error p.runs)).0
  with_end paused p id status error w =
      with_runs paused p (set_run_terminal id status error p.runs) w
        (λ m h. set_run_terminal-Fits id status error p.runs w.runs_fit h)

  with_agents :
      (p : SessionProjection V) (r : Agents V × Outcome ProjectionError)
      → IsWellFormed p
      → Fits InstanceFits r.0.instances
      → IsWellFormed (put_agents p r).0
  unfolding put_agents
  with_agents p r w f = record {
    runs_fit = w.runs_fit;
    requests_fit = w.requests_fit;
    instances_fit = f;
    messages_distinct = w.messages_distinct;
  }

module _ {V : Type 0} ⦃j : Json V⦄ where
  project_event-IsWellFormed :
      (p : SessionProjection V) (event_id : EventId) (event : SemanticEvent V)
      → IsWellFormed p
      → IsWellFormed (project_event p event_id event).0
  unfolding project_event change_agent_phase
  project_event-IsWellFormed p n (message_started id agent_id role author) w =
      with_messages p (start_message n id agent_id role author p.messages) w
        (λ ns h. start_message-Distinct n id agent_id role author p.messages w.messages_distinct h)
  project_event-IsWellFormed p n (message_content_appended id block) w =
      with_messages p (append_content n id block p.messages) w
        (λ ns h. append_content-Distinct n id block p.messages w.messages_distinct h)
  project_event-IsWellFormed p n (message_completed id) w =
      with_messages p (complete_message n id p.messages) w
        (λ ns h. complete_message-Distinct n id p.messages w.messages_distinct h)
  project_event-IsWellFormed p n (message_interrupted id) w =
      with_messages p (interrupt_message n id p.messages) w
        (λ ns h. interrupt_message-Distinct n id p.messages w.messages_distinct h)
  project_event-IsWellFormed p n (agent_spawned id parent_id link revision) w =
      with_agents p (spawn_agent id parent_id link revision (agents_of p)) w
        (spawn_agent-Fits id parent_id link revision (agents_of p) w.instances_fit)
  project_event-IsWellFormed p n (agent_phase_changed id phase) w =
      with_agents p (change_agent_phase id phase (agents_of p), ok tt) w w.instances_fit
  project_event-IsWellFormed p n (agent_finished id result) w =
      with_agents p (agent_finished_arm id result (agents_of p)) w
        (agent_finished_arm-Fits id result (agents_of p) w.instances_fit)
  project_event-IsWellFormed p n (agent_context_captured id references) w =
      with_agents p (agent_context_captured_arm id references (agents_of p)) w
        (agent_context_captured_arm-Fits id references (agents_of p) w.instances_fit)
  project_event-IsWellFormed p n (agent_result_delivered id parent_run_id parent_call_id result) w =
      with_agents p (agent_result_delivered_arm id result (agents_of p)) w
        (agent_result_delivered_arm-Fits id result (agents_of p) w.instances_fit)
  project_event-IsWellFormed p n
        (permission_requested id run_id call_id agent_id tool_name arguments) w =
      with_requests p
        (request_permission id run_id call_id agent_id tool_name arguments p.pending_permissions) w
        (λ m h.
          request_permission-Fits id run_id call_id agent_id tool_name arguments
            p.pending_permissions w.requests_fit h)
  project_event-IsWellFormed p n (permission_resolved id decision source scope rule_id reason) w =
      with_requests p (resolve_permission id decision p.pending_permissions) w
        (λ m h. resolve_permission-Fits id decision p.pending_permissions w.requests_fit h)
  project_event-IsWellFormed p n (run_queued id retry_of provider model request) w =
      with_runs p.queue_paused p (queue_run id retry_of provider model request p.runs) w
        (λ m h. queue_run-Fits id retry_of provider model request p.runs w.runs_fit h)
  project_event-IsWellFormed p n (run_started id attempt_id attempt) w =
      with_edit false p id (start_run id attempt_id attempt) w
        (start_run-KeepsFit id attempt_id attempt)
  project_event-IsWellFormed p n (run_completed id usage) w =
      with_runs p.queue_paused p (complete_run id usage p.runs) w
        (λ m h. complete_run-Fits id usage p.runs w.runs_fit h)
  project_event-IsWellFormed p n (run_attempt_started id attempt_id attempt) w =
      with_edit p.queue_paused p id (start_attempt id attempt_id attempt) w
        (start_attempt-KeepsFit id attempt_id attempt)
  project_event-IsWellFormed p n (run_failed id error) w = with_end true p id failed (some error) w
  project_event-IsWellFormed p n (run_cancelled id reason) w = with_end true p id cancelled none w
  project_event-IsWellFormed p n (run_interrupted id reason) w =
      with_end true p id interrupted (some reason) w
  project_event-IsWellFormed p n (run_requires_action id call_ids) w =
      with_edit true p id (require_action id) w (require_action-KeepsFit id)
  project_event-IsWellFormed p n
        (tool_call_emitted id message_id call_id agent_id tool_name arguments raw native) w =
      with_edit p.queue_paused p id
        (emit_call message_id call_id agent_id tool_name arguments raw native) w
        (emit_call-KeepsFit message_id call_id agent_id tool_name arguments raw native)
  project_event-IsWellFormed p n (tool_execution_started id call_id execution_id) w =
      with_edit p.queue_paused p id (edit_call call_id (claim_execution call_id execution_id)) w (
        edit_call-KeepsFit call_id (claim_execution call_id execution_id)
          (claim_execution-call_id call_id execution_id))
  project_event-IsWellFormed p n (tool_result id call_id agent_id tool_name result) w =
      with_edit p.queue_paused p id (edit_call call_id (record_result call_id result)) w (
        edit_call-KeepsFit call_id (record_result call_id result)
          (record_result-call_id call_id result))
  project_event-IsWellFormed p n (run_attempt_failed id attempt_id error retryable) w =
      with_edit p.queue_paused p id (fail_attempt error) w (fail_attempt-KeepsFit error)
  project_event-IsWellFormed p n event w = ground arith

  apply-IsWellFormed :
      (p : SessionProjection V) (event_id : EventId) (event : SemanticEvent V)
      → IsWellFormed p
      → IsWellFormed (apply p event_id event).0
  unfolding apply
  apply-IsWellFormed p event_id event w = go (SessionState.apply p.state event_id event)
    where
      go :
          (s : SessionState.SessionState × Outcome ProjectionError)
          → IsWellFormed (after_state p event_id event s).0
      go (state, ok tt) =
          project_event-IsWellFormed (record p { state = state }) event_id event
            (record {
              runs_fit = w.runs_fit;
              requests_fit = w.requests_fit;
              instances_fit = w.instances_fit;
              messages_distinct = w.messages_distinct;
            })
      go (state, err e) = record {
        runs_fit = w.runs_fit;
        requests_fit = w.requests_fit;
        instances_fit = w.instances_fit;
        messages_distinct = w.messages_distinct;
      }

  -- Every projection that a new session comes to, by any events, accepted or refused, has its runs,
  -- their tool calls, its permission requests and its agent instances in maps with increasing keys
  -- whose entries carry their keys, and has no two messages with one id.
  pub Later-IsWellFormed :
      (session_id : String) {p : SessionProjection V} → Later (new session_id) p → IsWellFormed p
  unfolding new
  Later-IsWellFormed session_id now = record {
    runs_fit = Fits-nil RunFits;
    requests_fit = Fits-nil RequestFits;
    instances_fit = Fits-nil InstanceFits;
    messages_distinct = tt;
  }
  Later-IsWellFormed session_id (then {q = q} l event_id event) =
      apply-IsWellFormed q event_id event (Later-IsWellFormed session_id l)

-- ===== src/Server/Supervisor/Calls/Kept.antt =====
-- What the primitive steps keep, the methods keep that queue no run.
use piqo_server.Prelude.{
  String, Bool, true, false, Option, none, some, List, [], ◌∷◌, Result, ok, err, arith,
}
use piqo_server.Prelude.Steps.Keeps.{Preorder, Keeps, update-Keeps}
use piqo_server.Core.Json.{Json}
use piqo_server.Core.Event.{SemanticEvent}
use piqo_server.Core.EventLog.{RecordedEvent}
use piqo_server.Core.Permissions.{
  PermissionDecision, PermissionScope, once, session, project, configuration,
}
use piqo_server.Core.Projection.{
  SessionProjection, RunProjection, ToolCallProjection, PermissionProjection, MessageProjection,
}
use piqo_server.Server.Storage.{StoreError}
use piqo_server.Server.PermissionRules.{PermissionRuleRecord}
use piqo_server.Server.Supervisor.{Session, Supervisor, Outside}
use piqo_server.Server.Supervisor.Primitives.{Primitives, SameHistory, method_rules}
use piqo_server.Server.Supervisor.Queueing.{resume}
use piqo_server.Server.Supervisor.Submitting.{record_submitted, submit, submit_tool_result}
use piqo_server.Server.Supervisor.Processing.{
  child_budget, max_model_turns, hold_token, drop_token, or_drop_token, resume_ready, finish_queue,
  start_queued, take_queued, take_next, process_next,
}
use piqo_server.Server.Supervisor.Finishing.{
  ExecutionResult, completed, completed_with_usage, failed, cancelled, interrupted, requires_action,
  record_event, interrupt_message, complete_message, stop_run, record_outcome,
}
use piqo_server.Server.Supervisor.Stopping.{
  append_any, interrupt_session, interrupt_remaining_runs, cancel_session_for_project_deletion,
  resume_session, cancel_running, resume_ready_actions_after_restart,
}
use piqo_server.Server.Supervisor.Resolving.{
  put_rule, add_rule, make_rule, rule_for, decide, record_resolution, resume_if_tool_results_ready,
  resume_denied, deny_permission,
}

module _ {V : Type 0} ⦃j : Json V⦄ (outside : Outside V) (R : Preorder (Supervisor V))
    (P : Primitives outside R) where
  record_submitted-Keeps :
      (session_id run_id call_id : String) (result : V) (run : RunProjection V)
      (call : ToolCallProjection V) (existing : Option V)
      → Keeps R (record_submitted outside session_id run_id call_id result run call existing)
  unfolding record_submitted
  record_submitted-Keeps session_id run_id call_id result run call none = search method_rules
  record_submitted-Keeps session_id run_id call_id result run call (some existing) =
      search method_rules

  pub submit_tool_result-Keeps :
      (session_id run_id call_id : String) (result : V)
      → Keeps R (submit_tool_result outside session_id run_id call_id result)
  unfolding submit_tool_result submit
  submit_tool_result-Keeps session_id run_id call_id result =
      search (method_rules, record_submitted-Keeps) depth 14

  child_budget-Keeps : (session_id : String) → Keeps R (child_budget {V = V} session_id)
  unfolding child_budget
  child_budget-Keeps session_id = search method_rules

  max_model_turns-Keeps : (session_id : String) → Keeps R (max_model_turns outside session_id)
  unfolding max_model_turns
  max_model_turns-Keeps session_id = search (method_rules, child_budget-Keeps)

  hold_token-Keeps : (run_id : String) → Keeps R (hold_token {V = V} run_id)
  unfolding hold_token
  hold_token-Keeps run_id = update-Keeps R _ (λ s. P.elsewhere s _ (ground arith))

  drop_token-Keeps : (run_id : String) → Keeps R (drop_token {V = V} run_id)
  unfolding drop_token
  drop_token-Keeps run_id = update-Keeps R _ (λ s. P.elsewhere s _ (ground arith))

  or_drop_token-Keeps :
      (run_id : String) (r : Result StoreError (List (RecordedEvent V)))
      → Keeps R (or_drop_token run_id r)
  unfolding or_drop_token
  or_drop_token-Keeps run_id (ok recorded) = search method_rules
  or_drop_token-Keeps run_id (err e) = search (method_rules, drop_token-Keeps)

  resume_ready-Keeps :
      (session_id : String) (run : RunProjection V) → Keeps R (resume_ready outside session_id run)
  unfolding resume_ready
  resume_ready-Keeps session_id run =
      search (method_rules, max_model_turns-Keeps, hold_token-Keeps) depth 12

  start_queued-Keeps :
      (session_id : String) (p : SessionProjection V) (run : RunProjection V)
      → Keeps R (start_queued outside session_id p run)
  unfolding start_queued
  start_queued-Keeps session_id p run =
      search (method_rules, hold_token-Keeps, or_drop_token-Keeps) depth 12

  take_queued-Keeps :
      (session_id : String) (p : SessionProjection V) (runs : List (RunProjection V))
      → Keeps R (take_queued outside session_id p runs)
  unfolding take_queued finish_queue
  take_queued-Keeps session_id p [] = search method_rules
  take_queued-Keeps session_id p (run ∷ runs) = start_queued-Keeps session_id p run

  take_next-Keeps :
      (session_id : String) (p : SessionProjection V) (ready : Option (RunProjection V))
      → Keeps R (take_next outside session_id p ready)
  unfolding take_next
  take_next-Keeps session_id p none = search (method_rules, take_queued-Keeps)
  take_next-Keeps session_id p (some run) = resume_ready-Keeps session_id run

  pub process_next-Keeps : (session_id : String) → Keeps R (process_next outside session_id)
  unfolding process_next
  process_next-Keeps session_id = search (method_rules, take_next-Keeps) depth 10

  record_event-Keeps :
      (session_id : String) (event : SemanticEvent V)
      → Keeps R (record_event outside session_id event)
  unfolding record_event
  record_event-Keeps session_id event = search method_rules

  stop_run-Keeps :
      (session_id : String) (run_event phase_event : SemanticEvent V)
      → Keeps R (stop_run outside session_id run_event phase_event)
  unfolding stop_run interrupt_message
  stop_run-Keeps session_id run_event phase_event =
      search (method_rules, record_event-Keeps) depth 10

  complete_message-Keeps :
      (test : MessageProjection V → Bool) (session_id : String)
      → Keeps R (complete_message outside test session_id)
  unfolding complete_message
  complete_message-Keeps test session_id = search (method_rules, record_event-Keeps)

  pub record_outcome-Keeps :
      (session_id run_id : String) (result : ExecutionResult V)
      → Keeps R (record_outcome outside session_id run_id result)
  unfolding record_outcome
  record_outcome-Keeps session_id run_id (completed_with_usage usage) =
      search (method_rules, complete_message-Keeps, record_event-Keeps)
  record_outcome-Keeps session_id run_id requires_action =
      search (method_rules, complete_message-Keeps, record_event-Keeps)
  record_outcome-Keeps session_id run_id completed = search method_rules
  record_outcome-Keeps session_id run_id cancelled = stop_run-Keeps session_id _ _
  record_outcome-Keeps session_id run_id interrupted = stop_run-Keeps session_id _ _
  record_outcome-Keeps session_id run_id (failed error retryable) = stop_run-Keeps session_id _ _

  append_any-Keeps :
      (session_id : String) (events : List (SemanticEvent V))
      → Keeps R (append_any outside session_id events)
  unfolding append_any
  append_any-Keeps session_id events = search method_rules

  pub interrupt_remaining_runs-Keeps :
      (reason : String) → Keeps R (interrupt_remaining_runs outside reason)
  unfolding interrupt_remaining_runs interrupt_session
  interrupt_remaining_runs-Keeps reason = search (method_rules, append_any-Keeps) depth 10

  cancel_running-Keeps : (runs : List (RunProjection V)) → Keeps R (cancel_running runs)
  unfolding cancel_running
  cancel_running-Keeps runs = update-Keeps R _ (λ s. P.elsewhere s _ (ground arith))

  pub cancel_session_for_project_deletion-Keeps :
      (session_id : String) → Keeps R (cancel_session_for_project_deletion outside session_id)
  unfolding cancel_session_for_project_deletion
  cancel_session_for_project_deletion-Keeps session_id =
      search (method_rules, append_any-Keeps, cancel_running-Keeps) depth 10

  pub resume_ready_actions_after_restart-Keeps :
      Keeps R (resume_ready_actions_after_restart outside)
  unfolding resume_ready_actions_after_restart resume_session
  resume_ready_actions_after_restart-Keeps = search (method_rules, append_any-Keeps) depth 12

  put_rule-SameHistory :
      (s : Supervisor V) (r : Result StoreError (PermissionRuleRecord × List PermissionRuleRecord))
      → SameHistory s (put_rule s r).0
  unfolding put_rule
  put_rule-SameHistory s (ok made) = ground arith
  put_rule-SameHistory s (err e) = ground arith

  add_rule-Keeps :
      (id : String) (scope : PermissionScope) (session_id project_id : Option String)
      (request : PermissionProjection V)
      → Keeps R (add_rule outside id scope session_id project_id request)
  unfolding add_rule
  add_rule-Keeps id scope session_id project_id request = record {
    over = λ s. P.elsewhere s _ (put_rule-SameHistory s _);
  }

  make_rule-Keeps :
      (scope : PermissionScope) (session_id project_id : Option String)
      (request : PermissionProjection V)
      → Keeps R (make_rule outside scope session_id project_id request)
  unfolding make_rule
  make_rule-Keeps scope session_id project_id request =
      search (method_rules, add_rule-Keeps) depth 8

  rule_for-Keeps :
      (session_id : String) (found : Session V) (request : PermissionProjection V)
      (scope : Option PermissionScope)
      → Keeps R (rule_for outside session_id found request scope)
  unfolding rule_for
  rule_for-Keeps session_id found request none = search method_rules
  rule_for-Keeps session_id found request (some once) = search method_rules
  rule_for-Keeps session_id found request (some session) = make_rule-Keeps session _ _ request
  rule_for-Keeps session_id found request (some project) = search (method_rules, make_rule-Keeps)
  rule_for-Keeps session_id found request (some configuration) =
      make_rule-Keeps configuration _ _ request

  decide-Keeps :
      (session_id run_id request_id : String) (decision : PermissionDecision)
      (scope : Option PermissionScope) (request : PermissionProjection V)
      (existing : Option PermissionDecision)
      → Keeps R (decide outside session_id run_id request_id decision scope request existing)
  unfolding decide
  decide-Keeps session_id run_id request_id decision scope request none =
      search (method_rules, rule_for-Keeps) depth 12
  decide-Keeps session_id run_id request_id decision scope request (some existing) =
      search method_rules

  pub record_resolution-Keeps :
      (session_id run_id request_id : String) (decision : PermissionDecision)
      (scope : Option PermissionScope)
      → Keeps R (record_resolution outside session_id run_id request_id decision scope)
  unfolding record_resolution
  record_resolution-Keeps session_id run_id request_id decision scope =
      search (method_rules, decide-Keeps) depth 10

  resume_denied-Keeps :
      (session_id run_id : String) (decided : Bool)
      → Keeps R (resume_denied outside session_id run_id decided)
  unfolding resume_denied resume_if_tool_results_ready
  resume_denied-Keeps session_id run_id true = search method_rules depth 10
  resume_denied-Keeps session_id run_id false = search method_rules

  pub deny_permission-Keeps :
      (session_id run_id request_id : String)
      → Keeps R (deny_permission outside session_id run_id request_id)
  unfolding deny_permission
  deny_permission-Keeps session_id run_id request_id =
      search (method_rules, record_resolution-Keeps, resume_denied-Keeps)

  pub resume-Keeps : (session_id : String) → Keeps R (resume outside session_id)
  unfolding resume
  resume-Keeps session_id = search method_rules depth 12

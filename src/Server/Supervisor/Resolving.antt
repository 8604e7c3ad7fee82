-- ===== src/Server/Supervisor/Resolving.antt =====
-- piqo-server/src/supervisor.rs: `resolve_permission` up to where an approved native tool executes, the
-- whole of `deny_permission`, and `resume_if_tool_results_ready`.
use piqo_server.Prelude.{
  String, Bool, true, false, not, ◌&&◌, Option, none, some, List, [], ◌∷◌, length, all, is_some,
  str_eq, if◌then◌else◌, Result, ok, err, ok_or, map_ok,
}
use piqo_server.Prelude.Map.{get, values}
use piqo_server.Prelude.Steps.{◌>>=◌, pure, fail, lift, check, when}
use piqo_server.Core.Json.{Json}
use piqo_server.Core.Permissions.{
  PermissionDecision, deny, PermissionScope, once, session, project, configuration,
  request_approval,
}
use piqo_server.Core.Event.{SemanticEvent, permission_resolved, tool_result, queue_resumed}
use piqo_server.Core.Projection.{SessionProjection, RunProjection, PermissionProjection}
use piqo_server.Core.Projection.Requests.{same_decision}
use piqo_server.Core.Projection.Queue.{awaits_action}
use piqo_server.Server.Storage.{
  StoreError, invalid_request, request_unknown, request_of_other_run, request_without_call,
  conflict, resolved_otherwise, invalid_permission_scope,
}
use piqo_server.Server.PermissionRules.{PermissionRuleRecord, create_permission_rule}
use piqo_server.Server.Supervisor.{
  Supervisor, Outside, Method, Session, ensure_running, ensure_session_mutable, get_session,
  projection, get_run, new_id, append_many, append, spawn_worker,
}

abbrev pub is_deny : PermissionDecision → Bool
is_deny deny = true
is_deny _ = false

module _ {V : Type 0} where
  unfoldable pub put_rule :
      Supervisor V
      → Result StoreError (PermissionRuleRecord × List PermissionRuleRecord)
      → Supervisor V × Result StoreError PermissionRuleRecord
  put_rule s (ok (rule, rules)) = (record s { rules = rules }, ok rule)
  put_rule s (err e) = (s, err e)

  -- the request, which must be the run's
  unfoldable pub find_request :
      SessionProjection V → String → String → Result StoreError (PermissionProjection V)
  find_request p run_id request_id = elim (get request_id p.pending_permissions) [
    | none ↦ err (invalid_request request_unknown)
    | some request ↦
        if str_eq request.run_id run_id
        then ok request
        else err (invalid_request request_of_other_run)
  ]

module _ {V : Type 0} (outside : Outside V) where
  -- the clock gives the time of the rule as it does that of an event
  unfoldable pub add_rule :
      String
      → PermissionScope
      → Option String
      → Option String
      → PermissionProjection V
      → Method V PermissionRuleRecord
  add_rule id scope session_id project_id request s = put_rule s (
      create_permission_rule id (outside.now (length s.published)) scope session_id project_id
        request.agent_id request.tool_name s.rules)

  unfoldable pub make_rule :
      PermissionScope
      → Option String
      → Option String
      → PermissionProjection V
      → Method V (Option String)
  make_rule scope session_id project_id request = do
    id ← new_id outside
    rule ← add_rule id scope session_id project_id request
    pure (some rule.id)

  -- the `match scope`; the id of the rule that was made
  unfoldable pub rule_for :
      String
      → Session V
      → PermissionProjection V
      → Option PermissionScope
      → Method V (Option String)
  rule_for session_id found request none = pure none
  rule_for session_id found request (some once) = pure none
  rule_for session_id found request (some session) =
      make_rule session (some session_id) none request
  rule_for session_id found request (some project) = do
    project_id ← lift (ok_or found.project_id invalid_permission_scope)
    make_rule project none (some project_id) request
  rule_for session_id found request (some configuration) = make_rule configuration none none request

  -- the events of a resolution; a denied request must have a tool call, whose result is the denial
  unfoldable pub resolution_events :
      String
      → String
      → PermissionDecision
      → Option PermissionScope
      → Option String
      → PermissionProjection V
      → Result StoreError (List (SemanticEvent V))
  resolution_events run_id request_id decision scope rule_id request =
      let resolved =
        permission_resolved request_id decision (some request_approval) scope rule_id none in
      if is_deny decision
      then map_ok
          (λ call_id.
            resolved
            ∷ tool_result run_id call_id request.agent_id request.tool_name
                outside.permission_denied
            ∷ [])
          (ok_or request.call_id (invalid_request request_without_call))
      else ok (resolved ∷ [])

module _ {V : Type 0} ⦃j : Json V⦄ (outside : Outside V) where
  -- a request that was decided already is left alone, or conflicts; `true` where this call decides it
  unfoldable pub decide :
      String
      → String
      → String
      → PermissionDecision
      → Option PermissionScope
      → PermissionProjection V
      → Option PermissionDecision
      → Method V Bool
  decide session_id run_id request_id decision scope request (some existing) =
      if same_decision existing decision then pure false else fail (conflict resolved_otherwise)
  decide session_id run_id request_id decision scope request none = do
    scoped ← check (not (is_deny decision && is_some scope)) invalid_permission_scope
    found ← get_session session_id
    rule_id ← rule_for outside session_id found request scope
    events ← lift (resolution_events outside run_id request_id decision scope rule_id request)
    recorded ← append_many outside session_id events
    pure true

  -- `resolve_permission` before the tools go on
  unfoldable pub record_resolution :
      String → String → String → PermissionDecision → Option PermissionScope → Method V Bool
  record_resolution session_id run_id request_id decision scope = do
    running ← ensure_running
    mutable ← ensure_session_mutable session_id
    p ← projection session_id
    request ← lift (find_request p run_id request_id)
    decide session_id run_id request_id decision scope request request.decision

  abbrev pub has_all_results : RunProjection V → Bool
  has_all_results run =
      awaits_action run.status && all (λ call. is_some call.result) (values run.tool_calls)

  unfoldable pub resume_if_tool_results_ready : String → String → Method V Bool
  resume_if_tool_results_ready session_id run_id = do
    p ← projection session_id
    run ← lift (get_run run_id p)
    if has_all_results run
        then (append outside session_id queue_resumed >>= λ recorded. pure true)
        else pure false

  unfoldable pub resume_denied : String → String → Bool → Method V Unit
  resume_denied session_id run_id false = pure tt
  resume_denied session_id run_id true = do
    ready ← resume_if_tool_results_ready session_id run_id
    when ready (spawn_worker session_id)

  unfoldable pub deny_permission : String → String → String → Method V Unit
  deny_permission session_id run_id request_id = do
    decided ← record_resolution session_id run_id request_id deny none
    resume_denied session_id run_id decided

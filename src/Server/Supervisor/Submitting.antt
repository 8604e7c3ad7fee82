-- ===== src/Server/Supervisor/Submitting.antt =====
-- piqo-server/src/supervisor.rs: `submit_tool_result`, the result of a tool that the client ran.
pub mod Accepted
use text.Mathlib.Text.{starts_with}
use piqo_server.Prelude.{
  ℕ, String, Bool, true, false, not, ◌&&◌, ◌||◌, Option, none, some, List, [], ◌∷◌, ◌++◌, any, all,
  find, is_some, option_eq, str_eq, if◌then◌else◌, Result, ok, err, ok_or,
}
use piqo_server.Prelude.Map.{get, values, contains_key}
use piqo_server.Prelude.Steps.{◌>>=◌, pure, fail, lift, check, when}
use piqo_server.Core.Json.{Json}
use piqo_server.Core.Permissions.{PermissionDecision, allow, ask, deny}
use piqo_server.Core.Event.{SemanticEvent, tool_result, queue_resumed}
use piqo_server.Core.SessionState.{Outcome}
use piqo_server.Core.Projection.{
  SessionProjection, RunProjection, ToolCallProjection, PermissionProjection,
}
use piqo_server.Core.Projection.Queue.{awaits_action}
use piqo_server.Server.Storage.{
  StoreError, conflict, not_awaiting_results, tool_denied, tool_not_approved,
  caller_owned_transcript, tool_call_not_found, tool_call_wrong_run, tool_result_conflict,
  native_tool_managed, mcp_tool_managed,
}
use piqo_server.Server.Supervisor.{
  Outside, Method, RunRequest, ensure_running, ensure_session_mutable, projection, get_run,
  parse_request, append_many, spawn_worker,
}

-- the `match permission.and_then(|permission| permission.decision)`
abbrev pub ensure_decided_allow : Option PermissionDecision → Outcome StoreError
ensure_decided_allow (some allow) = ok tt
ensure_decided_allow (some deny) = err (conflict tool_denied)
ensure_decided_allow _ = err (conflict tool_not_approved)

module _ {V : Type 0} where
  -- `request.body.get("messages").is_some() || request.body.get("input").is_some()`
  unfoldable pub owns_transcript : Outside V → RunRequest V → Bool
  owns_transcript outside request =
      outside.has_field "messages" request.body || outside.has_field "input" request.body

  -- the `match run.tool_calls.get(call_id)`
  unfoldable pub find_call :
      SessionProjection V
      → RunProjection V
      → String
      → String
      → Result StoreError (ToolCallProjection V)
  find_call p run run_id call_id = elim (get call_id run.tool_calls) [
    | some call ↦ ok call
    | none ↦
        if any (λ other. contains_key call_id other.tool_calls) (values p.runs)
        then err (tool_call_wrong_run call_id run_id)
        else err (tool_call_not_found call_id)
  ]

  unfoldable pub managed : ToolCallProjection V → String → StoreError
  managed call call_id =
      if starts_with call.tool_name "mcp__"
      then mcp_tool_managed call_id
      else native_tool_managed call_id

  abbrev pub request_for : String → String → PermissionProjection V → Bool
  request_for run_id call_id permission =
      str_eq permission.run_id run_id && option_eq str_eq permission.call_id (some call_id)

  abbrev pub decision_of : Option (PermissionProjection V) → Option PermissionDecision
  decision_of none = none
  decision_of (some permission) = permission.decision

  unfoldable pub ensure_allowed : SessionProjection V → String → String → Outcome StoreError
  ensure_allowed p run_id call_id =
      ensure_decided_allow
        (decision_of (find (request_for run_id call_id) (values p.pending_permissions)))

  -- every other call of the run has its result
  unfoldable pub is_last_result : RunProjection V → String → Bool
  is_last_result run call_id =
      all (λ call. str_eq call.call_id call_id || is_some call.result) (values run.tool_calls)

  unfoldable pub result_events :
      RunProjection V → ToolCallProjection V → String → String → V → List (SemanticEvent V)
  unfolding is_last_result
  result_events run call run_id call_id result =
      tool_result run_id call_id call.agent_id call.tool_name result
      ∷ (if is_last_result run call_id then queue_resumed ∷ [] else [])

module _ {V : Type 0} ⦃j : Json V⦄ (outside : Outside V) where
  -- `if let Some(existing) = &call.result`, else the result is recorded
  unfoldable pub record_submitted :
      String
      → String
      → String
      → V
      → RunProjection V
      → ToolCallProjection V
      → Option V
      → Method V Bool
  record_submitted session_id run_id call_id result run call (some existing) =
      if j.same existing result then pure false else fail (tool_result_conflict call_id)
  record_submitted session_id run_id call_id result run call none = do
    recorded ← append_many outside session_id (result_events run call run_id call_id result)
    pure (is_last_result run call_id)

  -- what `submit_tool_result` does under the session's lock
  unfoldable pub submit : String → String → String → V → Method V Bool
  submit session_id run_id call_id result = do
    p ← projection session_id
    run ← lift (get_run run_id p)
    waits ← check (awaits_action run.status) (conflict not_awaiting_results)
    request ← lift (parse_request outside run.request)
    managed_here ← check (not (owns_transcript outside request)) caller_owned_transcript
    call ← lift (find_call p run run_id call_id)
    not_native ← check (not call.native) (managed call call_id)
    allowed ← lift (ensure_allowed p run_id call_id)
    record_submitted session_id run_id call_id result run call call.result

  unfoldable pub submit_tool_result : String → String → String → V → Method V Unit
  submit_tool_result session_id run_id call_id result = do
    running ← ensure_running
    mutable ← ensure_session_mutable session_id
    all_ready ← submit session_id run_id call_id result
    when all_ready (spawn_worker session_id)

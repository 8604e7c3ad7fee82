-- ===== src/Server/ToolPermissions/Evaluate.antt =====
-- piqo-server/src/supervisor.rs: `Supervisor::evaluate_tool_permissions`, which settles the calls of a
-- run that have no result. The configured agent's permissions, the ceiling that the parent's link
-- records, the store's rule for a tool and the new request ids are given.
use piqo_server.Prelude.{
  String, Bool, true, false, not, Option, none, some, unwrap_or, is_some, List, [], ◌∷◌, ◌++◌,
  select, any, if◌then◌else◌,
}
use piqo_server.Prelude.Map.{values}
use piqo_server.Core.Permissions.{PermissionDecision, PermissionDecisionSource, PermissionScope}
use piqo_server.Core.Event.{SemanticEvent, permission_requested, permission_resolved, tool_result}
use piqo_server.Core.Projection.{RunProjection, ToolCallProjection}
use piqo_server.Server.ToolPermissions.{
  PermissionSetting, AgentPermissions, permission_setting, most_restrictive_permission, parse,
  permission_name,
}

-- of a `PermissionRuleRecord`, what the decision reads
pub record PermissionRuleRecord : Type 0 where
  pub id : String
  pub scope : PermissionScope

pub record Outcome : Type 0 where
  pub decision : PermissionDecision
  pub source : PermissionDecisionSource
  pub rule_id : Option String

-- the configured setting under the parent's ceiling
unfoldable pub restrict :
    Option PermissionSetting → Option PermissionSetting → Option PermissionSetting
restrict configured none = configured
restrict configured (some parent) =
    some (most_restrictive_permission (unwrap_or configured PermissionSetting.deny) parent)

unfoldable pub allows_interactive : Option PermissionSetting → Bool
allows_interactive none = true
allows_interactive (some PermissionSetting.allow) = true
allows_interactive (some PermissionSetting.ask) = false
allows_interactive (some PermissionSetting.deny) = false

unfoldable pub source_of : PermissionScope → PermissionDecisionSource
source_of PermissionScope.session = PermissionDecisionSource.session_rule
source_of PermissionScope.project = PermissionDecisionSource.project_rule
source_of PermissionScope.configuration = PermissionDecisionSource.interactive_configuration
source_of PermissionScope.once = PermissionDecisionSource.request_approval

unfoldable pub decide : Option PermissionSetting → Option PermissionRuleRecord → Outcome
unfolding source_of
decide (some PermissionSetting.deny) rule = record {
  decision = PermissionDecision.deny;
  source = PermissionDecisionSource.configuration;
  rule_id = none;
}
decide configured (some rule) = record {
  decision = PermissionDecision.allow;
  source = source_of rule.scope;
  rule_id = some rule.id;
}
decide (some PermissionSetting.allow) none = record {
  decision = PermissionDecision.allow;
  source = PermissionDecisionSource.configuration;
  rule_id = none;
}
decide (some PermissionSetting.ask) none = record {
  decision = PermissionDecision.ask;
  source = PermissionDecisionSource.configuration;
  rule_id = none;
}
decide none none = record {
  decision = PermissionDecision.deny;
  source = PermissionDecisionSource.default;
  rule_id = none;
}

-- `NativeTool::parse(…).map(permission_name).unwrap_or(…)`
unfoldable pub rule_tool : String → String
rule_tool tool_name = elim (parse tool_name) [ none ↦ tool_name | some tool ↦ permission_name tool ]

-- `Option::and_then` of the tool's setting
abbrev pub setting_in : Option AgentPermissions → String → Option PermissionSetting
setting_in none tool_name = none
setting_in (some permissions) tool_name = permission_setting permissions tool_name

abbrev pub is_ask : PermissionDecision → Bool
is_ask PermissionDecision.allow = false
is_ask PermissionDecision.ask = true
is_ask PermissionDecision.deny = false

abbrev pub is_deny : PermissionDecision → Bool
is_deny PermissionDecision.allow = false
is_deny PermissionDecision.ask = false
is_deny PermissionDecision.deny = true

abbrev pub open_calls : {V : Type 0} → RunProjection V → List (ToolCallProjection V)
open_calls run = select (λ call. not (is_some call.result)) (values run.tool_calls)

module _ (configured parent_ceiling : Option AgentPermissions)
    (matching_permission_rule : String → Option PermissionRuleRecord) where
  unfoldable pub outcome : String → Outcome
  unfolding restrict allows_interactive decide rule_tool
  outcome tool_name =
      let parent = setting_in parent_ceiling tool_name in
      decide (restrict (setting_in configured tool_name) parent)
        (if allows_interactive parent then matching_permission_rule (rule_tool tool_name) else none)

  module _ {V : Type 0} (new_request_id : ToolCallProjection V → String) (permission_denied : V)
      (agent_id : String) (run : RunProjection V) where
    -- a decision other than `Ask` resolves the request, and `Deny` answers the call
    unfoldable pub settle : ToolCallProjection V → Outcome → List (SemanticEvent V)
    settle call settled =
        (if is_ask settled.decision
          then []
          else permission_resolved (new_request_id call) settled.decision (some settled.source) none
              settled.rule_id none
            ∷ [])
        ++ (if is_deny settled.decision
            then tool_result run.run_id call.call_id call.agent_id call.tool_name permission_denied
              ∷ []
            else [])

    unfoldable pub evaluate_calls : List (ToolCallProjection V) → List (SemanticEvent V)
    unfolding settle
    evaluate_calls [] = []
    evaluate_calls (call ∷ calls) =
        permission_requested (new_request_id call) run.run_id (some call.call_id) agent_id
            call.tool_name call.arguments
          ∷ settle call (outcome call.tool_name)
        ++ evaluate_calls calls

    -- the events that are appended, and whether an approval is awaited
    unfoldable pub evaluate_tool_permissions : List (SemanticEvent V) × Bool
    unfolding outcome evaluate_calls
    evaluate_tool_permissions = (
      evaluate_calls (open_calls run),
      any (λ call. is_ask (outcome call.tool_name).decision) (open_calls run),
    )

-- ===== src/Tests/Permissions.antt =====
-- The ordered policy, the settings of tools, and the evaluation of a run's calls.
use piqo_server.Prelude.Map.{values}
use piqo_server.Prelude.{
  ◌≤◌, String, true, not, ◌≡◌, ◌≢◌, ◌↔◌, ◌⊎◌, refl, Option, none, some, or_else, is_some, [], ◌∷◌,
  any, map, select, List, if◌then◌else◌,
}
use piqo_server.Prelude.Map.{get}
use piqo_server.Core.Event.{SemanticEvent}
use piqo_server.Core.Phases.{RunStatus}
use piqo_server.Core.Projection.{RunProjection, ToolCallProjection}
use piqo_server.Core.Permissions.{
  PermissionDecision, PermissionDecisionSource, PermissionScope, PermissionPolicy, PermissionRule,
  ToolRequest, evaluate_explained, add_rule, matches, rule_name,
}
use piqo_server.Core.Permissions.FirstMatch.{evaluate_explained-add_rule}
use piqo_server.Server.ToolPermissions.{
  AgentPermissions, PermissionSetting, merge_permissions, permission_setting, parse, name,
}
use piqo_server.Server.ToolPermissions.Merging.{permission_setting-merge_permissions}
use piqo_server.Server.ToolPermissions.Evaluate.{
  PermissionRuleRecord, outcome, rule_tool, setting_in, evaluate_tool_permissions,
}
use piqo_server.Server.ToolPermissions.Ceiling.{rank, rank_of, outcome-ceiling, outcome-allow}
use piqo_server.Server.ToolPermissions.Answers.{
  requested, resolved, requests, decisions, decided, answered, unanswered, stays_open, denies,
  evaluate_tool_permissions-events, evaluate_tool_permissions-awaits,
}
use piqo_server.Tests.{a_run}

abbrev read_by : String → PermissionDecision → PermissionRule
read_by agent decision = record { agent_id = some agent; tool_name = "read"; decision = decision }

abbrev policy : PermissionPolicy
policy = record {
  rules = read_by "worker" PermissionDecision.deny ∷ [];
  default_decision = PermissionDecision.ask;
}

abbrev request : ToolRequest String
request = record { agent_id = "assistant"; tool_name = "read"; arguments = "{}" }

abbrev rule : PermissionRule
rule = read_by "assistant" PermissionDecision.allow

evaluate_explained-add_rule_example : evaluate_explained (add_rule policy rule) request ≡ (
    if any (λ r. matches r request) policy.rules
    then evaluate_explained policy request
    else if matches rule request
    then record {
      decision = rule.decision;
      source = PermissionDecisionSource.configuration;
      matching_rule = some (rule_name rule);
    }
    else record {
      decision = policy.default_decision;
      source = PermissionDecisionSource.default;
      matching_rule = none;
    })
evaluate_explained-add_rule_example = evaluate_explained-add_rule request policy rule

-- the agent may do all, its parent had to ask for reads
abbrev permissive : AgentPermissions
permissive = record {
  read = some PermissionSetting.allow;
  write = some PermissionSetting.allow;
  bash = some PermissionSetting.allow;
  mcp = none;
  tools = ("search", PermissionSetting.allow) ∷ [];
}

abbrev careful : AgentPermissions
careful = record {
  read = some PermissionSetting.ask;
  write = none;
  bash = some PermissionSetting.deny;
  mcp = some PermissionSetting.ask;
  tools = [];
}

permission_setting-merge_permissions_example :
    permission_setting (merge_permissions careful (some permissive)) "search"
    ≡ elim (parse "search") [
      | some native ↦
          or_else
            (permission_setting permissive (name native))
            (permission_setting careful (name native))
      | none ↦
          or_else
            (or_else (get "search" permissive.tools) (get "search" careful.tools))
            (or_else permissive.mcp careful.mcp)
    ]
permission_setting-merge_permissions_example =
    permission_setting-merge_permissions careful permissive "search" (tt, tt)

-- the store has a rule for every tool
abbrev rule_of : String → Option PermissionRuleRecord
rule_of tool = some (record { id = "rule"; scope = PermissionScope.session })

outcome-ceiling_example :
    rank PermissionSetting.ask
    ≤ rank_of (outcome (some permissive) (some careful) rule_of "read").decision
unfolding permission_setting
outcome-ceiling_example =
    outcome-ceiling (some permissive) (some careful) rule_of "read" {parent = PermissionSetting.ask}
      refl

outcome_allowed :
    (outcome (some permissive) none rule_of "read").decision ≡ PermissionDecision.allow
unfolding outcome permission_setting
outcome_allowed = refl

outcome-allow_example :
    ((outcome (some permissive) (some careful) rule_of "write").decision ≡ PermissionDecision.allow)
    ↔ (((setting_in (some careful) "write" ≡ none)
            × (setting_in (some permissive) "write" ≢ some PermissionSetting.deny)
          ⊎ (setting_in (some careful) "write" ≡ some PermissionSetting.allow)
            × ((setting_in (some permissive) "write" ≡ some PermissionSetting.allow)
                ⊎ (setting_in (some permissive) "write" ≡ some PermissionSetting.ask)))
        × ((setting_in (some permissive) "write" ≡ some PermissionSetting.allow)
            ⊎ (is_some (rule_of (rule_tool "write")) ≡ true)))
outcome-allow_example = outcome-allow (some permissive) (some careful) rule_of "write"

abbrev run : RunProjection String
run = a_run "run" RunStatus.requires_action none

abbrev id_of : ToolCallProjection String → String
id_of call = call.call_id

abbrev appended : List (SemanticEvent String)
appended =
    (evaluate_tool_permissions (some careful) none (λ tool. none) id_of "denied" "assistant" run).0

abbrev decision_on : ToolCallProjection String → PermissionDecision
decision_on call = (outcome (some careful) none (λ tool. none) call.tool_name).decision

evaluate_tool_permissions-events_example :
    (requests appended
      ≡ map
          (λ call. (id_of call, some call.call_id, call.tool_name))
          (unanswered (values run.tool_calls)))
    × (decisions appended
        ≡ map (decided (some careful) none (λ tool. none) id_of "denied" "assistant" run) (
            select
              (λ call. not (stays_open (decision_on call)))
              (unanswered (values run.tool_calls))))
    × (answered appended
        ≡ map
            (λ call. call.call_id)
            (select (λ call. denies (decision_on call)) (unanswered (values run.tool_calls))))
evaluate_tool_permissions-events_example =
    evaluate_tool_permissions-events (some careful) none (λ tool. none) id_of "denied" "assistant"
      run

evaluate_tool_permissions-awaits_example :
    resolved
      (evaluate_tool_permissions (some permissive) none rule_of id_of "denied" "assistant" run).0
    ≡ requested
        (evaluate_tool_permissions (some permissive) none rule_of id_of "denied" "assistant" run).0
unfolding evaluate_tool_permissions permission_setting outcome values
evaluate_tool_permissions-awaits_example =
    evaluate_tool_permissions-awaits (some permissive) none rule_of id_of "denied" "assistant" run
      refl

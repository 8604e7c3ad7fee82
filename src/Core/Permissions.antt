-- ===== src/Core/Permissions.antt =====
-- piqo-core/src/permissions.rs: the ordered permission policy.
pub mod FirstMatch
use piqo_server.Prelude.{
  String, Bool, true, ◌&&◌, Option, none, some, List, [], ◌∷◌, ◌++◌, find, str_eq, unwrap_or, ◌<>◌,
}

pub data PermissionDecision : Type 0 where
  allow ask deny : PermissionDecision

pub data PermissionScope : Type 0 where
  once session project configuration : PermissionScope

pub data PermissionDecisionSource : Type 0 where
  default configuration interactive_configuration project_rule session_rule request_approval :
      PermissionDecisionSource

pub record PermissionEvaluation : Type 0 where
  pub decision : PermissionDecision
  pub source : PermissionDecisionSource
  pub matching_rule : Option String

-- `V` is the type of JSON values.
pub record ToolRequest (V : Type 0) : Type 0 where
  pub agent_id : String
  pub tool_name : String
  pub arguments : V

pub record PermissionRule : Type 0 where
  pub agent_id : Option String
  pub tool_name : String
  pub decision : PermissionDecision

-- `is_none_or`
abbrev pub agent_fits : Option String → String → Bool
agent_fits none actual = true
agent_fits (some wanted) actual = str_eq wanted actual

unfoldable pub matches : {V : Type 0} → PermissionRule → ToolRequest V → Bool
matches rule request =
    str_eq rule.tool_name request.tool_name && agent_fits rule.agent_id request.agent_id

pub record PermissionPolicy : Type 0 where
  pub rules : List PermissionRule
  pub default_decision : PermissionDecision

unfoldable pub new : PermissionDecision → PermissionPolicy
new decision = record { rules = []; default_decision = decision }

unfoldable pub add_rule : PermissionPolicy → PermissionRule → PermissionPolicy
add_rule policy rule = record policy { rules = policy.rules ++ rule ∷ [] }

-- `format!("{}:{}", agent_id.unwrap_or("*"), tool_name)`
unfoldable pub rule_name : PermissionRule → String
rule_name rule = unwrap_or rule.agent_id "*" <> ":" <> rule.tool_name

explain : PermissionPolicy → Option PermissionRule → PermissionEvaluation
explain policy none = record {
  decision = policy.default_decision;
  source = PermissionDecisionSource.default;
  matching_rule = none;
}
explain policy (some rule) = record {
  decision = rule.decision;
  source = PermissionDecisionSource.configuration;
  matching_rule = some (rule_name rule);
}

unfoldable pub evaluate_explained :
    {V : Type 0} → PermissionPolicy → ToolRequest V → PermissionEvaluation
unfolding explain
evaluate_explained policy request =
    explain policy (find (λ rule. matches rule request) policy.rules)

unfoldable pub evaluate : {V : Type 0} → PermissionPolicy → ToolRequest V → PermissionDecision
evaluate policy request = (evaluate_explained policy request).decision

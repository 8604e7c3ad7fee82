-- ===== src/Server/ToolPermissions/Ceiling.antt =====
-- A tool call is never permitted beyond the parent's ceiling, and what the decision rests on.
use piqo_server.Prelude.{
  ℕ, ◌≤◌, String, true, ◌≡◌, ◌≢◌, ◌↔◌, ◌⊎◌, Option, none, some, is_some, if◌then◌else◌, arith,
}
use piqo_server.Core.Permissions.{PermissionDecision}
use piqo_server.Server.ToolPermissions.{
  PermissionSetting, AgentPermissions, most_restrictive_permission,
}
use piqo_server.Server.ToolPermissions.Evaluate.{
  PermissionRuleRecord, restrict, allows_interactive, decide, rule_tool, setting_in, outcome,
}

-- how strict a setting is, and how strict a decision is
abbrev pub rank : PermissionSetting → ℕ
rank PermissionSetting.allow = 0
rank PermissionSetting.ask = 1
rank PermissionSetting.deny = 2

abbrev pub rank_of : PermissionDecision → ℕ
rank_of PermissionDecision.allow = 0
rank_of PermissionDecision.ask = 1
rank_of PermissionDecision.deny = 2

-- The stricter of two settings is the least that is as strict as both.
pub most_restrictive_permission-least :
    (left right other : PermissionSetting)
    → (rank (most_restrictive_permission left right) ≤ rank other)
      ↔ ((rank left ≤ rank other) × (rank right ≤ rank other))
unfolding most_restrictive_permission
most_restrictive_permission-least left right other = ground arith

decide-ceiling :
    (setting : Option PermissionSetting) (parent : PermissionSetting)
    (rule : Option PermissionRuleRecord)
    → rank parent
      ≤ rank_of
          (decide
            (restrict setting (some parent))
            (if allows_interactive (some parent) then rule else none)).decision
unfolding decide restrict allows_interactive most_restrictive_permission
decide-ceiling setting parent rule = ground arith

module _ (configured parent_ceiling : Option AgentPermissions)
    (matching_permission_rule : String → Option PermissionRuleRecord) (tool_name : String) where
  -- Where the parent's ceiling has a setting for the tool, the decision is at least that strict: no rule
  -- of the store and no setting of the agent lifts it.
  pub outcome-ceiling :
      {parent : PermissionSetting}
      → setting_in parent_ceiling tool_name ≡ some parent
      → rank parent
        ≤ rank_of (outcome configured parent_ceiling matching_permission_rule tool_name).decision
  unfolding outcome
  outcome-ceiling {parent = parent} e = rw e (
      decide-ceiling (setting_in configured tool_name) parent
        (matching_permission_rule (rule_tool tool_name)))

  -- A call is allowed exactly when the ceiling has no setting for the tool or allows it, the agent's
  -- setting is not `Deny` and is there if the ceiling has one, and either that setting is `Allow` or
  -- the store has a rule for the tool.
  pub outcome-allow :
      ((outcome configured parent_ceiling matching_permission_rule tool_name).decision
        ≡ PermissionDecision.allow)
      ↔ (((setting_in parent_ceiling tool_name ≡ none)
              × (setting_in configured tool_name ≢ some PermissionSetting.deny)
            ⊎ (setting_in parent_ceiling tool_name ≡ some PermissionSetting.allow)
              × ((setting_in configured tool_name ≡ some PermissionSetting.allow)
                  ⊎ (setting_in configured tool_name ≡ some PermissionSetting.ask)))
          × ((setting_in configured tool_name ≡ some PermissionSetting.allow)
              ⊎ (is_some (matching_permission_rule (rule_tool tool_name)) ≡ true)))
  unfolding outcome decide restrict allows_interactive most_restrictive_permission
  outcome-allow = ground arith

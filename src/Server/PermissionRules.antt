-- ===== src/Server/PermissionRules.antt =====
-- piqo-server/src/storage.rs: the durable permission rules, a table whose rows are listed in the order
-- in which they were made.
use piqo_server.Prelude.{
  ℕ, String, Bool, true, false, not, ◌&&◌, Option, none, some, List, [], ◌∷◌, ◌++◌, any, select,
  str_eq, ltb, if◌then◌else◌, Result, ok, err,
}
use piqo_server.Core.Permissions.{PermissionScope, once, session, project, configuration}
use piqo_server.Server.Storage.{StoreError, invalid_permission_scope, permission_rule_not_found}

pub record PermissionRuleRecord : Type 0 where
  pub id : String
  pub scope : PermissionScope
  pub session_id : Option String
  pub project_id : Option String
  pub agent_id : String
  pub tool_name : String
  pub created_at : String

-- `matches!(scope, Once)`
abbrev pub is_once : PermissionScope → Bool
is_once once = true
is_once _ = false

-- `id` and `created_at` are a new UUID and the clock
unfoldable pub create_permission_rule :
    String
    → String
    → PermissionScope
    → Option String
    → Option String
    → String
    → String
    → List PermissionRuleRecord
    → Result StoreError (PermissionRuleRecord × List PermissionRuleRecord)
create_permission_rule id created_at scope session_id project_id agent_id tool_name rules =
    let rule : PermissionRuleRecord = record {
      id = id;
      scope = scope;
      session_id = session_id;
      project_id = project_id;
      agent_id = agent_id;
      tool_name = tool_name;
      created_at = created_at;
    } in
    if is_once scope then err invalid_permission_scope else ok (rule, rules ++ rule ∷ [])

unfoldable pub delete_permission_rule :
    String → List PermissionRuleRecord → Result StoreError (List PermissionRuleRecord)
delete_permission_rule id rules =
    if any (λ rule. str_eq rule.id id) rules
    then ok (select (λ rule. not (str_eq rule.id id)) rules)
    else err (permission_rule_not_found id)

-- a column that may be NULL equals no value
abbrev pub column_is : Option String → Option String → Bool
column_is (some value) (some wanted) = str_eq value wanted
column_is _ _ = false

-- the `scope` part of the WHERE clause
abbrev pub in_scope : String → Option String → PermissionRuleRecord → Bool
in_scope session_id project_id rule = elim rule.scope [
  | session ↦ column_is rule.session_id (some session_id)
  | project ↦ column_is rule.project_id project_id
  | configuration ↦ true
  | once ↦ false
]

abbrev pub rule_matches : String → Option String → String → String → PermissionRuleRecord → Bool
rule_matches session_id project_id agent_id tool_name rule =
    str_eq rule.agent_id agent_id
    && (str_eq rule.tool_name tool_name && in_scope session_id project_id rule)

-- `CASE scope WHEN 'session' THEN 3 WHEN 'project' THEN 2 ELSE 1 END`
abbrev pub scope_rank : PermissionScope → ℕ
scope_rank session = 3
scope_rank project = 2
scope_rank _ = 1

-- `ORDER BY …, created_at DESC LIMIT 1`: of the rules that match, one of the highest scope and, in it, the
-- one made last
unfoldable pub matching_permission_rule :
    String
    → Option String
    → String
    → String
    → List PermissionRuleRecord
    → Option PermissionRuleRecord
matching_permission_rule session_id project_id agent_id tool_name [] = none
matching_permission_rule session_id project_id agent_id tool_name (rule ∷ rules) =
    let rest = matching_permission_rule session_id project_id agent_id tool_name rules in
    if rule_matches session_id project_id agent_id tool_name rule
    then elim rest [
      | none ↦ some rule
      | some other ↦
          if ltb (scope_rank other.scope) (scope_rank rule.scope) then some rule else some other
    ]
    else rest

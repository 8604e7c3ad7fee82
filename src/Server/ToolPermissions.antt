-- ===== src/Server/ToolPermissions.antt =====
-- piqo-server/src/config.rs: `AgentPermissions` and how a session's overrides are merged into them;
-- piqo-server/src/supervisor.rs: the setting of a tool; piqo-tools/src/lib.rs: the native tools' names.
pub mod Merging
pub mod Evaluate
pub mod Ceiling
pub mod Answers
use piqo_server.Prelude.{
  String, Bool, true, false, Option, none, some, or_else, str_eq, ◌||◌, if◌then◌else◌, [], ◌∷◌,
}
use piqo_server.Prelude.Map.{Map, get, extend}

pub data PermissionSetting : Type 0 where
  allow ask deny : PermissionSetting

pub record AgentPermissions : Type 0 where
  pub read : Option PermissionSetting
  pub write : Option PermissionSetting
  pub bash : Option PermissionSetting
  pub mcp : Option PermissionSetting
  pub tools : Map PermissionSetting

unfoldable pub merge_permissions : AgentPermissions → Option AgentPermissions → AgentPermissions
merge_permissions target none = target
merge_permissions target (some over) = record {
  read = or_else over.read target.read;
  write = or_else over.write target.write;
  bash = or_else over.bash target.bash;
  mcp = or_else over.mcp target.mcp;
  tools = extend target.tools over.tools;
}

unfoldable pub permission_setting : AgentPermissions → String → Option PermissionSetting
permission_setting permissions tool_name =
    if str_eq tool_name "read"
    then permissions.read
    else if str_eq tool_name "write" || str_eq tool_name "edit"
    then permissions.write
    else if str_eq tool_name "bash"
    then permissions.bash
    else or_else (get tool_name permissions.tools) permissions.mcp

unfoldable pub most_restrictive_permission :
    PermissionSetting → PermissionSetting → PermissionSetting
most_restrictive_permission deny right = deny
most_restrictive_permission left deny = deny
most_restrictive_permission ask right = ask
most_restrictive_permission left ask = ask
most_restrictive_permission allow allow = allow

pub data NativeTool : Type 0 where
  read write edit bash : NativeTool

unfoldable pub parse : String → Option NativeTool
parse name =
    if str_eq name "read"
    then some NativeTool.read
    else if str_eq name "write"
    then some NativeTool.write
    else if str_eq name "edit"
    then some edit
    else if str_eq name "bash"
    then some NativeTool.bash
    else none

unfoldable pub name : NativeTool → String
name read = "read"
name write = "write"
name edit = "edit"
name bash = "bash"

unfoldable pub permission_name : NativeTool → String
permission_name read = "read"
permission_name write = "write"
permission_name edit = "write"
permission_name bash = "bash"

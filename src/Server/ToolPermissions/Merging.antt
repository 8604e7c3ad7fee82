-- ===== src/Server/ToolPermissions/Merging.antt =====
-- What merging permissions does to the setting of each tool, and the native tools' names.
use piqo_server.Prelude.{String, ◌≡◌, refl, none, some, or_else, eq_iff, arith}
use piqo_server.Prelude.Map.{get}
use piqo_server.Prelude.Map.Sorted.{IsSorted, get-extend}
use piqo_server.Server.ToolPermissions.{
  AgentPermissions, NativeTool, merge_permissions, permission_setting, parse, name, permission_name,
}

-- After a merge, a tool's own setting in the overrides decides, then the one in the target; a tool
-- that neither names gets the overrides' `mcp` setting, then the target's. The native tools get
-- their setting in the overrides or, without one, in the target.
pub permission_setting-merge_permissions :
    (target over : AgentPermissions) (tool_name : String)
    → IsSorted over.tools
    → permission_setting (merge_permissions target (some over)) tool_name ≡ elim (parse tool_name) [
      | some native ↦
          or_else (permission_setting over (name native)) (permission_setting target (name native))
      | none ↦
          or_else
            (or_else (get tool_name over.tools) (get tool_name target.tools))
            (or_else over.mcp target.mcp)
    ]
unfolding permission_setting merge_permissions parse name
permission_setting-merge_permissions target over tool_name s =
    ground (arith, get-extend tool_name target.tools over.tools s)

parse-eq-some : (other : String) (tool : NativeTool) → parse other ≡ some tool → name tool ≡ other
unfolding parse name
parse-eq-some other tool e =
    ground
      (arith, eq_iff other "read", eq_iff other "write", eq_iff other "edit", eq_iff other "bash")

-- A native tool's name reads back as the tool, no other name reads as a tool, and a tool has the
-- setting of the name under which it is permitted.
pub parse-name :
    (permissions : AgentPermissions) (tool : NativeTool)
    → (parse (name tool) ≡ some tool)
      × ((other : String) → parse other ≡ some tool → name tool ≡ other)
      × (permission_setting permissions (name tool)
          ≡ permission_setting permissions (permission_name tool))
unfolding parse name permission_setting permission_name
parse-name permissions NativeTool.read = (refl, λ other. parse-eq-some other NativeTool.read, refl)
parse-name permissions NativeTool.write =
    (refl, λ other. parse-eq-some other NativeTool.write, refl)
parse-name permissions NativeTool.edit = (refl, λ other. parse-eq-some other NativeTool.edit, refl)
parse-name permissions NativeTool.bash = (refl, λ other. parse-eq-some other NativeTool.bash, refl)

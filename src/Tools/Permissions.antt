-- ===== src/Tools/Permissions.antt =====
-- squad_runtime/tool_adapter.py: what `ControlledToolAdapter` checks before a tool does anything.
use Prim.Native.String.{◌++◌ as cat}
use squad_team.Prelude.{
  String, false, ◌&&◌, not, Option, none, some, ◌==◌, contains, is_empty, if◌then◌else◌,
}
use squad_team.Json.{Fields, end, field, str}
use squad_team.Models.{TaskNode}
use squad_team.World.{tool_permission, Exec, pure, raise, ◌>>=◌, ◌>>◌}
use squad_team.Nodes.{get_node}
use squad_team.Facade.{record_event}
use squad_team.AgentRegistry.{AgentProfile, get_agent}
use squad_team.Workspace.{validate_path_within_root}
use squad_team.Tools.{tool_config, matches_any, is_forbidden_relative, Adapter, patterns_for}

abbrev pub denial : TaskNode → String → String → String → String → Fields
denial node tool_name path reason failure_class = field "nodeId" (str node.id) (
    field "agentId" (str node.owner_agent_id) (
      field "toolName" (str tool_name) (
        field "path" (str path)
          (field "reason" (str reason) (field "failureClass" (str failure_class) end)))))

module _ (a : Adapter) where
  -- `_deny`: the denial is recorded, and then raised.
  unfoldable pub deny : {A : Type 0} → String → String → String → String → String → Exec A
  unfolding get_node record_event
  deny node_id tool_name path reason failure_class = do
    node ← get_node node_id
    record_event a.env node.run_id "tool_permission_denied"
        (denial node tool_name path reason failure_class) false
    raise (tool_permission reason failure_class)

  unfoldable pub profile_of : TaskNode → Exec AgentProfile
  unfolding get_agent
  profile_of node w = (get_agent a.registry node.owner_agent_id, w)

  unfoldable pub require_tool : String → String → String → Exec (Unit {0})
  unfolding get_node profile_of tool_config deny
  require_tool node_id tool_name capability = do
    node ← get_node node_id
    profile ← profile_of node
    (if (tool_config tool_name).internal_only
        then deny node_id tool_name "" "Internal tool" "POLICY_VIOLATION"
        else if not (contains profile.allowed_tools capability)
            && not (contains profile.allowed_tools tool_name)
        then deny node_id tool_name ""
            (cat "Tool " (cat tool_name (cat " not allowed for " profile.agent_id)))
            "POLICY_VIOLATION"
        else pure tt)

  -- What `_authorize_path` checks of a path inside the workspace.
  unfoldable pub authorize_relative :
      String → String → String → TaskNode → String → Exec (TaskNode × String)
  unfolding is_forbidden_relative deny profile_of matches_any
  authorize_relative node_id tool_name capability node rel =
      if is_forbidden_relative rel
      then deny node_id tool_name rel "Forbidden path" "SECURITY_VIOLATION"
      else (do
        profile ← profile_of node
        (if not (is_empty (patterns_for capability profile))
              && not (matches_any rel (patterns_for capability profile))
            then deny node_id tool_name rel (cat capability " path not allowed for role")
                "POLICY_VIOLATION"
            else pure (node, rel)))

  unfoldable pub authorize_resolved :
      String → String → String → String → TaskNode → Option String → Exec (TaskNode × String)
  unfolding deny authorize_relative
  authorize_resolved node_id tool_name path capability node none =
      deny node_id tool_name path "Path escapes workspace" "SECURITY_VIOLATION"
  authorize_resolved node_id tool_name path capability node (some rel) =
      authorize_relative node_id tool_name capability node rel

  unfoldable pub authorize_path : String → String → String → String → Exec (TaskNode × String)
  unfolding get_node require_tool validate_path_within_root authorize_resolved
  authorize_path node_id tool_name path capability = do
    node ← get_node node_id
    require_tool node_id tool_name capability
    authorize_resolved node_id tool_name path capability node
        (validate_path_within_root a.host path)

  unfoldable pub require_matching_base_snapshot : String → String → Exec (Unit {0})
  unfolding get_node deny
  require_matching_base_snapshot node_id base_snapshot_id = do
    node ← get_node node_id
    (if not (base_snapshot_id == node.checkpoint_id)
        then deny node_id "snapshot_guard" "" "baseSnapshotId does not match node checkpoint"
            "CHECKPOINT_MISMATCH"
        else pure tt)

-- ===== src/Tools/Calls.antt =====
-- squad_runtime/tool_adapter.py: the tools of `ControlledToolAdapter`, one function for each.
use Prim.Native.String.{◌++◌ as cat}
use squad_team.Prelude.{
  ℕ, String, Bool, true, false, ◌&&◌, not, Option, none, some, List, contains, map, length, select,
  find?, if◌then◌else◌,
}
use squad_team.Json.{
  Json, Fields, end, field, str, num, null, arr, obj, strings, get, set_field, sort_keys,
}
use squad_team.Canonicalization.{Env, json, py_str}
use squad_team.Models.{TaskNode, SquadEvent}
use squad_team.World.{
  World, file_not_found, os_error, bad_arguments, subprocess_timeout, ok, raised, Exec, pure, gets,
  ◌>>=◌, ◌>>◌,
}
use squad_team.Nodes.{get_node}
use squad_team.Facade.{record_event}
use squad_team.Workspace.{
  finished, timed_out, not_started, parts, read_text, write_text, with_files,
}
use squad_team.Snapshots.{last_part, sorted_files, seal_snapshot}
use squad_team.Tools.Permissions.{
  deny, require_tool, authorize_path, require_matching_base_snapshot,
}
use squad_team.Tools.{
  tool_config, to_event_payload, ToolResult, no_result, Commands, command_of, is_forbidden_relative,
  merged, replace_at, Adapter,
}

-- Keyword arguments: no other names than the signature has, and one text of a name.
only : List String → Fields → Bool
only names end = true
only names (field k v d) = contains names k && only names d

unfoldable pub text_of : Option Json → Option String
text_of (some (str s)) = some s
text_of _ = none

fields_of : Option Json → Option Fields
fields_of none = some end
fields_of (some null) = some end
fields_of (some (obj d)) = some d
fields_of _ = none

unfoldable pub bound {ℓ} : {A : Type ℓ} → String → Option A → Exec A
bound tool_name none w = (raised (bad_arguments tool_name), w)
bound tool_name (some v) w = (ok v, w)

unfoldable pub names_only : String → List String → Fields → Exec (Unit {0})
unfolding only bound
names_only tool_name names args = bound tool_name (if only names args then some tt else none)

unfoldable pub text_arg : String → String → Fields → Exec String
unfolding text_of bound
text_arg tool_name key args = bound tool_name (text_of (get args key))

unfoldable pub fields_arg : String → String → Fields → Exec Fields
unfolding fields_of bound
fields_arg tool_name key args = bound tool_name (fields_of (get args key))

-- `str(args.get("path", ""))`.
unfoldable pub path_shown : Env → Fields → String
unfolding py_str
path_shown env args = elim (get args "path") [ none ↦ "" | some v ↦ py_str env v ]

module _ (a : Adapter) where
  -- The payload of a tool_call event; keys of the tool's own payload win over the common ones.
  abbrev pub tool_payload : TaskNode → String → String → Fields → Fields
  unfolding tool_config to_event_payload merged
  tool_payload node node_id tool_name payload =
      merged
        (field "schemaVersion" (str "tool-call/v1") (
          field "nodeId" (str node_id) (
            field "agentId" (str node.owner_agent_id)
              (field "toolName" (str tool_name) (to_event_payload (tool_config tool_name) end)))))
        payload

  unfoldable pub record_tool_event : TaskNode → String → String → Fields → Exec SquadEvent
  unfolding record_event set_field sort_keys
  record_tool_event node node_id tool_name payload =
      let event_payload = tool_payload node node_id tool_name payload in
      record_event a.env node.run_id "tool_call"
        (set_field "eventHash"
          (str (cat "sha256:" (a.env.sha256 (json (sort_keys (obj event_payload)))))) event_payload)
        false

  -- `(workspace_root / rel).read_text()`, and `write_text` after its directories are made.
  unfoldable pub read_at : String → Exec String
  unfolding read_text
  read_at rel w = (
    elim (read_text rel w.files) [ none ↦ raised (file_not_found rel) | some content ↦ ok content ],
    w,
  )

  unfoldable pub write_at : String → String → Exec (Unit {0})
  unfolding write_text
  write_at rel content w =
      if a.host.can_write w.files rel
      then (ok tt, with_files (write_text rel content w.files) w)
      else (raised (os_error rel), w)

  unfoldable pub read_file : String → String → Exec ToolResult
  unfolding authorize_path read_at record_tool_event
  read_file node_id path = do
    (node, rel) ← authorize_path a node_id "read_file" path "read"
    content ← read_at rel
    record_tool_event node node_id "read_file" (field "path" (str rel) end)
    pure (record no_result { content = some content; path = some rel })

  abbrev pub listed : String → World → List String
  unfolding sorted_files is_forbidden_relative
  listed glob w =
      map (λ f. f.0)
        (sorted_files
          (select (λ f. a.host.glob glob f.0 && not (is_forbidden_relative f.0)) w.files))

  unfoldable pub list_files : String → String → Exec ToolResult
  unfolding get_node require_tool record_tool_event
  list_files node_id glob = do
    node ← get_node node_id
    require_tool a node_id "list_files" "read"
    files ← gets (listed glob)
    record_tool_event node node_id "list_files"
        (field "glob" (str glob) (field "count" (num (length files)) end))
    pure (record no_result { content = some (a.host.dumps (arr (strings files))) })

  -- What `write_file` and `apply_patch` do once a text is to be written.
  unfoldable pub commit_write :
      TaskNode → String → String → String → String → String → Exec ToolResult
  unfolding write_at seal_snapshot record_tool_event
  commit_write node node_id tool_name rel content base_snapshot_id = do
    write_at rel content
    snapshot_id ← seal_snapshot a.env a.host
    record_tool_event node node_id tool_name (
        field "path" (str rel) (
          field "baseSnapshotId" (str base_snapshot_id)
            (field "resultSnapshotId" (str snapshot_id) end)))
    pure (record no_result {
      path = some rel;
      base_snapshot_id = some base_snapshot_id;
      result_snapshot_id = some snapshot_id;
    })

  unfoldable pub write_file : String → String → String → String → Exec ToolResult
  unfolding authorize_path require_matching_base_snapshot commit_write
  write_file node_id path content base_snapshot_id = do
    (node, rel) ← authorize_path a node_id "write_file" path "write"
    require_matching_base_snapshot a node_id base_snapshot_id
    commit_write node node_id "write_file" rel content base_snapshot_id

  unfoldable pub patch_found :
      TaskNode → String → String → String → String → String → String → Option ℕ → Exec ToolResult
  unfolding deny commit_write replace_at
  patch_found node node_id rel content old new base_snapshot_id none =
      deny a node_id "apply_patch" rel "Patch search text not found" "CONFIG_ERROR"
  patch_found node node_id rel content old new base_snapshot_id (some i) =
      commit_write node node_id "apply_patch" rel (replace_at content old new i) base_snapshot_id

  unfoldable pub apply_patch : String → String → String → String → String → Exec ToolResult
  unfolding authorize_path require_matching_base_snapshot read_at patch_found
  apply_patch node_id path old new base_snapshot_id = do
    (node, rel) ← authorize_path a node_id "apply_patch" path "write"
    require_matching_base_snapshot a node_id base_snapshot_id
    content ← read_at rel
    patch_found node node_id rel content old new base_snapshot_id (find? content old)

  -- `subprocess.run` in the workspace root.
  unfoldable pub run_process : List String → Exec (ℕ × String × String)
  run_process command w = elim (a.host.subprocess command w.files) [
    | finished returncode stdout stderr files ↦
        (ok (returncode, stdout, stderr), with_files files w)
    | timed_out files ↦ (raised subprocess_timeout, with_files files w)
    | not_started ↦ (raised (os_error "subprocess"), w)
  ]

  unfoldable pub run_found :
      TaskNode → String → String → String → Option (List String) → Exec ToolResult
  unfolding deny run_process record_tool_event
  run_found node node_id tool_name command_id none =
      deny a node_id tool_name command_id (cat "Unknown command id " command_id) "CONFIG_ERROR"
  run_found node node_id tool_name command_id (some command) = do
    (returncode, stdout, stderr) ← run_process command
    record_tool_event node node_id tool_name
        (field "commandId" (str command_id) (field "exitCode" (num returncode) end))
    pure (record no_result {
      exit_code = some returncode;
      stdout = some stdout;
      stderr = some stderr;
    })

  unfoldable pub run_registered_command : String → String → String → Commands → Exec ToolResult
  unfolding get_node require_tool run_found
  run_registered_command node_id tool_name command_id commands = do
    node ← get_node node_id
    require_tool a node_id tool_name "test"
    run_found node node_id tool_name command_id (command_of commands command_id)

  unfoldable pub register_artifact : String → String → String → String → Fields → Exec ToolResult
  unfolding authorize_path record_tool_event record_event parts
  register_artifact node_id path type' purpose metadata = do
    (node, rel) ← authorize_path a node_id "register_artifact" path "read"
    record_tool_event node node_id "register_artifact" (
        field "path" (str rel) (
          field "type" (str type')
            (field "purpose" (str purpose) (field "metadata" (obj metadata) end))))
    record_event a.env node.run_id "artifact_produced"
        (field "name" (str (last_part (parts rel))) (
          field "path" (str rel) (
            field "type" (str type')
              (field "purpose" (str purpose) (field "metadata" (obj metadata) end)))))
        false
    pure (record no_result { path = some rel })

  -- `{"kind": kind, "status": result, **metadata, "metadata": metadata}`.
  abbrev pub verification_payload : String → String → Fields → Fields
  unfolding merged set_field
  verification_payload kind result metadata =
      set_field "metadata" (obj metadata)
        (merged (field "kind" (str kind) (field "status" (str result) end)) metadata)

  unfoldable pub register_verification : String → String → String → Fields → Exec ToolResult
  unfolding get_node require_tool record_tool_event record_event
  register_verification node_id kind result metadata = do
    node ← get_node node_id
    require_tool a node_id "register_verification" "test"
    record_tool_event node node_id "register_verification"
        (verification_payload kind result metadata)
    record_event a.env node.run_id "verification_result" (verification_payload kind result metadata)
        false
    pure (record no_result {
      content = some (a.host.dumps (obj (verification_payload kind result metadata)));
    })

  unfoldable pub request_snapshot_seal : String → String → Exec ToolResult
  unfolding get_node require_tool record_tool_event
  request_snapshot_seal node_id reason = do
    node ← get_node node_id
    require_tool a node_id "request_snapshot_seal" "read"
    record_tool_event node node_id "request_snapshot_seal" (field "reason" (str reason) end)
    pure (record no_result { content = some "snapshot seal requested" })

-- ===== src/Tools/Dispatch.antt =====
-- `ControlledToolAdapter.call_tool`: a tool that is known, neither forbidden nor internal, is called
-- with its keyword arguments bound to the parameters of its method.
use squad_team.Prelude.{String, not, none, some, [], ◌∷◌, ◌==◌, contains, if◌then◌else◌}
use squad_team.Json.{Fields, get}
use squad_team.World.{Exec, ◌>>=◌, ◌>>◌}
use squad_team.Tools.{known_tool, forbidden_tools, ToolResult, Commands, Adapter}
use squad_team.Tools.Calls.{
  names_only, text_arg, fields_arg, path_shown, read_file, list_files, write_file, apply_patch,
  run_registered_command, register_artifact, register_verification, request_snapshot_seal,
}
use squad_team.Tools.Permissions.{deny}

module _ (a : Adapter) (node_id : String) where
  -- A method whose one parameter is a text.
  unfoldable pub with_text : String → String → Fields → (String → Exec ToolResult) → Exec ToolResult
  unfolding names_only text_arg
  with_text tool_name key args method = do
    names_only tool_name (key ∷ []) args
    value ← text_arg tool_name key args
    method value

  unfoldable pub call_list_files : Fields → Exec ToolResult
  unfolding with_text list_files names_only
  call_list_files args = elim (get args "glob") [
    | none ↦ names_only "list_files" [] args >> list_files a node_id "**/*"
    | some v ↦ with_text "list_files" "glob" args (list_files a node_id)
  ]

  unfoldable pub call_write_file : Fields → Exec ToolResult
  unfolding names_only text_arg write_file
  call_write_file args = do
    names_only "write_file" ("path" ∷ "content" ∷ "base_snapshot_id" ∷ []) args
    path ← text_arg "write_file" "path" args
    content ← text_arg "write_file" "content" args
    base_snapshot_id ← text_arg "write_file" "base_snapshot_id" args
    write_file a node_id path content base_snapshot_id

  unfoldable pub call_apply_patch : Fields → Exec ToolResult
  unfolding names_only text_arg apply_patch
  call_apply_patch args = do
    names_only "apply_patch" ("path" ∷ "old" ∷ "new" ∷ "base_snapshot_id" ∷ []) args
    path ← text_arg "apply_patch" "path" args
    old ← text_arg "apply_patch" "old" args
    new ← text_arg "apply_patch" "new" args
    base_snapshot_id ← text_arg "apply_patch" "base_snapshot_id" args
    apply_patch a node_id path old new base_snapshot_id

  unfoldable pub call_command : String → String → Commands → Fields → Exec ToolResult
  unfolding with_text run_registered_command
  call_command tool_name key commands args =
      with_text tool_name key args (λ id. run_registered_command a node_id tool_name id commands)

  unfoldable pub call_register_artifact : Fields → Exec ToolResult
  unfolding names_only text_arg fields_arg register_artifact
  call_register_artifact args = do
    names_only "register_artifact" ("path" ∷ "type" ∷ "purpose" ∷ "metadata" ∷ []) args
    path ← text_arg "register_artifact" "path" args
    type' ← text_arg "register_artifact" "type" args
    purpose ← text_arg "register_artifact" "purpose" args
    metadata ← fields_arg "register_artifact" "metadata" args
    register_artifact a node_id path type' purpose metadata

  unfoldable pub call_register_verification : Fields → Exec ToolResult
  unfolding names_only text_arg fields_arg register_verification
  call_register_verification args = do
    names_only "register_verification" ("kind" ∷ "result" ∷ "metadata" ∷ []) args
    kind ← text_arg "register_verification" "kind" args
    result ← text_arg "register_verification" "result" args
    metadata ← fields_arg "register_verification" "metadata" args
    register_verification a node_id kind result metadata

  -- `getattr(self, tool_name)(node_id, **args)`, for the names that pass the checks before it.
  unfoldable pub dispatch : String → Fields → Exec ToolResult
  unfolding with_text read_file call_list_files call_write_file call_apply_patch call_command
      call_register_artifact call_register_verification request_snapshot_seal
  dispatch tool_name args =
      if tool_name == "read_file"
      then with_text "read_file" "path" args (read_file a node_id)
      else if tool_name == "list_files"
      then call_list_files args
      else if tool_name == "write_file"
      then call_write_file args
      else if tool_name == "apply_patch"
      then call_apply_patch args
      else if tool_name == "run_test"
      then call_command "run_test" "test_id" a.test_commands args
      else if tool_name == "run_build"
      then call_command "run_build" "build_id" a.build_commands args
      else if tool_name == "run_lint"
      then call_command "run_lint" "lint_id" a.lint_commands args
      else if tool_name == "run_scan"
      then call_command "run_scan" "scan_id" a.scan_commands args
      else if tool_name == "register_artifact"
      then call_register_artifact args
      else if tool_name == "register_verification"
      then call_register_verification args
      else with_text "request_snapshot_seal" "reason" args (request_snapshot_seal a node_id)

  unfoldable pub call_tool : String → Fields → Exec ToolResult
  unfolding deny path_shown known_tool dispatch
  call_tool tool_name args =
      if contains forbidden_tools tool_name
      then deny a node_id tool_name (path_shown a.env args) "Forbidden tool" "SECURITY_VIOLATION"
      else if tool_name == "seal_snapshot"
      then deny a node_id tool_name "" "seal_snapshot is internal only" "POLICY_VIOLATION"
      else if not (known_tool tool_name)
      then deny a node_id tool_name (path_shown a.env args) "Unknown tool" "CONFIG_ERROR"
      else dispatch tool_name args

-- ===== src/Tools/Authority.antt =====
-- `ControlledToolAdapter.call_tool` of squad_runtime/tool_adapter.py: what any call does.
use mathlib.Core.Option.{some-injective}
use squad_team.Prelude.{
  String, ◌≡◌, refl, ap, Option, none, eq_iff, inl, inr, Bool, true, false, some, Option-cases,
  List, [], ◌∷◌, ◌==◌, not, contains, if◌then◌else◌,
}
use squad_team.Json.{Json, null, bool, num, str, arr, obj, Fields, get}
use squad_team.World.{World, Error, raised, Exec, ◌>>=◌, ◌>>◌}
use squad_team.Tools.{Commands, ToolResult, Adapter, forbidden_tools, known_tool}
use squad_team.Tools.Calls.{text_of, names_only, text_arg, fields_arg}
use squad_team.Tools.Dispatch.{
  with_text, call_list_files, call_write_file, call_apply_patch, call_command,
  call_register_artifact, call_register_verification, dispatch, call_tool,
}
use squad_team.Tools.Trace.{ToolCall, IsRunner, Acts, Trace, IsDenialOf, is_denial}
use squad_team.Tools.Guards.{Acts-then, deny-Guards, bound-Guards}
use squad_team.Tools.Effects.{Acts-checked}
use squad_team.Tools.Acts.{
  read_file-Acts, list_files-Acts, write_file-Acts, apply_patch-Acts, run_registered-Acts,
  register_artifact-Acts, register_verification-Acts, request_seal-Acts,
}

text_of-some : (o : Option Json) (x : String) → text_of o ≡ some x → o ≡ some (str x)
unfolding text_of
text_of-some (some (str s)) x h = ap (λ t. some (str t)) (some-injective _ _ h)
text_of-some none x h = cc
text_of-some (some null) x h = cc
text_of-some (some (bool b)) x h = cc
text_of-some (some (num n)) x h = cc
text_of-some (some (arr xs)) x h = cc
text_of-some (some (obj d)) x h = cc

abbrev pub called : String → Fields → ToolCall
called tool_name args = record { tool_name = tool_name; args = args }

module _ (a : Adapter) (node_id : String) (w : World) {tc : ToolCall} where
  names-then :
      (tool_name : String) (names : List String) (args : Fields) (m : Exec ToolResult)
      → Acts a node_id tc w (m w)
      → Acts a node_id tc w ((names_only tool_name names args >> m) w)
  unfolding names_only
  names-then tool_name names args m acts =
      Acts-then a node_id (names_only tool_name names args) _ w _
        (bound-Guards a node_id w tool_name _) λ _ _. acts

  text-then :
      (tool_name key : String) (args : Fields) (f : String → Exec ToolResult)
      → ((x : String) → get args key ≡ some (str x) → Acts a node_id tc w (f x w))
      → Acts a node_id tc w ((text_arg tool_name key args >>= f) w)
  unfolding text_arg
  text-then tool_name key args f acts =
      Acts-then a node_id (text_arg tool_name key args) f w _ (bound-Guards a node_id w tool_name _)
        λ x h. acts x (text_of-some _ x h)

  fields-then :
      (tool_name key : String) (args : Fields) (f : Fields → Exec ToolResult)
      → ((x : Fields) → Acts a node_id tc w (f x w))
      → Acts a node_id tc w ((fields_arg tool_name key args >>= f) w)
  unfolding fields_arg
  fields-then tool_name key args f acts =
      Acts-then a node_id (fields_arg tool_name key args) f w _
        (bound-Guards a node_id w tool_name _) λ x _. acts x

  with_text-Acts :
      (tool_name key : String) (args : Fields) (method : String → Exec ToolResult)
      → ((x : String) → get args key ≡ some (str x) → Acts a node_id tc w (method x w))
      → Acts a node_id tc w (with_text a node_id tool_name key args method w)
  unfolding with_text
  with_text-Acts tool_name key args method acts =
      names-then tool_name (key ∷ []) args _ (text-then tool_name key args method acts)

  call_list_files-Acts : (args : Fields) → Acts a node_id tc w (call_list_files a node_id args w)
  unfolding call_list_files
  call_list_files-Acts args = elim (Option-cases (get args "glob")) [
    | inl e ↦
        rw (e, call_list_files)
          (names-then "list_files" [] args _ (list_files-Acts a node_id w "**/*"))
    | inr (v, e) ↦
        rw (e, call_list_files)
          (with_text-Acts "list_files" "glob" args _ λ x _. list_files-Acts a node_id w x)
  ]

  call_register_artifact-Acts :
      (args : Fields) → Acts a node_id tc w (call_register_artifact a node_id args w)
  unfolding call_register_artifact
  call_register_artifact-Acts args =
      names-then "register_artifact" ("path" ∷ "type" ∷ "purpose" ∷ "metadata" ∷ []) args _ (
        text-then "register_artifact" "path" args _ λ path _.
          text-then "register_artifact" "type" args _ λ type' _.
            text-then "register_artifact" "purpose" args _ λ purpose _.
              fields-then "register_artifact" "metadata" args _
                λ metadata. register_artifact-Acts a node_id w path type' purpose metadata)

  call_register_verification-Acts :
      (args : Fields) → Acts a node_id tc w (call_register_verification a node_id args w)
  unfolding call_register_verification
  call_register_verification-Acts args =
      names-then "register_verification" ("kind" ∷ "result" ∷ "metadata" ∷ []) args _ (
        text-then "register_verification" "kind" args _ λ kind _.
          text-then "register_verification" "result" args _ λ result _.
            fields-then "register_verification" "metadata" args _
              λ metadata. register_verification-Acts a node_id w kind result metadata)

  if-Acts :
      (b : Bool) (m k : Exec ToolResult)
      → (b ≡ true → Acts a node_id tc w (m w))
      → Acts a node_id tc w (k w)
      → Acts a node_id tc w ((if b then m else k) w)
  if-Acts true m k hm hk = hm refl
  if-Acts false m k hm hk = hk

module _ (a : Adapter) (node_id : String) (w : World) where
  call_write_file-Acts :
      (tool_name : String) (args : Fields)
      → tool_name ≡ "write_file"
      → Acts a node_id (called tool_name args) w (call_write_file a node_id args w)
  unfolding call_write_file
  call_write_file-Acts tool_name args named =
      names-then a node_id w "write_file" ("path" ∷ "content" ∷ "base_snapshot_id" ∷ []) args _ (
        text-then a node_id w "write_file" "path" args _ λ path p.
          text-then a node_id w "write_file" "content" args _ λ content _.
            text-then a node_id w "write_file" "base_snapshot_id" args _
              λ base b. write_file-Acts a node_id w path content base (named, p, b))

  call_apply_patch-Acts :
      (tool_name : String) (args : Fields)
      → tool_name ≡ "apply_patch"
      → Acts a node_id (called tool_name args) w (call_apply_patch a node_id args w)
  unfolding call_apply_patch
  call_apply_patch-Acts tool_name args named =
      names-then a node_id w "apply_patch" ("path" ∷ "old" ∷ "new" ∷ "base_snapshot_id" ∷ []) args _
        (text-then a node_id w "apply_patch" "path" args _ λ path p.
          text-then a node_id w "apply_patch" "old" args _ λ old _.
            text-then a node_id w "apply_patch" "new" args _ λ new _.
              text-then a node_id w "apply_patch" "base_snapshot_id" args _
                λ base b. apply_patch-Acts a node_id w path old new base (named, p, b))

  call_command-Acts :
      (tool_name key : String) (commands : Commands) (name : String) (args : Fields)
      → name ≡ tool_name
      → IsRunner a node_id (called name args) key commands
      → Acts a node_id (called name args) w (call_command a node_id tool_name key commands args w)
  unfolding call_command
  call_command-Acts tool_name key commands name args named runner =
      with_text-Acts a node_id w tool_name key args _
        λ id h. run_registered-Acts a node_id w tool_name key id commands named runner h

  dispatch-Acts :
      (tool_name : String) (args : Fields)
      → Acts a node_id (called tool_name args) w (dispatch a node_id tool_name args w)
  unfolding dispatch
  dispatch-Acts tool_name args =
      if-Acts a node_id w (tool_name == "read_file") _ _
        (λ _.
          with_text-Acts a node_id w "read_file" "path" args _ λ x _. read_file-Acts a node_id w x)
        (if-Acts a node_id w (tool_name == "list_files") _ _
          (λ _. call_list_files-Acts a node_id w args)
          (if-Acts a node_id w (tool_name == "write_file") _ _
            (λ e. call_write_file-Acts tool_name args ((eq_iff tool_name "write_file").0 e))
            (if-Acts a node_id w (tool_name == "apply_patch") _ _
              (λ e. call_apply_patch-Acts tool_name args ((eq_iff tool_name "apply_patch").0 e))
              (if-Acts a node_id w (tool_name == "run_test") _ _
                (λ e.
                  let named = (eq_iff tool_name "run_test").0 e in
                  call_command-Acts "run_test" "test_id" a.test_commands tool_name args named
                    (inl (named, refl, refl)))
                (if-Acts a node_id w (tool_name == "run_build") _ _
                  (λ e.
                    let named = (eq_iff tool_name "run_build").0 e in
                    call_command-Acts "run_build" "build_id" a.build_commands tool_name args named
                      (inr (inl (named, refl, refl))))
                  (if-Acts a node_id w (tool_name == "run_lint") _ _
                    (λ e.
                      let named = (eq_iff tool_name "run_lint").0 e in
                      call_command-Acts "run_lint" "lint_id" a.lint_commands tool_name args named
                        (inr (inr (inl (named, refl, refl)))))
                    (if-Acts a node_id w (tool_name == "run_scan") _ _
                      (λ e.
                        let named = (eq_iff tool_name "run_scan").0 e in
                        call_command-Acts "run_scan" "scan_id" a.scan_commands tool_name args named
                          (inr (inr (inr (named, refl, refl)))))
                      (if-Acts a node_id w (tool_name == "register_artifact") _ _
                        (λ _. call_register_artifact-Acts a node_id w args)
                        (if-Acts a node_id w (tool_name == "register_verification") _ _
                          (λ _. call_register_verification-Acts a node_id w args)
                          (with_text-Acts a node_id w "request_snapshot_seal" "reason" args _
                            λ x _. request_seal-Acts a node_id w x))))))))))

  -- Whatever a tool call does, it is a chain of steps of these kinds: an event of one of the four
  -- types of tool events is logged; a snapshot is sealed; a file is written at what the call's path
  -- resolves to, where the node's agent is authorized to write with the call's tool and the call's
  -- base_snapshot_id is the node's checkpoint; or a command is run that the call's tool and id name,
  -- where the agent may use the tool. A call that raises ToolPermissionError has done nothing but log
  -- one tool_permission_denied event, which shows the tool, the path, the reason and the failure
  -- class.
  pub call_tool-Acts :
      (tool_name : String) (args : Fields)
      → Trace a node_id (called tool_name args) w (call_tool a node_id tool_name args w).1
        × ((e : Error)
            → (call_tool a node_id tool_name args w).0 ≡ raised e
            → is_denial e ≡ true
            → IsDenialOf a node_id e w (call_tool a node_id tool_name args w).1)
  unfolding call_tool
  call_tool-Acts tool_name args =
      if-Acts a node_id w (contains forbidden_tools tool_name) _ _
        (λ _. Acts-checked a node_id w _ (deny-Guards a node_id w _ _ _ _ _))
        (if-Acts a node_id w (tool_name == "seal_snapshot") _ _
          (λ _. Acts-checked a node_id w _ (deny-Guards a node_id w _ _ _ _ _))
          (if-Acts a node_id w (not (known_tool tool_name)) _ _
            (λ _. Acts-checked a node_id w _ (deny-Guards a node_id w _ _ _ _ _))
            (dispatch-Acts tool_name args)))

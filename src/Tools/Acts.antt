-- ===== src/Tools/Acts.antt =====
-- squad_runtime/tool_adapter.py: whatever a tool does is a chain of changes that its agent may make,
-- and a denial is all that a denied tool does.
use squad_team.Prelude.{
  ℕ, String, ◌≡◌, refl, sym, ap, ◌∙◌, eq_iff, true, Option, none, some, List, ◌==◌, ◌||◌, contains,
  find?,
}
use mathlib.Core.Path.{subst}
use squad_team.Json.{Fields, str, get}
use squad_team.Models.{TaskNode}
use squad_team.World.{World}
use squad_team.Events.{append}
use squad_team.Facade.{record_event}
use squad_team.Nodes.{get_node}
use squad_team.Tools.{Commands, command_of, Adapter}
use squad_team.Tools.Calls.{
  record_tool_event, read_at, write_at, read_file, list_files, commit_write, write_file,
  patch_found, apply_patch, run_process, run_found, run_registered_command, register_artifact,
  register_verification, request_snapshot_seal,
}
use squad_team.Tools.Permissions.{authorize_path, require_tool, require_matching_base_snapshot}
use squad_team.Snapshots.{seal_snapshot}
use squad_team.Tools.Trace.{
  ToolCall, IsAuthorized, IsWritable, IsRunner, IsRunnable, log, here, next, Runs, Acts,
}
use squad_team.Tools.Guards.{
  Acts-then, Runs-then, deny-Guards, get_node-Guards, require_tool-Guards, authorize_path-Guards,
  base-Guards,
}
use squad_team.Tools.Effects.{
  act_of_run, Acts-checked, seal-Runs, write-Runs, read-Guards, process-Runs,
}

-- The call is one of the tool, with this path and this base snapshot.
abbrev pub Names : ToolCall → String → String → String → Type 0
Names tc tool_name path base =
    (tc.tool_name ≡ tool_name)
    × (get tc.args "path" ≡ some (str path))
    × (get tc.args "base_snapshot_id" ≡ some (str base))

module _ (a : Adapter) (node_id : String) (w : World) {tc : ToolCall} where
  pub read_file-Acts : (path : String) → Acts a node_id tc w (read_file a node_id path w)
  unfolding read_file record_tool_event record_event append
  read_file-Acts path =
      Acts-then a node_id (authorize_path a node_id "read_file" path "read") _ w _
        (authorize_path-Guards a node_id w "read_file" "read" path)
        λ (node, rel) _.
          Acts-then a node_id (read_at a rel) _ w _ (read-Guards a node_id w rel) λ content _.
            act_of_run a node_id w _ (next here (log node.run_id "tool_call" _ refl), refl)

  pub list_files-Acts : (glob : String) → Acts a node_id tc w (list_files a node_id glob w)
  unfolding list_files record_tool_event record_event append
  list_files-Acts glob =
      Acts-then a node_id (get_node node_id) _ w _ (get_node-Guards a node_id w) λ node found.
        Acts-then a node_id (require_tool a node_id "list_files" "read") _ w _
          (require_tool-Guards a node_id w "list_files" "read" node found)
          λ _ _. act_of_run a node_id w _ (next here (log node.run_id "tool_call" _ refl), refl)

  commit_write-Runs :
      (node : TaskNode) (tool_name rel content base_snapshot_id : String)
      → IsWritable a node_id tc w rel
      → Runs a node_id tc w (commit_write a node node_id tool_name rel content base_snapshot_id w)
  unfolding commit_write record_tool_event record_event append
  commit_write-Runs node tool_name rel content base_snapshot_id writable =
      Runs-then a node_id (write_at a rel content) _ w (write-Runs a node_id w rel content writable)
        λ _ v.
          Runs-then a node_id (seal_snapshot a.env a.host) _ v (seal-Runs a node_id v)
            λ snapshot_id u. (next here (log node.run_id "tool_call" _ refl), refl)

  -- What the two writing tools have checked before they write.
  writable :
      (tool_name path base : String) (node : TaskNode) (rel : String)
      → Names tc tool_name path base
      → IsAuthorized a node_id tool_name "write" path w (node, rel)
      → (base == node.checkpoint_id) ≡ true
      → IsWritable a node_id tc w rel
  writable tool_name path base node rel (called, named_path, named_base) authorized based = record {
    path = path;
    named_path = named_path;
    node = node;
    authorized =
        subst (λ t. IsAuthorized a node_id t "write" path w (node, rel)) (sym called) authorized;
    named_base = named_base ∙ ap (λ t. some (str t)) ((eq_iff base node.checkpoint_id).0 based);
  }

  pub write_file-Acts :
      (path content base : String)
      → Names tc "write_file" path base
      → Acts a node_id tc w (write_file a node_id path content base w)
  unfolding write_file
  write_file-Acts path content base names =
      Acts-then a node_id (authorize_path a node_id "write_file" path "write") _ w _
        (authorize_path-Guards a node_id w "write_file" "write" path)
        λ (node, rel) auth.
          Acts-then a node_id (require_matching_base_snapshot a node_id base) _ w _
            (base-Guards a node_id w base node auth.found)
            λ _ based. act_of_run a node_id w _ (
              commit_write-Runs node "write_file" rel content base
                (writable "write_file" path base node rel names auth based))

  patch_found-Acts :
      (node : TaskNode) (rel content old new base : String) (found : Option ℕ)
      → IsWritable a node_id tc w rel
      → Acts a node_id tc w (patch_found a node node_id rel content old new base found w)
  unfolding patch_found
  patch_found-Acts node rel content old new base none ready =
      Acts-checked a node_id w _ (deny-Guards a node_id w _ _ _ _ _)
  patch_found-Acts node rel content old new base (some i) ready =
      act_of_run a node_id w _ (commit_write-Runs node "apply_patch" rel _ base ready)

  pub apply_patch-Acts :
      (path old new base : String)
      → Names tc "apply_patch" path base
      → Acts a node_id tc w (apply_patch a node_id path old new base w)
  unfolding apply_patch
  apply_patch-Acts path old new base names =
      Acts-then a node_id (authorize_path a node_id "apply_patch" path "write") _ w _
        (authorize_path-Guards a node_id w "apply_patch" "write" path)
        λ (node, rel) auth.
          Acts-then a node_id (require_matching_base_snapshot a node_id base) _ w _
            (base-Guards a node_id w base node auth.found)
            λ _ based.
              Acts-then a node_id (read_at a rel) _ w _ (read-Guards a node_id w rel) λ content _.
                patch_found-Acts node rel content old new base (find? content old)
                  (writable "apply_patch" path base node rel names auth based)

  run_found-Acts :
      (node : TaskNode) (tool_name command_id : String) (command : Option (List String))
      → ((c : List String) → command ≡ some c → IsRunnable a node_id tc w c)
      → Acts a node_id tc w (run_found a node node_id tool_name command_id command w)
  unfolding run_found record_tool_event record_event append
  run_found-Acts node tool_name command_id none known =
      Acts-checked a node_id w _ (deny-Guards a node_id w _ _ _ _ _)
  run_found-Acts node tool_name command_id (some command) known = act_of_run a node_id w _ (
      Runs-then a node_id (run_process a command) _ w
        (process-Runs a node_id w command (known command refl))
        λ _ v. (next here (log node.run_id "tool_call" _ refl), refl))

  pub run_registered-Acts :
      (tool_name key command_id : String) (commands : Commands)
      → tc.tool_name ≡ tool_name
      → IsRunner a node_id tc key commands
      → get tc.args key ≡ some (str command_id)
      → Acts a node_id tc w (run_registered_command a node_id tool_name command_id commands w)
  unfolding run_registered_command
  run_registered-Acts tool_name key command_id commands called runner named =
      Acts-then a node_id (get_node node_id) _ w _ (get_node-Guards a node_id w) λ node found.
        Acts-then a node_id (require_tool a node_id tool_name "test") _ w _
          (require_tool-Guards a node_id w tool_name "test" node found)
          λ _ (profile, known, granted).
            run_found-Acts node tool_name command_id (command_of commands command_id)
              λ c registered. record {
                key = key;
                commands = commands;
                runner = runner;
                command_id = command_id;
                named = named;
                registered = registered;
                node = node;
                found = found;
                profile = profile;
                known = known;
                granted =
                    subst
                      (λ t.
                        (contains profile.allowed_tools "test" || contains profile.allowed_tools t)
                        ≡ true)
                      (sym called) granted;
              }

  pub register_artifact-Acts :
      (path type' purpose : String) (metadata : Fields)
      → Acts a node_id tc w (register_artifact a node_id path type' purpose metadata w)
  unfolding register_artifact record_tool_event record_event append
  register_artifact-Acts path type' purpose metadata =
      Acts-then a node_id (authorize_path a node_id "register_artifact" path "read") _ w _
        (authorize_path-Guards a node_id w "register_artifact" "read" path)
        λ (node, rel) _. act_of_run a node_id w _ (
          (
            next (next here (log node.run_id "tool_call" _ refl))
                (log node.run_id "artifact_produced" _ refl),
            refl,
          ))

  pub register_verification-Acts :
      (kind result : String) (metadata : Fields)
      → Acts a node_id tc w (register_verification a node_id kind result metadata w)
  unfolding register_verification record_tool_event record_event append
  register_verification-Acts kind result metadata =
      Acts-then a node_id (get_node node_id) _ w _ (get_node-Guards a node_id w) λ node found.
        Acts-then a node_id (require_tool a node_id "register_verification" "test") _ w _
          (require_tool-Guards a node_id w "register_verification" "test" node found)
          λ _ _. act_of_run a node_id w _ (
            (
              next (next here (log node.run_id "tool_call" _ refl))
                  (log node.run_id "verification_result" _ refl),
              refl,
            ))

  pub request_seal-Acts :
      (reason : String) → Acts a node_id tc w (request_snapshot_seal a node_id reason w)
  unfolding request_snapshot_seal record_tool_event record_event append
  request_seal-Acts reason =
      Acts-then a node_id (get_node node_id) _ w _ (get_node-Guards a node_id w) λ node found.
        Acts-then a node_id (require_tool a node_id "request_snapshot_seal" "read") _ w _
          (require_tool-Guards a node_id w "request_snapshot_seal" "read" node found)
          λ _ _. act_of_run a node_id w _ (next here (log node.run_id "tool_call" _ refl), refl)

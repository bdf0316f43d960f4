-- ===== src/Tools/Trace.antt =====
-- What the tools of squad_runtime/tool_adapter.py can do to the state, as a step relation, and how
-- the actions that they are made of compose.
use squad_team.Prelude.{
  String, ◌≡◌, ◌⊎◌, Bool, true, false, ◌||◌, some, List, [], ◌∷◌, contains, find, is_empty,
}
use squad_team.Json.{Fields, str, get}
use squad_team.Models.{TaskNode}
use squad_team.World.{World, Error, tool_permission, Result, ok, raised}
use squad_team.Events.{logged}
use squad_team.Nodes.{has_id}
use squad_team.AgentRegistry.{AgentProfile, get_agent}
use squad_team.Workspace.{
  Files, Completed, finished, timed_out, validate_path_within_root, write_text, with_files,
}
use squad_team.Snapshots.{sealed}
use squad_team.Tools.{
  Commands, command_of, matches_any, is_forbidden_relative, Adapter, patterns_for,
}
use squad_team.Tools.Permissions.{denial}

-- The types of the events that tools log.
abbrev pub tool_events : List String
tool_events =
    "tool_call" ∷ "tool_permission_denied" ∷ "artifact_produced" ∷ "verification_result" ∷ []

-- Whether an error is a ToolPermissionError.
abbrev pub is_denial : Error → Bool
is_denial (tool_permission reason failure_class) = true
is_denial e = false

abbrev pub is_denied {ℓ} : {A : Type ℓ} → Result A → Bool
is_denied (ok v) = false
is_denied (raised e) = is_denial e

-- A call of a tool, with its keyword arguments.
pub record ToolCall : Type 0 where
  pub tool_name : String
  pub args : Fields

module _ (a : Adapter) (node_id : String) where
  -- The node's agent may use the tool with the capability on a path,
  -- which resolves to `p.1`.
  pub record IsAuthorized (tool_name capability path : String) (w : World) (p : TaskNode × String)
      : Type 0 where
    pub found : find (has_id node_id) w.nodes ≡ some p.0
    pub profile : AgentProfile
    pub known : get_agent a.registry p.0.owner_agent_id ≡ ok profile
    pub granted :
        (contains profile.allowed_tools capability || contains profile.allowed_tools tool_name)
        ≡ true
    pub inside : validate_path_within_root a.host path ≡ some p.1
    pub outside_squad : is_forbidden_relative p.1 ≡ false
    pub patterned :
        (is_empty (patterns_for capability profile)
          || matches_any p.1 (patterns_for capability profile))
        ≡ true

  -- The files that a command leaves.
  abbrev pub files_after : Completed → Files → Files
  files_after (finished returncode stdout stderr files) old = files
  files_after (timed_out files) old = files
  files_after _ old = old

  -- A state that a denial leaves: the one it found, with one event that shows the denial.
  abbrev pub IsDenialOf : Error → World → World → Type 0
  IsDenialOf e w v =
      (node : TaskNode) × (tool_name : String) × (path : String) × (reason : String)
      × (failure_class : String) × (find (has_id node_id) w.nodes ≡ some node)
      × (e ≡ tool_permission reason failure_class)
      × (v
          ≡ logged a.env node.run_id "tool_permission_denied"
              (denial node tool_name path reason failure_class) false w)

  abbrev pub Refused : World → Error → World → Type 0
  Refused w e v = ((is_denial e ≡ false) × (v ≡ w)) ⊎ IsDenialOf e w v

  module _ {ℓ κ} {A : Type ℓ} where
    -- A check: it returns a value that `Q` holds of and changes nothing, or it refuses.
    abbrev pub Guards : World → (A → Type κ) → Result A × World → Type (ℓ ⊔ κ)
    Guards w Q r =
        ((x : A) × (r ≡ (ok x, w)) × Q x)
        ⊎ ((e : Error) × (v : World) × (r ≡ (raised e, v)) × Refused w e v)

  module _ (tc : ToolCall) where
    -- The call's tool may write the call's path: the node's agent is authorized, and the call names the
    -- checkpoint of the node.
    pub record IsWritable (w : World) (rel : String) : Type 0 where
      pub path : String
      pub named_path : get tc.args "path" ≡ some (str path)
      pub node : TaskNode
      pub authorized : IsAuthorized tc.tool_name "write" path w (node, rel)
      pub named_base : get tc.args "base_snapshot_id" ≡ some (str node.checkpoint_id)

    -- The call is one of the tools that run a command, with the key that names the command and the
    -- commands that the adapter was made with.
    abbrev pub IsRunner : String → Commands → Type 0
    IsRunner key commands =
        ((tc.tool_name ≡ "run_test") × (key ≡ "test_id") × (commands ≡ a.test_commands))
        ⊎ ((tc.tool_name ≡ "run_build") × (key ≡ "build_id") × (commands ≡ a.build_commands))
        ⊎ ((tc.tool_name ≡ "run_lint") × (key ≡ "lint_id") × (commands ≡ a.lint_commands))
        ⊎ ((tc.tool_name ≡ "run_scan") × (key ≡ "scan_id") × (commands ≡ a.scan_commands))

    -- The call may run the command: it names it, and the node's agent may use the tool.
    pub record IsRunnable (w : World) (command : List String) : Type 0 where
      pub key : String
      pub commands : Commands
      pub runner : IsRunner key commands
      pub command_id : String
      pub named : get tc.args key ≡ some (str command_id)
      pub registered : command_of commands command_id ≡ some command
      pub node : TaskNode
      pub found : find (has_id node_id) w.nodes ≡ some node
      pub profile : AgentProfile
      pub known : get_agent a.registry node.owner_agent_id ≡ ok profile
      pub granted :
          (contains profile.allowed_tools "test" || contains profile.allowed_tools tc.tool_name)
          ≡ true

    -- One change of the state by a tool.
    pub data Change (w : World) : World → Type 0 where
      log :
          (run_id event_type : String)
          → (payload : Fields) → contains tool_events event_type ≡ true
          → Change w (logged a.env run_id event_type payload false w)
      seal : (copies : Files) → Change w (sealed a.env a.host copies w)
      write :
          (rel content : String)
          → IsWritable w rel
          → Change w (with_files (write_text rel content w.files) w)
      execute :
          (command : List String)
          → IsRunnable w command
          → Change w (with_files (files_after (a.host.subprocess command w.files) w.files) w)

    -- A chain of changes, oldest first.
    pub data Trace (w : World) : World → Type 0 where
      here : Trace w w
      next : {v u : World} → Trace w v → Change v u → Trace w u

    pub Trace-append : {w v u : World} → Trace w v → Trace v u → Trace w u
    Trace-append t here = t
    Trace-append t (next s c) = next (Trace-append t s) c

    module _ {ℓ} {A : Type ℓ} where
      -- A part of a tool that denies nothing.
      abbrev pub Runs : World → Result A × World → Type 0
      Runs w r = Trace w r.1 × (is_denied r.0 ≡ false)

      -- A tool: what it does is a chain of changes, and a denial is all that it does.
      abbrev pub Acts : World → Result A × World → Type ℓ
      Acts w r =
          Trace w r.1 × ((e : Error) → r.0 ≡ raised e → is_denial e ≡ true → IsDenialOf e w r.1)

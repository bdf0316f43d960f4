-- ===== src/Tools.antt =====
-- squad_runtime/tool_permissions.py, and the tools of squad_runtime/tool_adapter.py.
pub mod Permissions
pub mod Calls
pub mod Dispatch
pub mod Sessions
pub mod Trace
pub mod Guards
pub mod Effects
pub mod Acts
pub mod Authority
pub mod Steps
pub mod RoundTrip
mod Tests
pub mod Rounds
use Prim.Native.String.{◌++◌ as cat, len, slice}
use squad_team.Prelude.{
  ℕ, ◌+◌, ◌-◌, String, Bool, true, false, ◌&&◌, ◌||◌, not, Option, none, some, List, [], ◌∷◌, ◌++◌,
  ◌==◌, any, contains, find, is_empty, map, length, select, starts_with, find?, or_else,
  if◌then◌else◌,
}
use squad_team.Json.{Json, Fields, end, field, str, num, bool, null, obj, get, set_field, sort_keys}
use squad_team.Canonicalization.{Env, json, py_str}
use squad_team.Models.{TaskNode, SquadEvent}
use squad_team.World.{
  World, tool_permission, file_not_found, os_error, bad_arguments, subprocess_timeout, Result, ok,
  raised, Exec, pure, raise, gets, modify, and_then, ◌>>=◌, ◌>>◌,
}
use squad_team.Nodes.{get_node}
use squad_team.Facade.{record_event}
use squad_team.AgentRegistry.{AgentProfile, AgentRegistry, get_agent}
use squad_team.Workspace.{
  Files, Completed, finished, timed_out, not_started, Host, parts, ends_with, matches,
  validate_path_within_root, read_text, write_text, with_files,
}
use squad_team.Snapshots.{last_part, sorted_files, seal_snapshot}

pub record ToolConfig : Type 0 where
  pub name : String
  pub deterministic_replay : Bool
  pub replay_mode : String
  pub dependency_locking : String
  pub internal_only : Bool

abbrev replayable : String → ToolConfig
replayable name = record {
  name = name;
  deterministic_replay = true;
  replay_mode = "deterministic";
  dependency_locking = "none";
  internal_only = false;
}

abbrev conditional : String → ToolConfig
conditional name = record {
  name = name;
  deterministic_replay = false;
  replay_mode = "conditional";
  dependency_locking = "required";
  internal_only = false;
}

abbrev pub tool_configs : List ToolConfig
tool_configs =
    replayable "read_file"
    ∷ replayable "list_files"
    ∷ conditional "write_file"
    ∷ conditional "apply_patch"
    ∷ conditional "run_test"
    ∷ conditional "run_build"
    ∷ conditional "run_lint"
    ∷ conditional "run_scan"
    ∷ replayable "register_artifact"
    ∷ replayable "register_verification"
    ∷ replayable "request_snapshot_seal"
    ∷ record (conditional "seal_snapshot") { internal_only = true }
    ∷ []

abbrev pub forbidden_tools : List String
forbidden_tools = "run_command" ∷ "shell" ∷ "exec" ∷ "python_eval" ∷ []

-- `tool_name in TOOL_CONFIGS`, and the entry.
unfoldable pub known_tool : String → Bool
known_tool tool_name = any (λ c. c.name == tool_name) tool_configs

unfoldable pub tool_config : String → ToolConfig
tool_config tool_name =
    or_else (find (λ c. c.name == tool_name) tool_configs) (conditional tool_name)

-- `to_event_payload`, before what follows it in the payload.
unfoldable pub to_event_payload : ToolConfig → Fields → Fields
to_event_payload c rest = field "deterministicReplay" (bool c.deterministic_replay) (
    field "replayMode" (str c.replay_mode)
      (field "dependencyLocking" (str c.dependency_locking) rest))

pub record ToolResult : Type 0 where
  pub content : Option String
  pub path : Option String
  pub exit_code : Option ℕ
  pub stdout : Option String
  pub stderr : Option String
  pub base_snapshot_id : Option String
  pub result_snapshot_id : Option String

abbrev pub no_result : ToolResult
no_result = record {
  content = none;
  path = none;
  exit_code = none;
  stdout = none;
  stderr = none;
  base_snapshot_id = none;
  result_snapshot_id = none;
}

-- A registry of commands: the argument vector of each command id.
abbrev pub Commands : Type 0
Commands = List (String × List String)

abbrev pub command_of : Commands → String → Option (List String)
command_of [] command_id = none
command_of ((name, command) ∷ commands) command_id =
    if name == command_id then some command else command_of commands command_id

-- `**`-style patterns first, then pathlib and fnmatch.
unfoldable pub matches_any : String → List String → Bool
unfolding ends_with matches
matches_any path patterns =
    any
      (λ p.
        p == "**/*"
        || (starts_with p "**/*." && ends_with path (slice p 4 (len p)))
        || matches path p)
      patterns

abbrev pub runtime_paths : List String
runtime_paths =
    ".squad/*" ∷ ".squad/**" ∷ "**/.squad/*" ∷ "**/.squad/**" ∷ ".squad/token" ∷ ".squad/squad.db"
    ∷ ".squad/events.ndjson" ∷ []

unfoldable pub is_forbidden_relative : String → Bool
unfolding matches
is_forbidden_relative path = any (matches path) runtime_paths

-- `{**base, **payload}`: the keys of the payload win.
unfoldable pub merged : Fields → Fields → Fields
unfolding set_field
merged base end = base
merged base (field k v d) = merged (set_field k v base) d

-- `content.replace(old, new, 1)` at the place where `old` is found.
unfoldable pub replace_at : String → String → String → ℕ → String
replace_at content old new i =
    cat (slice content 0 i) (cat new (slice content (i + len old) (len content)))

-- What the adapter is made with: the environment, the host, and its registries.
pub record Adapter : Type 0 where
  pub env : Env
  pub host : Host
  pub registry : AgentRegistry
  pub test_commands : Commands
  pub build_commands : Commands
  pub lint_commands : Commands
  pub scan_commands : Commands

abbrev pub patterns_for : String → AgentProfile → List String
patterns_for capability profile =
    if capability == "read" then profile.allowed_read_paths else profile.allowed_write_paths

-- ===== src/Samples.antt =====
-- Sample data for the tests: a toy environment, a run with two nodes, and an agent's result.
use Prim.Native.Nat.{Ordering, compare}
use squad_team.Prelude.{String, true, ◌==◌, none, some, [], ◌∷◌}
use squad_team.State.{NodeStatus, todo, ready, running}
use squad_team.Json.{num, obj, field, end, Fields}
use squad_team.Canonicalization.{Document, json, Env}
use squad_team.Models.{SquadRun, TaskNode, AgentResult, micros}
use squad_team.World.{World, empty_world}
use squad_team.Nodes.{Transition}
use squad_team.Workspace.{Host, finished}
use squad_team.AgentRegistry.{AgentProfile, AgentRegistry, default_registry}
use squad_team.Tools.{Adapter}

abbrev pub toy_digit : Ordering → String
toy_digit Ordering.lt = "0"
toy_digit Ordering.eq = "1"
toy_digit Ordering.gt = "2"

-- A digest of one character: it tells the numbers 0, 1 and more apart in the first field.
abbrev pub toy_digest : Document → String
toy_digest (json (obj (field k (num n) d))) = toy_digit (compare n 1)
toy_digest _ = "z"

abbrev pub toy : Env
toy = record {
  uuid = λ n. "u";
  uuid_hex = λ n. "h";
  now = λ n. "noon";
  sha256 = toy_digest;
  nfc = λ s. s;
  inside_artifacts = λ path. path == "artifacts/report.md";
  repr = λ j. "…";
}

abbrev pub sample_run : SquadRun
sample_run = record {
  id = "run-1";
  goal = "ship";
  status = "planning";
  version = 0;
  rule_version = "v1";
  schema_version = "v1";
  agent_contract_version = "v1";
}

abbrev pub sample_node : String → NodeStatus → TaskNode
sample_node node_id status = record {
  id = node_id;
  run_id = "run-1";
  title = "Test";
  type = "test";
  owner_agent_id = "test-engineer";
  status = status;
  blocked_reason_code = none;
  checkpoint_id = "ckp-1";
  replaced_by_node_id = none;
}

-- A run without nodes, and runs with nodes of given statuses.
abbrev pub bare : World
bare = record empty_world { runs = sample_run ∷ [] }

abbrev pub with_node : NodeStatus → World
with_node status = record bare { nodes = sample_node "node-1" status ∷ [] }

abbrev pub waiting : World
waiting = record bare {
  nodes =
      sample_node "node-1" ready ∷ sample_node "node-2" ready ∷ sample_node "node-3" running ∷ [];
}

abbrev pub to_ready : Transition
to_ready = record {
  node_id = "node-1";
  from_status = todo;
  to_status = ready;
  reason = "planned";
  blocked_reason_code = none;
  metadata = none;
  expected_run_version = some 0;
}

abbrev pub sample_result : AgentResult
sample_result = record {
  task_node_id = "node-1";
  agent_id = "test-engineer";
  status = "pass";
  summary = "all green";
  evidence = [];
  artifacts = [];
  risks = [];
  next_actions = [];
  confidence = micros 900000;
  worked_against_checkpoint = "ckp-1";
  agent_contract_version = "v1";
  schema_version = "agent-result/v1";
  base_snapshot_id = some "ckp-1";
  result_snapshot_id = none;
}

-- Two keys that normalization makes one.
abbrev pub clashing : Fields
clashing = field "a " (num 1) (field "a" (num 2) end)

abbrev pub plain : Fields
plain = field "n" (num 1) end

-- A machine on which every path is what it says and commands succeed, and an adapter on it.
abbrev pub machine : Host
machine = record {
  root = "/work";
  resolve = λ path. some path;
  glob = λ pattern' path. true;
  can_write = λ files path. true;
  subprocess = λ command files. finished 0 "" "" files;
  time = λ n. n;
  upper = λ s. s;
  lower = λ s. s;
  error_text = λ e. "error";
  dumps = λ j. "…";
}

abbrev pub bench : Adapter
bench = record {
  env = toy;
  host = machine;
  registry = default_registry;
  test_commands = ("unit", "pytest" ∷ []) ∷ [];
  build_commands = [];
  lint_commands = [];
  scan_commands = [];
}

-- A running node of the test engineer, and a file.
abbrev pub desk : World
desk = record (with_node running) { files = ("tests/a.py", "old") ∷ [] }

-- A tester that falls back to the deterministic provider.
abbrev pub tester : AgentProfile
tester = record {
  agent_id = "test-engineer";
  display_name = "Test Engineer";
  role = "Testing";
  profile_version = "profile-v1";
  provider = "claude_cli";
  output_contract = "AgentResult";
  allowed_tools = [];
  allowed_read_paths = [];
  allowed_write_paths = [];
  forbidden_paths = [];
  fallback_provider = some "fake_cli";
  fallback_mode = "automatic";
}

abbrev pub testers : AgentRegistry
testers = record { version = "registry-v1"; agents = tester ∷ [] }

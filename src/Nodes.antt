-- ===== src/Nodes.antt =====
-- squad_runtime/repositories/node_repository.py and squad_runtime/services/node_service.py.
pub mod Outcome
pub mod Effect
pub mod Audit
pub mod Versions
pub mod Keeps
mod Tests
use squad_team.Prelude.{
  ℕ, String, Bool, true, false, ◌&&◌, not, Option, none, some, List, [], ◌∷◌, ◌++◌, ◌==◌, nat_eq,
  is_truthy, contains, find, select, update_where, or_else, if◌then◌else◌,
}
use squad_team.State.{
  NodeStatus, todo, blocked, status_is, value, blocked_reason_codes, transition_allowed,
}
use squad_team.Json.{Fields, end, field, str, num, obj, opt_str}
use squad_team.Canonicalization.{Env}
use squad_team.Models.{SquadRun, TaskNode}
use squad_team.World.{
  World, Error, missing_blocked_reason, unknown_blocked_reason, transition_not_allowed,
  version_conflict, status_conflict, Result, ok, raised, Exec, pure, raise, modify, and_then, ◌>>=◌,
  ◌>>◌,
}
use squad_team.Events.{append, logged}
use squad_team.Runs.{or_key_error, get_run, increment_version, fresh_id}

abbrev pub has_id : String → TaskNode → Bool
has_id node_id n = n.id == node_id

unfoldable pub insert_node : TaskNode → World → World
insert_node n w = record w { nodes = w.nodes ++ n ∷ [] }

unfoldable pub get_node : String → Exec TaskNode
get_node node_id w = (or_key_error node_id (find (has_id node_id) w.nodes), w)

unfoldable pub list_nodes : String → World → List TaskNode
list_nodes run_id w = select (λ n. n.run_id == run_id) w.nodes

-- The nodes with a status, by rowid.
unfoldable pub list_by_status : NodeStatus → World → List TaskNode
list_by_status status w = select (λ n. status_is n.status status) w.nodes

abbrev pub with_status : NodeStatus → Option String → TaskNode → TaskNode
with_status to code n = record n { status = to; blocked_reason_code = code }

-- UPDATE task_nodes SET status, blocked_reason_code WHERE id = ? AND status = ?.
unfoldable pub update_status : String → NodeStatus → NodeStatus → Option String → World → World
update_status node_id from to code w = record w {
  nodes =
      update_where (λ n. has_id node_id n && status_is n.status from) (with_status to code) w.nodes;
}

-- The arguments of `transition_node`.
pub record Transition : Type 0 where
  pub node_id : String
  pub from_status : NodeStatus
  pub to_status : NodeStatus
  pub reason : String
  pub blocked_reason_code : Option String
  pub metadata : Option Fields
  pub expected_run_version : Option ℕ

-- What the arguments alone must satisfy, in the order of the checks.
unfoldable pub check_request : Transition → Result (Unit {0})
check_request t =
    if status_is t.to_status blocked && not (is_truthy t.blocked_reason_code)
    then raised missing_blocked_reason
    else if is_truthy t.blocked_reason_code
        && not (contains blocked_reason_codes (or_else t.blocked_reason_code ""))
    then raised (unknown_blocked_reason (or_else t.blocked_reason_code ""))
    else if transition_allowed t.from_status t.to_status
    then ok tt
    else raised (transition_not_allowed t.from_status t.to_status)

abbrev pub version_differs : Option ℕ → ℕ → Bool
version_differs none version = false
version_differs (some expected) version = not (nat_eq version expected)

module _ (env : Env) where
  unfoldable pub create_node : String → String → String → String → String → Exec TaskNode
  unfolding fresh_id insert_node append get_node
  create_node run_id title node_type owner_agent_id checkpoint_id = do
    node_id ← fresh_id env "node-"
    modify (
        insert_node (record {
          id = node_id;
          run_id = run_id;
          title = title;
          type = node_type;
          owner_agent_id = owner_agent_id;
          status = todo;
          blocked_reason_code = none;
          checkpoint_id = checkpoint_id;
          replaced_by_node_id = none;
        }))
    append env run_id "node_created"
        (field "nodeId" (str node_id) (field "type" (str node_type) end)) true
    get_node node_id

  module _ (t : Transition) where
    -- The payloads of the events that a transition appends.
    abbrev version_conflict_payload : ℕ → ℕ → Fields
    version_conflict_payload expected actual = field "nodeId" (str t.node_id) (
        field "expectedRunVersion" (num expected)
          (field "actualRunVersion" (num actual) (field "to" (str (value t.to_status)) end)))

    abbrev status_conflict_payload : NodeStatus → Fields
    status_conflict_payload actual = field "nodeId" (str t.node_id) (
        field "expected" (str (value t.from_status))
          (field "actual" (str (value actual)) (field "to" (str (value t.to_status)) end)))

    abbrev pub changed_payload : Fields
    changed_payload = field "nodeId" (str t.node_id) (
        field "from" (str (value t.from_status)) (
          field "to" (str (value t.to_status)) (
            field "reason" (str t.reason) (
              field "blockedReasonCode" (opt_str t.blocked_reason_code)
                (field "metadata" (obj (or_else t.metadata end)) end)))))

    -- A conflict is recorded, and then raised.
    abbrev conflict : String → Fields → Error → Exec TaskNode
    conflict run_id payload e = append env run_id "transition_conflict" payload true >> raise e

    -- The writes of a transition that is accepted.
    unfoldable pub commit_transition : TaskNode → Exec TaskNode
    unfolding update_status increment_version append get_node
    commit_transition node = do
      modify (update_status t.node_id t.from_status t.to_status t.blocked_reason_code)
      modify (increment_version node.run_id)
      append env node.run_id "node_status_changed" changed_payload true
      get_node t.node_id

    -- What follows the two reads.
    unfoldable pub decide_transition : TaskNode → SquadRun → Exec TaskNode
    unfolding commit_transition
    decide_transition node run =
        if version_differs t.expected_run_version run.version
        then conflict node.run_id
            (version_conflict_payload (or_else t.expected_run_version 0) run.version)
            (version_conflict (or_else t.expected_run_version 0) run.version)
        else if not (status_is node.status t.from_status)
        then conflict node.run_id (status_conflict_payload node.status)
            (status_conflict t.from_status node.status)
        else commit_transition node

    unfoldable pub transition_node : Exec TaskNode
    unfolding check_request get_node get_run decide_transition
    transition_node = do
      (λ w. (check_request t, w))
      node ← get_node t.node_id
      run ← get_run node.run_id
      decide_transition node run

-- ===== src/GateEngine.antt =====
-- squad_runtime/gate_engine.py: what the evaluators of a gate share.
pub mod Legacy
pub mod Strict
pub mod Evaluate
mod Tests
use squad_team.Prelude.{
  ℕ, String, Bool, true, false, ◌&&◌, not, Option, none, some, List, [], ◌∷◌, ◌++◌, ◌==◌, map,
  select, is_truthy, if◌then◌else◌,
}
use squad_team.State.{stale, canceled, status_is}
use squad_team.Json.{Fields, end, field, arr, strings}
use squad_team.Models.{TaskNode, GateDecision}
use squad_team.World.{World, AgentResultRow, Error, key_error, Result, ok, raised, Exec}
use squad_team.Nodes.{list_nodes}
use squad_team.Results.{list_agent_results}

-- The dictionary of decisions, in insertion order.
abbrev pub Decisions : Type 0
Decisions = List (String × GateDecision)

abbrev pub decision : String → String → String → Option String → Option Fields → GateDecision
decision gate_name status reason blocked_reason_code details = record {
  gate_name = gate_name;
  status = status;
  reason = reason;
  blocking = true;
  blocked_reason_code = blocked_reason_code;
  details = details;
}

abbrev pub passed : GateDecision → Bool
passed d = d.status == "pass"

-- `decisions[name]`.
abbrev pub decision_of : String → Decisions → Result GateDecision
decision_of name [] = raised (key_error name)
decision_of name ((key, d) ∷ ds) = if key == name then ok d else decision_of name ds

unfoldable pub facts_for : String → String → World → List AgentResultRow
unfolding list_agent_results
facts_for run_id agent_id w =
    select (λ r. r.agent_id == agent_id && not r.synthetic) (list_agent_results run_id w)

unfoldable pub active_nodes : String → String → World → List TaskNode
unfolding list_nodes
active_nodes run_id node_type w =
    select
      (λ n.
        n.type == node_type
        && (not (status_is n.status stale) && not (status_is n.status canceled))
        && not (is_truthy n.replaced_by_node_id))
      (list_nodes run_id w)

-- The details that name the agent results, or the nodes, that a decision rests on.
abbrev pub result_details : List AgentResultRow → Option Fields
result_details facts = some (field "agentResults" (arr (strings (map (λ r. r.id) facts))) end)

abbrev pub node_details : List TaskNode → Option Fields
node_details nodes = some (field "nodes" (arr (strings (map (λ n. n.id) nodes))) end)

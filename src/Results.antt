-- ===== src/Results.antt =====
-- squad_runtime/services/agent_result_service.py, and the tables of
-- squad_runtime/repositories/artifact_repository.py that it writes.
pub mod Apply
pub mod Status
mod Tests
use Prim.Native.String.{◌++◌ as cat}
use squad_team.Prelude.{
  ℕ, suc, String, Bool, true, false, Option, none, some, List, [], ◌∷◌, ◌++◌, ◌==◌, not, any,
  or_else, select, if◌then◌else◌,
}
use squad_team.State.{
  NodeStatus, running, blocked, canceled, stale, done, status_is, value, from_value,
}
use squad_team.Json.{Fields, end, field, str, bool, arr, strings, opt_str}
use squad_team.Canonicalization.{Env}
use squad_team.Models.{TaskNode, AgentResult, Evidence, ArtifactRef}
use squad_team.World.{
  World, AgentResultRow, Error, invalid_status_value, Result, ok, raised, Exec, pure, raise, modify,
  and_then, ◌>>=◌, ◌>>◌,
}
use squad_team.Events.{append}
use squad_team.Runs.{fresh_id}
use squad_team.Nodes.{Transition, get_node, transition_node}
use squad_team.Contracts.{validate_agent_result}

unfoldable pub insert_agent_result : AgentResultRow → World → World
insert_agent_result row w = record w { agent_results = w.agent_results ++ row ∷ [] }

unfoldable pub list_agent_results : String → World → List AgentResultRow
list_agent_results run_id w = select (λ r. r.run_id == run_id) w.agent_results

-- `NodeStatus(text)`, which raises ValueError on a text that is no member's value.
abbrev pub or_value_error : String → Option NodeStatus → Result NodeStatus
or_value_error text none = raised (invalid_status_value text)
or_value_error text (some s) = ok s

unfoldable pub parse_status : String → Exec NodeStatus
parse_status text w = (or_value_error text (from_value text), w)

-- The provider fields that a dispatch hands to `persist_agent_result`.
pub record Provenance : Type 0 where
  pub provider_used : String
  pub provider_type : String
  pub provider_identity_verified : Bool
  pub provider_fallback_triggered : Bool
  pub fallback_reason : Option String
  pub synthetic : Bool

abbrev pub is_closed : NodeStatus → Bool
is_closed s = any (λ t. status_is s t) (canceled ∷ stale ∷ done ∷ [])

module _ (env : Env) where
  unfoldable pub insert_evidence_item : String → AgentResult → Evidence → Exec (Unit {0})
  unfolding fresh_id
  insert_evidence_item run_id result e = do
    evidence_id ← fresh_id env "evidence-"
    modify (λ w. record w {
      evidence_items =
          w.evidence_items
          ++ record {
            id = evidence_id;
            run_id = run_id;
            task_node_id = result.task_node_id;
            source_type = or_else e.type "agent";
            author_agent_id = result.agent_id;
            content = or_else e.content "";
          }
            ∷ [];
    })

  unfoldable pub insert_artifact : String → AgentResult → ArtifactRef → Exec (Unit {0})
  unfolding fresh_id
  insert_artifact run_id result a = do
    artifact_id ← fresh_id env "artifact-"
    modify (λ w. record w {
      artifacts =
          w.artifacts
          ++ record {
            id = artifact_id;
            run_id = run_id;
            task_node_id = result.task_node_id;
            name = or_else a.name "artifact";
            path = a.path;
            type = or_else a.type "agent-artifact";
            author_agent_id = result.agent_id;
          }
            ∷ [];
    })

  -- `for x in xs: f(x)`.
  unfoldable pub for_each : {A : Type 0} → List A → (A → Exec (Unit {0})) → Exec (Unit {0})
  for_each [] f = pure tt
  for_each (x ∷ xs) f = f x >> for_each xs f

  abbrev pub result_row : String → String → AgentResult → Provenance → AgentResultRow
  result_row result_id run_id result p = record {
    id = result_id;
    run_id = run_id;
    task_node_id = result.task_node_id;
    agent_id = result.agent_id;
    status = result.status;
    summary = result.summary;
    evidence = result.evidence;
    artifacts = result.artifacts;
    risks = result.risks;
    next_actions = result.next_actions;
    confidence = result.confidence;
    worked_against_checkpoint = result.worked_against_checkpoint;
    agent_contract_version = result.agent_contract_version;
    provider_used = p.provider_used;
    provider_type = p.provider_type;
    provider_identity_verified = p.provider_identity_verified;
    provider_fallback_triggered = p.provider_fallback_triggered;
    fallback_reason = p.fallback_reason;
    synthetic = p.synthetic;
  }

  abbrev submitted_payload : String → AgentResult → Provenance → Fields
  submitted_payload result_id result p = field "agentResultId" (str result_id) (
      field "taskNodeId" (str result.task_node_id) (
        field "agentId" (str result.agent_id) (
          field "status" (str result.status) (
            field "providerUsed" (str p.provider_used) (
              field "providerFallbackTriggered" (bool p.provider_fallback_triggered) (
                field "fallbackReason" (opt_str p.fallback_reason)
                  (field "synthetic" (bool p.synthetic) end)))))))

  -- The three inserts, and the event that follows them.
  unfoldable pub store_result : TaskNode → AgentResult → Provenance → Exec String
  unfolding fresh_id insert_agent_result for_each insert_evidence_item insert_artifact append
  store_result node result p = do
    result_id ← fresh_id env "agent-result-"
    modify (insert_agent_result (result_row result_id node.run_id result p))
    for_each result.evidence (insert_evidence_item node.run_id result)
    for_each result.artifacts (insert_artifact node.run_id result)
    append env node.run_id "agent_result_submitted" (submitted_payload result_id result p) true
    pure result_id

  unfoldable pub persist_agent_result : AgentResult → Provenance → Exec String
  unfolding get_node store_result append
  persist_agent_result result p = do
    node ← get_node result.task_node_id
    let validation = validate_agent_result env result (some node.checkpoint_id)
    if validation.valid then store_result node result p else (do
      append env node.run_id "invalid_agent_result"
          (field "nodeId" (str node.id) (
            field "agentId" (str result.agent_id)
              (field "errors" (arr (strings validation.errors)) end)))
          true
      pure "invalid_agent_result")

  -- The transition that blocks a node after an invalid result, and the one that closes a dispatch.
  abbrev pub blocking : TaskNode → List String → Transition
  blocking node errors = record {
    node_id = node.id;
    from_status = node.status;
    to_status = blocked;
    reason = "invalid agent result";
    blocked_reason_code = some "invalid_agent_result";
    metadata = some (field "errors" (arr (strings errors)) end);
    expected_run_version = none;
  }

  abbrev pub closing : TaskNode → NodeStatus → Transition
  closing node target = record {
    node_id = node.id;
    from_status = running;
    to_status = target;
    reason = "agent result";
    blocked_reason_code = if status_is target blocked then some "gate_dependency_failed" else none;
    metadata = none;
    expected_run_version = none;
  }

  unfoldable pub reject_result : TaskNode → List String → Exec String
  unfolding append
  reject_result node errors = do
    transition_node env (blocking node errors)
    append env node.run_id "invalid_agent_result"
        (field "nodeId" (str node.id) (field "errors" (arr (strings errors)) end)) true
    pure "invalid_agent_result"

  abbrev advisory : TaskNode → Fields → Exec String
  advisory node payload =
      append env node.run_id "stale_advisory" payload true >> pure "stale_advisory"

  unfoldable pub accept_result : TaskNode → AgentResult → Exec String
  unfolding append parse_status
  accept_result node result = do
    target ← parse_status result.status
    if not (status_is node.status running)
        then advisory node (
            field "nodeId" (str node.id) (
              field "agentId" (str result.agent_id)
                (field "actualStatus" (str (value node.status)) end)))
        else (do transition_node env (closing node target); pure result.status)

  unfoldable pub apply_agent_result : AgentResult → Exec String
  unfolding get_node reject_result accept_result append
  apply_agent_result result = do
    node ← get_node result.task_node_id
    if is_closed node.status
        then advisory node
            (field "nodeId" (str node.id) (field "agentId" (str result.agent_id) end))
        else (do
          let validation = validate_agent_result env result (some node.checkpoint_id)
          if validation.valid
              then accept_result node result
              else reject_result node validation.errors)

-- ===== src/Facade.antt =====
-- squad_runtime/runtime.py: what the facade adds to the services, and the tables of
-- squad_runtime/repositories/artifact_repository.py that only the facade writes.
pub mod Recovery
pub mod Findings
mod Tests
use Prim.Native.String.{◌++◌ as cat}
use squad_team.Prelude.{
  ℕ, suc, ◌||◌, String, Bool, true, false, Option, none, some, List, [], ◌∷◌, ◌++◌, ◌==◌, not, any,
  find, is_empty, select, update_where, if◌then◌else◌,
}
use squad_team.State.{running, agent_unavailable}
use squad_team.Json.{Fields, end, field, str, get}
use squad_team.Canonicalization.{Env}
use squad_team.Models.{SquadEvent, TaskNode}
use squad_team.World.{
  World, EvidenceItem, Artifact, ReviewFinding, FindingHistory, Directive, Error, key_error,
  not_reviewer, missing_event_fields, Result, ok, raised, Exec, pure, raise, gets, modify, and_then,
  ◌>>=◌, ◌>>◌,
}
use squad_team.Events.{append}
use squad_team.Runs.{or_key_error, fresh_id}
use squad_team.Nodes.{Transition, list_by_status, transition_node}
use squad_team.Contracts.{sorted_set}

-- The fields that `_validate_typed_event` requires of a payload, by the type of the event.
unfoldable pub required_fields : String → List String
required_fields event_type =
    if event_type == "llm_session_started" || event_type == "llm_session_completed"
    then "dispatchId" ∷ "agentId" ∷ []
    else if event_type == "agent_result_submitted"
    then "taskNodeId" ∷ "agentId" ∷ "status" ∷ []
    else if event_type == "tool_permission_denied"
    then "nodeId" ∷ "agentId" ∷ "path" ∷ "reason" ∷ []
    else if event_type == "gate_decision"
    then "gateName" ∷ "status" ∷ "reason" ∷ []
    else if event_type == "artifact_produced"
    then "name" ∷ "path" ∷ "type" ∷ []
    else if event_type == "provider_fallback_triggered"
    then "nodeId" ∷ "agentId" ∷ "primaryProvider" ∷ "fallbackProvider" ∷ "reason" ∷ []
    else []

has_key : Fields → String → Bool
has_key payload key = elim (get payload key) [ none ↦ false | some v ↦ true ]

unfoldable pub missing_fields : String → Fields → List String
unfolding required_fields has_key
missing_fields event_type payload =
    select (λ key. not (has_key payload key)) (required_fields event_type)

unfoldable pub validate_typed_event : String → Fields → Result (Unit {0})
unfolding missing_fields sorted_set
validate_typed_event event_type payload =
    let missing = missing_fields event_type payload in
    if is_empty missing
    then ok tt
    else raised (missing_event_fields event_type (sorted_set missing))

-- The rows of a run, or of a finding, by rowid.
unfoldable pub list_evidence_items : String → World → List EvidenceItem
list_evidence_items run_id w = select (λ e. e.run_id == run_id) w.evidence_items

unfoldable pub list_artifacts : String → World → List Artifact
list_artifacts run_id w = select (λ a. a.run_id == run_id) w.artifacts

unfoldable pub list_review_findings : String → World → List ReviewFinding
list_review_findings run_id w = select (λ f. f.run_id == run_id) w.findings

unfoldable pub list_review_finding_history : String → World → List FindingHistory
list_review_finding_history finding_id w =
    select (λ h. h.finding_id == finding_id) w.finding_history

module _ (env : Env) where
  unfoldable pub record_event : String → String → Fields → Bool → Exec SquadEvent
  unfolding validate_typed_event append
  record_event run_id event_type payload critical = do
    (λ w. (validate_typed_event event_type payload, w))
    append env run_id event_type payload critical

  unfoldable pub record_artifact : String → String → String → String → Exec SquadEvent
  unfolding record_event
  record_artifact run_id name path artifact_type =
      record_event run_id "artifact_produced"
        (field "name" (str name) (field "path" (str path) (field "type" (str artifact_type) end)))
        false

  unfoldable pub insert_directive : Directive → World → World
  insert_directive d w = record w { directives = w.directives ++ d ∷ [] }

  unfoldable pub record_directive : String → String → String → Exec String
  unfolding fresh_id insert_directive append
  record_directive run_id message source = do
    directive_id ← fresh_id env "directive-"
    modify (
        insert_directive
          (record { id = directive_id; run_id = run_id; source = source; message = message }))
    append env run_id "directive_recorded"
        (field "directiveId" (str directive_id)
          (field "source" (str source) (field "message" (str message) end)))
        true
    pure directive_id

  unfoldable pub insert_review_finding : ReviewFinding → World → World
  insert_review_finding f w = record w { findings = w.findings ++ f ∷ [] }

  unfoldable pub insert_history : String → String → String → Fields → Exec (Unit {0})
  unfolding fresh_id
  insert_history finding_id action author_agent_id payload = do
    history_id ← fresh_id env "finding-history-"
    modify (λ w. record w {
      finding_history =
          w.finding_history
          ++ record {
            id = history_id;
            finding_id = finding_id;
            action = action;
            author_agent_id = author_agent_id;
            payload = payload;
          }
            ∷ [];
    })

  unfoldable pub create_review_finding : String → String → String → String → String → Exec String
  unfolding fresh_id insert_review_finding insert_history
  create_review_finding run_id task_node_id author_agent_id severity description =
      if not (author_agent_id == "code-reviewer") then raise not_reviewer else (do
        finding_id ← fresh_id env "finding-"
        modify (
            insert_review_finding (record {
              id = finding_id;
              run_id = run_id;
              task_node_id = task_node_id;
              author_agent_id = author_agent_id;
              severity = severity;
              description = description;
              status = "active";
              superseded_by_id = none;
            }))
        insert_history finding_id "created" author_agent_id
            (field "severity" (str severity) (field "description" (str description) end))
        pure finding_id)

  -- UPDATE review_findings SET status = 'superseded', superseded_by_id = ? WHERE id = ?.
  unfoldable pub mark_superseded : String → String → World → World
  mark_superseded finding_id replacement_id w = record w {
    findings =
        update_where (λ f. f.id == finding_id)
          (λ f. record f { status = "superseded"; superseded_by_id = some replacement_id })
          w.findings;
  }

  unfoldable pub get_review_finding : String → Exec ReviewFinding
  get_review_finding finding_id w =
      (or_key_error finding_id (find (λ f. f.id == finding_id) w.findings), w)

  unfoldable pub supersede_review_finding : String → String → String → String → Exec String
  unfolding get_review_finding fresh_id insert_review_finding mark_superseded insert_history
  supersede_review_finding finding_id author_agent_id severity description =
      if not (author_agent_id == "code-reviewer") then raise not_reviewer else (do
        old ← get_review_finding finding_id
        replacement_id ← fresh_id env "finding-"
        modify (
            insert_review_finding (record {
              id = replacement_id;
              run_id = old.run_id;
              task_node_id = old.task_node_id;
              author_agent_id = author_agent_id;
              severity = severity;
              description = description;
              status = "active";
              superseded_by_id = none;
            }))
        modify (mark_superseded finding_id replacement_id)
        insert_history finding_id "superseded" author_agent_id (
            field "replacementId" (str replacement_id)
              (field "severity" (str severity) (field "description" (str description) end)))
        pure replacement_id)

  -- The transition that takes a node off an agent that is gone.
  abbrev pub recovering : TaskNode → Transition
  recovering n = record {
    node_id = n.id;
    from_status = running;
    to_status = agent_unavailable;
    reason = "server restart";
    blocked_reason_code = none;
    metadata = none;
    expected_run_version = none;
  }

  unfoldable pub recover_nodes : List TaskNode → Exec (List TaskNode)
  unfolding append
  recover_nodes [] = pure []
  recover_nodes (n ∷ ns) = do
    updated ← transition_node env (recovering n)
    append env updated.run_id "server_restart_dispatch_recovery"
        (field "nodeId" (str updated.id) (field "ownerAgentId" (str updated.owner_agent_id) end))
        true
    recovered ← recover_nodes ns
    pure (updated ∷ recovered)

  unfoldable pub recover_running_dispatches : Exec (List TaskNode)
  unfolding list_by_status recover_nodes
  recover_running_dispatches = gets (list_by_status running) >>= recover_nodes

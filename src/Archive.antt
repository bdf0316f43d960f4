-- ===== src/Archive.antt =====
-- squad_runtime/services/archive_service.py: the log that a run is exported to.
pub mod Replayed
pub mod Manifest
mod Tests
use squad_team.Prelude.{
  ℕ, String, Bool, true, false, Option, none, some, List, [], ◌∷◌, map, ◌==◌, any, select,
  if◌then◌else◌,
}
use squad_team.State.{value}
use squad_team.Json.{
  Json, null, bool, num, str, arr, obj, Items, nil, cons, Fields, end, field, opt_str, field_is,
  get,
}
use squad_team.Canonicalization.{Env}
use squad_team.Models.{SquadRun, TaskNode, SquadEvent}
use squad_team.World.{World, GateState, AgentResultRow, Exec, gets, pure, ◌>>=◌, ◌>>◌}
use squad_team.Events.{append, query}
use squad_team.Runs.{get_run}
use squad_team.Nodes.{list_nodes}
use squad_team.Gates.{list_by_run}
use squad_team.Results.{list_agent_results}
use squad_team.Snapshots.{suffix}
use squad_team.Replay.{FullDataLog}

-- `run.__dict__` and `event.__dict__`.
unfoldable pub run_dict : SquadRun → Fields
run_dict r = field "id" (str r.id) (
    field "goal" (str r.goal) (
      field "status" (str r.status) (
        field "version" (num r.version) (
          field "rule_version" (str r.rule_version) (
            field "schema_version" (str r.schema_version)
              (field "agent_contract_version" (str r.agent_contract_version) end))))))

unfoldable pub event_dict : SquadEvent → Fields
event_dict e = field "id" (str e.id) (
    field "run_id" (str e.run_id) (
      field "sequence_number" (num e.sequence_number) (
        field "type" (str e.type) (
          field "payload" (obj e.payload)
            (field "critical" (bool e.critical) (field "created_at" (str e.created_at) end))))))

unfoldable pub node_to_dict : TaskNode → Fields
node_to_dict n = field "id" (str n.id) (
    field "runId" (str n.run_id) (
      field "title" (str n.title) (
        field "type" (str n.type) (
          field "ownerAgentId" (str n.owner_agent_id) (
            field "status" (str (value n.status)) (
              field "blockedReasonCode" (opt_str n.blocked_reason_code) (
                field "checkpointId" (str n.checkpoint_id)
                  (field "replacedByNodeId" (opt_str n.replaced_by_node_id) end))))))))

-- The dictionaries of `GateRepository.list_by_run`, and of `list_agent_results` as far as their
-- columns are texts and flags.
unfoldable pub gate_dict : GateState → Fields
gate_dict g = field "gateName" (str g.gate_name) (
    field "status" (str g.status) (
      field "blockedReasonCode" (opt_str g.blocked_reason_code)
        (field "reason" (str g.reason) end)))

unfoldable pub agent_result_dict : AgentResultRow → Fields
agent_result_dict r = field "id" (str r.id) (
    field "runId" (str r.run_id) (
      field "taskNodeId" (str r.task_node_id) (
        field "agentId" (str r.agent_id) (
          field "status" (str r.status) (
            field "summary" (str r.summary) (
              field "workedAgainstCheckpoint" (str r.worked_against_checkpoint) (
                field "agentContractVersion" (str r.agent_contract_version) (
                  field "providerUsed" (str r.provider_used) (
                    field "providerType" (str r.provider_type) (
                      field "providerIdentityVerified" (bool r.provider_identity_verified) (
                        field "providerFallbackTriggered" (bool r.provider_fallback_triggered) (
                          field "fallbackReason" (opt_str r.fallback_reason)
                            (field "synthetic" (bool r.synthetic) end)))))))))))))

-- What `json.dumps` is given, without the lists that only repeat some of the events and the tables
-- that a replay does not read.
unfoldable pub log_of : String → ℕ → SquadRun → World → FullDataLog
unfolding query run_dict event_dict node_to_dict gate_dict agent_result_dict
log_of run_id limit run w = record {
  run = run_dict run;
  nodes = map node_to_dict (list_nodes run_id w);
  gates = map gate_dict (list_by_run run_id w);
  agent_results = map agent_result_dict (list_agent_results run_id w);
  events = map event_dict (query run_id none limit w.events).events;
}

abbrev pub exported_payload : String → Bool → Fields
exported_payload output_path true =
    field "outputPath" (str output_path) (field "final" (bool true) end)
exported_payload output_path false = field "outputPath" (str output_path) end

-- What is written to the file: the log as `json.dumps` prints it, or its keys as sections of a
-- Markdown text, which no reader of JSON takes.
pub data LogFile : Type 0 where
  json_log : FullDataLog → LogFile
  markdown_log : FullDataLog → LogFile

module _ (env : Env) (lower : String → String) where
  -- `output_path.suffix.lower() == ".md"`.
  unfoldable pub is_markdown : String → Bool
  unfolding suffix
  is_markdown output_path = lower (suffix output_path) == ".md"

  unfoldable pub written_log : String → FullDataLog → LogFile
  unfolding is_markdown
  written_log output_path log = if is_markdown output_path then markdown_log log else json_log log

  -- `export_run_log`, which returns what it writes to the file.
  unfoldable pub export_run_log : String → String → Bool → Exec LogFile
  unfolding append get_run log_of written_log
  export_run_log run_id output_path true = do
    append env run_id "log_exported" (exported_payload output_path true) true
    run ← get_run run_id
    log ← gets (log_of run_id 100000 run)
    pure (written_log output_path log)
  export_run_log run_id output_path false = do
    run ← get_run run_id
    log ← gets (log_of run_id 100000 run)
    append env run_id "log_exported" (exported_payload output_path false) true
    pure (written_log output_path log)

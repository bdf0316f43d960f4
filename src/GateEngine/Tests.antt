-- ===== src/GateEngine/Tests.antt =====
-- The gate theorems at a run without facts.
use squad_team.Prelude.{◌≡◌, String}
use squad_team.World.{AgentResultRow, ok, raised, type_error}
use squad_team.Prelude.{[], none, true, false}
use squad_team.Models.{micros}
use squad_team.Results.{insert_agent_result}
use squad_team.GateEngine.Legacy.Synthetic.{legacy-synthetic}
use squad_team.Samples.{toy, bare}
use squad_team.Nodes.Audit.{IsAudited-empty}
use squad_team.Nodes.Keeps.{IsConsistent}
use squad_team.Prelude.{refl}
use squad_team.GateEngine.{Decisions}
use squad_team.GateEngine.Legacy.{evaluate_legacy}
use squad_team.GateEngine.Legacy.Release.{release_passes}
use squad_team.GateEngine.Evaluate.{evaluate_strict, evaluate_all}
use squad_team.GateEngine.Evaluate.Release.{strict_release-passes}
use squad_team.GateEngine.Evaluate.Evidence.{review_raises, strict_evidence}
use squad_team.GateEngine.Evaluate.Recorded.{
  gate_status, latest, evaluation_raises, evaluate_all-recorded, evaluate_all-IsConsistent,
}

strict_release-passes_example :
    (review_raises "run-1" bare ≡ true
      → evaluate_strict toy "run-1" bare ≡ (raised type_error, bare))
    × (review_raises "run-1" bare ≡ false
        → (ds : Decisions) × (evaluate_strict toy "run-1" bare ≡ (ok ds, bare))
          × (release_passes (ok ds) ≡ strict_evidence "run-1" bare toy))
strict_release-passes_example = strict_release-passes toy "run-1" bare

evaluate_all-recorded_example :
    (evaluation_raises toy "run-1" "manual" "strict" bare ≡ true
      → evaluate_all toy "run-1" "manual" "strict" bare ≡ (raised type_error, bare))
    × (evaluation_raises toy "run-1" "manual" "strict" bare ≡ false
        → (ds : Decisions) × ((evaluate_all toy "run-1" "manual" "strict" bare).0 ≡ ok ds)
          × ((name : String)
              → gate_status "run-1" name (evaluate_all toy "run-1" "manual" "strict" bare).1
                ≡ latest name ds (gate_status "run-1" name bare)))
evaluate_all-recorded_example = evaluate_all-recorded toy "run-1" "manual" "strict" bare

bare-IsConsistent : IsConsistent bare
bare-IsConsistent = record {
  audited = IsAudited-empty bare refl refl;
  counted = (refl, tt);
  legal = tt;
}

evaluate_all-IsConsistent_example : IsConsistent (evaluate_all toy "run-1" "manual" "strict" bare).1
evaluate_all-IsConsistent_example =
    evaluate_all-IsConsistent toy "run-1" "manual" "strict" bare bare-IsConsistent

abbrev made_up : AgentResultRow
made_up = record {
  id = "agent-result-1";
  run_id = "run-1";
  task_node_id = "node-1";
  agent_id = "test-engineer";
  status = "pass";
  summary = "invented";
  evidence = [];
  artifacts = [];
  risks = [];
  next_actions = [];
  confidence = micros 1000000;
  worked_against_checkpoint = "ckp-1";
  agent_contract_version = "v1";
  provider_used = "mock";
  provider_type = "deterministic";
  provider_identity_verified = false;
  provider_fallback_triggered = false;
  fallback_reason = none;
  synthetic = true;
}

legacy-synthetic_example :
    (evaluate_legacy "run-1" (insert_agent_result made_up bare)).0
    ≡ (evaluate_legacy "run-1" bare).0
legacy-synthetic_example = legacy-synthetic "run-1" made_up bare refl

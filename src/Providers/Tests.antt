-- ===== src/Providers/Tests.antt =====
-- Dispatches of a ready node, to the deterministic provider and to one that cannot be started.
use squad_team.Prelude.{String, ◌≡◌, refl, false, none, some, List, [], ◌∷◌}
use squad_team.State.{ready, pass}
use squad_team.World.{os_error, ok, raised}
use squad_team.Contracts.{
  validate_agent_result, found_errors, confidence_in_range, checkpoint_matches, artifact_errors,
}
use squad_team.Models.{with_base_snapshot}
use squad_team.Nodes.Audit.{status_in}
use squad_team.AgentRegistry.{get_agent}
use squad_team.Samples.{tester, testers, toy, sample_node, sample_run, with_node}
use squad_team.Providers.{Provider, fake_result, fake_execute, dispatch_once}
use squad_team.Providers.Dispatch.{fake_execute-passes, FallsBack, dispatch_once-recovers}

abbrev missing_cli : Provider
missing_cli = λ node profile fallback reason w. (raised (os_error "claude"), w)

abbrev clis : List (String × Provider)
clis = ("claude_cli", missing_cli) ∷ ("fake_cli", fake_execute toy) ∷ []

fake_execute-passes_example :
    ((fake_execute toy (sample_node "node-1" ready) tester false none (with_node ready)).0
      ≡ ok (fake_result toy (sample_node "node-1" ready) tester))
    × (status_in "node-1"
          (fake_execute toy (sample_node "node-1" ready) tester false none (with_node ready)).1
        ≡ some pass)
unfolding validate_agent_result found_errors confidence_in_range checkpoint_matches artifact_errors
    with_base_snapshot
fake_execute-passes_example =
    fake_execute-passes toy (sample_node "node-1" ready) tester false none (with_node ready)
      sample_run refl refl refl refl

able :
    FallsBack toy (λ e. "error") testers clis (sample_node "node-1" ready) tester (with_node ready)
unfolding get_agent
able = record {
  found = refl;
  known = refl;
  primary = missing_cli;
  primary_found = refl;
  fallback_name = refl;
  automatic = refl;
  fallback_found = refl;
}

dispatch_once-recovers_example :
    ((dispatch_once toy (λ e. "error") testers clis "node-1" none (with_node ready)).0
      ≡ ok (fake_result toy (sample_node "node-1" ready) tester))
    × (status_in "node-1"
          (dispatch_once toy (λ e. "error") testers clis "node-1" none (with_node ready)).1
        ≡ some pass)
unfolding able validate_agent_result found_errors confidence_in_range checkpoint_matches
    artifact_errors with_base_snapshot
dispatch_once-recovers_example =
    dispatch_once-recovers toy (λ e. "error") testers clis (sample_node "node-1" ready) tester
      (with_node ready) (with_node ready) (os_error "claude") sample_run able refl refl refl refl
      refl

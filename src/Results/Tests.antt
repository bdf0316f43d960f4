-- ===== src/Results/Tests.antt =====
-- The theorems on agent results at a run with one running node.
use squad_team.Prelude.{◌≡◌, refl, some}
use squad_team.State.{running}
use squad_team.Samples.{toy, sample_run, sample_node, sample_result, bare, with_node}
use squad_team.Nodes.Audit.{status_in, IsAudited-empty}
use squad_team.Nodes.Keeps.{IsConsistent}
use squad_team.Contracts.{validate_agent_result}
use squad_team.Results.{apply_agent_result}
use squad_team.Results.Apply.{apply-IsConsistent}
use squad_team.Results.Status.{after_result, apply-status}

apply-status_example :
    status_in "node-1" (apply_agent_result toy sample_result (with_node running)).1
    ≡ some
        (after_result (validate_agent_result toy sample_result (some "ckp-1")).valid "pass" running)
apply-status_example =
    apply-status toy sample_result (with_node running) (sample_node "node-1" running) sample_run
      refl refl

bare-IsConsistent : IsConsistent bare
bare-IsConsistent = record {
  audited = IsAudited-empty bare refl refl;
  counted = (refl, tt);
  legal = tt;
}

apply-IsConsistent_example : IsConsistent (apply_agent_result toy sample_result bare).1
apply-IsConsistent_example = apply-IsConsistent toy sample_result bare bare-IsConsistent

-- ===== src/Facade/Tests.antt =====
-- Recovery at a run with a running node and two ready ones, and a replaced finding.
use squad_team.Prelude.{◌≡◌, refl, false, All, List, none, some, [], ◌∷◌}
use squad_team.State.{running, status_is}
use squad_team.Models.{TaskNode}
use squad_team.World.{World, ReviewFinding, ok}
use squad_team.Samples.{toy, sample_run, bare, waiting}
use squad_team.Facade.{recover_running_dispatches}
use squad_team.Facade.Recovery.{recover-idle}
use squad_team.Facade.Findings.{finding_in, outcome, replacement, supersede-replaces}

recover-idle_example :
    (out : List TaskNode) × ((recover_running_dispatches toy waiting).0 ≡ ok out)
    × All (λ m. status_is m.status running ≡ false) (recover_running_dispatches toy waiting).1.nodes
recover-idle_example =
    recover-idle toy waiting ((refl, (refl, tt)), ((refl, tt), (tt, tt)))
      ((sample_run, refl), ((sample_run, refl), ((sample_run, refl), tt)))

abbrev flaw : ReviewFinding
flaw = record {
  id = "finding-1";
  run_id = "run-1";
  task_node_id = "node-1";
  author_agent_id = "code-reviewer";
  severity = "high";
  description = "leak";
  status = "active";
  superseded_by_id = none;
}

abbrev reviewed : World
reviewed = record bare { findings = flaw ∷ [] }

supersede-replaces_example :
    ((outcome toy "finding-1" "low" "fixed" reviewed "code-reviewer").0 ≡ ok "finding-h")
    × (finding_in "finding-1" (outcome toy "finding-1" "low" "fixed" reviewed "code-reviewer").1
        ≡ some (record flaw { status = "superseded"; superseded_by_id = some "finding-h" }))
    × (finding_in "finding-h" (outcome toy "finding-1" "low" "fixed" reviewed "code-reviewer").1
        ≡ some (replacement toy "finding-1" "low" "fixed" reviewed flaw))
supersede-replaces_example =
    supersede-replaces toy "finding-1" "low" "fixed" reviewed flaw refl refl refl

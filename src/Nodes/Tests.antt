-- ===== src/Nodes/Tests.antt =====
-- The node theorems at a run with one node.
use squad_team.Prelude.{◌≡◌, refl, inr, ◌⊎◌}
use squad_team.State.{todo, status_is, transition_allowed, blocked_reason_codes}
use squad_team.State.Lifecycle.{here}
use squad_team.World.{World, Error, ok, raised}
use squad_team.Samples.{toy, sample_run, sample_node, bare, with_node, to_ready}
use squad_team.Nodes.{transition_node}
use squad_team.Nodes.Outcome.{Refused}
use squad_team.Nodes.Effect.{Goes, Moves, transition-cases}
use squad_team.Nodes.Audit.{
  IsAudited, IsAudited-empty, created, after_create, transition-IsAudited, create_node-IsAudited,
}
use squad_team.Nodes.Versions.{CountsChanges, IsLegal, transition-CountsChanges, transition-IsLegal}

goes : Goes to_ready (with_node todo)
unfolding status_is transition_allowed blocked_reason_codes
goes = record {
  well_formed = refl;
  node = sample_node "node-1" todo;
  node_found = refl;
  run = sample_run;
  run_found = refl;
  version_agrees = inr refl;
  status_agrees = refl;
}

transition-cases_example :
    ((g : Goes to_ready bare) × Moves to_ready bare g.node g.run
        (transition_node toy to_ready bare))
    ⊎ ((e : Error) × ((transition_node toy to_ready bare).0 ≡ raised e)
        × Refused toy to_ready bare (transition_node toy to_ready bare).1)
transition-cases_example = transition-cases toy to_ready bare

bare-IsAudited : IsAudited bare
bare-IsAudited = IsAudited-empty bare refl refl

abbrev made : World
made = (after_create toy "run-1" "Test" "test" "test-engineer" "ckp-1" bare).1

made-IsAudited : IsAudited made
made-IsAudited =
    (create_node-IsAudited toy "run-1" "Test" "test" "test-engineer" "ckp-1" bare bare-IsAudited
      refl).1

create_node-IsAudited_example :
    ((after_create toy "run-1" "Test" "test" "test-engineer" "ckp-1" bare).0
      ≡ ok (created toy "run-1" "Test" "test" "test-engineer" "ckp-1" bare))
    × IsAudited made
create_node-IsAudited_example =
    create_node-IsAudited toy "run-1" "Test" "test" "test-engineer" "ckp-1" bare bare-IsAudited refl

transition-IsAudited_example : IsAudited (transition_node toy to_ready made).1
transition-IsAudited_example = transition-IsAudited toy to_ready made made-IsAudited

transition-CountsChanges_example : CountsChanges (transition_node toy to_ready (with_node todo)).1
transition-CountsChanges_example = transition-CountsChanges toy to_ready (with_node todo) (refl, tt)

transition-IsLegal_example : IsLegal (transition_node toy to_ready (with_node todo)).1
transition-IsLegal_example = transition-IsLegal toy to_ready (with_node todo) (here, tt)

-- ===== src/Context/Tests.antt =====
-- The bundle of a running node, in a run with a result of it and one of another node.
use squad_team.Prelude.{◌≡◌, refl, false, none, [], ◌∷◌, ◌==◌, select, map, not}
use squad_team.State.{running}
use squad_team.World.{World, ok}
use squad_team.Events.{query}
use squad_team.Results.{list_agent_results, result_row}
use squad_team.AgentRegistry.{get_agent}
use squad_team.Providers.{fake_provenance}
use squad_team.Samples.{tester, testers, toy, sample_node, sample_result, with_node}
use squad_team.Context.{
  AgentContextBundle, IsFor, told, is_shown, fact_shown, build, build-isolated,
}

abbrev reported : World
reported = record (with_node running) {
  agent_results =
      result_row toy "agent-result-1" "run-1" sample_result (fake_provenance toy false none)
      ∷ result_row toy "agent-result-2" "run-1" (record sample_result { task_node_id = "node-2" })
          (fake_provenance toy false none)
      ∷ [];
}

build-isolated_example :
    (b : AgentContextBundle) × (build testers "node-1" reported ≡ (ok b, reported))
    × IsFor (sample_node "node-1" running) tester b
    × (b.dependency_summaries
        ≡ map told
            (select (λ r. not (r.task_node_id == "node-1")) (list_agent_results "run-1" reported)))
    × (b.runtime_facts
        ≡ map fact_shown (select is_shown (query "run-1" none 100000 reported.events).events))
unfolding get_agent
build-isolated_example =
    build-isolated testers reported (sample_node "node-1" running) tester refl refl

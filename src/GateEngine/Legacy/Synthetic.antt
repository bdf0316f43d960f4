-- ===== src/GateEngine/Legacy/Synthetic.antt =====
-- Synthetic results do not count for the legacy gates.
use squad_team.Prelude.{
  String, ◌≡◌, refl, inl, inr, true, ◌&&◌, Bool-cases, [], ◌∷◌, ◌==◌, not, select, select-append,
  append-nil,
}
use squad_team.World.{World, AgentResultRow}
use squad_team.Results.{insert_agent_result, list_agent_results}
use squad_team.GateEngine.Legacy.Release.{reality_decision, legacy-run}
use squad_team.GateEngine.{facts_for}
use squad_team.GateEngine.Legacy.{
  evaluate_test_gate, evaluate_code_review_gate, reality_verdict, evaluate_legacy,
}

module _ (run_id : String) (row : AgentResultRow) (w : World) (made_up : row.synthetic ≡ true) where
  select-synthetic :
      (agent_id : String)
      → select
          (λ r. r.agent_id == agent_id && not r.synthetic)
          (select (λ r. r.run_id == run_id) (row ∷ []))
        ≡ []
  select-synthetic agent_id = elim (Bool-cases (row.run_id == run_id)) [
    | inr e ↦ rw e refl
    | inl e ↦ elim (Bool-cases (row.agent_id == agent_id)) [
      | inl c ↦ rw (e, c, made_up) refl
      | inr c ↦ rw (e, c) refl
    ]
  ]

  facts_same :
      (agent_id : String)
      → facts_for run_id agent_id (insert_agent_result row w) ≡ facts_for run_id agent_id w
  unfolding facts_for list_agent_results insert_agent_result
  facts_same agent_id = rw (select-append (λ r. r.run_id == run_id) w.agent_results) (
      rw
        (select-append (λ r. r.agent_id == agent_id && not r.synthetic)
          (select (λ r. r.run_id == run_id) w.agent_results))
        (rw (select-synthetic agent_id) (append-nil _)))

  test-same : evaluate_test_gate run_id (insert_agent_result row w) ≡ evaluate_test_gate run_id w
  unfolding evaluate_test_gate insert_agent_result
  test-same = rw (facts_same "test-engineer") refl

  review-same :
      evaluate_code_review_gate run_id (insert_agent_result row w)
      ≡ evaluate_code_review_gate run_id w
  unfolding evaluate_code_review_gate insert_agent_result
  review-same = rw (facts_same "code-reviewer") refl

  reality-same : reality_verdict run_id (insert_agent_result row w) ≡ reality_verdict run_id w
  unfolding reality_verdict insert_agent_result
  reality-same = rw (facts_same "reality-checker") refl

  decision-same : reality_decision run_id (insert_agent_result row w) ≡ reality_decision run_id w
  unfolding reality_decision
  decision-same = rw (test-same, reality-same) refl

  -- A synthetic result that is added to the table changes no decision of the legacy mode.
  pub legacy-synthetic :
      (evaluate_legacy run_id (insert_agent_result row w)).0 ≡ (evaluate_legacy run_id w).0
  legacy-synthetic =
      rw
        (
          legacy-run run_id (insert_agent_result row w),
          legacy-run run_id w,
          test-same,
          review-same,
          decision-same,
        )
        refl

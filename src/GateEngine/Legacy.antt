-- ===== src/GateEngine/Legacy.antt =====
-- squad_runtime/gate_engine.py: the four gates of the legacy mode.
pub mod Release
pub mod Synthetic
use Prim.Native.String.{◌++◌ as cat}
use squad_team.Prelude.{
  String, Bool, true, false, ◌&&◌, ◌||◌, not, Option, none, some, List, [], ◌∷◌, ◌++◌, ◌==◌, any,
  is_empty, length, nat_eq, select, if◌then◌else◌,
}
use squad_team.State.{pass, fail, blocked, status_is}
use squad_team.Json.{decimal}
use squad_team.Models.{TaskNode, GateDecision}
use squad_team.World.{World, AgentResultRow, Result, ok, raised, Exec, pure, gets, and_then, ◌>>=◌}
use squad_team.GateEngine.{
  Decisions, decision, passed, decision_of, facts_for, active_nodes, result_details, node_details,
}

abbrev failing_nodes : List TaskNode → List TaskNode
failing_nodes nodes = select (λ n. not (status_is n.status pass)) nodes

unfoldable pub test_gate_from_nodes : List TaskNode → GateDecision
unfolding decimal
test_gate_from_nodes tests =
    let failing = failing_nodes tests in
    if is_empty tests
    then decision "test_gate" "blocked" "No active test nodes" (some "missing_test_pass") none
    else if not (is_empty failing)
    then decision "test_gate"
        (if any (λ n. status_is n.status fail) failing then "fail" else "blocked")
        (cat (decimal (length failing)) " active test node(s) not passing")
        (some "missing_test_pass") (node_details failing)
    else decision "test_gate" "pass" "All active test nodes passed" none (node_details tests)

unfoldable pub evaluate_test_gate : String → World → GateDecision
unfolding facts_for active_nodes test_gate_from_nodes
evaluate_test_gate run_id w =
    let facts = facts_for run_id "test-engineer" w in
    let failing = select (λ r. not (r.status == "pass")) facts in
    if is_empty facts
    then test_gate_from_nodes (active_nodes run_id "test" w)
    else if not (is_empty failing)
    then decision "test_gate" (if any (λ r. r.status == "fail") failing then "fail" else "blocked")
        "Test Engineer facts are not all passing" (some "missing_test_pass")
        (result_details failing)
    else decision "test_gate" "pass" "Test Engineer evidence passed" none (result_details facts)

unfoldable pub code_review_gate_from_nodes : List TaskNode → GateDecision
code_review_gate_from_nodes reviews =
    let blocking = select (λ n. status_is n.status fail || status_is n.status blocked) reviews in
    let approvals = select (λ n. status_is n.status pass) reviews in
    if is_empty reviews
    then decision "code_review_gate" "blocked" "No active review nodes" (some "missing_review_pass")
        none
    else if not (is_empty blocking)
    then decision "code_review_gate" "fail" "Blocking review findings exist"
        (some "missing_review_pass") (node_details blocking)
    else if is_empty approvals
    then decision "code_review_gate" "blocked" "No review approval" (some "missing_review_pass")
        none
    else decision "code_review_gate" "pass" "At least one review approved" none
        (node_details approvals)

unfoldable pub evaluate_code_review_gate : String → World → GateDecision
unfolding facts_for active_nodes code_review_gate_from_nodes
evaluate_code_review_gate run_id w =
    let facts = facts_for run_id "code-reviewer" w in
    let blocking = select (λ r. r.status == "fail" || r.status == "blocked") facts in
    let approvals = select (λ r. r.status == "pass") facts in
    if is_empty facts
    then code_review_gate_from_nodes (active_nodes run_id "review" w)
    else if not (is_empty blocking)
    then decision "code_review_gate" "fail" "Blocking review result exists"
        (some "missing_review_pass") (result_details blocking)
    else if not (is_empty approvals)
    then decision "code_review_gate" "pass" "Code Reviewer approved" none (result_details approvals)
    else decision "code_review_gate" "blocked" "No review approval" (some "missing_review_pass")
        none

unfoldable pub reality_gate_from_nodes : List TaskNode → GateDecision
reality_gate_from_nodes nodes =
    let ready =
      select (λ n. n.owner_agent_id == "reality-checker" && status_is n.status pass) nodes in
    if is_empty ready
    then decision "reality_checker_gate" "blocked" "Reality Checker readiness result missing"
        (some "gate_dependency_failed") none
    else decision "reality_checker_gate" "pass" "Reality Checker passed" none (node_details ready)

-- What `evaluate_reality_gate` decides once the test gate has passed.
unfoldable pub reality_verdict : String → World → GateDecision
unfolding facts_for active_nodes reality_gate_from_nodes
reality_verdict run_id w =
    let facts = facts_for run_id "reality-checker" w in
    let ready = select (λ r. r.status == "pass") facts in
    if is_empty facts
    then reality_gate_from_nodes (active_nodes run_id "gate" w)
    else if not (is_empty ready)
    then decision "reality_checker_gate" "pass" "Reality Checker passed" none (result_details ready)
    else decision "reality_checker_gate" "blocked" "Reality Checker readiness result missing"
        (some "gate_dependency_failed") none

unfoldable pub evaluate_reality_gate : String → Decisions → Exec GateDecision
unfolding reality_verdict
evaluate_reality_gate run_id decisions = do
  test ← (λ w. (decision_of "test_gate" decisions, w))
  if not (passed test)
      then pure (
          decision "reality_checker_gate" "blocked" "Test Gate not passed"
            (some "missing_test_pass") none)
      else gets (reality_verdict run_id)

-- The loop over the gates that a release needs, with the code of each.
unfoldable pub require_gates : List (String × String) → Decisions → Exec GateDecision
require_gates [] decisions =
    pure (decision "release_gate" "pass" "All prerequisite gates passed" none none)
require_gates ((gate_name, reason_code) ∷ gates) decisions = do
  d ← (λ w. (decision_of gate_name decisions, w))
  if not (passed d)
      then pure
          (decision "release_gate" "blocked" (cat gate_name " not passed") (some reason_code) none)
      else require_gates gates decisions

unfoldable pub evaluate_release_gate : Decisions → Exec GateDecision
unfolding require_gates
evaluate_release_gate decisions =
    require_gates
      (("test_gate", "missing_test_pass")
        ∷ ("code_review_gate", "missing_review_pass")
        ∷ ("reality_checker_gate", "gate_dependency_failed")
        ∷ [])
      decisions

unfoldable pub evaluate_legacy : String → Exec Decisions
unfolding evaluate_test_gate evaluate_code_review_gate evaluate_reality_gate evaluate_release_gate
evaluate_legacy run_id = do
  test ← gets (evaluate_test_gate run_id)
  review ← gets (evaluate_code_review_gate run_id)
  let two = ("test_gate", test) ∷ ("code_review_gate", review) ∷ []
  reality ← evaluate_reality_gate run_id two
  let three = two ++ ("reality_checker_gate", reality) ∷ []
  release ← evaluate_release_gate three
  pure (three ++ ("release_gate", release) ∷ [])

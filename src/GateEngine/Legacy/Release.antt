-- ===== src/GateEngine/Legacy/Release.antt =====
-- The legacy gates against a description of what a release needs.
use squad_team.Prelude.{
  String, ◌≡◌, refl, Bool, false, ◌&&◌, ◌||◌, not, Bool-cases, List, [], ◌∷◌, ◌++◌, ◌==◌, all, any,
  is_empty, select, arith, if◌then◌else◌, inl, inr, some, none,
}
use squad_team.State.{pass, fail, blocked, status_is}
use squad_team.Models.{GateDecision, TaskNode}
use squad_team.World.{World, AgentResultRow, Result, ok, raised}
use squad_team.GateEngine.{decision, Decisions, passed, decision_of, facts_for, active_nodes}
use squad_team.GateEngine.Legacy.{
  evaluate_test_gate, evaluate_code_review_gate, reality_verdict, evaluate_reality_gate,
  evaluate_release_gate, evaluate_legacy, reality_gate_from_nodes,
}

-- What a release needs: of the facts, where an agent has reported any, and of the nodes, where it
-- has not.
pub tests_pass : String → World → Bool
tests_pass run_id w =
    let facts = facts_for run_id "test-engineer" w in
    let nodes = active_nodes run_id "test" w in
    if is_empty facts
    then not (is_empty nodes) && all (λ n. status_is n.status pass) nodes
    else all (λ r. r.status == "pass") facts

pub review_passes : String → World → Bool
review_passes run_id w =
    let facts = facts_for run_id "code-reviewer" w in
    let nodes = active_nodes run_id "review" w in
    if is_empty facts
    then all (λ n. not (status_is n.status fail || status_is n.status blocked)) nodes
      && any (λ n. status_is n.status pass) nodes
    else all (λ r. not (r.status == "fail" || r.status == "blocked")) facts
      && any (λ r. r.status == "pass") facts

unfoldable pub reality_passes : String → World → Bool
reality_passes run_id w =
    let facts = facts_for run_id "reality-checker" w in
    if is_empty facts
    then any (λ n. n.owner_agent_id == "reality-checker" && status_is n.status pass)
        (active_nodes run_id "gate" w)
    else any (λ r. r.status == "pass") facts

some_holds {ℓ} : {A : Type ℓ} (p : A → Bool) (xs : List A) → is_empty (select p xs) ≡ not (any p xs)
some_holds p [] = refl
some_holds p (x ∷ xs) = ground (arith, some_holds p xs)

pub reality_verdict-passed :
    (run_id : String) (w : World) → passed (reality_verdict run_id w) ≡ reality_passes run_id w
unfolding reality_verdict reality_passes reality_gate_from_nodes
reality_verdict-passed run_id w =
    let facts = facts_for run_id "reality-checker" w in
    let nodes = active_nodes run_id "gate" w in
    let good = λ (r : AgentResultRow). r.status == "pass" in
    let ready =
      λ (n : TaskNode). n.owner_agent_id == "reality-checker" && status_is n.status pass in
    elim (Bool-cases (is_empty facts)) [
      | inl e ↦ elim (Bool-cases (any ready nodes)) [
        | inl b ↦ rw (e, some_holds ready nodes, b) refl
        | inr b ↦ rw (e, some_holds ready nodes, b) refl
      ]
      | inr e ↦ elim (Bool-cases (any good facts)) [
        | inl b ↦ rw (e, some_holds good facts, b) refl
        | inr b ↦ rw (e, some_holds good facts, b) refl
      ]
    ]

-- The decisions that the legacy mode returns, when it returns.
unfoldable pub release_passes : Result Decisions → Bool
release_passes (raised e) = false
release_passes (ok ds) = elim (decision_of "release_gate" ds) [ raised e ↦ false | ok d ↦ passed d ]

-- The reality gate's decision, given the test gate's.
unfoldable pub reality_decision : String → World → GateDecision
reality_decision run_id w =
    if not (passed (evaluate_test_gate run_id w))
    then decision "reality_checker_gate" "blocked" "Test Gate not passed" (some "missing_test_pass")
        none
    else reality_verdict run_id w

abbrev two : GateDecision → GateDecision → Decisions
two t v = ("test_gate", t) ∷ ("code_review_gate", v) ∷ []

reality-run :
    (run_id : String) (w : World)
    → evaluate_reality_gate run_id
        (two (evaluate_test_gate run_id w) (evaluate_code_review_gate run_id w))
        w
      ≡ (ok (reality_decision run_id w), w)
unfolding evaluate_reality_gate reality_decision
reality-run run_id w = elim (Bool-cases (passed (evaluate_test_gate run_id w))) [
  | inl e ↦ rw e refl
  | inr e ↦ rw e refl
]

release-run :
    (t v r : GateDecision)
    → (d : GateDecision) × ((w : World)
        → evaluate_release_gate (two t v ++ ("reality_checker_gate", r) ∷ []) w ≡ (ok d, w))
      × (passed d ≡ (passed t && passed v && passed r))
unfolding evaluate_release_gate
release-run t v r = elim (Bool-cases (passed t)) [
  | inr a ↦ rw a (_, λ w. refl, refl)
  | inl a ↦ elim (Bool-cases (passed v)) [
    | inr b ↦ rw (a, b) (_, λ w. refl, refl)
    | inl b ↦ elim (Bool-cases (passed r)) [
      | inr c ↦ rw (a, b, c) (_, λ w. refl, refl)
      | inl c ↦ rw (a, b, c) (_, λ w. refl, refl)
    ]
  ]
]

-- The four decisions, given the first three.
pub four : GateDecision → GateDecision → GateDecision → Decisions
four t v r = two t v ++ ("reality_checker_gate", r) ∷ ("release_gate", (release-run t v r).0) ∷ []

-- The legacy mode returns its decisions and leaves the state as it was.
pub legacy-run :
    (run_id : String) (w : World)
    → evaluate_legacy run_id w ≡ (
      ok (
          four
            (evaluate_test_gate run_id w)
            (evaluate_code_review_gate run_id w)
            (reality_decision run_id w)),
      w,
    )
unfolding evaluate_legacy four
legacy-run run_id w = rw (reality-run run_id w) (
    rw
      ((release-run (evaluate_test_gate run_id w) (evaluate_code_review_gate run_id w)
          (reality_decision run_id w)).1
        w)
      refl)

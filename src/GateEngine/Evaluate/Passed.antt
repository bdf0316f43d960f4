-- ===== src/GateEngine/Evaluate/Passed.antt =====
-- When each gate of the strict mode passes, in terms of its own tests.
use squad_team.Prelude.{
  String, ◌≡◌, refl, sym, ap, ◌∙◌, inl, inr, Bool, true, false, ◌&&◌, ◌||◌, not, Bool-cases, [],
  ◌∷◌, ◌==◌, all, any, if◌then◌else◌, arith,
}
use squad_team.Json.{field_is, field_truthy}
use squad_team.Canonicalization.{Env}
use squad_team.Models.{GateDecision}
use squad_team.World.{World, Error, Result, ok, raised, type_error}
use squad_team.GateEngine.{Decisions, passed}
use squad_team.GateEngine.Strict.{
  GateEvidenceContext, has_pass, is_ui_smoke, review_decision, strict_code_review_gate,
  is_inauthentic, is_tampered, strict_test_gate, strict_code_review_gate,
  provider_authenticity_gate, evidence_authenticity_gate, chain_completeness_gate, strict_fail,
  payloads, query_events,
}
use squad_team.GateEngine.Evaluate.Evidence.{names_review, meets_unhashable, any_review-agrees}
use squad_team.GateEngine.Evaluate.{
  coverage_gate, is_coverage, boundary_gate, leaves_workspace, strict_release_gate,
}

ok_injective : (d e : GateDecision) → ◌≡◌ {A = Result GateDecision} (ok d) (ok e) → d ≡ e
ok_injective d e h = cc

raised_not_ok : (e : Error) (d : GateDecision) → ◌≡◌ {A = Result GateDecision} (raised e) (ok d) → ⊥
raised_not_ok e d h = cc

passed-if :
    (b : Bool) (d e : GateDecision)
    → passed (if b then d else e) ≡ (if b then passed d else passed e)
passed-if true d e = refl
passed-if false d e = refl

module _ (c : GateEvidenceContext) where
  pub test-passed : passed (strict_test_gate c) ≡ (
      has_pass "test-engineer" c.agent_results
      && any (field_is "type" "test") c.artifacts
      && any is_ui_smoke c.verification_results)
  unfolding strict_test_gate strict_fail
  test-passed = elim (Bool-cases (has_pass "test-engineer" c.agent_results)) [
    | inr a ↦ rw a refl
    | inl a ↦ elim (Bool-cases (any (field_is "type" "test") c.artifacts)) [
      | inr b ↦ rw (a, b) refl
      | inl b ↦ elim (Bool-cases (any is_ui_smoke c.verification_results)) [
        | inl d ↦ rw (a, b, d) refl
        | inr d ↦ rw (a, b, d) refl
      ]
    ]
  ]

  decided-passed :
      (bad found : Bool)
      → (review : GateDecision)
      → review_decision c (if bad then raised type_error else ok found) ≡ ok review
      → passed review ≡ found
  unfolding review_decision strict_fail
  decided-passed true found review h = absurd (raised_not_ok _ _ h)
  decided-passed false true review h = ap passed (sym (ok_injective _ _ h))
  decided-passed false false review h = ap passed (sym (ok_injective _ _ h))

  pub review-passed :
      (review : GateDecision)
      → strict_code_review_gate c ≡ ok review
      → passed review ≡ (has_pass "code-reviewer" c.agent_results && any names_review c.artifacts)
  unfolding strict_code_review_gate
  review-passed review = elim (Bool-cases (has_pass "code-reviewer" c.agent_results)) [
    | inr a ↦ rw (a, strict_code_review_gate) λ h. ap passed (sym (ok_injective _ _ h))
    | inl a ↦
        rw (a, strict_code_review_gate, any_review-agrees c.artifacts)
          (decided-passed (meets_unhashable c.artifacts) (any names_review c.artifacts) review)
  ]

  raises :
      (b : Bool)
      → b ≡ true
      → review_decision c (if b then raised type_error else ok (any names_review c.artifacts))
        ≡ raised type_error
  unfolding review_decision
  raises true h = refl
  raises false h = absurd (ground arith)

  returns :
      (b found : Bool)
      → b ≡ false
      → (review : GateDecision) × (review_decision c (if b then raised type_error else ok found)
          ≡ ok review)
  unfolding review_decision
  returns true found h = absurd (ground arith)
  returns false true h = (_, refl)
  returns false false h = (_, refl)

  pub review-raised :
      (has_pass "code-reviewer" c.agent_results && meets_unhashable c.artifacts) ≡ true
      → strict_code_review_gate c ≡ raised type_error
  unfolding strict_code_review_gate
  review-raised h = elim (Bool-cases (has_pass "code-reviewer" c.agent_results)) [
    | inr a ↦ absurd (ground arith)
    | inl a ↦
        rw (a, strict_code_review_gate, any_review-agrees c.artifacts)
          (raises (meets_unhashable c.artifacts) (ground arith))
  ]

  pub review-returned :
      (has_pass "code-reviewer" c.agent_results && meets_unhashable c.artifacts) ≡ false
      → (review : GateDecision) × (strict_code_review_gate c ≡ ok review)
  unfolding strict_code_review_gate
  review-returned h = elim (Bool-cases (has_pass "code-reviewer" c.agent_results)) [
    | inr a ↦ rw (a, strict_code_review_gate) (_, refl)
    | inl a ↦
        rw (a, strict_code_review_gate, any_review-agrees c.artifacts)
          (returns (meets_unhashable c.artifacts) (any names_review c.artifacts) (ground arith))
  ]

  pub provider-passed :
      passed (provider_authenticity_gate c) ≡ not (any is_inauthentic c.agent_results)
  unfolding provider_authenticity_gate strict_fail
  provider-passed = passed-if (any is_inauthentic c.agent_results) _ _ ∙ ground arith

  pub evidence-passed : passed (evidence_authenticity_gate c) ≡ not (any is_tampered c.artifacts)
  unfolding evidence_authenticity_gate strict_fail
  evidence-passed = passed-if (any is_tampered c.artifacts) _ _ ∙ ground arith

  module _ (env : Env) where
    pub coverage-passed :
        passed (coverage_gate env c) ≡ any (is_coverage env) c.verification_results
    unfolding coverage_gate strict_fail
    coverage-passed = passed-if (any (is_coverage env) c.verification_results) _ _ ∙ ground arith

    pub boundary-passed :
        passed (boundary_gate env c) ≡ not (any (leaves_workspace env) c.artifacts)
    unfolding boundary_gate strict_fail
    boundary-passed = passed-if (any (leaves_workspace env) c.artifacts) _ _ ∙ ground arith

    abbrev earlier : Decisions → Bool
    earlier ds = all (λ p. p.0 == "release_gate" || passed p.1) ds

    -- The release gate passes exactly if every decision before it passed and an archive was produced.
    pub release-passed :
        (ds : Decisions)
        → passed (strict_release_gate env c ds)
          ≡ (earlier ds && any (field_is "type" "release_archive") c.artifacts)
    unfolding strict_release_gate strict_fail
    release-passed [] =
        passed-if (any (field_is "type" "release_archive") c.artifacts) _ _ ∙ ground arith
    release-passed ((name, d) ∷ ds) = elim (Bool-cases (name == "release_gate")) [
      | inl a ↦ rw a (release-passed ds)
      | inr a ↦ elim (Bool-cases (passed d)) [
        | inl b ↦ rw (a, b) (release-passed ds)
        | inr b ↦ rw (a, b) refl
      ]
    ]

pub chain-passed :
    (run_id : String) (w : World)
    → passed (chain_completeness_gate run_id w) ≡ (
        any
          (field_truthy "finalEventHash")
          (payloads "event_hash_chain_sealed" (query_events run_id w))
        && any
            (field_truthy "chainGraphHash")
            (payloads "runtime_chain_graph_sealed" (query_events run_id w)))
unfolding chain_completeness_gate strict_fail
chain-passed run_id w =
    let events = query_events run_id w in
    elim (Bool-cases
      (any (field_truthy "finalEventHash") (payloads "event_hash_chain_sealed" events))) [
        | inr a ↦ rw a refl
        | inl a ↦
            elim (Bool-cases (
              any (field_truthy "chainGraphHash") (payloads "runtime_chain_graph_sealed" events))) [
                | inl b ↦ rw (a, b) refl
                | inr b ↦ rw (a, b) refl
              ]
      ]

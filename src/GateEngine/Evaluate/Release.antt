-- ===== src/GateEngine/Evaluate/Release.antt =====
-- The strict release gate against a description of the evidence that it needs.
use squad_team.Prelude.{
  String, ◌≡◌, refl, ◌∙◌, inl, inr, Bool, true, false, ◌&&◌, not, Bool-cases, List, [], ◌∷◌, ◌++◌,
  all, any, if◌then◌else◌, none, arith, some,
}
use squad_team.Json.{field_is}
use squad_team.Canonicalization.{Env}
use squad_team.Models.{GateDecision}
use squad_team.World.{World, ok, raised, type_error}
use squad_team.GateEngine.{Decisions, decision, passed}
use squad_team.GateEngine.Legacy.{evaluate_reality_gate, reality_verdict}
use squad_team.GateEngine.Legacy.Release.{reality_verdict-passed, release_passes}
use squad_team.GateEngine.Strict.{
  GateEvidenceContext, has_pass, strict_code_review_gate, gate_evidence_context, strict_test_gate,
  strict_code_review_gate, provider_authenticity_gate, evidence_authenticity_gate,
  chain_completeness_gate, query_events,
}
use squad_team.GateEngine.Evaluate.Evidence.{
  meets_unhashable, review_raises, strict_evidence, passes-agrees, authentic-agrees,
  untampered-agrees, covers-agrees, inside-agrees, hash-agrees,
}
use squad_team.GateEngine.Evaluate.{
  coverage_gate, boundary_gate, strict_release_gate, evaluate_strict, strict_seven,
}
use squad_team.GateEngine.Evaluate.Passed.{
  test-passed, review-passed, review-raised, review-returned, provider-passed, evidence-passed,
  coverage-passed, boundary-passed, release-passed, chain-passed,
}

and_last :
    (t v p e k h b r a : Bool)
    → ((t && (v && (p && (e && (k && (h && (b && (r && true)))))))) && a)
      ≡ all (λ met. met) (t ∷ v ∷ p ∷ e ∷ k ∷ h ∷ b ∷ r ∷ a ∷ [])
and_last t v p e k h b r a = ground arith

module _ (run_id : String) (w : World) where
  abbrev pub context : GateEvidenceContext
  context = gate_evidence_context run_id w

module _ (env : Env) (run_id : String) (w : World) (review : GateDecision)
    (reviewed : strict_code_review_gate (context run_id w) ≡ ok review) where
  abbrev c : GateEvidenceContext
  c = context run_id w

  abbrev pub eight : GateDecision → Decisions
  eight r = strict_seven env review run_id w ++ ("reality_checker_gate", r) ∷ []

  abbrev conditions : GateDecision → List Bool
  conditions r =
      passed (strict_test_gate c)
      ∷ passed review
      ∷ passed (provider_authenticity_gate c)
      ∷ passed (evidence_authenticity_gate c)
      ∷ passed (coverage_gate env c)
      ∷ passed (chain_completeness_gate run_id w)
      ∷ passed (boundary_gate env c)
      ∷ passed r
      ∷ any (field_is "type" "release_archive") c.artifacts
      ∷ []

  eight-passed :
      (r : GateDecision)
      → passed (strict_release_gate env c (eight r)) ≡ all (λ met. met) (conditions r)
  eight-passed r =
      release-passed c env (eight r)
      ∙ and_last (passed (strict_test_gate c)) (passed review)
          (passed (provider_authenticity_gate c)) (passed (evidence_authenticity_gate c))
          (passed (coverage_gate env c)) (passed (chain_completeness_gate run_id w))
          (passed (boundary_gate env c)) (passed r)
          (any (field_is "type" "release_archive") c.artifacts)

  evidence_lem :
      all (λ met. met) (conditions (reality_verdict run_id w)) ≡ strict_evidence run_id w env
  unfolding strict_evidence gate_evidence_context
  evidence_lem =
      rw
        (
          test-passed c,
          review-passed c review reviewed,
          provider-passed c,
          evidence-passed c,
          coverage-passed c env,
          chain-passed run_id w,
          boundary-passed c env,
          reality_verdict-passed run_id w,
          passes-agrees run_id w "test-engineer",
          passes-agrees run_id w "code-reviewer",
          authentic-agrees c.agent_results,
          untampered-agrees c.artifacts,
          covers-agrees env c.verification_results,
          inside-agrees env c.artifacts,
          hash-agrees "event_hash_chain_sealed" "finalEventHash" (query_events run_id w),
          hash-agrees "runtime_chain_graph_sealed" "chainGraphHash" (query_events run_id w),
        )
        refl

  -- The reality gate's decision, given the test gate's.
  pub strict_reality : GateDecision
  strict_reality =
      if not (passed (strict_test_gate c))
      then decision "reality_checker_gate" "blocked" "Test Gate not passed"
          (some "missing_test_pass") none
      else reality_verdict run_id w

  release-evidence :
      passed (strict_release_gate env c (eight strict_reality)) ≡ strict_evidence run_id w env
  unfolding strict_reality
  release-evidence = elim (Bool-cases (passed (strict_test_gate c))) [
    | inl a ↦ eight-passed strict_reality ∙ rw a (rw a at (evidence_lem))
    | inr a ↦ eight-passed strict_reality ∙ rw a (rw a at (evidence_lem))
  ]

  abbrev pub strict_decisions : Decisions
  strict_decisions =
      eight strict_reality
      ++ ("release_gate", strict_release_gate env c (eight strict_reality)) ∷ []

  pub strict-run : evaluate_strict env run_id w ≡ (ok strict_decisions, w)
  unfolding evaluate_strict evaluate_reality_gate strict_reality
  strict-run =
      rw reviewed
        (elim (Bool-cases (passed (strict_test_gate c))) [ inl a ↦ rw a refl | inr a ↦ rw a refl ])

  pub strict-release : release_passes (ok strict_decisions) ≡ strict_evidence run_id w env
  unfolding release_passes
  strict-release = release-evidence

module _ (env : Env) (run_id : String) (w : World) where
  raises_agree :
      (has_pass "code-reviewer" (context run_id w).agent_results
        && meets_unhashable (context run_id w).artifacts)
      ≡ review_raises run_id w
  unfolding review_raises gate_evidence_context
  raises_agree = rw (passes-agrees run_id w "code-reviewer") refl

  -- In the strict mode a review raises TypeError as described, and then nothing has changed.
  pub strict-raised :
      review_raises run_id w ≡ true → evaluate_strict env run_id w ≡ (raised type_error, w)
  unfolding evaluate_strict
  strict-raised h = rw (review-raised (context run_id w) (raises_agree ∙ h)) refl

  pub strict-returned :
      review_raises run_id w ≡ false
      → (ds : Decisions) × (evaluate_strict env run_id w ≡ (ok ds, w))
        × (release_passes (ok ds) ≡ strict_evidence run_id w env)
  strict-returned h =
      let (review, reviewed) = review-returned (context run_id w) (raises_agree ∙ h) in
      (
        strict_decisions env run_id w review reviewed,
        strict-run env run_id w review reviewed,
        strict-release env run_id w review reviewed,
      )

  -- The strict mode changes nothing. Where a code reviewer has passed and the first artifact that is a
  -- review, or has a list or a dictionary for its type, has the latter, it raises TypeError;
  -- otherwise it returns, and its release gate passes exactly if the evidence that a release needs is
  -- there.
  pub strict_release-passes :
      (review_raises run_id w ≡ true → evaluate_strict env run_id w ≡ (raised type_error, w))
      × (review_raises run_id w ≡ false
          → (ds : Decisions) × (evaluate_strict env run_id w ≡ (ok ds, w))
            × (release_passes (ok ds) ≡ strict_evidence run_id w env))
  strict_release-passes = (strict-raised, strict-returned)

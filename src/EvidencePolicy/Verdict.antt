-- ===== src/EvidencePolicy/Verdict.antt =====
-- The verdict of the evidence policy against a description of what the requirements ask.
use squad_team.Prelude.{
  Bool, true, ◌&&◌, ◌||◌, not, [], ◌∷◌, all, any, is_empty, or_else, if◌then◌else◌,
}
use squad_team.Json.{Fields, end, field_is, field_false, field_truthy}
use squad_team.EvidencePolicy.{
  EvidenceRequirements, Facts, of_type, verified, lane_passed, has_review_artifact, chain_broken,
}

abbrev pub is_authentic : Fields → Bool
is_authentic d =
    field_is "providerUsed" "claude_cli" d
    && (field_is "providerType" "real_llm" d
        && (field_truthy "providerIdentityVerified" d
            && (not (field_truthy "providerFallbackTriggered" d)
                && not (field_truthy "synthetic" d))))

abbrev pub providers_real : EvidenceRequirements → Facts → Bool
providers_real q facts =
    if q.require_real_provider then all is_authentic facts.agent_results else true

abbrev pub types_present : EvidenceRequirements → Facts → Bool
types_present q facts =
    all
      (λ t.
        not (is_empty (of_type t facts.artifacts))
        && all (λ d. not (field_false "exists" d)) (of_type t facts.artifacts))
      q.required_artifact_types

abbrev pub hashes_match : EvidenceRequirements → Facts → Bool
hashes_match q facts =
    all (λ t. all (λ d. not (field_false "hashMatches" d)) (of_type t facts.artifacts))
      q.required_artifact_types

abbrev pub skills_used : EvidenceRequirements → Facts → Bool
skills_used q facts =
    all (λ skill. any (field_is "skill" skill) facts.skill_usage) q.required_skill_usages

-- What the requirements ask of the facts.
pub satisfies : EvidenceRequirements → Facts → Bool
satisfies q facts =
    all (λ met. met)
      (providers_real q facts
        ∷ types_present q facts
        ∷ hashes_match q facts
        ∷ all (verified facts.verification_results) q.required_verification_kinds
        ∷ all (lane_passed facts.coverage_lanes) q.required_coverage_lanes
        ∷ skills_used q facts
        ∷ (not q.require_review_artifact || has_review_artifact facts)
        ∷ (not q.require_event_hash_chain
            || not (chain_broken (or_else facts.event_hash_chain end)))
        ∷ [])

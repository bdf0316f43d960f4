-- ===== src/EvidencePolicy.antt =====
-- squad_runtime/evidence_policy.py, and the requirements of squad_runtime/profile_registry.py that it
-- evaluates. The dictionary of facts is a record; a key that is missing is an empty list.
pub mod Verdict
mod Tests
use Prim.Native.String.{◌++◌ as cat}
use squad_team.Prelude.{
  ℕ, String, Bool, true, false, ◌&&◌, ◌||◌, not, Option, none, some, List, [], ◌∷◌, ◌++◌, ◌==◌, any,
  is_empty, or_else, select, if◌then◌else◌,
}
use squad_team.Json.{Json, null, str, Fields, end, get, field_is, field_false, field_truthy}
use squad_team.Canonicalization.{Env, py_str}

pub data EvidenceScenarioType : Type 0 where
  smoke mvp full_dev release real_acceptance : EvidenceScenarioType

pub record EvidenceRequirements : Type 0 where
  pub required_artifact_types : List String
  pub warning_artifact_types : List String
  pub required_verification_kinds : List String
  pub warning_verification_kinds : List String
  pub required_coverage_lanes : List String
  pub required_skill_usages : List String
  pub require_review_artifact : Bool
  pub require_event_hash_chain : Bool
  pub require_real_provider : Bool

pub record FrozenResolvedProfile : Type 0 where
  pub schema_version : String
  pub scenario_type : EvidenceScenarioType
  pub requirements : EvidenceRequirements
  pub resolved_profile_hash : String
  pub source_profiles : List Fields

-- The defaults of the dataclass.
abbrev pub no_requirements : EvidenceRequirements
no_requirements = record {
  required_artifact_types = [];
  warning_artifact_types = [];
  required_verification_kinds = [];
  warning_verification_kinds = [];
  required_coverage_lanes = [];
  required_skill_usages = [];
  require_review_artifact = false;
  require_event_hash_chain = false;
  require_real_provider = true;
}

abbrev pub full_requirements : EvidenceRequirements
full_requirements = record no_requirements {
  required_artifact_types = "mvp" ∷ [];
  required_verification_kinds = "ui_smoke" ∷ [];
  required_coverage_lanes = "Security Coverage Lane" ∷ [];
  required_skill_usages = "using-superpowers" ∷ [];
  require_review_artifact = true;
  require_event_hash_chain = true;
}

unfoldable pub requirements_for : EvidenceScenarioType → EvidenceRequirements
requirements_for smoke = record no_requirements {
  warning_artifact_types = "any" ∷ [];
  warning_verification_kinds = "any" ∷ [];
}
requirements_for mvp = record no_requirements {
  required_artifact_types = "mvp" ∷ [];
  required_verification_kinds = "ui_smoke" ∷ [];
  required_skill_usages = "using-superpowers" ∷ [];
  require_review_artifact = true;
}
requirements_for _ = full_requirements

pub record EvidenceIssue : Type 0 where
  pub key : String
  pub failure_class : String
  pub message : String
  pub severity : String

pub record EvidenceGateResult : Type 0 where
  pub status : String
  pub schema_version : String
  pub resolved_profile_hash : String
  pub missing : List EvidenceIssue
  pub invalid : List EvidenceIssue
  pub tampered : List EvidenceIssue
  pub warnings : List EvidenceIssue

pub record Facts : Type 0 where
  pub agent_results : List Fields
  pub artifacts : List Fields
  pub verification_results : List Fields
  pub coverage_lanes : List Fields
  pub skill_usage : List Fields
  pub review_artifacts : List Fields
  pub event_hash_chain : Option Fields

abbrev pub issue : String → String → String → EvidenceIssue
issue key failure_class message = record {
  key = key;
  failure_class = failure_class;
  message = message;
  severity = "blocking";
}

abbrev pub warning : String → String → EvidenceIssue
warning key message = record {
  key = key;
  failure_class = "EVIDENCE_MISSING";
  message = message;
  severity = "warning";
}

abbrev pub issue_if : Bool → EvidenceIssue → List EvidenceIssue
issue_if true i = i ∷ []
issue_if false i = []

-- The issues that a loop finds, round by round.
abbrev pub issues_of {ℓ} : {A : Type ℓ} → (A → List EvidenceIssue) → List A → List EvidenceIssue
issues_of f [] = []
issues_of f (x ∷ xs) = f x ++ issues_of f xs

abbrev pub of_type : String → List Fields → List Fields
of_type artifact_type artifacts = select (field_is "type" artifact_type) artifacts

abbrev pub verified : List Fields → String → Bool
verified results kind = any (λ d. field_is "kind" kind d && field_is "status" "pass" d) results

abbrev pub lane_passed : List Fields → String → Bool
lane_passed lanes lane = any (λ d. field_is "lane" lane d && field_is "status" "pass" d) lanes

abbrev pub is_review_fact : Fields → Bool
is_review_fact d =
    field_is "type" "review" d
    || field_is "type" "review_fact" d
    || field_is "type" "review-artifact" d

unfoldable pub has_review_artifact : Facts → Bool
unfolding field_is
has_review_artifact facts =
    not (is_empty facts.review_artifacts) || any is_review_fact facts.artifacts

abbrev pub chain_broken : Fields → Bool
chain_broken chain =
    not (field_is "status" "present" chain) || not (field_truthy "finalEventHash" chain)

module _ (env : Env) where
  -- `f"{d.get(key)}"`, and `d.get("agentId", "unknown")` in a text.
  abbrev shown : String → Fields → String
  shown key d = py_str env (or_else (get d key) null)

  abbrev agent_of : Fields → String
  agent_of d = py_str env (or_else (get d "agentId") (str "unknown"))

  unfoldable pub provider_issues : Fields → List EvidenceIssue
  unfolding py_str field_is field_truthy
  provider_issues d =
      let who = agent_of d in
      issue_if (not (field_is "providerUsed" "claude_cli" d))
        (issue (cat "provider:" who) "PROVIDER_FAILURE" (cat who " did not use claude_cli"))
      ++ (issue_if (not (field_is "providerType" "real_llm" d))
            (issue (cat "providerType:" who) "PROVIDER_FAILURE" (cat who " was not real_llm"))
          ++ (issue_if (not (field_truthy "providerIdentityVerified" d)) (
                issue (cat "providerIdentity:" who) "PROVIDER_FAILURE"
                  (cat who " provider identity not verified"))
              ++ (issue_if (field_truthy "providerFallbackTriggered" d) (
                    issue (cat "providerFallback:" who) "PROVIDER_FAILURE"
                      (cat who " used provider fallback"))
                  ++ issue_if (field_truthy "synthetic" d) (
                      issue (cat "synthetic:" who) "PROVIDER_FAILURE"
                        (cat who " used synthetic result")))))

  -- What one required artifact type adds to the missing issues, and to the tampered ones.
  unfoldable pub artifact_missing : List Fields → String → List EvidenceIssue
  unfolding py_str field_is field_false
  artifact_missing artifacts t =
      issue_if (is_empty (of_type t artifacts))
        (issue (cat "artifact:" t) "EVIDENCE_MISSING" (cat "Missing artifact type " t))
      ++ issues_of
          (λ d. issue_if (field_false "exists" d) (
            issue (cat "artifact:" (cat t ":path")) "EVIDENCE_MISSING"
              (cat "Artifact path missing: " (shown "path" d))))
          (of_type t artifacts)

  unfoldable pub artifact_tampered : List Fields → String → List EvidenceIssue
  unfolding py_str field_is field_false
  artifact_tampered artifacts t =
      issues_of
        (λ d. issue_if (field_false "hashMatches" d) (
          issue (cat "artifact:" (cat t ":hash")) "EVIDENCE_TAMPERED"
            (cat "Artifact hash mismatch: " (shown "path" d))))
        (of_type t artifacts)

  module _ (q : EvidenceRequirements) (facts : Facts) where
    unfoldable pub found_invalid : List EvidenceIssue
    unfolding provider_issues
    found_invalid =
        if q.require_real_provider then issues_of provider_issues facts.agent_results else []

    unfoldable pub found_missing : List EvidenceIssue
    unfolding artifact_missing has_review_artifact field_is
    found_missing =
        issues_of (artifact_missing facts.artifacts) q.required_artifact_types
        ++ (issues_of
              (λ kind. issue_if (not (verified facts.verification_results kind)) (
                issue (cat "verification:" kind) "EVIDENCE_MISSING"
                  (cat "Missing verification kind " kind)))
              q.required_verification_kinds
            ++ (issues_of
                  (λ lane. issue_if (not (lane_passed facts.coverage_lanes lane)) (
                    issue (cat "coverageLane:" lane) "EVIDENCE_MISSING"
                      (cat "Missing coverage lane " lane)))
                  q.required_coverage_lanes
                ++ (issues_of
                      (λ skill. issue_if (not (any (field_is "skill" skill) facts.skill_usage)) (
                        issue (cat "skill:" skill) "EVIDENCE_MISSING"
                          (cat "Missing skill usage " skill)))
                      q.required_skill_usages
                    ++ issue_if (q.require_review_artifact && not (has_review_artifact facts)) (
                        issue "reviewArtifact" "EVIDENCE_MISSING"
                          "Missing Review Artifact or Review Fact"))))

    unfoldable pub found_tampered : List EvidenceIssue
    unfolding artifact_tampered field_is field_truthy
    found_tampered =
        issues_of (artifact_tampered facts.artifacts) q.required_artifact_types
        ++ issue_if
            (q.require_event_hash_chain && chain_broken (or_else facts.event_hash_chain end))
            (issue "eventHashChain" "EVIDENCE_TAMPERED" "Event hash chain missing or broken")

    unfoldable pub found_warnings : List EvidenceIssue
    found_warnings =
        issues_of
          (λ t.
            issue_if (t == "any" && is_empty facts.artifacts)
              (warning "artifact:any" "Smoke profile has no artifacts"))
          q.warning_artifact_types
        ++ issues_of
            (λ kind.
              issue_if (kind == "any" && is_empty facts.verification_results)
                (warning "verification:any" "Smoke profile has no verification results"))
            q.warning_verification_kinds

  unfoldable pub evaluate : FrozenResolvedProfile → Facts → EvidenceGateResult
  unfolding found_invalid found_missing found_tampered found_warnings
  evaluate profile facts =
      let missing = found_missing profile.requirements facts in
      let invalid = found_invalid profile.requirements facts in
      let tampered = found_tampered profile.requirements facts in
      record {
        status =
            if not (is_empty missing) || not (is_empty invalid) || not (is_empty tampered)
            then "fail"
            else "pass";
        schema_version = "evidence-gate/v1";
        resolved_profile_hash = profile.resolved_profile_hash;
        missing = missing;
        invalid = invalid;
        tampered = tampered;
        warnings = found_warnings profile.requirements facts;
      }

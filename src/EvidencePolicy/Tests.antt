-- ===== src/EvidencePolicy/Tests.antt =====
-- The verdict of the evidence policy on an empty set of facts.
use squad_team.Prelude.{[], none}
use squad_team.EvidencePolicy.{FrozenResolvedProfile, Facts, mvp, requirements_for}

abbrev no_facts : Facts
no_facts = record {
  agent_results = [];
  artifacts = [];
  verification_results = [];
  coverage_lanes = [];
  skill_usage = [];
  review_artifacts = [];
  event_hash_chain = none;
}

abbrev mvp_profile : FrozenResolvedProfile
mvp_profile = record {
  schema_version = "resolved-profile/v1";
  scenario_type = mvp;
  requirements = requirements_for mvp;
  resolved_profile_hash = "sha256:0";
  source_profiles = [];
}

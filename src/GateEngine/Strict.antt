-- ===== src/GateEngine/Strict.antt =====
-- squad_runtime/gate_engine.py: the evidence that the strict mode collects, and the gates that test it.
use squad_team.Prelude.{
  String, Bool, true, false, [], ◌∷◌, ◌&&◌, ◌||◌, not, Option, none, some, List, ◌==◌, any, map,
  select, if◌then◌else◌,
}
use squad_team.Json.{
  Fields, end, field, str, field_is, field_false, field_truthy, get, is_unhashable,
}
use squad_team.Models.{SquadEvent, GateDecision}
use squad_team.World.{World, AgentResultRow, Result, ok, raised, type_error}
use squad_team.Events.{query}
use squad_team.Results.{list_agent_results}
use squad_team.GateEngine.{decision}

pub record GateEvidenceContext : Type 0 where
  pub schema_version : String
  pub mode : String
  pub artifacts : List Fields
  pub verification_results : List Fields
  pub agent_results : List AgentResultRow

abbrev pub query_events : String → World → List SquadEvent
query_events run_id w = (query run_id none 100000 w.events).events

abbrev pub payloads : String → List SquadEvent → List Fields
payloads event_type events = map (λ e. e.payload) (select (λ e. e.type == event_type) events)

unfoldable pub gate_evidence_context : String → World → GateEvidenceContext
unfolding query list_agent_results
gate_evidence_context run_id w =
    let events = query_events run_id w in
    record {
      schema_version = "gate-evidence-context/v1";
      mode = "strict";
      artifacts = payloads "artifact_produced" events;
      verification_results = payloads "verification_result" events;
      agent_results = list_agent_results run_id w;
    }

reason_code : String → String
reason_code failure_class =
    if failure_class == "EVIDENCE_MISSING"
    then "evidence_missing"
    else if failure_class == "EVIDENCE_TAMPERED"
    then "evidence_tampered"
    else if failure_class == "PROVIDER_FAILURE"
    then "provider_failure"
    else if failure_class == "SECURITY_VIOLATION"
    then "security_violation"
    else "gate_dependency_failed"

unfoldable pub strict_fail : String → String → String → GateDecision
unfolding reason_code
strict_fail gate_name reason failure_class =
    decision gate_name "fail" reason (some (reason_code failure_class))
      (some (field "failureClass" (str failure_class) end))

abbrev pub schema_details : GateEvidenceContext → Option Fields
schema_details c = some (field "schemaVersion" (str c.schema_version) end)

-- A non-synthetic PASS of an agent.
abbrev pub has_pass : String → List AgentResultRow → Bool
has_pass agent_id rows =
    any (λ r. r.status == "pass") (select (λ r. r.agent_id == agent_id && not r.synthetic) rows)

abbrev pub is_ui_smoke : Fields → Bool
is_ui_smoke d = field_is "kind" "ui_smoke" d && field_is "status" "pass" d

unfoldable pub strict_test_gate : GateEvidenceContext → GateDecision
unfolding strict_fail field_is
strict_test_gate c =
    if not (has_pass "test-engineer" c.agent_results)
    then decision "test_gate" "blocked" "Missing Test Engineer PASS fact" (some "missing_test_pass")
        none
    else if not (any (field_is "type" "test") c.artifacts)
    then strict_fail "test_gate" "Missing test artifact" "EVIDENCE_MISSING"
    else if not (any is_ui_smoke c.verification_results)
    then strict_fail "test_gate" "Missing ui_smoke verification" "EVIDENCE_MISSING"
    else decision "test_gate" "pass" "Strict test evidence passed" none (schema_details c)

-- Of an artifact whose type a set can be asked for.
abbrev pub is_review : Fields → Bool
is_review d =
    field_is "type" "review" d
    || field_is "type" "review_fact" d
    || field_is "type" "review-artifact" d

-- `any` over the artifacts: it stops at a review, and raises at a type that no set can be asked for.
unfoldable pub any_review : List Fields → Result Bool
unfolding field_is
any_review [] = ok false
any_review (d ∷ artifacts) =
    let rest = any_review artifacts in
    if is_unhashable (get d "type")
    then raised type_error
    else if is_review d
    then ok true
    else rest

unfoldable pub review_decision : GateEvidenceContext → Result Bool → Result GateDecision
unfolding strict_fail
review_decision c (raised e) = raised e
review_decision c (ok false) =
    ok (strict_fail "code_review_gate" "Missing Review Fact artifact" "EVIDENCE_MISSING")
review_decision c (ok true) =
    ok (decision "code_review_gate" "pass" "Strict review facts passed" none (schema_details c))

unfoldable pub strict_code_review_gate : GateEvidenceContext → Result GateDecision
unfolding review_decision any_review
strict_code_review_gate c =
    if not (has_pass "code-reviewer" c.agent_results)
    then ok (
        decision "code_review_gate" "blocked" "Missing Code Reviewer PASS fact"
          (some "missing_review_pass") none)
    else review_decision c (any_review c.artifacts)

abbrev pub is_inauthentic : AgentResultRow → Bool
is_inauthentic r =
    not (r.provider_used == "claude_cli")
    || not (r.provider_type == "real_llm")
    || not r.provider_identity_verified
    || r.provider_fallback_triggered
    || r.synthetic

unfoldable pub provider_authenticity_gate : GateEvidenceContext → GateDecision
unfolding strict_fail
provider_authenticity_gate c =
    if any is_inauthentic c.agent_results
    then strict_fail "provider_authenticity_gate" "Provider authenticity failed" "PROVIDER_FAILURE"
    else decision "provider_authenticity_gate" "pass" "Provider authenticity passed" none
        (schema_details c)

abbrev pub is_tampered : Fields → Bool
is_tampered d = field_false "hashMatches" d || field_false "snapshotHashMatches" d

unfoldable pub evidence_authenticity_gate : GateEvidenceContext → GateDecision
unfolding strict_fail field_false
evidence_authenticity_gate c =
    if any is_tampered c.artifacts
    then strict_fail "evidence_authenticity_gate" "Artifact or snapshot hash mismatch"
        "EVIDENCE_TAMPERED"
    else decision "evidence_authenticity_gate" "pass" "Evidence authenticity passed" none
        (schema_details c)

unfoldable pub chain_completeness_gate : String → World → GateDecision
unfolding query strict_fail field_truthy
chain_completeness_gate run_id w =
    let events = query_events run_id w in
    let has_event_hash =
      any (field_truthy "finalEventHash") (payloads "event_hash_chain_sealed" events) in
    let has_chain_graph =
      any (field_truthy "chainGraphHash") (payloads "runtime_chain_graph_sealed" events) in
    if not has_event_hash || not has_chain_graph
    then strict_fail "chain_completeness_gate" "Missing event hash chain or runtime chain graph"
        "EVIDENCE_MISSING"
    else decision "chain_completeness_gate" "pass" "Chain completeness passed" none none

-- ===== src/GateEngine/Evaluate.antt =====
-- squad_runtime/gate_engine.py: the coverage, boundary and release gates of the strict mode, and
-- `evaluate_all`, which records the decisions of either mode.
pub mod Evidence
pub mod Passed
pub mod Release
pub mod Recorded
use Prim.Native.Char.{Char, code}
use Prim.Native.Nat.{◌≤◌}
use Prim.Native.String.{◌++◌ as cat}
use squad_team.Prelude.{
  ℕ, String, Bool, true, false, ◌&&◌, ◌||◌, not, Option, none, some, List, [], ◌∷◌, ◌++◌, ◌==◌, any,
  contains, is_truthy, leb, nat_eq, or_else, if◌then◌else◌,
}
use squad_team.Json.{Json, null, str, obj, Fields, end, field, get, opt_str, field_is}
use squad_team.Canonicalization.{Env, py_str}
use squad_team.Models.{GateDecision}
use squad_team.World.{World, Result, ok, raised, Exec, pure, gets, modify, and_then, ◌>>=◌, ◌>>◌}
use squad_team.Events.{append}
use squad_team.Gates.{upsert_gate_state}
use squad_team.GateEngine.{Decisions, decision, passed}
use squad_team.GateEngine.Legacy.{evaluate_reality_gate, evaluate_legacy}
use squad_team.GateEngine.Strict.{
  GateEvidenceContext, gate_evidence_context, strict_fail, strict_test_gate,
  strict_code_review_gate, provider_authenticity_gate, evidence_authenticity_gate,
  chain_completeness_gate, schema_details,
}

-- `path.replace("\\", "/").split("/")`.
push_char : Char → List String → List String
push_char c [] = String.◌∷◌ c "" ∷ []
push_char c (part ∷ parts) = String.◌∷◌ c part ∷ parts

unfoldable pub path_parts : String → List String
unfolding push_char
path_parts String.[] = "" ∷ []
path_parts (String.◌∷◌ c s) =
    let rest = path_parts s in
    if nat_eq (code c) 47 || nat_eq (code c) 92 then "" ∷ rest else push_char c rest

-- `path.startswith(("/", "\\"))`.
unfoldable pub starts_with_slash : String → Bool
starts_with_slash String.[] = false
starts_with_slash (String.◌∷◌ c s) = nat_eq (code c) 47 || nat_eq (code c) 92

-- `strengths.get(text, 0)`.
unfoldable pub strength : String → ℕ
strength s = if s == "medium" then 2 else if s == "high" then 3 else 0

module _ (env : Env) where
  unfoldable pub is_coverage : Fields → Bool
  unfolding field_is strength py_str
  is_coverage d =
      field_is "kind" "coverage" d
      && field_is "status" "pass" d
      && leb 2 (strength (py_str env (or_else (get d "evidenceStrength") null)))

  unfoldable pub coverage_gate : GateEvidenceContext → GateDecision
  unfolding is_coverage strict_fail
  coverage_gate c =
      if any is_coverage c.verification_results
      then decision "coverage_gate" "pass" "Coverage evidence quality passed" none
          (schema_details c)
      else strict_fail "coverage_gate" "Missing coverage extractor fact" "EVIDENCE_MISSING"

  unfoldable pub leaves_workspace : Fields → Bool
  unfolding py_str path_parts starts_with_slash
  leaves_workspace d =
      let path = py_str env (or_else (get d "path") (str "")) in
      let parts = path_parts path in
      starts_with_slash path || contains parts ".." || contains parts ".squad"

  unfoldable pub boundary_gate : GateEvidenceContext → GateDecision
  unfolding leaves_workspace strict_fail
  boundary_gate c =
      if any leaves_workspace c.artifacts
      then strict_fail "boundary_gate" "Artifact path violates workspace boundary"
          "SECURITY_VIOLATION"
      else decision "boundary_gate" "pass" "Boundary evidence passed" none (schema_details c)

  -- The decision that a gate which did not pass forces on the release.
  abbrev pub blocked_by : String → GateDecision → GateDecision
  blocked_by gate_name d =
      decision "release_gate" "blocked" (cat gate_name " not passed")
        (some (
          if is_truthy d.blocked_reason_code
          then or_else d.blocked_reason_code ""
          else "gate_dependency_failed"))
        (some (
          field "blockingGate" (str gate_name)
            (field "failureClass" (or_else (get (or_else d.details end) "failureClass") null) end)))

  unfoldable pub strict_release_gate : GateEvidenceContext → Decisions → GateDecision
  unfolding field_is strict_fail
  strict_release_gate c [] =
      if any (field_is "type" "release_archive") c.artifacts
      then decision "release_gate" "pass" "Strict release evidence passed" none none
      else strict_fail "release_gate" "Missing release archive manifest" "EVIDENCE_MISSING"
  strict_release_gate c ((gate_name, d) ∷ ds) =
      let rest = strict_release_gate c ds in
      if gate_name == "release_gate"
      then rest
      else if not (passed d)
      then blocked_by gate_name d
      else rest

  -- The first seven decisions of the strict mode.
  abbrev pub strict_seven : GateDecision → String → World → Decisions
  strict_seven review run_id w =
      let c = gate_evidence_context run_id w in
      ("test_gate", strict_test_gate c)
      ∷ ("code_review_gate", review)
      ∷ ("provider_authenticity_gate", provider_authenticity_gate c)
      ∷ ("evidence_authenticity_gate", evidence_authenticity_gate c)
      ∷ ("coverage_gate", coverage_gate c)
      ∷ ("chain_completeness_gate", chain_completeness_gate run_id w)
      ∷ ("boundary_gate", boundary_gate c)
      ∷ []

  unfoldable pub evaluate_strict : String → Exec Decisions
  unfolding gate_evidence_context strict_test_gate strict_code_review_gate
      provider_authenticity_gate evidence_authenticity_gate coverage_gate chain_completeness_gate
      boundary_gate evaluate_reality_gate strict_release_gate
  evaluate_strict run_id = do
    c ← gets (gate_evidence_context run_id)
    review ← (λ w. (strict_code_review_gate c, w))
    seven ← gets (strict_seven review run_id)
    reality ← evaluate_reality_gate run_id seven
    let eight = seven ++ ("reality_checker_gate", reality) ∷ []
    pure (eight ++ ("release_gate", strict_release_gate c eight) ∷ [])

  abbrev decision_payload : GateDecision → String → String → Fields
  decision_payload d trigger mode = field "schemaVersion" (str "gate-decision/v1") (
      field "gateName" (str d.gate_name) (
        field "status" (str d.status) (
          field "reason" (str d.reason) (
            field "blockedReasonCode" (opt_str d.blocked_reason_code) (
              field "trigger" (str trigger)
                (field "mode" (str mode) (field "details" (obj (or_else d.details end)) end)))))))

  -- The loop of `evaluate_all` over the decisions.
  unfoldable pub record_decisions : String → String → String → Decisions → Exec (Unit {0})
  unfolding upsert_gate_state append
  record_decisions run_id trigger mode [] = pure tt
  record_decisions run_id trigger mode ((gate_name, d) ∷ ds) = do
    upsert_gate_state env run_id d.gate_name d.status d.reason d.blocked_reason_code
    append env run_id "gate_decision" (decision_payload d trigger mode) true
    record_decisions run_id trigger mode ds

  unfoldable pub evaluate_all : String → String → String → Exec Decisions
  unfolding evaluate_strict evaluate_legacy record_decisions
  evaluate_all run_id trigger mode = do
    decisions ← (if mode == "strict" then evaluate_strict run_id else evaluate_legacy run_id)
    record_decisions run_id trigger mode decisions
    pure decisions

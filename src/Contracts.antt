-- ===== src/Contracts.antt =====
-- squad_runtime/agent_contracts.py: the validation of an agent's result.
use Prim.Native.Nat.{Ordering}
use Prim.Native.String.{compare}
use squad_team.Prelude.{
  String, Bool, true, false, not, Option, none, some, List, [], ◌∷◌, ◌++◌, ◌==◌, leb, is_empty,
  contains,
}
use squad_team.Canonicalization.{Env}
use squad_team.Models.{AgentResult, ArtifactRef, Confidence, micros, below, nan}

insert_text : String → List String → List String
insert_text s [] = s ∷ []
insert_text s (t ∷ ts) = elim (compare s t) [
  | Ordering.lt ↦ s ∷ t ∷ ts
  | Ordering.eq ↦ t ∷ ts
  | Ordering.gt ↦ t ∷ insert_text s ts
]

-- `sorted(set(texts))`.
unfoldable pub sorted_set : List String → List String
unfolding insert_text
sorted_set [] = []
sorted_set (t ∷ ts) = insert_text t (sorted_set ts)

pub record AgentResultValidation : Type 0 where
  pub valid : Bool
  pub errors : List String

-- `0.0 <= confidence <= 1.0`.
unfoldable pub confidence_in_range : Confidence → Bool
confidence_in_range (micros n) = leb n 1000000
confidence_in_range (below n) = false
confidence_in_range nan = false

abbrev pub unless : Bool → String → List String
unless true e = []
unless false e = e ∷ []

unfoldable pub checkpoint_matches : Option String → String → Bool
checkpoint_matches none worked = true
checkpoint_matches (some expected) worked = worked == expected

module _ (env : Env) where
  -- One error for each artifact that resolves to a place outside the artifacts directory.
  unfoldable pub artifact_errors : List ArtifactRef → List String
  artifact_errors [] = []
  artifact_errors (a ∷ rest) =
      unless (env.inside_artifacts a.path) "artifact_path_invalid" ++ artifact_errors rest

  -- The errors in the order in which they are found.
  unfoldable pub found_errors : AgentResult → Option String → List String
  unfolding confidence_in_range checkpoint_matches artifact_errors
  found_errors result expected_checkpoint =
      unless (contains ("pass" ∷ "fail" ∷ "blocked" ∷ []) result.status) "invalid_status"
      ++ (unless (not (result.task_node_id == "")) "missing_task_node_id"
          ++ (unless (not (result.agent_id == "")) "missing_agent_id"
              ++ (unless (not (result.summary == "")) "missing_summary"
                  ++ (unless (confidence_in_range result.confidence) "confidence_out_of_range"
                      ++ (unless
                            (checkpoint_matches expected_checkpoint
                              result.worked_against_checkpoint)
                            "checkpoint_mismatch"
                          ++ artifact_errors result.artifacts)))))

  unfoldable pub validate_agent_result : AgentResult → Option String → AgentResultValidation
  unfolding found_errors sorted_set
  validate_agent_result result expected_checkpoint =
      let errors = found_errors result expected_checkpoint in
      record { valid = is_empty errors; errors = sorted_set errors }

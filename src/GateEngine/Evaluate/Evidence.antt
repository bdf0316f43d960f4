-- ===== src/GateEngine/Evaluate/Evidence.antt =====
-- The evidence that a release needs in the strict mode, described without the gates, and the gates'
-- own tests against it.
use squad_team.Prelude.{
  String, ◌≡◌, refl, ap, ◌∙◌, Bool, true, false, ◌&&◌, ◌||◌, not, Option, none, some, List, [], ◌∷◌,
  ◌==◌, all, any, find, map, select, arith, if◌then◌else◌, or_else, leb,
}
use squad_team.Json.{str, null, Fields, get, field_is, field_false, field_truthy, is_unhashable}
use squad_team.Canonicalization.{Env, py_str}
use squad_team.Models.{SquadEvent}
use squad_team.World.{World, AgentResultRow, Result, ok, raised, type_error}
use squad_team.Events.{query}
use squad_team.Results.{list_agent_results}
use squad_team.GateEngine.Legacy.Release.{reality_passes}
use squad_team.GateEngine.Strict.{has_pass, is_inauthentic, is_tampered, any_review, payloads}
use squad_team.GateEngine.Evaluate.{
  is_coverage, leaves_workspace, path_parts, starts_with_slash, strength,
}

abbrev pub names_review : Fields → Bool
names_review d =
    field_is "type" "review" d
    || field_is "type" "review_fact" d
    || field_is "type" "review-artifact" d

abbrev has_unhashable_type : Option Fields → Bool
has_unhashable_type none = false
has_unhashable_type (some d) = is_unhashable (get d "type")

-- The first artifact that is a review or has a list or a dictionary for a type has the latter.
abbrev pub meets_unhashable : List Fields → Bool
meets_unhashable artifacts =
    has_unhashable_type (find (λ d. names_review d || is_unhashable (get d "type")) artifacts)

abbrev pub authentic : AgentResultRow → Bool
authentic r =
    r.provider_used == "claude_cli"
    && r.provider_type == "real_llm"
    && r.provider_identity_verified
    && not r.provider_fallback_triggered
    && not r.synthetic

abbrev pub untampered : Fields → Bool
untampered d = not (field_false "hashMatches" d) && not (field_false "snapshotHashMatches" d)

module _ (env : Env) where
  abbrev pub covers : Fields → Bool
  covers d =
      let evidence_strength = py_str env (or_else (get d "evidenceStrength") null) in
      field_is "kind" "coverage" d
      && field_is "status" "pass" d
      && (evidence_strength == "medium" || evidence_strength == "high")

  -- The path is relative, and none of its parts is `..` or `.squad`.
  abbrev pub inside : Fields → Bool
  inside d =
      let path = py_str env (or_else (get d "path") (str "")) in
      not (starts_with_slash path)
      && all (λ part. not (".." == part) && not (".squad" == part)) (path_parts path)

module _ (run_id : String) (w : World) where
  abbrev run_events : List SquadEvent
  run_events = (query run_id none 100000 w.events).events

  -- The payloads of the run's events of a type.
  abbrev reported : String → List Fields
  reported event_type = map (λ e. e.payload) (select (λ e. e.type == event_type) run_events)

  abbrev results : List AgentResultRow
  results = list_agent_results run_id w

  -- An agent reported PASS, and not synthetically.
  abbrev passes_as : String → Bool
  passes_as agent_id =
      any (λ r. r.agent_id == agent_id && not r.synthetic && r.status == "pass") results

  abbrev has_artifact : String → Bool
  has_artifact type' = any (field_is "type" type') (reported "artifact_produced")

  -- The code review gate is in for a TypeError.
  unfoldable pub review_raises : Bool
  review_raises = passes_as "code-reviewer" && meets_unhashable (reported "artifact_produced")

  module _ (env : Env) where
    -- The evidence that a release needs in strict mode.
    unfoldable pub strict_evidence : Bool
    strict_evidence =
        all (λ met. met)
          ((passes_as "test-engineer"
              && has_artifact "test"
              && any (λ d. field_is "kind" "ui_smoke" d && field_is "status" "pass" d)
                  (reported "verification_result"))
            ∷ (passes_as "code-reviewer" && any names_review (reported "artifact_produced"))
            ∷ all authentic results
            ∷ all untampered (reported "artifact_produced")
            ∷ any (covers env) (reported "verification_result")
            ∷ (any
                  (λ e.
                    e.type == "event_hash_chain_sealed" && field_truthy "finalEventHash" e.payload)
                  run_events
                && any
                    (λ e.
                      e.type == "runtime_chain_graph_sealed"
                      && field_truthy "chainGraphHash" e.payload)
                    run_events)
            ∷ all (inside env) (reported "artifact_produced")
            ∷ reality_passes run_id w
            ∷ has_artifact "release_archive"
            ∷ [])

module _ {ℓ} {A : Type ℓ} where
  any-select : (p q : A → Bool) (xs : List A) → any p (select q xs) ≡ any (λ x. q x && p x) xs
  any-select p q [] = refl
  any-select p q (x ∷ xs) = ground (arith, any-select p q xs)

  any-same : (p q : A → Bool) (xs : List A) → ((x : A) → p x ≡ q x) → any p xs ≡ any q xs
  any-same p q [] same = refl
  any-same p q (x ∷ xs) same = ground (arith, same x, any-same p q xs same)

  not-any : (p q : A → Bool) (xs : List A) → ((x : A) → not (p x) ≡ q x) → not (any p xs) ≡ all q xs
  not-any p q [] same = refl
  not-any p q (x ∷ xs) same = ground (arith, same x, not-any p q xs same)

module _ (run_id : String) (w : World) where
  pub passes-agrees :
      (agent_id : String)
      → has_pass agent_id (list_agent_results run_id w) ≡ passes_as run_id w agent_id
  passes-agrees agent_id =
      any-select (λ r. r.status == "pass") (λ r. r.agent_id == agent_id && not r.synthetic)
        (list_agent_results run_id w)
      ∙ any-same _ _ (list_agent_results run_id w) (λ r. ground arith)

type_of-if :
    (b : Bool) (d : Fields) (o : Option Fields)
    → has_unhashable_type (if b then some d else o)
      ≡ (if b then is_unhashable (get d "type") else has_unhashable_type o)
type_of-if true d o = refl
type_of-if false d o = refl

meets-step :
    (d : Fields) (artifacts : List Fields)
    → meets_unhashable (d ∷ artifacts) ≡ (
        if names_review d || is_unhashable (get d "type")
        then is_unhashable (get d "type")
        else meets_unhashable artifacts)
meets-step d artifacts =
    type_of-if (names_review d || is_unhashable (get d "type")) d
      (find (λ x. names_review x || is_unhashable (get x "type")) artifacts)

both_ways :
    (u r m a : Bool) (rest : Result Bool)
    → rest ≡ (if m then raised type_error else ok a)
    → (if u then raised type_error else if r then ok true else rest)
      ≡ (if (if r || u then u else m) then raised type_error else ok (r || a))
both_ways true true m a rest h = refl
both_ways true false m a rest h = refl
both_ways false true m a rest h = refl
both_ways false false m a rest h = h

pub any_review-agrees :
    (artifacts : List Fields)
    → any_review artifacts
      ≡ (if meets_unhashable artifacts then raised type_error else ok (any names_review artifacts))
unfolding any_review
any_review-agrees [] = refl
any_review-agrees (d ∷ artifacts) = rw (meets-step d artifacts) (
    both_ways (is_unhashable (get d "type")) (names_review d) (meets_unhashable artifacts)
      (any names_review artifacts) (any_review artifacts) (any_review-agrees artifacts))

pub authentic-agrees : (rs : List AgentResultRow) → not (any is_inauthentic rs) ≡ all authentic rs
authentic-agrees rs = not-any is_inauthentic authentic rs λ r. ground arith

pub untampered-agrees : (ds : List Fields) → not (any is_tampered ds) ≡ all untampered ds
untampered-agrees ds = not-any is_tampered untampered ds λ d. ground arith

module _ (env : Env) where
  strong : (s : String) → leb 2 (strength s) ≡ (s == "medium" || s == "high")
  unfolding strength
  strong s = ground arith

  pub covers-agrees : (ds : List Fields) → any (is_coverage env) ds ≡ any (covers env) ds
  unfolding is_coverage
  covers-agrees ds = any-same (is_coverage env) (covers env) ds λ d.
      ap (λ b. field_is "kind" "coverage" d && field_is "status" "pass" d && b)
        (strong (py_str env (or_else (get d "evidenceStrength") null)))

  no_parts :
      (path : String) (parts : List String)
      → (not
          (starts_with_slash path || any (λ x. ".." == x) parts || any (λ x. ".squad" == x) parts))
        ≡ (not (starts_with_slash path)
            && all (λ part. not (".." == part) && not (".squad" == part)) parts)
  no_parts path [] = ground arith
  no_parts path (x ∷ xs) = ground (arith, no_parts path xs)

  pub inside-agrees : (ds : List Fields) → not (any (leaves_workspace env) ds) ≡ all (inside env) ds
  unfolding leaves_workspace
  inside-agrees ds = not-any (leaves_workspace env) (inside env) ds λ d.
      let path = py_str env (or_else (get d "path") (str "")) in no_parts path (path_parts path)

-- The events of a type that carry a hash.
pub hash-agrees :
    (event_type key : String) (es : List SquadEvent)
    → any (field_truthy key) (payloads event_type es)
      ≡ any (λ e. e.type == event_type && field_truthy key e.payload) es
hash-agrees event_type key [] = refl
hash-agrees event_type key (e ∷ es) = ground (arith, hash-agrees event_type key es)

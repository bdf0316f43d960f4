-- ===== src/Decisions.antt =====
-- squad_runtime/lead_decision.py and squad_runtime/decisions.py: what the lead decides, recorded and
-- tried out before anything is done.
pub mod Verdict
pub mod Directives
mod Tests
use squad_team.Prelude.{
  String, Bool, true, false, ◌&&◌, ◌||◌, not, Option, none, some, List, [], ◌∷◌, ◌++◌, ◌==◌, any,
  contains, find, is_empty, if◌then◌else◌,
}
use squad_team.State.{done, status_is}
use squad_team.Json.{
  Json, null, bool, str, arr, obj, Items, nil, cons, strings, Fields, end, field, get, truthy,
  is_str,
}
use squad_team.Canonicalization.{Env, py_str}
use squad_team.Models.{TaskNode}
use squad_team.World.{World, Exec, Result, ok, raised, type_error, ◌>>=?◌, pure, ◌>>=◌, ◌>>◌}
use squad_team.Events.{append}
use squad_team.Nodes.{has_id}
use squad_team.Contracts.{sorted_set}
use squad_team.Facade.{record_directive}
use squad_team.AgentRegistry.{AgentRegistry, has_agent}
use squad_team.RateLimiter.{mentions}

pub record DecisionChangeSet : Type 0 where
  pub directive_id : String
  pub bypass_attempt : Bool
  pub actions : List String

abbrev pub bypass_terms : List String
bypass_terms = "release_go" ∷ "mark as done" ∷ "gate pass" ∷ "skip gate" ∷ "force release" ∷ []

abbrev pub actions_for : Bool → List String
actions_for true = "directive_recorded" ∷ "gate_bypass_attempt_recorded" ∷ []
actions_for false = "directive_recorded" ∷ []

module _ (env : Env) (lower : String → String) where
  -- The event of an attempt to go around a gate.
  unfoldable pub record_bypass : Bool → String → String → String → Exec (Unit {0})
  unfolding append
  record_bypass false run_id directive_id message = pure tt
  record_bypass true run_id directive_id message =
      append env run_id "gate_bypass_attempt"
        (field "directiveId" (str directive_id) (field "message" (str message) end)) true
      >> pure tt

  unfoldable pub apply_directive : String → String → Exec DecisionChangeSet
  unfolding record_directive append record_bypass
  apply_directive run_id message = do
    directive_id ← record_directive env run_id message "user"
    record_bypass (mentions (lower message) bypass_terms) run_id directive_id message
    append env run_id "decision_applied"
        (field "directiveId" (str directive_id) (
          field "actions" (arr (strings (actions_for (mentions (lower message) bypass_terms))))
            (field "bypassAttempt" (bool (mentions (lower message) bypass_terms)) end)))
        true
    pure (record {
      directive_id = directive_id;
      bypass_attempt = mentions (lower message) bypass_terms;
      actions = actions_for (mentions (lower message) bypass_terms);
    })

pub record DecisionDryRunResult : Type 0 where
  pub accepted : Bool
  pub errors : List String
  pub simulated_operations : List Fields

abbrev pub allowed_ops : List String
allowed_ops = "create_node" ∷ "update_node" ∷ "cancel_node" ∷ "mark_stale" ∷ "reroute" ∷ []

abbrev pub allowed_node_types : List String
allowed_node_types =
    "lead" ∷ "prototype" ∷ "architecture" ∷ "design" ∷ "backend" ∷ "frontend" ∷ "test" ∷ "review"
    ∷ "gate" ∷ "release" ∷ []

-- `value in texts`, which raises for a list or a dictionary.
unfoldable pub one_of_texts : List String → Option Json → Result Bool
one_of_texts texts (some (str s)) = ok (contains texts s)
one_of_texts texts (some (arr xs)) = raised type_error
one_of_texts texts (some (obj d)) = raised type_error
one_of_texts texts _ = ok false

-- `owner and registry.has(owner)`; what is empty is not looked up.
unfoldable pub known_owner : AgentRegistry → Option Json → Result Bool
unfolding has_agent truthy
known_owner registry (some (str owner)) = ok (not (owner == "") && has_agent registry owner)
known_owner registry (some (arr xs)) =
    if truthy (some (arr xs)) then raised type_error else ok false
known_owner registry (some (obj d)) = if truthy (some (obj d)) then raised type_error else ok false
known_owner registry _ = ok false

abbrev pub error_if : Bool → String → List String
error_if true e = e ∷ []
error_if false e = []

-- The pairs of a title and an owner for which a creation has been seen.
abbrev pub Creates : Type 0
Creates = List (String × String)

unfoldable pub seen_before : Creates → String × String → Bool
seen_before seen (title, owner) = any (λ p. p.0 == title && p.1 == owner) seen

abbrev pub shown_or_none : Env → Option Json → String
unfolding py_str
shown_or_none env none = "None"
shown_or_none env (some v) = py_str env v

module _ (env : Env) (registry : AgentRegistry) (run_id : String) where
  abbrev pub identity : Fields → String × String
  identity operation =
      (shown_or_none env (get operation "title"), shown_or_none env (get operation "ownerAgentId"))

  unfoldable pub create_errors : Creates → Fields → Result (List String)
  unfolding one_of_texts known_owner seen_before
  create_errors seen operation =
      one_of_texts allowed_node_types (get operation "nodeType") >>=? λ known_type.
      known_owner registry (get operation "ownerAgentId") >>=? λ known. ok (
        error_if (not known_type) "invalid_node_type"
        ++ (error_if (not known) "unknown_owner"
            ++ error_if (seen_before seen (identity operation)) "duplicate_node"))

  unfoldable pub found_node_errors : String → Option TaskNode → List String
  found_node_errors op none = "unknown_node" ∷ []
  found_node_errors op (some node) =
      error_if (not (node.run_id == run_id)) "node_run_mismatch"
      ++ error_if (status_is node.status done && not (op == "cancel_node")) "done_node_protected"

  unfoldable pub node_errors : String → Fields → World → List String
  unfolding truthy found_node_errors
  node_errors op operation w =
      if not (truthy (get operation "nodeId"))
      then "missing_node_id" ∷ []
      else found_node_errors op (find (has_id (shown_or_none env (get operation "nodeId"))) w.nodes)

  abbrev pub is_create : Fields → Bool
  unfolding is_str
  is_create operation = is_str (get operation "op") "create_node"

  abbrev pub op_name : Option Json → String
  op_name (some (str s)) = s
  op_name _ = ""

  -- The errors of one operation; only a creation is remembered.
  unfoldable pub operation_errors : Creates → Fields → World → Result (List String)
  unfolding one_of_texts create_errors node_errors is_create
  operation_errors seen operation w = one_of_texts allowed_ops (get operation "op") >>=? λ allowed.
      if not allowed
      then ok ("invalid_operation" ∷ [])
      else if is_create operation
      then create_errors seen operation
      else ok (node_errors (op_name (get operation "op")) operation w)

  abbrev pub remember : Creates → Fields → Creates
  unfolding is_create
  remember seen operation = if is_create operation then identity operation ∷ seen else seen

  -- The loop of `validate`.
  unfoldable pub change_errors : Creates → List Fields → World → Result (List String)
  unfolding operation_errors remember
  change_errors seen [] w = ok []
  change_errors seen (operation ∷ operations) w =
      let rest = change_errors (remember seen operation) operations w in
      operation_errors seen operation w >>=? λ errors. rest >>=? λ more. ok (errors ++ more)

  abbrev pub objects : List Fields → Items
  objects [] = nil
  objects (d ∷ ds) = cons (obj d) (objects ds)

  unfoldable pub rejected_payload : List String → List Fields → Fields
  unfolding sorted_set
  rejected_payload errors operations =
      field "errors" (arr (strings (sorted_set errors)))
        (field "operations" (arr (objects operations)) end)

  abbrev pub dry_run_result : List String → List Fields → DecisionDryRunResult
  unfolding sorted_set
  dry_run_result errors operations = record {
    accepted = is_empty errors;
    errors = sorted_set errors;
    simulated_operations = operations;
  }

  -- What `validate` does with the errors that it has found.
  unfoldable pub conclude : List Fields → List String → Exec DecisionDryRunResult
  unfolding append rejected_payload dry_run_result
  conclude operations errors =
      if is_empty errors
      then pure (dry_run_result errors operations)
      else append env run_id "decision_rejected" (rejected_payload errors operations) true
        >> pure (dry_run_result errors operations)

  unfoldable pub validate : List Fields → Exec DecisionDryRunResult
  unfolding change_errors conclude
  validate operations = do
    errors ← (λ w. (change_errors [] operations w, w))
    conclude operations errors

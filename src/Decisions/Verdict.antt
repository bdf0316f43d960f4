-- ===== src/Decisions/Verdict.antt =====
-- `DecisionDryRun.validate` of squad_runtime/decisions.py: which changes are accepted.
use squad_team.Prelude.{
  String, ◌≡◌, Bool, true, false, ◌&&◌, ◌||◌, not, Option, none, some, List, [], ◌∷◌, ◌==◌, all,
  find, is_empty, contains, if◌then◌else◌,
}
use squad_team.State.{done, status_is}
use squad_team.Json.{Json, str, Fields, get, truthy, is_unhashable}
use squad_team.Canonicalization.{Env}
use squad_team.Models.{TaskNode}
use squad_team.World.{World, Result, ok, raised, type_error}
use squad_team.Nodes.{has_id}
use squad_team.AgentRegistry.{AgentRegistry, has_agent}
use squad_team.Decisions.{
  Creates, allowed_ops, allowed_node_types, seen_before, shown_or_none, identity, op_name,
  is_create, remember,
}

module _ (env : Env) (registry : AgentRegistry) (run_id : String) where
  -- A node that an operation names is one of the run, and is only canceled once it is done.
  abbrev pub may_touch : String → Option TaskNode → Bool
  may_touch op none = false
  may_touch op (some node) =
      node.run_id == run_id && (not (status_is node.status done) || op == "cancel_node")

  -- A text that is one of the texts, and a text that names an agent.
  abbrev pub is_one_of : List String → Option Json → Bool
  is_one_of texts (some (str s)) = contains texts s
  is_one_of texts _ = false

  abbrev pub names_agent : Option Json → Bool
  names_agent (some (str owner)) = not (owner == "") && has_agent registry owner
  names_agent _ = false

  -- The operation asks a set for a list or a dictionary: for its kind, or, of a creation, for its node
  -- type or for an owner that is not empty.
  abbrev pub is_unaskable : Fields → Bool
  is_unaskable operation =
      is_unhashable (get operation "op")
      || (is_create env registry run_id operation
          && (is_unhashable (get operation "nodeType")
              || (truthy (get operation "ownerAgentId")
                  && is_unhashable (get operation "ownerAgentId"))))

  -- An operation of a known kind: a creation has a known type and a known owner and repeats no earlier
  -- one, and any other names a node that it may touch.
  abbrev pub is_sound : Creates → Fields → World → Bool
  is_sound seen operation w =
      is_one_of allowed_ops (get operation "op")
      && (if is_create env registry run_id operation
          then all (λ met. met)
              (is_one_of allowed_node_types (get operation "nodeType")
                ∷ names_agent (get operation "ownerAgentId")
                ∷ not (seen_before seen (identity env registry run_id operation))
                ∷ [])
          else truthy (get operation "nodeId")
            && may_touch (op_name env registry run_id (get operation "op"))
                (find (has_id (shown_or_none env (get operation "nodeId"))) w.nodes))

  abbrev pub all_sound : Creates → List Fields → World → Bool
  all_sound seen [] w = true
  all_sound seen (operation ∷ operations) w =
      is_sound seen operation w
      && all_sound (remember env registry run_id seen operation) operations w

  -- What an action finds: a TypeError, or errors that are none exactly if it is sound.
  abbrev Finds : Bool → Bool → Result (List String) → Type 0
  Finds true sound r = r ≡ raised type_error
  Finds false sound r = (errors : List String) × (r ≡ ok errors) × (is_empty errors ≡ sound)

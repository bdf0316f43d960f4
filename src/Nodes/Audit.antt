-- ===== src/Nodes/Audit.antt =====
-- The event log as an audit trail of the node statuses: replaying it gives the node table.
use Prim.Native.String.{◌++◌ as cat}
use mathlib.Core.Option
use mathlib.Core.Path.{subst}
use squad_team.Prelude.{
  String, ◌≡◌, refl, sym, ap, ◌∙◌, inl, inr, Bool, true, false, Bool-cases, Option, none, some,
  List, [], ◌∷◌, ◌++◌, ◌==◌, eq_iff, eq_refl, find, find-append, find-update_other, arith,
  if◌then◌else◌,
}
use squad_team.State.{NodeStatus, todo, from_value, from_value-value}
use squad_team.Json.{Json, str, end, field, Fields, get, stored}
use squad_team.Canonicalization.{Env}
use squad_team.Models.{TaskNode}
use squad_team.World.{World, EventRow, Result, ok}
use squad_team.Events.{new_row, logged}
use squad_team.Runs.{increment_version}
use squad_team.Nodes.{
  has_id, with_status, update_status, Transition, changed_payload, create_node, transition_node,
}
use squad_team.Nodes.Outcome.{Accepts, moved, found_after, transition-moved, transition-Ends}

-- Whether a payload value is the text `s`.
is_text : String → Option Json → Bool
is_text s (some (str t)) = t == s
is_text s _ = false

-- The status that a payload value names.
status_of : Option Json → Option NodeStatus
status_of (some (str t)) = from_value t
status_of _ = none

-- What one event says about the status of a node.
status_after : String → EventRow → Option NodeStatus → Option NodeStatus
unfolding is_text status_of
status_after node_id r s =
    if is_text node_id (get r.payload "nodeId")
    then if r.type == "node_created"
      then some todo
      else if r.type == "node_status_changed"
      then status_of (get r.payload "to")
      else s
    else s

pub replay : String → Option NodeStatus → List EventRow → Option NodeStatus
unfolding status_after
replay node_id s [] = s
replay node_id s (r ∷ rows) = replay node_id (status_after node_id r s) rows

replay-append :
    (node_id : String) (s : Option NodeStatus) (rows : List EventRow) (r : EventRow)
    → replay node_id s (rows ++ r ∷ []) ≡ status_after node_id r (replay node_id s rows)
unfolding replay
replay-append node_id s [] r = refl
replay-append node_id s (x ∷ rows) r = replay-append node_id (status_after node_id x s) rows r

abbrev pub status_in : String → World → Option NodeStatus
status_in node_id w = Option.map (λ n. n.status) (find (has_id node_id) w.nodes)

-- The status of every node, or its absence, is what the events say.
pub record IsAudited (w : World) : Type 0 where
  pub at : (node_id : String) → status_in node_id w ≡ replay node_id none w.events

pub IsAudited-empty : (w : World) → w.nodes ≡ [] → w.events ≡ [] → IsAudited w
unfolding replay
IsAudited-empty w no_nodes no_events = record { at = λ j. rw (no_nodes, no_events) refl }

module _ (env : Env) where
  other-replay :
      (run_id event_type : String) (payload : Fields) (critical : Bool) (w : World)
      → (event_type == "node_created") ≡ false
      → (event_type == "node_status_changed") ≡ false
      → (j : String)
      → status_after j (new_row env run_id event_type payload critical w) (replay j none w.events)
        ≡ replay j none w.events
  unfolding status_after new_row
  other-replay run_id event_type payload critical w c d j =
      elim (Bool-cases (is_text j (get (stored payload) "nodeId"))) [
        | inl e ↦ rw (e, c, d) refl
        | inr e ↦ rw e refl
      ]

  -- An event of another type leaves the trail as it is.
  pub logged-IsAudited :
      (run_id event_type : String) (payload : Fields) (critical : Bool) (w : World)
      → (event_type == "node_created") ≡ false
      → (event_type == "node_status_changed") ≡ false
      → IsAudited w
      → IsAudited (logged env run_id event_type payload critical w)
  unfolding logged
  logged-IsAudited run_id event_type payload critical w c d h = record {
    at = λ j.
        h.at j
        ∙ sym (other-replay run_id event_type payload critical w c d j)
        ∙ sym (replay-append j none w.events (new_row env run_id event_type payload critical w));
  }

  module _ (t : Transition) (w : World) where
    pub moved_self :
        (a : Accepts env t w) → status_in t.node_id (moved env t w a.node) ≡ some t.to_status
    unfolding logged increment_version
    moved_self a = ap (Option.map (λ n. n.status)) (found_after env t w a)

    moved-other :
        (node : TaskNode) (j : String)
        → (t.node_id == j) ≡ false
        → status_in j (moved env t w node) ≡ status_in j w
    unfolding logged increment_version update_status
    moved-other node j apart = ap (Option.map (λ n. n.status)) (
        find-update_other (has_id j) _ (with_status t.to_status t.blocked_reason_code) w.nodes
          (λ x hit. ground (arith, eq_iff x.id t.node_id, eq_iff x.id j, eq_iff t.node_id j)))

    changed-replay :
        (run_id j : String) (v : World) (s : Option NodeStatus)
        → status_after j (new_row env run_id "node_status_changed" (changed_payload env t) true v) s
          ≡ (if t.node_id == j then some t.to_status else s)
    unfolding status_after new_row
    changed-replay run_id j v s = rw from_value-value

    replay-moved :
        (a : Accepts env t w) (j : String)
        → replay j none (moved env t w a.node).events
          ≡ (if t.node_id == j then some t.to_status else replay j none w.events)
    unfolding logged increment_version update_status
    replay-moved a j = replay-append j none w.events _ ∙ changed-replay a.node.run_id j _ _

    moved-status :
        (a : Accepts env t w) (j : String)
        → IsAudited w
        → status_in j (moved env t w a.node)
          ≡ (if t.node_id == j then some t.to_status else replay j none w.events)
    moved-status a j h = elim (Bool-cases (t.node_id == j)) [
      | inl e ↦ rw e (
          subst (λ k. status_in k (moved env t w a.node) ≡ some t.to_status)
            ((eq_iff t.node_id j).0 e) (moved_self a))
      | inr e ↦ rw e (moved-other a.node j e ∙ h.at j)
    ]

    moved-IsAudited : (a : Accepts env t w) → IsAudited w → IsAudited (moved env t w a.node)
    moved-IsAudited a h = record { at = λ j. moved-status a j h ∙ sym (replay-moved a j) }

    -- Whatever `transition_node` does, the event log still replays to the node table.
    pub transition-IsAudited : IsAudited w → IsAudited (transition_node env t w).1
    transition-IsAudited h = elim (transition-Ends env t w) [
      | inl a ↦ rw (transition-moved env t w a) (moved-IsAudited a h)
      | inr (e, _, inl same) ↦ rw same h
      | inr (e, _, inr (run_id, payload, more)) ↦
          rw more (logged-IsAudited run_id "transition_conflict" payload true w refl refl h)
    ]

  module _ (run_id title node_type owner_agent_id checkpoint_id : String) (w : World) where
    abbrev pub new_id : String
    new_id = cat "node-" (env.uuid_hex w.ticks)

    abbrev pub created : TaskNode
    created = record {
      id = new_id;
      run_id = run_id;
      title = title;
      type = node_type;
      owner_agent_id = owner_agent_id;
      status = todo;
      blocked_reason_code = none;
      checkpoint_id = checkpoint_id;
      replaced_by_node_id = none;
    }

    abbrev pub after_create : Result TaskNode × World
    after_create = create_node env run_id title node_type owner_agent_id checkpoint_id w

    found-created :
        find (has_id new_id) w.nodes ≡ none
        → find (has_id new_id) (w.nodes ++ created ∷ []) ≡ some created
    found-created fresh = rw (find-append (has_id new_id) w.nodes, fresh, eq_refl new_id) refl

    create-status :
        (j : String)
        → find (has_id new_id) w.nodes ≡ none
        → Option.map (λ n. n.status) (find (has_id j) (w.nodes ++ created ∷ []))
          ≡ (if new_id == j then some todo else status_in j w)
    create-status j fresh = elim (Bool-cases (new_id == j)) [
      | inl e ↦ rw e (
          subst
            (λ k.
              Option.map (λ n. n.status) (find (has_id k) (w.nodes ++ created ∷ [])) ≡ some todo)
            ((eq_iff new_id j).0 e) (ap (Option.map (λ n. n.status)) (found-created fresh)))
      | inr e ↦ ground (arith, find-append (has_id j) w.nodes (created ∷ []))
    ]

    created-replay :
        (j : String) (v : World) (s : Option NodeStatus)
        → status_after j
            (new_row env run_id "node_created"
              (field "nodeId" (str new_id) (field "type" (str node_type) end))
              true
              v)
            s
          ≡ (if new_id == j then some todo else s)
    unfolding status_after new_row
    created-replay j v s = refl

    -- A created node is returned as TODO, and the event log still replays to the node table. The new
    -- uuid is taken not to name a node already.
    pub create_node-IsAudited :
        IsAudited w
        → find (has_id new_id) w.nodes ≡ none
        → (after_create.0 ≡ ok created) × IsAudited after_create.1
    unfolding create_node
    create_node-IsAudited h fresh = (
      rw (found-created fresh) refl,
      record {
        at = λ j.
            create-status j fresh
            ∙ ap (λ s. if new_id == j then some todo else s) (h.at j)
            ∙ sym (replay-append j none w.events _ ∙ created-replay j _ _);
      },
    )

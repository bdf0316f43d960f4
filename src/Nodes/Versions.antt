-- ===== src/Nodes/Versions.antt =====
-- Run versions and the lifecycle of the nodes, as `transition_node` keeps them.
use mathlib.Core.Path.{subst}
use native.Mathlib.Nat.{add-zero}
use squad_team.Prelude.{
  ℕ, ◌+◌, String, ◌≡◌, refl, sym, ap, ◌∙◌, inl, inr, Bool, true, false, ◌&&◌, List, [], ◌∷◌, ◌==◌,
  eq_comm, length, length-append, select, select-append, All, All-update_where, All-map, arith,
  if◌then◌else◌,
}
use squad_team.State.{todo, transition_allowed, status_is_iff}
use squad_team.State.Lifecycle.{Reach, next}
use squad_team.Json.{Fields}
use squad_team.Canonicalization.{Env}
use squad_team.Models.{SquadRun, TaskNode}
use squad_team.World.{World, EventRow, ok}
use squad_team.Events.{new_row, logged}
use squad_team.Runs.{has_run_id, increment_version}
use squad_team.Nodes.{
  has_id, with_status, update_status, Transition, check_request, changed_payload, transition_node,
}
use squad_team.Nodes.Outcome.{Accepts, moved, transition-moved, transition-Ends}

-- A node_status_changed event of a run.
abbrev pub is_change : String → EventRow → Bool
is_change run_id r = r.type == "node_status_changed" && r.run_id == run_id

abbrev pub changes : String → List EventRow → ℕ
changes run_id events = length (select (is_change run_id) events)

-- The version of every run is the number of status changes that were logged for it.
abbrev pub CountsChanges : World → Type 0
CountsChanges w = All (λ r. r.version ≡ changes r.id w.events) w.runs

-- The status of every node can be reached from TODO by allowed transitions.
abbrev pub IsLegal : World → Type 0
IsLegal w = All (λ n. Reach todo n.status) w.nodes

length-select_one :
    (p : EventRow → Bool) (r : EventRow) → length (select p (r ∷ [])) ≡ (if p r then 1 else 0)
length-select_one p r = ground arith

module _ (env : Env) (run_id event_type : String) (payload : Fields) (critical : Bool)
    (w : World) where
  changes-logged :
      (j : String)
      → changes j (logged env run_id event_type payload critical w).events
        ≡ changes j w.events + (if event_type == "node_status_changed" && run_id == j then 1 else 0)
  unfolding logged new_row
  changes-logged j = rw (select-append (is_change j) w.events) (
      rw (length-append (select (is_change j) w.events)) (
        ap (λ n. changes j w.events + n)
          (length-select_one (is_change j) (new_row env run_id event_type payload critical w))))

  -- An event of another type leaves the counts as they are.
  pub logged-CountsChanges :
      (event_type == "node_status_changed") ≡ false
      → CountsChanges w
      → CountsChanges (logged env run_id event_type payload critical w)
  unfolding logged
  logged-CountsChanges other =
      All-map _ _ w.runs (λ r old. old ∙ sym (changes-logged r.id ∙ rw other (add-zero _)))

and_right : (a b : Bool) → (a && b) ≡ true → b ≡ true
and_right true b h = h
and_right false b h = cc

module _ (env : Env) (t : Transition) (w : World) where
  moved-CountsChanges : (node : TaskNode) → CountsChanges w → CountsChanges (moved env t w node)
  unfolding logged increment_version update_status
  moved-CountsChanges node h =
      All-update_where _ _ (has_run_id node.run_id) (λ r. record r { version = r.version + 1 })
        w.runs
        (λ r hit old.
          ap (λ n. n + 1) old ∙ sym (counted r ∙ rw (eq_comm node.run_id r.id, hit) refl))
        (λ r miss old. old ∙ sym (counted r ∙ rw (eq_comm node.run_id r.id, miss) (add-zero _))) h
    where
      counted :
          (r : SquadRun)
          → changes r.id (moved env t w node).events
            ≡ changes r.id w.events + (if node.run_id == r.id then 1 else 0)
      counted r =
          changes-logged env node.run_id "node_status_changed" (changed_payload env t) true
            (increment_version node.run_id
              (update_status t.node_id t.from_status t.to_status t.blocked_reason_code w))
            r.id

  -- Where each run's version is the number of status changes that are logged for it, that is still so
  -- after whatever `transition_node` does.
  pub transition-CountsChanges : CountsChanges w → CountsChanges (transition_node env t w).1
  unfolding logged
  transition-CountsChanges h = elim (transition-Ends env t w) [
    | inl a ↦ rw (transition-moved env t w a) (moved-CountsChanges a.node h)
    | inr (e, _, inl same) ↦ rw same h
    | inr (e, _, inr (run_id, payload, more)) ↦
        rw more (logged-CountsChanges env run_id "transition_conflict" payload true w refl h)
  ]

  allowed_of_request : check_request t ≡ ok tt → transition_allowed t.from_status t.to_status ≡ true
  unfolding check_request
  allowed_of_request h = ground arith

  moved-IsLegal : (a : Accepts env t w) → IsLegal w → IsLegal (moved env t w a.node)
  unfolding logged increment_version update_status
  moved-IsLegal a h =
      All-update_where _ (λ n. Reach todo n.status) _
        (with_status t.to_status t.blocked_reason_code) w.nodes
        (λ n hit old.
          next
            (subst (Reach todo)
              ((status_is_iff n.status t.from_status).0 (and_right (has_id t.node_id n) _ hit)) old)
            (allowed_of_request a.requested))
        (λ n miss old. old) h

  -- Whatever `transition_node` does, every node's status stays reachable from TODO by allowed
  -- transitions.
  pub transition-IsLegal : IsLegal w → IsLegal (transition_node env t w).1
  unfolding logged
  transition-IsLegal h = elim (transition-Ends env t w) [
    | inl a ↦ rw (transition-moved env t w a) (moved-IsLegal a h)
    | inr (e, _, inl same) ↦ rw same h
    | inr (e, _, inr (run_id, payload, more)) ↦ rw more h
  ]

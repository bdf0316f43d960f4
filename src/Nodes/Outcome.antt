-- ===== src/Nodes/Outcome.antt =====
-- `NodeService.transition_node` on every branch.
use squad_team.Prelude.{
  String, ◌≡◌, refl, ◌⊎◌, inl, inr, true, false, Bool-cases, Option-cases, some, find,
  find-update_where,
}
use squad_team.State.{status_is, status_is_iff}
use squad_team.Json.{Fields}
use squad_team.Canonicalization.{Env}
use squad_team.Models.{SquadRun, TaskNode}
use squad_team.World.{World, Error, Result, Result-cases, ok, raised}
use squad_team.Events.{logged, append}
use squad_team.Runs.{get_run, has_run_id, increment_version}
use squad_team.Nodes.{
  has_id, get_node, with_status, update_status, Transition, check_request, version_differs,
  changed_payload, decide_transition, transition_node,
}

module _ (env : Env) (t : Transition) (w : World) where
  -- What a transition needs in order to go through.
  pub record Accepts : Type 0 where
    pub requested : check_request t ≡ ok tt
    pub node : TaskNode
    pub node_found : find (has_id t.node_id) w.nodes ≡ some node
    pub run : SquadRun
    pub run_found : find (has_run_id node.run_id) w.runs ≡ some run
    pub version_agrees : version_differs t.expected_run_version run.version ≡ false
    pub status_agrees : node.status ≡ t.from_status

  -- The state behind an accepted transition.
  abbrev pub moved : TaskNode → World
  moved node = logged env node.run_id "node_status_changed" (changed_payload env t) true (
      increment_version node.run_id
        (update_status t.node_id t.from_status t.to_status t.blocked_reason_code w))

  pub found_after :
      (a : Accepts)
      → find (has_id t.node_id) (moved a.node).nodes
        ≡ some (with_status t.to_status t.blocked_reason_code a.node)
  unfolding logged increment_version update_status
  found_after a =
      find-update_where (has_id t.node_id) (λ n. status_is n.status t.from_status)
        (with_status t.to_status t.blocked_reason_code) w.nodes a.node (λ x. refl) a.node_found
        ((status_is_iff a.node.status t.from_status).1 a.status_agrees)

  pub transition-moved :
      (a : Accepts)
      → transition_node env t w
        ≡ (ok (with_status t.to_status t.blocked_reason_code a.node), moved a.node)
  unfolding transition_node
  transition-moved a =
      rw (a.requested, transition_node)
        (rw (a.node_found, get_node)
          (rw (a.run_found, get_run)
            (rw (a.version_agrees, (status_is_iff a.node.status t.from_status).1 a.status_agrees)
              (rw (found_after a) refl))))

  -- What a refused transition leaves: the state it found, or that with one conflict event more.
  abbrev pub Refused : World → Type 0
  Refused v =
      (v ≡ w)
      ⊎ ((run_id : String) × (payload : Fields) × (v
            ≡ logged env run_id "transition_conflict" payload true w))

  -- The two ways in which a transition can end.
  abbrev pub Ends : Result TaskNode × World → Type 0
  Ends p = Accepts ⊎ ((e : Error) × (p.0 ≡ raised e) × Refused p.1)

  decide-Ends :
      (node : TaskNode) (run : SquadRun)
      → check_request t ≡ ok tt
      → find (has_id t.node_id) w.nodes ≡ some node
      → find (has_run_id node.run_id) w.runs ≡ some run
      → Ends (decide_transition env t node run w)
  unfolding decide_transition append
  decide-Ends node run requested node_found run_found =
      elim (Bool-cases (version_differs t.expected_run_version run.version)) [
        | inl stale ↦ rw stale (inr (_, refl, inr (_, _, refl)))
        | inr same ↦ elim (Bool-cases (status_is node.status t.from_status)) [
          | inr moved_on ↦ rw (same, moved_on) (inr (_, refl, inr (_, _, refl)))
          | inl agrees ↦ inl (record {
            requested = requested;
            node = node;
            node_found = node_found;
            run = run;
            run_found = run_found;
            version_agrees = same;
            status_agrees = (status_is_iff node.status t.from_status).0 agrees;
          })
        ]
      ]

  pub transition-Ends : Ends (transition_node env t w)
  unfolding transition_node
  transition-Ends = elim (Result-cases (check_request t)) [
    | inr (e, bad) ↦ rw (bad, transition_node) (inr (e, refl, inl refl))
    | inl (_, good) ↦
        rw (good, transition_node)
          (elim (Option-cases (find (has_id t.node_id) w.nodes)) [
            | inl absent ↦ rw (absent, get_node) (inr (_, refl, inl refl))
            | inr (node, here) ↦
                rw (here, get_node)
                  (elim (Option-cases (find (has_run_id node.run_id) w.runs)) [
                    | inl absent ↦ rw (absent, get_run) (inr (_, refl, inl refl))
                    | inr (run, there) ↦ rw (there, get_run) (decide-Ends node run good here there)
                  ])
          ])
  ]

-- ===== src/Results/Apply.antt =====
-- `AgentResultService.apply_agent_result` and its two branches: what it keeps true of the node table and its audit trail.
use squad_team.Prelude.{some, Option-cases, Bool-cases, find, inl, inr, refl, List, String, true}
use squad_team.Canonicalization.{Env}
use squad_team.State.{running, from_value, status_is}
use squad_team.Models.{TaskNode, AgentResult}
use squad_team.World.{World, Result-cases}
use squad_team.Contracts.{AgentResultValidation, validate_agent_result}
use squad_team.Events.{append}
use squad_team.Nodes.{has_id, get_node, transition_node}
use squad_team.Nodes.Keeps.{Kept, IsConsistent, Kept-IsConsistent}
use squad_team.Results.{
  blocking, closing, is_closed, reject_result, accept_result, parse_status, apply_agent_result,
}

module _ (env : Env) {P : World → Type 0} (kept : Kept env P) (result : AgentResult) where
  reject-keeps :
      (node : TaskNode) (errors : List String) (w : World)
      → P w
      → P (reject_result env node errors w).1
  unfolding reject_result append
  reject-keeps node errors w h =
      let moved = kept.moves (blocking env node errors) w h in
      elim (Result-cases (transition_node env (blocking env node errors) w).0) [
        | inl (_, e) ↦
            rw (e, reject_result)
              (kept.quiet node.run_id "invalid_agent_result" _ true _ refl refl moved)
        | inr (_, e) ↦ rw (e, reject_result) moved
      ]

  accept-keeps : (node : TaskNode) (w : World) → P w → P (accept_result env node result w).1
  unfolding accept_result parse_status append
  accept-keeps node w h = elim (Option-cases (from_value result.status)) [
    | inl e ↦ rw (e, accept_result) h
    | inr (target, e) ↦
        rw (e, accept_result)
          (elim (Bool-cases (status_is node.status running)) [
            | inr late ↦ rw late (kept.quiet node.run_id "stale_advisory" _ true w refl refl h)
            | inl live ↦
                let moved = kept.moves (closing env node target) w h in
                elim (Result-cases (transition_node env (closing env node target) w).0) [
                  | inl (_, d) ↦ rw (live, d) moved
                  | inr (_, d) ↦ rw (live, d) moved
                ]
          ])
  ]

  -- The verdict on a result against the checkpoint of its node.
  abbrev pub verdict : TaskNode → AgentResultValidation
  verdict node = validate_agent_result env result (some node.checkpoint_id)

  pub apply-keeps : (w : World) → P w → P (apply_agent_result env result w).1
  unfolding apply_agent_result append get_node
  apply-keeps w h = elim (Option-cases (find (has_id result.task_node_id) w.nodes)) [
    | inl e ↦ rw (e, apply_agent_result) h
    | inr (node, e) ↦ elim (Bool-cases (is_closed node.status)) [
      | inl c ↦
          rw (e, c, apply_agent_result)
            (kept.quiet node.run_id "stale_advisory" _ true w refl refl h)
      | inr c ↦ elim (Bool-cases (verdict node).valid) [
        | inl v ↦ rw (e, c, v, apply_agent_result) (accept-keeps node w h)
        | inr v ↦ rw (e, c, v, apply_agent_result) (reject-keeps node _ w h)
      ]
    ]
  ]

-- Whatever `apply_agent_result` does, the event log still replays to the node statuses, run versions
-- still count the logged changes, and every status is still reachable from TODO.
pub apply-IsConsistent :
    (env : Env) (result : AgentResult) (w : World)
    → IsConsistent w
    → IsConsistent (apply_agent_result env result w).1
apply-IsConsistent env result = apply-keeps env (Kept-IsConsistent env) result

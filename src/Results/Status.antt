-- ===== src/Results/Status.antt =====
-- What `AgentResultService.apply_agent_result` makes of the status of the node that a result names.
use mathlib.Core.Option
use mathlib.Core.Path.{subst}
use squad_team.Prelude.{
  arith, String, List, ◌≡◌, refl, sym, ap, ◌∙◌, inl, inr, Bool, true, Bool-cases, some, none, ◌==◌,
  eq_iff, find, find-holds, if◌then◌else◌, or_else, contains, Option, ◌∷◌, [],
}
use squad_team.State.{
  NodeStatus, blocked_reason_codes, running, blocked, pass, fail, from_value, status_is,
  status_is_iff, transition_allowed,
}
use squad_team.Canonicalization.{Env}
use squad_team.Models.{SquadRun, TaskNode, AgentResult}
use squad_team.World.{World, Error, transition_not_allowed, ok, raised}
use squad_team.Events.{append, logged}
use squad_team.Runs.{has_run_id}
use squad_team.Nodes.{has_id, get_node, check_request, Transition, transition_node}
use squad_team.Nodes.Outcome.{Accepts, transition-moved}
use squad_team.Nodes.Audit.{status_in, moved_self}
use squad_team.Contracts.{validate_agent_result, found_errors}
use squad_team.Results.{
  blocking, closing, is_closed, parse_status, reject_result, accept_result, apply_agent_result,
}

-- The status of a node after a result for it: a closed node keeps its own, a valid result sets the
-- status of a running node, and an invalid one blocks a node that may be blocked.
unfoldable pub after_result : Bool → String → NodeStatus → NodeStatus
after_result valid text s =
    if is_closed s
    then s
    else if valid
    then if status_is s running then or_else (from_value text) s else s
    else if transition_allowed s blocked
    then blocked
    else s

module _ (env : Env) (w : World) (node : TaskNode) (run : SquadRun) where
  unfoldable pub Present : Type 0
  Present =
      (find (has_id node.id) w.nodes ≡ some node)
      × (find (has_run_id node.run_id) w.runs ≡ some run)

  -- A transition from the status that the node has is accepted if the request is.
  pub accepted :
      (t : Transition)
      → t.node_id ≡ node.id
      → t.expected_run_version ≡ none
      → node.status ≡ t.from_status
      → Present
      → check_request t ≡ ok tt
      → Accepts env t w
  unfolding Present
  accepted t same free agrees here good = record {
    requested = good;
    node = node;
    node_found = rw same (here.0);
    run = run;
    run_found = here.1;
    version_agrees = rw free refl;
    status_agrees = agrees;
  }

  refused :
      (t : Transition) (e : Error)
      → check_request t ≡ raised e
      → transition_node env t w ≡ (raised e, w)
  unfolding transition_node
  refused t e bad = rw (bad, transition_node) refl

  blocking_request :
      (errors : List String)
      → check_request (blocking env node errors) ≡ (
          if transition_allowed node.status blocked
          then ok tt
          else raised (transition_not_allowed node.status blocked))
  unfolding check_request blocked_reason_codes status_is
  blocking_request errors = refl

  reject-status :
      (errors : List String)
      → Present
      → status_in node.id (reject_result env node errors w).1
        ≡ some (if transition_allowed node.status blocked then blocked else node.status)
  unfolding reject_result append logged Present
  reject-status errors here = elim (Bool-cases (transition_allowed node.status blocked)) [
    | inl may ↦
        let good = blocking_request errors ∙ rw may refl in
        let a = accepted (blocking env node errors) refl refl refl here good in
        rw (may, transition-moved env (blocking env node errors) w a, reject_result)
          (moved_self env (blocking env node errors) w a)
    | inr may ↦
        rw
          (
            may,
            refused (blocking env node errors) (transition_not_allowed node.status blocked)
                (blocking_request errors ∙ rw may refl),
            reject_result,
          )
          (ap (Option.map (λ n. n.status)) here.0)
  ]

  pub closing_request :
      (target : NodeStatus)
      → check_request (closing env node target) ≡ (
          if transition_allowed running target
          then ok tt
          else raised (transition_not_allowed running target))
  unfolding check_request blocked_reason_codes
  closing_request target = elim (Bool-cases (status_is target blocked)) [
    | inl e ↦ rw e refl
    | inr e ↦ rw e refl
  ]

  accept-status :
      (result : AgentResult) (target : NodeStatus)
      → Present
      → from_value result.status ≡ some target
      → transition_allowed running target ≡ true
      → status_in node.id (accept_result env node result w).1
        ≡ some (if status_is node.status running then target else node.status)
  unfolding accept_result parse_status append logged Present
  accept-status result target here named may = elim (Bool-cases (status_is node.status running)) [
    | inl live ↦
        let good = closing_request target ∙ rw may refl in
        let t = closing env node target in
        let a = accepted t refl refl ((status_is_iff node.status running).0 live) here good in
        rw (named, live, transition-moved env t w a, accept_result) (moved_self env t w a)
    | inr late ↦ rw (named, late, accept_result) (ap (Option.map (λ n. n.status)) here.0)
  ]

allowed_from_running :
    (text : String)
    → contains ("pass" ∷ "fail" ∷ "blocked" ∷ []) text ≡ true
    → (target : NodeStatus) × (from_value text ≡ some target)
      × (transition_allowed running target ≡ true)
unfolding from_value transition_allowed
allowed_from_running text h = elim (Bool-cases (text == "pass")) [
  | inl e ↦ (pass, ap from_value ((eq_iff text "pass").0 e), refl)
  | inr e ↦ elim (Bool-cases (text == "fail")) [
    | inl f ↦ (fail, ap from_value ((eq_iff text "fail").0 f), refl)
    | inr f ↦ elim (Bool-cases (text == "blocked")) [
      | inl g ↦ (blocked, ap from_value ((eq_iff text "blocked").0 g), refl)
      | inr g ↦ absurd (ground arith)
    ]
  ]
]

module _ (env : Env) (result : AgentResult) (w : World) where
  valid_status :
      (expected : Option String)
      → (validate_agent_result env result expected).valid ≡ true
      → contains ("pass" ∷ "fail" ∷ "blocked" ∷ []) result.status ≡ true
  unfolding validate_agent_result found_errors
  valid_status expected h =
      elim (Bool-cases (contains ("pass" ∷ "fail" ∷ "blocked" ∷ []) result.status)) [
        | inl e ↦ e
        | inr e ↦ absurd (ground arith)
      ]

  -- A result for a node and a run that exist leaves the node with this status: a closed node keeps
  -- its own; a valid result gives a running node the status that it reports, and a node that is not
  -- running keeps its own; an invalid result blocks a node that may be blocked, and only that.
  pub apply-status :
      (node : TaskNode) (run : SquadRun)
      → find (has_id result.task_node_id) w.nodes ≡ some node
      → find (has_run_id node.run_id) w.runs ≡ some run
      → status_in result.task_node_id (apply_agent_result env result w).1
        ≡ some (
            after_result
              (validate_agent_result env result (some node.checkpoint_id)).valid
              result.status
              node.status)
  unfolding after_result apply_agent_result get_node append logged Present
  apply-status node run found run_found = elim (Bool-cases (is_closed node.status)) [
    | inl c ↦ rw (found, c, apply_agent_result) (ap (Option.map (λ n. n.status)) found)
    | inr c ↦ elim (Bool-cases verdict) [
      | inl v ↦ rw (found, c, v, apply_agent_result) (valid_case v)
      | inr v ↦
          rw (found, c, v, apply_agent_result)
            (at_id
              (reject_result env node
                (validate_agent_result env result (some node.checkpoint_id)).errors w).1
              _ (reject-status env w node run _ here))
    ]
  ]
    where
      verdict : Bool
      verdict = (validate_agent_result env result (some node.checkpoint_id)).valid

      same : node.id ≡ result.task_node_id
      same =
          (eq_iff node.id result.task_node_id).0
            (find-holds (has_id result.task_node_id) w.nodes node found)

      here : Present env w node run
      here = (subst (λ k. find (has_id k) w.nodes ≡ some node) (sym same) found, run_found)

      at_id :
          (v : World) (s : Option NodeStatus)
          → status_in node.id v ≡ s
          → status_in result.task_node_id v ≡ s
      at_id v s h = subst (λ k. status_in k v ≡ s) same h

      valid_case :
          verdict ≡ true
          → status_in result.task_node_id (accept_result env node result w).1
            ≡ some (
                if status_is node.status running
                then or_else (from_value result.status) node.status
                else node.status)
      valid_case v =
          let (target, named, may) = allowed_from_running result.status (valid_status _ v) in
          at_id (accept_result env node result w).1 _
            (accept-status env w node run result target here named may ∙ rw named refl)

-- ===== src/State.antt =====
-- squad_runtime/state.py: the statuses of a task node, the transition table and the blocked codes.
pub mod Lifecycle
use squad_team.Prelude.{
  String, ◌≡◌, refl, ◌↔◌, Bool, true, Option, none, some, List, [], ◌∷◌, ◌==◌, any, if◌then◌else◌,
}
use mathlib.Core.Bool.{decide, decide_iff}

pub data NodeStatus : Type 0 where
  todo ready running pass fail blocked agent_unavailable progress_timeout : NodeStatus
  canceled stale done : NodeStatus

pub NodeStatus-discrete : Discrete NodeStatus
NodeStatus-discrete = hlevel

-- `==` on the members of the enumeration.
unfoldable pub status_is : NodeStatus → NodeStatus → Bool
unfolding NodeStatus-discrete decide
status_is a b = decide (NodeStatus-discrete a b)

pub status_is_iff : (a b : NodeStatus) → (status_is a b ≡ true) ↔ (a ≡ b)
unfolding status_is
status_is_iff a b = decide_iff (NodeStatus-discrete a b)

-- The text that the database and the event payloads hold.
unfoldable pub value : NodeStatus → String
value todo = "todo"
value ready = "ready"
value running = "running"
value pass = "pass"
value fail = "fail"
value blocked = "blocked"
value agent_unavailable = "agent_unavailable"
value progress_timeout = "progress_timeout"
value canceled = "canceled"
value stale = "stale"
value done = "done"

-- `NodeStatus(text)`; a text that is no member's value raises ValueError.
unfoldable pub from_value : String → Option NodeStatus
from_value s =
    if s == "todo"
    then some todo
    else if s == "ready"
    then some ready
    else if s == "running"
    then some running
    else if s == "pass"
    then some pass
    else if s == "fail"
    then some fail
    else if s == "blocked"
    then some blocked
    else if s == "agent_unavailable"
    then some agent_unavailable
    else if s == "progress_timeout"
    then some progress_timeout
    else if s == "canceled"
    then some canceled
    else if s == "stale"
    then some stale
    else if s == "done"
    then some done
    else none

pub from_value-value : (s : NodeStatus) → from_value (value s) ≡ some s
unfolding from_value value
from_value-value todo = refl
from_value-value _ = refl

unfoldable pub blocked_reason_codes : List String
blocked_reason_codes =
    "missing_test_pass" ∷ "missing_review_pass" ∷ "invalid_agent_result" ∷ "gate_dependency_failed"
    ∷ "agent_unavailable" ∷ "progress_timeout" ∷ "directive_conflict" ∷ "transition_conflict"
    ∷ "artifact_path_invalid" ∷ "checkpoint_mismatch" ∷ []

-- One entry of the table for each status, as the set of its successors.
unfoldable pub allowed_transitions : NodeStatus → List NodeStatus
allowed_transitions todo = ready ∷ blocked ∷ canceled ∷ stale ∷ []
allowed_transitions ready = running ∷ blocked ∷ canceled ∷ stale ∷ []
allowed_transitions running =
    pass ∷ fail ∷ blocked ∷ canceled ∷ agent_unavailable ∷ progress_timeout ∷ stale ∷ []
allowed_transitions agent_unavailable = ready ∷ canceled ∷ []
allowed_transitions progress_timeout = ready ∷ canceled ∷ []
allowed_transitions blocked = ready ∷ canceled ∷ stale ∷ []
allowed_transitions fail = ready ∷ canceled ∷ stale ∷ []
allowed_transitions pass = stale ∷ done ∷ []
allowed_transitions canceled = done ∷ []
allowed_transitions stale = []
allowed_transitions done = []

-- Whether `ensure_transition_allowed` lets the move through; it raises otherwise.
unfoldable pub transition_allowed : NodeStatus → NodeStatus → Bool
unfolding allowed_transitions status_is
transition_allowed from to = any (λ s. status_is to s) (allowed_transitions from)

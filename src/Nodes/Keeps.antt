-- ===== src/Nodes/Keeps.antt =====
-- Properties of the state that the two writers of the node table keep: whatever services are built
-- on `transition_node` and on events of other types keeps them too.
use squad_team.Prelude.{String, ◌≡◌, Bool, false, ◌==◌}
use squad_team.Json.{Fields}
use squad_team.Canonicalization.{Env}
use squad_team.World.{World}
use squad_team.Events.{logged}
use squad_team.Nodes.Audit.{IsAudited, logged-IsAudited, transition-IsAudited}
use squad_team.Nodes.Versions.{
  CountsChanges, IsLegal, logged-CountsChanges, transition-CountsChanges, transition-IsLegal,
}
use squad_team.Nodes.{Transition, transition_node}

pub record Kept (env : Env) (P : World → Type 0) : Type 0 where
  pub quiet :
      (run_id event_type : String) (payload : Fields) (critical : Bool) (w : World)
      → (event_type == "node_created") ≡ false
      → (event_type == "node_status_changed") ≡ false
      → P w
      → P (logged env run_id event_type payload critical w)
  pub moves : (t : Transition) (w : World) → P w → P (transition_node env t w).1

-- The three invariants of the node table together.
pub record IsConsistent (w : World) : Type 0 where
  pub audited : IsAudited w
  pub counted : CountsChanges w
  pub legal : IsLegal w

pub Kept-IsConsistent : (env : Env) → Kept env IsConsistent
unfolding logged
Kept-IsConsistent env = record {
  quiet = λ run_id event_type payload critical w c d h. record {
    audited = logged-IsAudited env run_id event_type payload critical w c d h.audited;
    counted = logged-CountsChanges env run_id event_type payload critical w d h.counted;
    legal = h.legal;
  };
  moves = λ t w h. record {
    audited = transition-IsAudited env t w h.audited;
    counted = transition-CountsChanges env t w h.counted;
    legal = transition-IsLegal env t w h.legal;
  };
}

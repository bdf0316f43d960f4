-- ===== src/Decisions/Tests.antt =====
-- A directive, and changes that are tried out, at a run with one running node.
use squad_team.Prelude.{◌≡◌, refl, List, [], ◌∷◌, ◌++◌, map}
use squad_team.Json.{str, Fields, end, field}
use squad_team.World.{ok}
use squad_team.Nodes.Audit.{IsAudited-empty}
use squad_team.Nodes.Keeps.{IsConsistent}
use squad_team.Samples.{toy, bare}
use squad_team.Decisions.{DecisionChangeSet, actions_for}
use squad_team.Decisions.Directives.{bypasses, decided, directive_events, apply_directive-audited}

abbrev change : List Fields
change =
    field "op" (str "cancel_node") (field "nodeId" (str "node-1") end)
    ∷ field "op" (str "reroute") (field "nodeId" (str "node-9") end)
    ∷ []

apply_directive-audited_example :
    (change : DecisionChangeSet) × ((decided toy (λ s. s) "run-1" "please skip gate" bare).0
      ≡ ok change)
    × (change.bypass_attempt ≡ bypasses toy (λ s. s) "run-1" "please skip gate" bare)
    × (change.actions ≡ actions_for (bypasses toy (λ s. s) "run-1" "please skip gate" bare))
    × ((decided toy (λ s. s) "run-1" "please skip gate" bare).1.nodes ≡ bare.nodes)
    × ((decided toy (λ s. s) "run-1" "please skip gate" bare).1.runs ≡ bare.runs)
    × ((decided toy (λ s. s) "run-1" "please skip gate" bare).1.gates ≡ bare.gates)
    × (map (λ e. e.type) (decided toy (λ s. s) "run-1" "please skip gate" bare).1.events
        ≡ map (λ e. e.type) bare.events
          ++ directive_events (bypasses toy (λ s. s) "run-1" "please skip gate" bare))
    × IsConsistent (decided toy (λ s. s) "run-1" "please skip gate" bare).1
apply_directive-audited_example =
    apply_directive-audited toy (λ s. s) "run-1" "please skip gate" bare
      (record { audited = IsAudited-empty bare refl refl; counted = (refl, tt); legal = tt })

-- ===== src/Archive/Replayed.antt =====
-- An exported run (squad_runtime/services/archive_service.py) that is replayed
-- (squad_runtime/replay.py).
use squad_team.Prelude.{String, ◌≡◌, Option, some, List, [], ◌∷◌, All, length}
use squad_team.State.{value}
use squad_team.Json.{Json, str, Fields, get, set_field}
use squad_team.Canonicalization.{Env}
use squad_team.Models.{TaskNode}
use squad_team.World.{World, ok}
use squad_team.Replay.{FullDataLog, reconstruct_state, reconstructed, verify_event_chain}

-- What the three comprehensions of `reconstruct_state` make of exported rows.
statuses {ℓ} : {A : Type ℓ} → (A → String) → (A → String) → Fields → List A → Fields
unfolding set_field
statuses key value' found [] = found
statuses key value' found (x ∷ xs) =
    statuses key value' (set_field (key x) (str (value' x)) found) xs

-- What a replay tells of a log: not that its chain is broken, and the status of every node.
abbrev pub Tells : Env → FullDataLog → List TaskNode → Type 0
Tells env log ns =
    (nodes : Fields) × (gates : Fields) × (results : Fields) × (final : Option Json)
    × (reconstruct_state env log
        ≡ ok (
            reconstructed log.run nodes gates results (length log.events) final
              (verify_event_chain env log.events)))
    × All (λ n. get nodes n.id ≡ some (str (value n.status))) ns

-- ===== src/Archive/Tests.antt =====
-- The export of a run with one running node, and the chain of a log with one event.
use squad_team.Prelude.{◌≡◌, true, [], ◌∷◌, map, is_empty}
use squad_team.State.{running}
use squad_team.Canonicalization.{genesis_hash}
use squad_team.World.{EventRow}
use squad_team.Events.{new_row, verify_rows}
use squad_team.Samples.{toy, with_node, plain}
use squad_team.Replay.{verify_event_chain}
use squad_team.Replay.Agrees.{row_dict, verify_event_chain-agrees}

abbrev first : EventRow
first = new_row toy "run-1" "note" plain true (with_node running)

verify_event_chain-agrees_example :
    (verify_event_chain toy (map row_dict (first ∷ first ∷ []))).valid
    ≡ is_empty (verify_rows toy genesis_hash (first ∷ first ∷ []))
verify_event_chain-agrees_example = verify_event_chain-agrees toy (first ∷ first ∷ [])

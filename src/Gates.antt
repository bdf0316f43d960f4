-- ===== src/Gates.antt =====
-- squad_runtime/repositories/gate_repository.py and squad_runtime/services/gate_service.py.
use Prim.Native.Nat.{Ordering}
use Prim.Native.String.{compare}
use squad_team.Prelude.{
  String, Bool, true, ◌&&◌, Option, List, [], ◌∷◌, ◌++◌, ◌==◌, any, select, update_where,
  if◌then◌else◌,
}
use squad_team.Json.{end, field, str, opt_str}
use squad_team.Canonicalization.{Env}
use squad_team.World.{GateState, World, Exec, pure, modify, ◌>>◌}
use squad_team.Events.{append}

abbrev pub same_gate : String → String → GateState → Bool
same_gate run_id gate_name g = g.run_id == run_id && g.gate_name == gate_name

-- INSERT … ON CONFLICT(run_id, gate_name) DO UPDATE: one row for each run and gate.
unfoldable pub upsert : GateState → World → World
upsert g w = record w {
  gates =
      if any (same_gate g.run_id g.gate_name) w.gates
      then update_where (same_gate g.run_id g.gate_name)
          (λ old. record old {
            status = g.status;
            blocked_reason_code = g.blocked_reason_code;
            reason = g.reason;
          })
          w.gates
      else w.gates ++ g ∷ [];
}

insert_by_name : GateState → List GateState → List GateState
insert_by_name g [] = g ∷ []
insert_by_name g (h ∷ rows) = elim (compare h.gate_name g.gate_name) [
  | Ordering.lt ↦ h ∷ insert_by_name g rows
  | _ ↦ g ∷ h ∷ rows
]

order_by_name : List GateState → List GateState
unfolding insert_by_name
order_by_name [] = []
order_by_name (g ∷ rows) = insert_by_name g (order_by_name rows)

-- SELECT … WHERE run_id = ? ORDER BY gate_name ASC.
unfoldable pub list_by_run : String → World → List GateState
unfolding order_by_name
list_by_run run_id w = order_by_name (select (λ g. g.run_id == run_id) w.gates)

unfoldable pub upsert_gate_state :
    Env → String → String → String → String → Option String → Exec (Unit {0})
unfolding upsert append
upsert_gate_state env run_id gate_name status reason blocked_reason_code = do
  modify (
      upsert (record {
        run_id = run_id;
        gate_name = gate_name;
        status = status;
        blocked_reason_code = blocked_reason_code;
        reason = reason;
      }))
  append env run_id "gate_status_changed"
      (field "gateName" (str gate_name) (
        field "status" (str status) (
          field "reason" (str reason)
            (field "blockedReasonCode" (opt_str blocked_reason_code) end))))
      true
  pure tt

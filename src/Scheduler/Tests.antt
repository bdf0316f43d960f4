-- ===== src/Scheduler/Tests.antt =====
-- The scheduler's bounds at a run with two ready nodes of one owner and a running one.
use Prim.Native.Nat.{min}
use squad_team.Prelude.{◌-◌, ◌≤◌, ◌≡◌, String, true, All, length, arith}
use squad_team.State.{ready, status_is}
use squad_team.Nodes.{list_nodes}
use squad_team.Samples.{waiting}
use squad_team.Scheduler.{select_dispatch_candidates, scan, count_owners}
use squad_team.Scheduler.Scan.{owned, active, ready_nodes}
use squad_team.Scheduler.Bounds.{picked, select-within, select-conserves}

select-within_example :
    All (λ n. status_is n.status ready ≡ true) (picked 4 2 "run-1" waiting)
    × (length (picked 4 2 "run-1" waiting) ≤ 4 - length (active "run-1" waiting))
    × ((o : String) → owned o (picked 4 2 "run-1" waiting) ≤ 2 - owned o (active "run-1" waiting))
select-within_example = select-within 4 2 "run-1" waiting

select-conserves_example :
    owned "test-engineer" (picked 4 2 "run-1" waiting)
    ≡ min
        (owned "test-engineer" (ready_nodes (list_nodes "run-1" waiting)))
        (2 - owned "test-engineer" (active "run-1" waiting))
unfolding select_dispatch_candidates scan count_owners list_nodes status_is
select-conserves_example = select-conserves 4 2 "run-1" waiting "test-engineer" (omega arith)

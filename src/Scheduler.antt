-- ===== src/Scheduler.antt =====
-- squad_runtime/scheduler.py. A limit is a natural number: a negative one acts as 0 does.
pub mod Scan
pub mod Bounds
mod Tests
use squad_team.Prelude.{
  ℕ, ◌+◌, ◌-◌, String, Bool, true, false, not, List, [], ◌∷◌, ◌++◌, ◌==◌, leb, nat_eq, length,
  select, none, if◌then◌else◌,
}
use squad_team.State.{ready, running, progress_timeout, status_is}
use squad_team.Canonicalization.{Env}
use squad_team.Models.{TaskNode}
use squad_team.World.{World, Exec, Result, ok, raised, and_then, ◌>>=◌}
use squad_team.Nodes.{get_node, list_nodes, transition_node}

-- `running_by_owner`, read by `.get(owner, 0)`.
abbrev pub Loads : Type 0
Loads = String → ℕ

abbrev pub set_load : String → ℕ → Loads → Loads
set_load owner n loads o = if owner == o then n else loads o

unfoldable pub count_owners : Loads → List TaskNode → Loads
count_owners loads [] = loads
count_owners loads (n ∷ ns) =
    count_owners (set_load n.owner_agent_id (loads n.owner_agent_id + 1) loads) ns

-- The loop over the nodes, with the candidates found so far.
unfoldable pub scan : ℕ → ℕ → Loads → List TaskNode → List TaskNode → List TaskNode
scan slots limit loads candidates [] = candidates
scan slots limit loads candidates (n ∷ ns) =
    let owner_load = loads n.owner_agent_id in
    let taken = candidates ++ n ∷ [] in
    let skip = scan slots limit loads candidates ns in
    let continue = scan slots limit (set_load n.owner_agent_id (owner_load + 1) loads) taken ns in
    if not (status_is n.status ready)
    then skip
    else if leb limit owner_load
    then skip
    else if leb slots (length taken)
    then taken
    else continue

unfoldable pub select_dispatch_candidates : ℕ → ℕ → String → World → List TaskNode
unfolding list_nodes count_owners scan
select_dispatch_candidates global_limit per_agent_type_limit run_id w =
    let nodes = list_nodes run_id w in
    let active = select (λ n. status_is n.status running) nodes in
    let slots = global_limit - length active in
    if nat_eq slots 0
    then []
    else scan slots per_agent_type_limit (count_owners (λ o. 0) active) [] nodes

unfoldable pub mark_progress_timeout : Env → String → Exec TaskNode
unfolding get_node
mark_progress_timeout env node_id = do
  node ← get_node node_id
  transition_node env (record {
    node_id = node.id;
    from_status = running;
    to_status = progress_timeout;
    reason = "progress timeout";
    blocked_reason_code = none;
    metadata = none;
    expected_run_version = none;
  })

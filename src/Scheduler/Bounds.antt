-- ===== src/Scheduler/Bounds.antt =====
-- `Scheduler.select_dispatch_candidates`: how many nodes it picks, in all and for each owner.
use Prim.Native.Nat.{min}
use squad_team.Prelude.{
  ℕ, ◌-◌, ◌≤◌, ◌<◌, ◌≡◌, ◌∙◌, ap, All, inl, inr, String, true, Bool-cases, List, [], length, arith,
  nat_eq,
}
use squad_team.State.{ready, status_is}
use squad_team.Models.{TaskNode}
use squad_team.World.{World}
use squad_team.Nodes.{list_nodes}
use squad_team.Scheduler.{Loads, count_owners, scan, select_dispatch_candidates}
use squad_team.Scheduler.Scan.{
  owned, active, ready_nodes, Agree, count_owners-Agree, scan-length, scan-All_ready, scan-owned,
  scan-conserves,
}

module _ (global_limit per_agent_type_limit : ℕ) (run_id : String) (w : World) where
  abbrev pub picked : List TaskNode
  picked = select_dispatch_candidates global_limit per_agent_type_limit run_id w

  slots : ℕ
  slots = global_limit - length (active run_id w)

  initial_loads : Loads
  initial_loads = count_owners (λ o. 0) (active run_id w)

  initial_Agree : Agree (λ o. owned o (active run_id w)) initial_loads []
  unfolding initial_loads
  initial_Agree o =
      omega (arith, count_owners-Agree (λ o. 0) (λ o. 0) [] (active run_id w) (λ o. omega arith) o)

  -- Every property that the loop gives its result from nothing, and that an empty result has where
  -- there is no slot, is a property of the selection.
  picked-has {κ} :
      (P : List TaskNode → Type κ)
      → (slots ≡ 0 → P [])
      → (0 < slots → P (scan slots per_agent_type_limit initial_loads [] (list_nodes run_id w)))
      → P picked
  unfolding select_dispatch_candidates slots initial_loads
  picked-has P none_free some_free = elim (Bool-cases (nat_eq slots 0)) [
    | inl e ↦ rw e (none_free (ground arith))
    | inr e ↦ rw e (some_free (ground arith))
  ]

  -- The picked nodes are READY, the running and the picked nodes together stay within the global
  -- limit, and the running and the picked nodes of an owner within the limit for one owner, unless
  -- the running nodes alone are beyond it, and then nothing is picked.
  pub select-within :
      All (λ n. status_is n.status ready ≡ true) picked
      × (length picked ≤ global_limit - length (active run_id w))
      × ((o : String) → owned o picked ≤ per_agent_type_limit - owned o (active run_id w))
  unfolding slots
  select-within = (
    picked-has (All (λ n. status_is n.status ready ≡ true)) (λ _. tt)
        (λ _. scan-All_ready slots per_agent_type_limit initial_loads [] (list_nodes run_id w) tt),
    picked-has (λ r. length r ≤ slots) (λ _. omega arith)
        (λ free.
          scan-length slots per_agent_type_limit initial_loads [] (list_nodes run_id w) free),
    λ o.
        picked-has (λ r. owned o r ≤ per_agent_type_limit - owned o (active run_id w))
          (λ _. omega arith)
          (λ _.
            scan-owned (λ j. owned j (active run_id w)) o slots per_agent_type_limit initial_loads
              [] (list_nodes run_id w) initial_Agree (omega arith)),
  )

  -- Where the picked nodes leave a slot free, every owner has as many nodes picked as it has READY
  -- nodes and its limit allows: no node waits that could run.
  pub select-conserves :
      (o : String)
      → length picked < global_limit - length (active run_id w)
      → owned o picked
        ≡ min
            (owned o (ready_nodes (list_nodes run_id w)))
            (per_agent_type_limit - owned o (active run_id w))
  unfolding slots
  select-conserves o =
      picked-has
        (λ r.
          length r < slots
          → owned o r
            ≡ min (owned o (ready_nodes (list_nodes run_id w)))
                (per_agent_type_limit - owned o (active run_id w)))
        (λ full less. absurd (omega (arith, full, less)))
        (λ _ less.
          scan-conserves (λ j. owned j (active run_id w)) o slots per_agent_type_limit initial_loads
            [] (list_nodes run_id w) initial_Agree (omega arith) less
          ∙ ap (λ k. min k (per_agent_type_limit - owned o (active run_id w))) (omega arith))

-- ===== src/Facade/Recovery.antt =====
-- `Runtime.recover_running_dispatches`: no dispatch survives a restart.
use mathlib.Core.Bool.{false≢true}
use squad_team.Prelude.{
  ◌≡◌, refl, sym, ◌∙◌, inl, inr, Bool, true, false, Bool-cases, none, some, List, [], ◌∷◌, ◌==◌,
  eq_refl, eq_iff, ◌&&◌, find, map, contains, select, update_where, find-update_other, All, All-map,
  All-update_where, arith,
}
use squad_team.State.{running, agent_unavailable, status_is, status_is_iff, transition_allowed}
use squad_team.Json.{field, end, str}
use squad_team.Canonicalization.{Env}
use squad_team.Models.{SquadRun, TaskNode}
use squad_team.World.{World, ok}
use squad_team.Events.{append, logged}
use squad_team.Runs.{has_run_id, increment_version}
use squad_team.Nodes.{
  has_id, with_status, update_status, check_request, list_by_status, transition_node,
}
use squad_team.Nodes.Outcome.{Accepts, moved, transition-moved}
use squad_team.Facade.{recovering, recover_nodes, recover_running_dispatches}

-- No two nodes have the same id.
abbrev pub Distinct : List TaskNode → Type 0
Distinct [] = Unit
Distinct (n ∷ ns) = All (λ m. (n.id == m.id) ≡ false) ns × Distinct ns

abbrev HasRun : World → TaskNode → Type 0
HasRun w n = (run : SquadRun) × (find (has_run_id n.run_id) w.runs ≡ some run)

-- A node that is to be recovered is in the table, runs, and has a run.
abbrev Pending : World → TaskNode → Type 0
Pending w n = (find (has_id n.id) w.nodes ≡ some n) × (n.status ≡ running) × HasRun w n

-- The running nodes of the table are among the listed ones.
abbrev Covered : World → List TaskNode → Type 0
Covered w ns =
    All (λ m. status_is m.status running ≡ true → contains (map (λ n. n.id) ns) m.id ≡ true) w.nodes

find-kept {ℓ} :
    {A : Type ℓ} (p q : A → Bool) (f : A → A) (xs : List A) (a : A)
    → ((x : A) → p (f x) ≡ p x)
    → find p xs ≡ some a
    → (b : A) × (find p (update_where q f xs) ≡ some b)
find-kept p q f [] a keep h = absurd (ground arith)
find-kept p q f (x ∷ xs) a keep h = elim (Bool-cases (p x)) [
  | inl e ↦ elim (Bool-cases (q x)) [
    | inl c ↦ rw (c, keep x, e) (_, refl)
    | inr c ↦ rw (c, e) (_, refl)
  ]
  | inr e ↦
      let (b, found) = find-kept p q f xs a keep (rw e at h) in
      elim (Bool-cases (q x)) [
        | inl c ↦ rw (c, keep x, e) (b, found)
        | inr c ↦ rw (c, e) (b, found)
      ]
]

gone : status_is agent_unavailable running ≡ false
unfolding status_is
gone = refl

module _ (env : Env) where
  recovery-Accepts : (n : TaskNode) (w : World) → Pending w n → Accepts env (recovering env n) w
  unfolding check_request status_is transition_allowed
  recovery-Accepts n w (found, live, (run, has_run)) = record {
    requested = refl;
    node = n;
    node_found = found;
    run = run;
    run_found = has_run;
    version_agrees = refl;
    status_agrees = live;
  }

  abbrev stepped : TaskNode → World → World
  stepped n w = moved env (recovering env n) w n

  Pending-stepped :
      (n m : TaskNode) (w : World) → (n.id == m.id) ≡ false → Pending w m → Pending (stepped n w) m
  unfolding logged increment_version update_status
  Pending-stepped n m w apart (found, live, (run, has_run)) = (
    find-update_other (has_id m.id) _ (with_status agent_unavailable none) w.nodes
          (λ x hit. ground (arith, eq_iff x.id n.id, eq_iff x.id m.id, eq_iff n.id m.id))
        ∙ found,
    live,
    find-kept (has_run_id m.run_id) (has_run_id n.run_id) _ w.runs run (λ x. refl) has_run,
  )

  Covered-stepped :
      (n : TaskNode) (ns : List TaskNode) (w : World)
      → Covered w (n ∷ ns)
      → Covered (stepped n w) ns
  unfolding logged increment_version update_status
  Covered-stepped n ns w h =
      All-update_where
        (λ m. status_is m.status running ≡ true → contains (map (λ k. k.id) (n ∷ ns)) m.id ≡ true)
        (λ m. status_is m.status running ≡ true → contains (map (λ k. k.id) ns) m.id ≡ true)
        (λ x. has_id n.id x && status_is x.status running) (with_status agent_unavailable none)
        w.nodes (λ x hit old live. absurd (false≢true (sym gone ∙ live)))
        (λ x miss old live. ground (arith, old live, miss)) h

  recovery-run :
      (n : TaskNode) (w : World)
      → Pending w n
      → transition_node env (recovering env n) w
        ≡ (ok (with_status agent_unavailable none n), stepped n w)
  unfolding recovery-Accepts
  recovery-run n w h = transition-moved env (recovering env n) w (recovery-Accepts n w h)

  Pending-All :
      (n : TaskNode) (ms : List TaskNode) (w : World)
      → All (λ m. (n.id == m.id) ≡ false) ms
      → All (Pending w) ms
      → All (Pending (stepped n w)) ms
  Pending-All n [] w apart h = tt
  Pending-All n (m ∷ ms) w apart h =
      (Pending-stepped n m w apart.0 h.0, Pending-All n ms w apart.1 h.1)

  -- The state after a node was recovered and the event of it was logged.
  abbrev noted : TaskNode → World → World
  noted n w =
      logged env n.run_id "server_restart_dispatch_recovery"
        (field "nodeId" (str n.id) (field "ownerAgentId" (str n.owner_agent_id) end)) true
        (stepped n w)

  recover-clears :
      (ns : List TaskNode) (w : World)
      → Distinct ns
      → All (Pending w) ns
      → Covered w ns
      → (out : List TaskNode) × ((recover_nodes env ns w).0 ≡ ok out)
        × All (λ m. status_is m.status running ≡ false) (recover_nodes env ns w).1.nodes
  unfolding recover_nodes append logged
  recover-clears [] w distinct pending covered =
      ([], refl, All-map _ _ w.nodes (λ m out. idle m out) covered)
    where
      idle :
          (m : TaskNode)
          → (status_is m.status running ≡ true → false ≡ true)
          → status_is m.status running ≡ false
      idle m out = elim (Bool-cases (status_is m.status running)) [
        | inl live ↦ absurd (false≢true (out live))
        | inr e ↦ e
      ]
  recover-clears (n ∷ ns) w distinct pending covered =
      let (out, ran, idle) =
        recover-clears ns (noted n w) distinct.1 (Pending-All n ns w distinct.0 pending.1)
          (Covered-stepped n ns w covered) in
      rw (recovery-run n w pending.0) (rw ran (_, refl, idle))

apart_of :
    (p : TaskNode → Bool) (n : TaskNode) (ns : List TaskNode)
    → All (λ m. (n.id == m.id) ≡ false) ns
    → All (λ m. (n.id == m.id) ≡ false) (select p ns)
apart_of p n [] h = tt
apart_of p n (m ∷ ms) h = elim (Bool-cases (p m)) [
  | inl e ↦ rw e (h.0, apart_of p n ms h.1)
  | inr e ↦ rw e (apart_of p n ms h.1)
]

Distinct-select : (p : TaskNode → Bool) (ns : List TaskNode) → Distinct ns → Distinct (select p ns)
Distinct-select p [] h = tt
Distinct-select p (n ∷ ns) h = elim (Bool-cases (p n)) [
  | inl e ↦ rw e (apart_of p n ns h.0, Distinct-select p ns h.1)
  | inr e ↦ rw e (Distinct-select p ns h.1)
]

-- In a table without double ids, every row is found by its id.
find_each : (ns : List TaskNode) → Distinct ns → All (λ n. find (has_id n.id) ns ≡ some n) ns
find_each [] h = tt
find_each (n ∷ ns) h = (rw (eq_refl n.id) refl, later ns h.0 (find_each ns h.1))
  where
    later :
        (ms : List TaskNode)
        → All (λ m. (n.id == m.id) ≡ false) ms
        → All (λ m. find (has_id m.id) ns ≡ some m) ms
        → All (λ m. find (has_id m.id) (n ∷ ns) ≡ some m) ms
    later [] a b = tt
    later (m ∷ ms) a b = (rw a.0 b.0, later ms a.1 b.1)

Pending-select :
    (w : World) (ns : List TaskNode)
    → All (λ n. find (has_id n.id) w.nodes ≡ some n) ns
    → All (HasRun w) ns
    → All (Pending w) (select (λ n. status_is n.status running) ns)
Pending-select w [] found runs = tt
Pending-select w (n ∷ ns) found runs = elim (Bool-cases (status_is n.status running)) [
  | inl e ↦
      rw e (
        (found.0, (status_is_iff n.status running).0 e, runs.0),
        Pending-select w ns found.1 runs.1,
      )
  | inr e ↦ rw e (Pending-select w ns found.1 runs.1)
]

running_listed :
    (ns : List TaskNode)
    → All
        (λ m.
          status_is m.status running ≡ true
          → contains (map (λ n. n.id) (select (λ n. status_is n.status running) ns)) m.id ≡ true)
        ns
running_listed [] = tt
running_listed (n ∷ ns) = (
  λ live. rw live (rw (eq_refl n.id) refl),
  All-map _ _ ns (λ m listed live. ground (arith, listed live)) (running_listed ns),
)

-- Where node ids are unique and every node belongs to a run, a recovery returns, and no node is
-- RUNNING after it.
pub recover-idle :
    (env : Env) (w : World)
    → Distinct w.nodes
    → All (λ n. (run : SquadRun) × (find (has_run_id n.run_id) w.runs ≡ some run)) w.nodes
    → (out : List TaskNode) × ((recover_running_dispatches env w).0 ≡ ok out)
      × All (λ m. status_is m.status running ≡ false) (recover_running_dispatches env w).1.nodes
unfolding recover_running_dispatches list_by_status
recover-idle env w distinct runs =
    recover-clears env (list_by_status running w) w
      (Distinct-select (λ n. status_is n.status running) w.nodes distinct)
      (Pending-select w w.nodes (find_each w.nodes distinct) runs) (running_listed w.nodes)

-- ===== src/Nodes/Effect.antt =====
-- `NodeService.transition_node`: what a transition that goes through changes, table by table.
use mathlib.Core.Option.{some-injective}
use squad_team.Prelude.{
  ℕ, ◌+◌, String, ◌≡◌, refl, sym, ap, ◌∙◌, ◌⊎◌, inl, inr, Bool, true, false, ◌&&◌, ◌||◌, not,
  Bool-cases, Option, none, some, List, [], ◌∷◌, ◌++◌, ◌==◌, eq_iff, nat_eq_iff, is_truthy, or_else,
  contains, find, find-update_other, update_where, arith,
}
use squad_team.State.{blocked, status_is, value, blocked_reason_codes, transition_allowed}
use squad_team.Json.{str, get, stored, sort_keys}
use squad_team.Canonicalization.{Env}
use squad_team.Models.{SquadRun, TaskNode}
use squad_team.World.{World, EventRow, Error, Result, ok, raised}
use squad_team.Events.{new_row, logged}
use squad_team.Runs.{has_run_id, increment_version}
use squad_team.Nodes.{
  has_id, update_status, Transition, check_request, version_differs, transition_node,
}
use squad_team.Nodes.Outcome.{
  Accepts, moved, found_after, Refused, transition-moved, transition-Ends,
}

-- A status of BLOCKED has a code, a code is a known one, and the move is in the table.
abbrev pub is_well_formed : Transition → Bool
is_well_formed t =
    (not (status_is t.to_status blocked) || is_truthy t.blocked_reason_code)
    && (not (is_truthy t.blocked_reason_code)
        || contains blocked_reason_codes (or_else t.blocked_reason_code ""))
    && transition_allowed t.from_status t.to_status

check_request_lem : (t : Transition) → is_well_formed t ≡ true → check_request t ≡ ok tt
unfolding check_request
check_request_lem t h = ground arith

well_formed_lem : (t : Transition) → check_request t ≡ ok tt → is_well_formed t ≡ true
unfolding check_request
well_formed_lem t h = ground arith

find-update_all {ℓ} :
    {A : Type ℓ} (p : A → Bool) (f : A → A) (xs : List A) (a : A)
    → ((x : A) → p (f x) ≡ p x)
    → find p xs ≡ some a
    → find p (update_where p f xs) ≡ some (f a)
find-update_all p f [] a keep h = cc
find-update_all p f (x ∷ xs) a keep h = elim (Bool-cases (p x)) [
  | inl e ↦ rw (e, keep x ∙ e) (ap (λ y. some (f y)) (some-injective _ _ (rw e at h)))
  | inr e ↦ rw (e, e) (find-update_all p f xs a keep (rw e at h))
]

module _ (t : Transition) (w : World) where
  -- What a transition needs in order to go through.
  pub record Goes : Type 0 where
    pub well_formed : is_well_formed t ≡ true
    pub node : TaskNode
    pub node_found : find (has_id t.node_id) w.nodes ≡ some node
    pub run : SquadRun
    pub run_found : find (has_run_id node.run_id) w.runs ≡ some run
    pub version_agrees :
        (t.expected_run_version ≡ none) ⊎ (t.expected_run_version ≡ some run.version)
    pub status_agrees : node.status ≡ t.from_status

  -- The node as it is then returned and stored.
  abbrev renewed : TaskNode → TaskNode
  renewed node = record node { status = t.to_status; blocked_reason_code = t.blocked_reason_code }

  -- The event that is appended last.
  pub record IsChange (node : TaskNode) (row : EventRow) : Type 0 where
    pub type : row.type ≡ "node_status_changed"
    pub run_id : row.run_id ≡ node.run_id
    pub node_id : get row.payload "nodeId" ≡ some (str t.node_id)
    pub from : get row.payload "from" ≡ some (str (value t.from_status))
    pub to : get row.payload "to" ≡ some (str (value t.to_status))
    pub reason : get row.payload "reason" ≡ some (str t.reason)

  -- Where a transition that goes through ends: only the node and its run have changed, and one event
  -- has been appended.
  pub record Moves (node : TaskNode) (run : SquadRun) (p : Result TaskNode × World) : Type 0 where
    pub returned : p.0 ≡ ok (renewed node)
    pub node_after : find (has_id t.node_id) p.1.nodes ≡ some (renewed node)
    pub other_nodes :
        (j : String)
        → (t.node_id == j) ≡ false
        → find (has_id j) p.1.nodes ≡ find (has_id j) w.nodes
    pub run_after :
        find (has_run_id node.run_id) p.1.runs ≡ some (record run { version = run.version + 1 })
    pub other_runs :
        (j : String)
        → (node.run_id == j) ≡ false
        → find (has_run_id j) p.1.runs ≡ find (has_run_id j) w.runs
    pub row : EventRow
    pub appended : p.1.events ≡ w.events ++ row ∷ []
    pub change_shown : IsChange node row
    pub gates : p.1.gates ≡ w.gates
    pub agent_results : p.1.agent_results ≡ w.agent_results
    pub evidence_items : p.1.evidence_items ≡ w.evidence_items
    pub artifacts : p.1.artifacts ≡ w.artifacts

module _ (env : Env) (t : Transition) (w : World) where
  agrees :
      (expected : Option ℕ) (version : ℕ)
      → (expected ≡ none) ⊎ (expected ≡ some version)
      → version_differs expected version ≡ false
  agrees expected version (inl h) = rw h refl
  agrees expected version (inr h) = rw h (rw ((nat_eq_iff version version).1 refl) refl)

  agreed :
      (expected : Option ℕ) (version : ℕ)
      → version_differs expected version ≡ false
      → (expected ≡ none) ⊎ (expected ≡ some version)
  agreed none version h = inl refl
  agreed (some n) version h = inr (ap some (sym ((nat_eq_iff version n).0 (ground arith))))

  accepts : Goes t w → Accepts env t w
  accepts g = record {
    requested = check_request_lem t g.well_formed;
    node = g.node;
    node_found = g.node_found;
    run = g.run;
    run_found = g.run_found;
    version_agrees = agrees t.expected_run_version g.run.version g.version_agrees;
    status_agrees = g.status_agrees;
  }

  goes : Accepts env t w → Goes t w
  goes a = record {
    well_formed = well_formed_lem t a.requested;
    node = a.node;
    node_found = a.node_found;
    run = a.run;
    run_found = a.run_found;
    version_agrees = agreed t.expected_run_version a.run.version a.version_agrees;
    status_agrees = a.status_agrees;
  }

  apart_ids :
      {A : Type 0} (key : A → String) (i j : String) (x : A)
      → (i == j) ≡ false
      → (key x == i) ≡ true
      → (key x == j) ≡ false
  apart_ids key i j x apart hit = ground (arith, eq_iff (key x) i, eq_iff (key x) j, eq_iff i j)

  moved-Moves :
      (a : Accepts env t w) → Moves t w a.node a.run (ok (renewed t w a.node), moved env t w a.node)
  unfolding logged increment_version update_status new_row stored sort_keys
  moved-Moves a = record {
    returned = refl;
    node_after = found_after env t w a;
    other_nodes =
        λ j apart. find-update_other (has_id j) _ _ w.nodes (λ n hit. other_node j n apart hit);
    run_after =
        find-update_all (has_run_id a.node.run_id) (λ r. record r { version = r.version + 1 })
          w.runs a.run (λ r. refl) a.run_found;
    other_runs =
        λ j apart. find-update_other (has_run_id j) _ _ w.runs (λ r hit. other_run j r apart hit);
    row = _;
    appended = refl;
    change_shown = record {
      type = refl;
      run_id = refl;
      node_id = refl;
      from = refl;
      to = refl;
      reason = refl;
    };
    gates = refl;
    agent_results = refl;
    evidence_items = refl;
    artifacts = refl;
  }
    where
      other_node :
          (j : String) (n : TaskNode)
          → (t.node_id == j) ≡ false
          → (has_id t.node_id n && status_is n.status t.from_status) ≡ true
          → (has_id j n ≡ false) × (has_id j n ≡ false)
      other_node j n apart hit =
          let miss = apart_ids (λ m. m.id) t.node_id j n apart (ground arith) in (miss, miss)

      other_run :
          (j : String) (r : SquadRun)
          → (a.node.run_id == j) ≡ false
          → has_run_id a.node.run_id r ≡ true
          → (has_run_id j r ≡ false) × (has_run_id j r ≡ false)
      other_run j r apart hit =
          let miss = apart_ids (λ m. m.id) a.node.run_id j r apart hit in (miss, miss)

  pub transition-Moves : (g : Goes t w) → Moves t w g.node g.run (transition_node env t w)
  unfolding accepts
  transition-Moves g = rw (transition-moved env t w (accepts g)) (moved-Moves (accepts g))

  -- A transition either meets what it needs and changes what it is to change, or it raises and leaves
  -- the state as it was, but for a transition_conflict event at most.
  pub transition-cases :
      ((g : Goes t w) × Moves t w g.node g.run (transition_node env t w))
      ⊎ ((e : Error) × ((transition_node env t w).0 ≡ raised e)
          × Refused env t w (transition_node env t w).1)
  unfolding goes
  transition-cases = elim (transition-Ends env t w) [
    | inl a ↦ inl (goes a, transition-Moves (goes a))
    | inr refused ↦ inr refused
  ]

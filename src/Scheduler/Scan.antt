-- ===== src/Scheduler/Scan.antt =====
-- The loop of `Scheduler.select_dispatch_candidates`: what its rounds keep true of the loads and of
-- the candidates.
use Prim.Native.Nat.{min}
use mathlib.Core.Path.{subst}
use squad_team.Prelude.{
  ℕ, ◌+◌, ◌-◌, ◌≤◌, ◌<◌, ◌≡◌, refl, sym, ◌∙◌, ap, ◌⊎◌, eq_iff, append-nil, append_assoc, All,
  All-append, inl, inr, String, true, false, Bool-cases, List, [], ◌∷◌, ◌++◌, ◌==◌, length,
  length-append, select, select-append, arith, leb, if◌then◌else◌,
}
use squad_team.State.{ready, running, status_is}
use squad_team.Models.{TaskNode}
use squad_team.World.{World}
use squad_team.Nodes.{list_nodes}
use squad_team.Scheduler.{Loads, set_load, count_owners, scan}

abbrev pub owned : String → List TaskNode → ℕ
owned o ns = length (select (λ n. n.owner_agent_id == o) ns)

abbrev pub active : String → World → List TaskNode
active run_id w = select (λ n. status_is n.status running) (list_nodes run_id w)

abbrev pub ready_nodes : List TaskNode → List TaskNode
ready_nodes ns = select (λ n. status_is n.status ready) ns

owned-one :
    (o : String) (n : TaskNode) → owned o (n ∷ []) ≡ (if n.owner_agent_id == o then 1 else 0)
owned-one o n = ground arith

owned-append_one :
    (o : String) (ns : List TaskNode) (n : TaskNode)
    → owned o (ns ++ n ∷ []) ≡ owned o ns + (if n.owner_agent_id == o then 1 else 0)
owned-append_one o ns n =
    ap length (select-append (λ m. m.owner_agent_id == o) ns (n ∷ []))
    ∙ length-append (select (λ m. m.owner_agent_id == o) ns)
        (select (λ m. m.owner_agent_id == o) (n ∷ []))
    ∙ ap (λ k. owned o ns + k) (owned-one o n)

owned-append_hit :
    (o : String) (ns : List TaskNode) (n : TaskNode)
    → (n.owner_agent_id == o) ≡ true
    → owned o (ns ++ n ∷ []) ≡ owned o ns + 1
owned-append_hit o ns n e = rw (owned-append_one o ns n, e) refl

owned-append_miss :
    (o : String) (ns : List TaskNode) (n : TaskNode)
    → (n.owner_agent_id == o) ≡ false
    → owned o (ns ++ n ∷ []) ≡ owned o ns
owned-append_miss o ns n e = rw (owned-append_one o ns n, e) (omega arith)

abbrev bump : TaskNode → Loads → Loads
bump n loads = set_load n.owner_agent_id (loads n.owner_agent_id + 1) loads

-- The loads are those of `base` and of the candidates found.
abbrev pub Agree : (base loads : Loads) → List TaskNode → Type 0
Agree base loads found = (o : String) → loads o ≡ base o + owned o found

Agree-step :
    (base loads : Loads) (found : List TaskNode) (n : TaskNode)
    → Agree base loads found
    → Agree base (bump n loads) (found ++ n ∷ [])
Agree-step base loads found n h o = elim (Bool-cases (n.owner_agent_id == o)) [
  | inr e ↦ rw e (omega (arith, h o, owned-append_miss o found n e))
  | inl e ↦
      let same = (eq_iff n.owner_agent_id o).0 e in
      rw e (omega (arith, ap loads same, h o, owned-append_hit o found n e))
]

pub count_owners-Agree :
    (base loads : Loads) (found ns : List TaskNode)
    → Agree base loads found
    → Agree base (count_owners loads ns) (found ++ ns)
unfolding count_owners
count_owners-Agree base loads found [] h = subst (Agree base loads) (sym (append-nil found)) h
count_owners-Agree base loads found (n ∷ ns) h =
    subst (Agree base (count_owners loads (n ∷ ns))) (append_assoc found (n ∷ []) ns) (
      count_owners-Agree base (bump n loads) (found ++ n ∷ []) ns (Agree-step base loads found n h))

module _ {κ} (P : List TaskNode → Type κ) (slots limit : ℕ) (loads : Loads) (found : List TaskNode)
    (n : TaskNode) (ns : List TaskNode) where
  -- The three ways in which the loop goes on from a node.
  scan-cases :
      ((status_is n.status ready ≡ false) ⊎ (limit ≤ loads n.owner_agent_id)
        → P (scan slots limit loads found ns))
      → (status_is n.status ready ≡ true
          → loads n.owner_agent_id < limit
          → slots ≤ length found + 1
          → P (found ++ n ∷ []))
      → (status_is n.status ready ≡ true
          → loads n.owner_agent_id < limit
          → length found + 1 < slots
          → P (
              scan slots limit
                (set_load n.owner_agent_id (loads n.owner_agent_id + 1) loads)
                (found ++ n ∷ [])
                ns))
      → P (scan slots limit loads found (n ∷ ns))
  unfolding scan
  scan-cases skip stop continue = elim (Bool-cases (status_is n.status ready)) [
    | inr r ↦ rw r (skip (inl r))
    | inl r ↦ elim (Bool-cases (leb limit (loads n.owner_agent_id))) [
      | inl l ↦ rw (r, l) (skip (inr (ground arith)))
      | inr l ↦ elim (Bool-cases (leb slots (length (found ++ n ∷ [])))) [
        | inl t ↦
            rw (r, l, t) (stop r (ground arith) (ground (arith, length-append found (n ∷ []))))
        | inr t ↦
            rw (r, l, t) (continue r (ground arith) (ground (arith, length-append found (n ∷ []))))
      ]
    ]
  ]

pub scan-length :
    (slots limit : ℕ) (loads : Loads) (found ns : List TaskNode)
    → length found < slots
    → length (scan slots limit loads found ns) ≤ slots
unfolding scan
scan-length slots limit loads found [] h = omega arith
scan-length slots limit loads found (n ∷ ns) h =
    scan-cases (λ r. length r ≤ slots) slots limit loads found n ns
      (λ _. scan-length slots limit loads found ns h)
      (λ _ _ _. omega (arith, length-append found (n ∷ [])))
      (λ _ _ less.
        scan-length slots limit (bump n loads) (found ++ n ∷ []) ns
          (omega (arith, length-append found (n ∷ []))))

pub scan-All_ready :
    (slots limit : ℕ) (loads : Loads) (found ns : List TaskNode)
    → All (λ n. status_is n.status ready ≡ true) found
    → All (λ n. status_is n.status ready ≡ true) (scan slots limit loads found ns)
unfolding scan
scan-All_ready slots limit loads found [] h = h
scan-All_ready slots limit loads found (n ∷ ns) h =
    scan-cases (All (λ m. status_is m.status ready ≡ true)) slots limit loads found n ns
      (λ _. scan-All_ready slots limit loads found ns h)
      (λ r _ _. All-append _ found (n ∷ []) h (r, tt))
      (λ r _ _.
        scan-All_ready slots limit (bump n loads) (found ++ n ∷ []) ns
          (All-append _ found (n ∷ []) h (r, tt)))

module _ (base : Loads) (o : String) where
  within_step :
      (limit : ℕ) (loads : Loads) (found : List TaskNode) (n : TaskNode)
      → Agree base loads found
      → owned o found ≤ limit - base o
      → loads n.owner_agent_id < limit
      → owned o (found ++ n ∷ []) ≤ limit - base o
  within_step limit loads found n e h l = elim (Bool-cases (n.owner_agent_id == o)) [
    | inr c ↦ omega (arith, owned-append_miss o found n c)
    | inl c ↦
        omega (arith, ap loads ((eq_iff n.owner_agent_id o).0 c), e o, owned-append_hit o found n c)
  ]

  pub scan-owned :
      (slots limit : ℕ) (loads : Loads) (found ns : List TaskNode)
      → Agree base loads found
      → owned o found ≤ limit - base o
      → owned o (scan slots limit loads found ns) ≤ limit - base o
  unfolding scan
  scan-owned slots limit loads found [] e h = h
  scan-owned slots limit loads found (n ∷ ns) e h =
      scan-cases (λ r. owned o r ≤ limit - base o) slots limit loads found n ns
        (λ _. scan-owned slots limit loads found ns e h)
        (λ _ l _. within_step limit loads found n e h l)
        (λ _ l _.
          scan-owned slots limit (bump n loads) (found ++ n ∷ []) ns
            (Agree-step base loads found n e) (within_step limit loads found n e h l))

  ready_hit :
      (n : TaskNode) (ns : List TaskNode)
      → status_is n.status ready ≡ true
      → owned o (ready_nodes (n ∷ ns))
        ≡ (if n.owner_agent_id == o then 1 else 0) + owned o (ready_nodes ns)
  ready_hit n ns r = rw r (ground arith)

  counted :
      (found : List TaskNode) (n : TaskNode) (ns : List TaskNode)
      → status_is n.status ready ≡ true
      → owned o (found ++ n ∷ []) + owned o (ready_nodes ns)
        ≡ owned o found + owned o (ready_nodes (n ∷ ns))
  counted found n ns r = omega (arith, ready_hit n ns r, owned-append_one o found n)

  -- A node that the loop leaves out is not ready, or its owner has all that the limit gives it.
  skipped :
      (limit : ℕ) (loads : Loads) (found : List TaskNode) (n : TaskNode) (ns : List TaskNode)
      (k : ℕ)
      → Agree base loads found
      → (status_is n.status ready ≡ false) ⊎ (limit ≤ loads n.owner_agent_id)
      → k ≡ min (owned o found + owned o (ready_nodes ns)) (limit - base o)
      → k ≡ min (owned o found + owned o (ready_nodes (n ∷ ns))) (limit - base o)
  skipped limit loads found n ns k e (inl r) h = rw r h
  skipped limit loads found n ns k e (inr l) h = elim (Bool-cases (status_is n.status ready)) [
    | inr r ↦ rw r h
    | inl r ↦ elim (Bool-cases (n.owner_agent_id == o)) [
      | inr c ↦ rw (ready_hit n ns r, c) (omega (arith, h))
      | inl c ↦
          rw (ready_hit n ns r, c)
            (omega (arith, ap loads ((eq_iff n.owner_agent_id o).0 c), e o, h, l))
    ]
  ]

  pub scan-conserves :
      (slots limit : ℕ) (loads : Loads) (found ns : List TaskNode)
      → Agree base loads found
      → owned o found ≤ limit - base o
      → length (scan slots limit loads found ns) < slots
      → owned o (scan slots limit loads found ns)
        ≡ min (owned o found + owned o (ready_nodes ns)) (limit - base o)
  unfolding scan
  scan-conserves slots limit loads found [] e h less = omega arith
  scan-conserves slots limit loads found (n ∷ ns) e h less0 =
      scan-cases
        (λ r.
          length r < slots
          → owned o r ≡ min (owned o found + owned o (ready_nodes (n ∷ ns))) (limit - base o))
        slots limit loads found n ns
        (λ why less.
          skipped limit loads found n ns _ e why
            (scan-conserves slots limit loads found ns e h less))
        (λ _ _ full less. absurd (omega (arith, length-append found (n ∷ []))))
        (λ r l _ less.
          scan-conserves slots limit (bump n loads) (found ++ n ∷ []) ns
            (Agree-step base loads found n e) (within_step limit loads found n e h l) less
          ∙ ap (λ k. min k (limit - base o)) (counted found n ns r))
        less0

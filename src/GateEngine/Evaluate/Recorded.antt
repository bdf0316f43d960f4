-- ===== src/GateEngine/Evaluate/Recorded.antt =====
-- `GateEngine.evaluate_all`: what it writes to the gate table, and what it keeps.
use mathlib.Core.Option
use mathlib.Core.Path.{subst}
use squad_team.Prelude.{
  String, ◌≡◌, refl, ap, ◌∙◌, inl, inr, Bool, true, false, Bool-cases, Option, some, none, List, [],
  ◌∷◌, ◌++◌, ◌==◌, eq_refl, eq_iff, ◌&&◌, any, arith, find, find-append, find-update_other,
  update_where, if◌then◌else◌,
}
use squad_team.Canonicalization.{Env}
use squad_team.World.{World, GateState, ok, raised, type_error}
use squad_team.Events.{append, logged}
use squad_team.Gates.{same_gate, upsert, upsert_gate_state}
use squad_team.Nodes.Keeps.{IsConsistent, Kept-IsConsistent}
use squad_team.GateEngine.{Decisions}
use squad_team.GateEngine.Legacy.{evaluate_legacy}
use squad_team.GateEngine.Legacy.Release.{legacy-run}
use squad_team.GateEngine.Evaluate.Release.{strict-raised, strict-returned}
use squad_team.GateEngine.Evaluate.Evidence.{review_raises}
use squad_team.GateEngine.Evaluate.{record_decisions, evaluate_strict, evaluate_all}

module _ {ℓ} {A : Type ℓ} (p : A → Bool) where
  update-find {κ} :
      {B : Type κ} (f : A → A) (g : A → B) (b : B) (xs : List A)
      → ((x : A) → p (f x) ≡ p x)
      → ((x : A) → g (f x) ≡ b)
      → any p xs ≡ true
      → Option.map g (find p (update_where p f xs)) ≡ some b
  update-find f g b [] keep gives h = absurd (ground arith)
  update-find f g b (x ∷ xs) keep gives h = elim (Bool-cases (p x)) [
    | inl e ↦ rw (e, keep x, e) (ap some (gives x))
    | inr e ↦ rw e (rw e (update-find f g b xs keep gives (rw e at h)))
  ]

  none-find : (xs : List A) → any p xs ≡ false → find p xs ≡ none
  none-find [] h = refl
  none-find (x ∷ xs) h = ground (arith, none-find xs)

abbrev pub gate_status : String → String → World → Option String
gate_status run_id gate_name w =
    Option.map (λ g. g.status) (find (same_gate run_id gate_name) w.gates)

upsert-status :
    (g : GateState) (name : String) (w : World)
    → gate_status g.run_id name (upsert g w)
      ≡ (if g.gate_name == name then some g.status else gate_status g.run_id name w)
unfolding upsert
upsert-status g name w = elim (Bool-cases (any (same_gate g.run_id g.gate_name) w.gates)) [
  | inl e ↦ elim (Bool-cases (g.gate_name == name)) [
    | inl same ↦ rw (e, same) (present e same)
    | inr apart ↦
        rw (e, apart)
          (ap (Option.map (λ h. h.status)) (
            find-update_other (same_gate g.run_id name) (same_gate g.run_id g.gate_name) renew
              w.gates (λ x hit. other x apart hit)))
  ]
  | inr e ↦ elim (Bool-cases (g.gate_name == name)) [
    | inl same ↦ rw (e, same) (absent e same)
    | inr apart ↦
        rw (e, apart)
          (ground (arith, find-append (same_gate g.run_id name) w.gates (g ∷ []), apart))
  ]
]
  where
    renew : GateState → GateState
    renew old = record old {
      status = g.status;
      blocked_reason_code = g.blocked_reason_code;
      reason = g.reason;
    }

    present :
        any (same_gate g.run_id g.gate_name) w.gates ≡ true
        → (g.gate_name == name) ≡ true
        → Option.map
            (λ h. h.status)
            (find
              (same_gate g.run_id name)
              (update_where (same_gate g.run_id g.gate_name) renew w.gates))
          ≡ some g.status
    present e same =
        subst
          (λ k.
            Option.map (λ h. h.status)
              (find (same_gate g.run_id k)
                (update_where (same_gate g.run_id g.gate_name) renew w.gates))
            ≡ some g.status)
          ((eq_iff g.gate_name name).0 same)
          (update-find (same_gate g.run_id g.gate_name) renew (λ h. h.status) g.status w.gates
            (λ x. refl) (λ x. refl) e)

    absent :
        any (same_gate g.run_id g.gate_name) w.gates ≡ false
        → (g.gate_name == name) ≡ true
        → Option.map (λ h. h.status) (find (same_gate g.run_id name) (w.gates ++ g ∷ []))
          ≡ some g.status
    absent e same =
        subst
          (λ k.
            Option.map (λ h. h.status) (find (same_gate g.run_id k) (w.gates ++ g ∷ []))
            ≡ some g.status)
          ((eq_iff g.gate_name name).0 same)
          (rw
            (
              find-append (same_gate g.run_id g.gate_name) w.gates,
              none-find _ w.gates e,
              eq_refl g.run_id,
              eq_refl g.gate_name,
            )
            refl)

    other :
        (x : GateState)
        → (g.gate_name == name) ≡ false
        → same_gate g.run_id g.gate_name x ≡ true
        → (same_gate g.run_id name x ≡ false) × (same_gate g.run_id name (renew x) ≡ false)
    other x apart hit =
        ground
          (arith, eq_iff x.gate_name g.gate_name, eq_iff x.gate_name name, eq_iff g.gate_name name)

-- The last status that the decisions give a gate, or else the one that it had.
pub latest : String → Decisions → Option String → Option String
latest name [] old = old
latest name ((_, d) ∷ ds) old = latest name ds (if d.gate_name == name then some d.status else old)

module _ (env : Env) (run_id trigger mode : String) where
  record-status :
      (ds : Decisions) (name : String) (w : World)
      → ((record_decisions env run_id trigger mode ds w).0 ≡ ok tt)
        × (gate_status run_id name (record_decisions env run_id trigger mode ds w).1
            ≡ latest name ds (gate_status run_id name w))
  unfolding record_decisions upsert_gate_state append logged latest
  record-status [] name w = (refl, refl)
  record-status ((key, d) ∷ ds) name w =
      let (ran, found) = record-status ds name _ in
      (ran, found ∙ ap (latest name ds) (upsert-status _ name w))

  -- The strict mode is in for a TypeError.
  abbrev pub evaluation_raises : World → Bool
  evaluation_raises w = mode == "strict" && review_raises run_id w

  evaluated :
      (w : World)
      → evaluation_raises w ≡ false
      → (ds : Decisions) × ((if mode == "strict"
              then evaluate_strict env run_id
              else evaluate_legacy run_id)
            w
          ≡ (ok ds, w))
  evaluated w h = elim (Bool-cases (mode == "strict")) [
    | inl e ↦ let (ds, ran, _) = strict-returned env run_id w (ground arith) in rw e (ds, ran)
    | inr e ↦ rw e (_, legacy-run run_id w)
  ]

  evaluate_all-raised :
      (w : World)
      → evaluation_raises w ≡ true
      → evaluate_all env run_id trigger mode w ≡ (raised type_error, w)
  unfolding evaluate_all
  evaluate_all-raised w h = elim (Bool-cases (mode == "strict")) [
    | inl e ↦ rw e (rw (strict-raised env run_id w (ground arith)) refl)
    | inr e ↦ absurd (ground arith)
  ]

  -- Where the strict mode is asked for and its code review gate meets a type that is a list or a
  -- dictionary, an evaluation raises TypeError and changes nothing. Otherwise it returns its
  -- decisions, and then the gate table holds for every gate the status that its decision has; a gate
  -- without a decision keeps the status that it had.
  pub evaluate_all-recorded :
      (w : World)
      → (evaluation_raises w ≡ true
          → evaluate_all env run_id trigger mode w ≡ (raised type_error, w))
        × (evaluation_raises w ≡ false
            → (ds : Decisions) × ((evaluate_all env run_id trigger mode w).0 ≡ ok ds)
              × ((name : String)
                  → gate_status run_id name (evaluate_all env run_id trigger mode w).1
                    ≡ latest name ds (gate_status run_id name w)))
  unfolding evaluate_all
  evaluate_all-recorded w = (
    evaluate_all-raised w,
    λ h.
        let (ds, ran) = evaluated w h in
        (
          ds,
          rw ran (rw (record-status ds "" w).0 refl),
          λ name. rw ran (rw (record-status ds name w).0 (record-status ds name w).1),
        ),
  )

  record-IsConsistent :
      (ds : Decisions) (w : World)
      → IsConsistent w
      → IsConsistent (record_decisions env run_id trigger mode ds w).1
  unfolding record_decisions upsert_gate_state append upsert
  record-IsConsistent [] w h = h
  record-IsConsistent ((key, d) ∷ ds) w h =
      let kept = Kept-IsConsistent env in
      record-IsConsistent ds _ (
        kept.quiet run_id "gate_decision" _ true _ refl refl (
          kept.quiet run_id "gate_status_changed" _ true _ refl refl (record {
            audited = record { at = h.audited.at };
            counted = h.counted;
            legal = h.legal;
          })))

  -- An evaluation keeps the three invariants of the node table.
  pub evaluate_all-IsConsistent :
      (w : World) → IsConsistent w → IsConsistent (evaluate_all env run_id trigger mode w).1
  unfolding evaluate_all
  evaluate_all-IsConsistent w h = elim (Bool-cases (evaluation_raises w)) [
    | inl e ↦ rw (evaluate_all-raised w e) h
    | inr e ↦
        let (ds, ran) = evaluated w e in
        rw ran (rw (record-status ds "" w).0 (record-IsConsistent ds w h))
  ]

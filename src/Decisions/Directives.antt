-- ===== src/Decisions/Directives.antt =====
-- `LeadDecisionEngine.apply_directive` of squad_runtime/lead_decision.py: a directive is recorded and
-- decided on, and moves nothing.
use Prim.Native.String.{◌++◌ as cat}
use squad_team.Prelude.{
  suc, String, ◌≡◌, refl, inl, inr, Bool, true, false, Bool-cases, List, [], ◌∷◌, ◌++◌, ◌==◌, map,
}
use squad_team.Json.{Json, str, bool, arr, strings, Fields, field, end}
use squad_team.Canonicalization.{Env}
use squad_team.World.{World, EventRow, Result, ok}
use squad_team.Events.{append, logged, new_row}
use squad_team.Runs.{fresh_id}
use squad_team.Nodes.Keeps.{IsConsistent, Kept-IsConsistent}
use squad_team.Facade.{insert_directive, record_directive}
use squad_team.RateLimiter.{mentions}
use squad_team.Decisions.{
  DecisionChangeSet, bypass_terms, actions_for, record_bypass, apply_directive,
}

-- The types of the events of a directive.
abbrev pub directive_events : Bool → List String
directive_events true = "directive_recorded" ∷ "gate_bypass_attempt" ∷ "decision_applied" ∷ []
directive_events false = "directive_recorded" ∷ "decision_applied" ∷ []

two :
    (rows : List EventRow) (a b : EventRow)
    → map (λ e. e.type) ((rows ++ a ∷ []) ++ b ∷ [])
      ≡ map (λ e. e.type) rows ++ a.type ∷ b.type ∷ []
two [] a b = refl
two (x ∷ rows) a b = rw (two rows a b) refl

three :
    (rows : List EventRow) (a b c : EventRow)
    → map (λ e. e.type) (((rows ++ a ∷ []) ++ b ∷ []) ++ c ∷ [])
      ≡ map (λ e. e.type) rows ++ a.type ∷ b.type ∷ c.type ∷ []
three [] a b c = refl
three (x ∷ rows) a b c = rw (three rows a b c) refl

module _ (env : Env) (lower : String → String) (run_id message : String) (w : World) where
  abbrev pub bypasses : Bool
  bypasses = mentions (lower message) bypass_terms

  abbrev pub decided : Result DecisionChangeSet × World
  decided = apply_directive env lower run_id message w

  abbrev the_id : Json
  the_id = str (cat "directive-" (env.uuid_hex w.ticks))

  abbrev recorded_payload : Fields
  recorded_payload =
      field "directiveId" the_id (field "source" (str "user") (field "message" (str message) end))

  abbrev bypass_payload : Fields
  bypass_payload = field "directiveId" the_id (field "message" (str message) end)

  abbrev applied_payload : Bool → Fields
  applied_payload b =
      field "directiveId" the_id
        (field "actions" (arr (strings (actions_for b))) (field "bypassAttempt" (bool b) end))

  -- The state with the directive's row.
  recorded_in : World → World
  recorded_in v =
      insert_directive env
        (record {
          id = cat "directive-" (env.uuid_hex v.ticks);
          run_id = run_id;
          source = "user";
          message = message;
        })
        (record v { ticks = suc v.ticks })

  -- A directive always yields a decision, which says whether the message has one of the terms that go
  -- around a gate. Its events are logged in order, the attempt to go around a gate among them exactly
  -- if there is one; no node, run or gate changes, and the invariants of the node table hold on.
  pub apply_directive-audited :
      IsConsistent w
      → (change : DecisionChangeSet) × (decided.0 ≡ ok change)
        × (change.bypass_attempt ≡ bypasses)
        × (change.actions ≡ actions_for bypasses)
        × (decided.1.nodes ≡ w.nodes)
        × (decided.1.runs ≡ w.runs)
        × (decided.1.gates ≡ w.gates)
        × (map (λ e. e.type) decided.1.events
            ≡ map (λ e. e.type) w.events ++ directive_events bypasses)
        × IsConsistent decided.1
  unfolding recorded_in apply_directive record_directive record_bypass insert_directive fresh_id
      append logged new_row
  apply_directive-audited h = elim (Bool-cases bypasses) [
    | inl b ↦
        rw (b, record_bypass)
          (
            _,
            refl,
            refl,
            refl,
            refl,
            refl,
            refl,
            three w.events _ _ _,
            quiet run_id "decision_applied" (applied_payload true) _ refl refl (
                quiet run_id "gate_bypass_attempt" bypass_payload _ refl refl
                  (quiet run_id "directive_recorded" recorded_payload _ refl refl start)),
          )
    | inr b ↦
        rw (b, record_bypass)
          (
            _,
            refl,
            refl,
            refl,
            refl,
            refl,
            refl,
            two w.events _ _,
            quiet run_id "decision_applied" (applied_payload false) _ refl refl
                (quiet run_id "directive_recorded" recorded_payload _ refl refl start),
          )
  ]
    where
      quiet :
          (run_id event_type : String) (payload : Fields) (v : World)
          → (event_type == "node_created") ≡ false
          → (event_type == "node_status_changed") ≡ false
          → IsConsistent v
          → IsConsistent (logged env run_id event_type payload true v)
      quiet run_id event_type payload v =
          (Kept-IsConsistent env).quiet run_id event_type payload true v

      start : IsConsistent (recorded_in w)
      start = record {
        audited = record { at = h.audited.at };
        counted = h.counted;
        legal = h.legal;
      }

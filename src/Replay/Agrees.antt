-- ===== src/Replay/Agrees.antt =====
-- Two checks of one hash chain: `ReplayEngine.verify_event_chain` (squad_runtime/replay.py) and
-- `EventStore._verify_rows` (squad_runtime/event_store.py).
use squad_team.Prelude.{
  ◌==◌, String, ◌≡◌, refl, inl, inr, Bool, true, false, Option, none, some, Option-cases, List, [],
  ◌∷◌, ◌++◌, map, is_empty,
}
use squad_team.Json.{is_str, Json, str, num, bool, obj, opt_str, Fields, end, field}
use squad_team.Canonicalization.{Env, genesis_hash, compute_event_hash, py_str}
use squad_team.World.{EventRow}
use squad_team.Events.{ChainError, error_unless, check_row, verify_hashes, verify_rows}
use squad_team.Replay.{
  ReplayError, replay_error_unless, check_event, verify_events, verify_event_chain,
}

-- An event as a dictionary that carries the columns of its row, under the names of the columns.
abbrev pub row_dict : EventRow → Fields
row_dict r = field "id" (str r.id) (
    field "run_id" (str r.run_id) (
      field "sequence_number" (num r.sequence_number) (
        field "type" (str r.type) (
          field "payload" (obj r.payload) (
            field "critical" (bool r.critical) (
              field "created_at" (str r.created_at) (
                field "previous_event_hash" (opt_str r.previous_event_hash) (
                  field "event_payload_hash" (opt_str r.event_payload_hash)
                    (field "event_hash" (opt_str r.event_hash) end)))))))))

same_errors :
    (p q s : Bool) (a b c : ReplayError) (x y z : ChainError) (rest : List ReplayError)
    (more : List ChainError)
    → is_empty rest ≡ is_empty more
    → is_empty
        ((replay_error_unless p a ++ (replay_error_unless q b ++ replay_error_unless s c)) ++ rest)
      ≡ is_empty ((error_unless p x ++ (error_unless q y ++ error_unless s z)) ++ more)
same_errors true true true a b c x y z rest more h = h
same_errors true true false a b c x y z rest more h = refl
same_errors true false s a b c x y z rest more h = refl
same_errors false q s a b c x y z rest more h = refl

module _ (env : Env) where
  agree_row :
      (prev : String) (last : Option Json) (r : EventRow) (rows : List EventRow)
      → ((h : String)
          → is_empty (verify_events env h (some (str h)) (map row_dict rows)).0
            ≡ is_empty (verify_rows env h rows))
      → is_empty (verify_events env prev last (map row_dict (r ∷ rows))).0
        ≡ is_empty (verify_rows env prev (r ∷ rows))
  unfolding verify_events verify_rows verify_hashes check_event check_row py_str is_str opt_str
  agree_row prev last r rows later = elim (Option-cases r.event_payload_hash) [
    | inl e ↦ rw e refl
    | inr (p, e) ↦ elim (Option-cases r.event_hash) [
      | inl f ↦ rw (e, f) refl
      | inr (h, f) ↦ elim (Option-cases r.previous_event_hash) [
        | inl g ↦ rw (e, f, g) refl
        | inr (q, g) ↦
            rw (e, f, g)
              (same_errors (q == prev) (p == (compute_event_hash env prev r.payload).0)
                (h == (compute_event_hash env prev r.payload).1) _ _ _ _ _ _ _ _ (later h))
      ]
    ]
  ]

  agree :
      (prev : String) (last : Option Json) (rows : List EventRow)
      → is_empty (verify_events env prev last (map row_dict rows)).0
        ≡ is_empty (verify_rows env prev rows)
  unfolding verify_events verify_rows
  agree prev last [] = refl
  agree prev last (r ∷ rows) = agree_row prev last r rows (λ h. agree h (some (str h)) rows)

  -- On events that carry the columns of their rows, the check of the replay finds the chain valid
  -- exactly if the check of the store finds no error.
  pub verify_event_chain-agrees :
      (rows : List EventRow)
      → (verify_event_chain env (map row_dict rows)).valid
        ≡ is_empty (verify_rows env genesis_hash rows)
  unfolding verify_event_chain
  verify_event_chain-agrees rows = agree genesis_hash none rows

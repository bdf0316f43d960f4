-- ===== src/Events/Mirror.antt =====
-- The NDJSON mirror: what opening a store leaves in it.
use mathlib.Core.List.{Perm}
use mathlib.Core.List.Perm
use squad_team.Prelude.{
  String, Bool, ◌≡◌, refl, ap, ◌≢◌, inl, inr, true, Bool-cases, List, [], ◌∷◌, ◌++◌, nat_eq,
  nat_eq_iff, length,
}
use squad_team.Json.{Fields, end, field, num, str}
use squad_team.Canonicalization.{Env}
use squad_team.World.{EventRow, World}
use squad_team.Events.{row_before, insert_by_run, order_by_run, new_row, logged, check_mirror}

insert_by_run-perm : (r : EventRow) (rows : List EventRow) → Perm (insert_by_run r rows) (r ∷ rows)
unfolding insert_by_run
insert_by_run-perm r [] = Perm.rfl
insert_by_run-perm r (s ∷ rows) = elim (Bool-cases (row_before s r)) [
  | inl e ↦ rw e (Perm.trans (Perm.cons s (insert_by_run-perm r rows)) (Perm.swap r s rows))
  | inr e ↦ rw e Perm.rfl
]

order_by_run-perm : (rows : List EventRow) → Perm (order_by_run rows) rows
unfolding order_by_run
order_by_run-perm [] = Perm.rfl
order_by_run-perm (r ∷ rows) =
    Perm.trans (insert_by_run-perm r (order_by_run rows)) (Perm.cons r (order_by_run-perm rows))

-- The event that opening a store appends when the mirror has another number of lines.
abbrev pub warning_row : Env → World → EventRow
warning_row env w =
    new_row env "system" "event_store_consistency_warning"
      (field "sqliteEventCount" (num (length w.events)) (
        field "ndjsonLineCount" (num (length w.ndjson)) (field "sourceOfTruth" (str "sqlite") end)))
      true w

-- Opening a store whose mirror has as many lines as there are events changes nothing, whatever the
-- lines hold. Otherwise one warning event is appended, and the mirror then holds every event of the
-- table exactly as often as the table does.
pub check_mirror-synced :
    (env : Env) (w : World)
    → (length w.events ≡ length w.ndjson → check_mirror env w ≡ w)
      × (length w.events ≢ length w.ndjson
          → ((check_mirror env w).events ≡ w.events ++ warning_row env w ∷ [])
            × Perm (check_mirror env w).ndjson (check_mirror env w).events)
unfolding check_mirror
check_mirror-synced env w = elim (Bool-cases (nat_eq (length w.events) (length w.ndjson))) [
  | inl e ↦ (
    λ same. rw e,
    λ differ. absurd (differ ((nat_eq_iff (length w.events) (length w.ndjson)).0 e)),
  )
  | inr e ↦ (
    λ same. cc (e, (nat_eq_iff (length w.events) (length w.ndjson)).1 same),
    λ differ. rw e (refl, order_by_run-perm _),
  )
]

-- Appending an event keeps the mirror equal to the table.
pub logged-mirror :
    (env : Env) (run_id event_type : String) (payload : Fields) (critical : Bool) (w : World)
    → w.ndjson ≡ w.events
    → (logged env run_id event_type payload critical w).ndjson
      ≡ (logged env run_id event_type payload critical w).events
unfolding logged
logged-mirror env run_id event_type payload critical w h =
    ap (λ rows. rows ++ new_row env run_id event_type payload critical w ∷ []) h

-- ===== src/Events.antt =====
-- squad_runtime/event_store.py: the hash-chained event stream and its NDJSON mirror.
pub mod Sequence
pub mod Chain
pub mod Log
pub mod Paging
pub mod Tamper
pub mod Mirror
mod Tests
use Prim.Native.Nat.{max, Ordering}
use Prim.Native.String.{compare}
use squad_team.Prelude.{
  ℕ, suc, ◌+◌, String, Bool, true, false, ◌&&◌, Option, none, some, List, [], ◌∷◌, ◌++◌, ◌==◌, not,
  ltb, nat_eq, opt_eq, or_else, if◌then◌else◌, length, is_empty, select, map, take,
}
use squad_team.Json.{Fields, end, field, num, str, stored}
use squad_team.Canonicalization.{Env, genesis_hash, compute_event_hash}
use squad_team.Models.{SquadEvent, EventPage}
use squad_team.World.{EventRow, World, Exec, ok}

abbrev pub in_run : String → EventRow → Bool
in_run run_id r = r.run_id == run_id

insert_by_seq : EventRow → List EventRow → List EventRow
insert_by_seq r [] = r ∷ []
insert_by_seq r (s ∷ rows) =
    if ltb s.sequence_number r.sequence_number then s ∷ insert_by_seq r rows else r ∷ s ∷ rows

-- ORDER BY sequence_number ASC.
order_by_seq : List EventRow → List EventRow
unfolding insert_by_seq
order_by_seq [] = []
order_by_seq (r ∷ rows) = insert_by_seq r (order_by_seq rows)

-- SELECT * FROM squad_events WHERE run_id = ? ORDER BY sequence_number ASC.
unfoldable pub run_rows : String → List EventRow → List EventRow
unfolding order_by_seq
run_rows run_id events = order_by_seq (select (in_run run_id) events)

-- COALESCE(MAX(sequence_number), 0).
max_seq : List EventRow → ℕ
max_seq [] = 0
max_seq (r ∷ rows) = max r.sequence_number (max_seq rows)

unfoldable pub next_sequence : String → List EventRow → ℕ
unfolding max_seq
next_sequence run_id events = max_seq (select (in_run run_id) events) + 1

pub last_hash : String → List EventRow → String
last_hash found [] = found
last_hash found (r ∷ rows) = last_hash (or_else r.event_hash genesis_hash) rows

-- The row with the highest number is the last of the ordered rows.
unfoldable pub get_last_event_hash : String → List EventRow → String
unfolding last_hash run_rows
get_last_event_hash run_id events = last_hash genesis_hash (run_rows run_id events)

-- The messages that `_verify_rows` collects, with the values that they show.
pub data ChainError : Type 0 where
  missing_hash_fields : (seq : ℕ) → ChainError
  previous_mismatch : (seq : ℕ) (expected : String) (got : Option String) → ChainError
  payload_mismatch : (seq : ℕ) (expected got : String) → ChainError
  event_mismatch : (seq : ℕ) (expected got : String) → ChainError

abbrev pub error_unless : Bool → ChainError → List ChainError
error_unless true e = []
error_unless false e = e ∷ []

module _ (env : Env) where
  -- The three checks of one row that has its hash fields.
  unfoldable pub check_row : String → EventRow → String → String → List ChainError
  check_row prev r payload_hash event_hash =
      let (expected_payload_hash, expected_event_hash) = compute_event_hash env prev r.payload in
      let seq = r.sequence_number in
      error_unless (opt_eq r.previous_event_hash (some prev))
        (previous_mismatch seq prev r.previous_event_hash)
      ++ (error_unless (payload_hash == expected_payload_hash)
            (payload_mismatch seq expected_payload_hash payload_hash)
          ++ error_unless (event_hash == expected_event_hash)
              (event_mismatch seq expected_event_hash event_hash))

  unfoldable pub verify_hashes :
      String → EventRow → Option String → Option String → List ChainError × String
  unfolding check_row
  verify_hashes prev r (some payload_hash) (some event_hash) =
      (check_row prev r payload_hash event_hash, event_hash)
  verify_hashes prev r _ _ = (missing_hash_fields r.sequence_number ∷ [], prev)

  -- The loop of `_verify_rows`, from the hash that the first row must name.
  unfoldable pub verify_rows : String → List EventRow → List ChainError
  unfolding verify_hashes
  verify_rows prev [] = []
  verify_rows prev (r ∷ rows) =
      let (errors, next) = verify_hashes prev r r.event_payload_hash r.event_hash in
      errors ++ verify_rows next rows

-- The dictionary that `get_chain_info` and `verify_chain` return.
pub record ChainInfo : Type 0 where
  pub event_count : ℕ
  pub final_event_hash : Option String
  pub valid : Bool
  pub errors : List ChainError

-- The last hash that a row has, or the genesis hash.
final_hash : String → List EventRow → String
final_hash found [] = found
final_hash found (r ∷ rows) = final_hash (or_else r.event_hash found) rows

unfoldable pub verify_chain : Env → String → List EventRow → ChainInfo
unfolding verify_rows final_hash run_rows
verify_chain env run_id events =
    let rows = run_rows run_id events in
    let errors = verify_rows env genesis_hash rows in
    record {
      event_count = length rows;
      final_event_hash = if is_empty rows then none else some (final_hash genesis_hash rows);
      valid = is_empty errors;
      errors = errors;
    }

unfoldable pub row_to_event : EventRow → SquadEvent
row_to_event r = record {
  id = r.id;
  run_id = r.run_id;
  sequence_number = r.sequence_number;
  type = r.type;
  payload = r.payload;
  critical = r.critical;
  created_at = r.created_at;
}

module _ (env : Env) (run_id event_type : String) (payload : Fields) (critical : Bool) where
  unfoldable pub new_row : World → EventRow
  unfolding stored next_sequence get_last_event_hash compute_event_hash
  new_row w =
      let prev = get_last_event_hash run_id w.events in
      let (payload_hash, event_hash) = compute_event_hash env prev payload in
      record {
        id = env.uuid w.ticks;
        run_id = run_id;
        sequence_number = next_sequence run_id w.events;
        type = event_type;
        payload = stored payload;
        critical = critical;
        created_at = env.now w.ticks;
        previous_event_hash = some prev;
        event_payload_hash = some payload_hash;
        event_hash = some event_hash;
      }

  -- The INSERT and the line that is added to events.ndjson.
  unfoldable pub logged : World → World
  logged w =
      let row = new_row w in
      record w { events = w.events ++ row ∷ []; ndjson = w.ndjson ++ row ∷ []; ticks = suc w.ticks }

  -- The event that is returned holds the payload as it was given.
  unfoldable pub append : Exec SquadEvent
  unfolding logged row_to_event
  append w = (ok (record (row_to_event (new_row w)) { payload = payload }), logged w)

unfoldable pub after_cursor : Option ℕ → EventRow → Bool
after_cursor none r = true
after_cursor (some cursor) r = ltb cursor r.sequence_number

last_seq : ℕ → List EventRow → ℕ
last_seq n [] = n
last_seq n (r ∷ rows) = last_seq r.sequence_number rows

-- The page that `query` makes of the rows that its WHERE clause leaves, in order.
unfoldable pub page : ℕ → List EventRow → EventPage
unfolding last_seq row_to_event
page limit found =
    let rows = take (limit + 1) found in
    let visible = take limit rows in
    record {
      events = map row_to_event visible;
      next_cursor =
          if ltb limit (length rows) && not (is_empty visible)
          then some (last_seq 0 visible)
          else none;
    }

unfoldable pub query : String → Option ℕ → ℕ → List EventRow → EventPage
unfolding run_rows after_cursor page
query run_id cursor limit events =
    page limit (select (after_cursor cursor) (run_rows run_id events))

-- ORDER BY run_id ASC, sequence_number ASC.
row_before : EventRow → EventRow → Bool
row_before a b = elim (compare a.run_id b.run_id) [
  | Ordering.lt ↦ true
  | Ordering.eq ↦ ltb a.sequence_number b.sequence_number
  | Ordering.gt ↦ false
]

insert_by_run : EventRow → List EventRow → List EventRow
unfolding row_before
insert_by_run r [] = r ∷ []
insert_by_run r (s ∷ rows) = if row_before s r then s ∷ insert_by_run r rows else r ∷ s ∷ rows

order_by_run : List EventRow → List EventRow
unfolding insert_by_run
order_by_run [] = []
order_by_run (r ∷ rows) = insert_by_run r (order_by_run rows)

-- `_rebuild_ndjson_from_sqlite`.
rebuild_ndjson : World → World
unfolding order_by_run
rebuild_ndjson w = record w { ndjson = order_by_run w.events }

-- `_record_consistency_warning_if_needed`, which opening the store runs.
unfoldable pub check_mirror : Env → World → World
unfolding rebuild_ndjson logged
check_mirror env w =
    let sqlite_count = length w.events in
    let ndjson_count = length w.ndjson in
    if nat_eq sqlite_count ndjson_count
    then w
    else rebuild_ndjson (
        logged env "system" "event_store_consistency_warning"
          (field "sqliteEventCount" (num sqlite_count)
            (field "ndjsonLineCount" (num ndjson_count) (field "sourceOfTruth" (str "sqlite") end)))
          true w)

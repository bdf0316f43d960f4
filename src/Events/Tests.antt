-- ===== src/Events/Tests.antt =====
-- The event theorems at short logs.
use Prim.Native.Nat.{Ordering, compare}
use Prim.Native.String.{count}
use mathlib.Core.List.{Perm}
use mathlib.Core.Bool.{false≢true}
use squad_team.Prelude.{
  eq_iff, ◌≡◌, ◌≢◌, ◌↔◌, ◌⊎◌, ◌<◌, refl, [], ◌∷◌, ◌++◌, map, true, false, none, select, length,
  arith,
}
use squad_team.Json.{Fields, end, str, insert_sorted, set_field, num, obj, field, stored, sort_keys}
use squad_team.Canonicalization.{
  Document, json, utf8, genesis_hash, compute_event_hash, canonical_json, sha256_hex,
  normalize_value, normalize_text,
}
use squad_team.World.{World}
use squad_team.Samples.{toy, toy_digit, toy_digest, bare, plain, clashing}
use squad_team.Events.{
  in_run, logged, new_row, get_last_event_hash, verify_rows, verify_chain, row_to_event,
  check_mirror,
}
use squad_team.Events.Chain.{IsChain, verify_rows_iff}
use squad_team.Events.Log.{
  IsLog, IsStable, IsLog-empty, of_run, logged-IsLog, unstable-invalid, verify_chain-IsLog,
}
use squad_team.Events.Paging.{read_pages, read_pages_complete}
use squad_team.Events.Tamper.{Clash, SamePayloads, final_hash-determines}
use squad_team.Events.Mirror.{warning_row, check_mirror-synced}

bare-IsLog : IsLog toy bare
bare-IsLog = IsLog-empty toy bare refl

plain-IsStable : IsStable toy plain
unfolding stored sort_keys canonical_json normalize_value
plain-IsStable = refl

abbrev once : World
once = logged toy "run-1" "note" plain false bare

once-IsLog : IsLog toy once
once-IsLog = logged-IsLog toy "run-1" "note" plain false bare bare-IsLog plain-IsStable

logged-IsLog_example : IsLog toy (logged toy "run-1" "note" plain true once)
logged-IsLog_example = logged-IsLog toy "run-1" "note" plain true once once-IsLog plain-IsStable

verify_chain-IsLog_example : (verify_chain toy "run-1" once.events).valid ≡ true
verify_chain-IsLog_example = verify_chain-IsLog toy once "run-1" once-IsLog

clashing-unstable :
    sha256_hex toy (canonical_json toy (stored clashing))
    ≢ sha256_hex toy (canonical_json toy clashing)
unfolding stored insert_sorted sort_keys canonical_json normalize_value normalize_text set_field
    sha256_hex
clashing-unstable h = false≢true ((eq_iff _ _).1 h)

unstable-invalid_example :
    (verify_chain toy "run-1" (logged toy "run-1" "note" clashing true bare).events).valid ≡ false
unstable-invalid_example =
    unstable-invalid toy "run-1" "note" clashing true bare bare-IsLog clashing-unstable

verify_rows_iff_example :
    (verify_rows toy genesis_hash once.events ≡ []) ↔ IsChain toy genesis_hash once.events
verify_rows_iff_example = verify_rows_iff toy genesis_hash once.events

once-length : length (of_run "run-1" once) < 3
unfolding logged new_row
once-length = omega arith

read_pages_complete_example :
    read_pages 3 "run-1" none 1 once.events ≡ map row_to_event (select (in_run "run-1") once.events)
read_pages_complete_example =
    read_pages_complete "run-1" 0 once.events ((once-IsLog.at "run-1").numbered) 3 once-length

toy_digit-width : (o : Ordering) → count (toy_digit o) ≡ 1
toy_digit-width Ordering.lt = refl
toy_digit-width Ordering.eq = refl
toy_digit-width Ordering.gt = refl

toy-fixed : (x : Document) → count (toy_digest x) ≡ 1
toy-fixed (utf8 s) = refl
toy-fixed (json (obj (field k (num n) d))) = toy_digit-width (compare n 1)
toy-fixed _ = refl

-- Another event, which has the same toy digest.
abbrev other_payload : Fields
other_payload = field "note" (str "forged") end

other-IsStable : IsStable toy other_payload
unfolding stored sort_keys canonical_json normalize_value
other-IsStable = refl

abbrev forged : World
forged = logged toy "run-1" "note" other_payload false bare

forged-IsLog : IsLog toy forged
forged-IsLog = logged-IsLog toy "run-1" "note" other_payload false bare bare-IsLog other-IsStable

final_hash-determines_example :
    Clash toy genesis_hash genesis_hash (of_run "run-1" once) (of_run "run-1" forged)
    ⊎ SamePayloads toy (of_run "run-1" once) (of_run "run-1" forged)
unfolding logged new_row compute_event_hash get_last_event_hash stored sort_keys sha256_hex
    canonical_json normalize_value
final_hash-determines_example =
    final_hash-determines toy 1 toy-fixed (of_run "run-1" once) (of_run "run-1" forged)
      ((once-IsLog.at "run-1").chained) ((forged-IsLog.at "run-1").chained) refl refl

abbrev behind : World
behind = record once { ndjson = [] }

check_mirror-synced_example :
    (length behind.events ≡ length behind.ndjson → check_mirror toy behind ≡ behind)
    × (length behind.events ≢ length behind.ndjson
        → ((check_mirror toy behind).events ≡ behind.events ++ warning_row toy behind ∷ [])
          × Perm (check_mirror toy behind).ndjson (check_mirror toy behind).events)
check_mirror-synced_example = check_mirror-synced toy behind

-- ===== src/Tools/Tests.antt =====
-- Tool calls of a test engineer: a file that is written and read again, and a session.
use squad_team.Prelude.{◌≡◌, refl, true, false, some, List, [], ◌∷◌}
use squad_team.Json.{Fields, field, end, str}
use squad_team.World.{World, Error, Result, ok, raised}
use squad_team.Events.{new_row}
use squad_team.Nodes.Audit.{IsAudited-empty}
use squad_team.Nodes.Keeps.{IsConsistent}
use squad_team.Samples.{bench, desk, bare}
use squad_team.AgentRegistry.{default_registry}
use squad_team.Snapshots.{collect_files, sealed, snapshot_id}
use squad_team.Tools.{ToolResult, no_result}
use squad_team.Tools.Calls.{write_file, read_file}
use squad_team.Tools.Dispatch.{call_tool}
use squad_team.Tools.Sessions.{
  ToolSession, default_config, SessionOp, call, start_tool_session, run_session,
}
use squad_team.Tools.Trace.{Trace, IsDenialOf, is_denial}
use squad_team.Tools.Authority.{called, call_tool-Acts}
use squad_team.Tools.Rounds.{IsWithin, session-IsWithin, session-IsConsistent}
use squad_team.Workspace.{universal_newlines}
use squad_team.Tools.RoundTrip.{has_return, write_file-read_file}

abbrev patch : Fields
patch =
    field "path" (str "tests/a.py")
      (field "content" (str "new") (field "base_snapshot_id" (str "ckp-1") end))

call_tool-Acts_example :
    Trace bench "node-1"
      (called "write_file" patch)
      desk
      (call_tool bench "node-1" "write_file" patch desk).1
    × ((e : Error)
        → (call_tool bench "node-1" "write_file" patch desk).0 ≡ raised e
        → is_denial e ≡ true
        → IsDenialOf bench "node-1" e desk (call_tool bench "node-1" "write_file" patch desk).1)
call_tool-Acts_example = call_tool-Acts bench "node-1" desk "write_file" patch

abbrev wrote : Result ToolResult × World
wrote = write_file bench "node-1" "tests/a.py" "new" "ckp-1" desk

abbrev written : ToolResult
written = record no_result {
  path = some "tests/a.py";
  base_snapshot_id = some "ckp-1";
  result_snapshot_id = some "snap-z";
}

abbrev seen : ToolResult
seen = record no_result { content = some "new"; path = some "tests/a.py" }

is_written : wrote.0 ≡ ok written
unfolding write_file default_registry collect_files snapshot_id
is_written = refl

is_seen : (read_file bench "node-1" "tests/a.py" wrote.1).0 ≡ ok seen
unfolding write_file read_file default_registry collect_files sealed snapshot_id
is_seen = refl

write_file-read_file_example :
    (seen.content ≡ some (universal_newlines "new"))
    × (has_return "new" ≡ false → seen.content ≡ some "new")
write_file-read_file_example =
    write_file-read_file bench "node-1" "node-1" "tests/a.py" "new" "ckp-1" desk written seen
      is_written is_seen

abbrev fresh : ToolSession
fresh = record {
  session_id = "tool-session-h";
  node_id = "node-1";
  agent_id = "test-engineer";
  run_id = "run-1";
  started_at = 1;
  config = default_config;
  round_count = 0;
  status = "active";
  calls = [];
}

abbrev opened : World
opened = (start_tool_session bench "node-1" default_config desk).1

abbrev work : List SessionOp
work = call "write_file" patch ∷ call "shell" end ∷ call "read_file" end ∷ []

is_opened : start_tool_session bench "node-1" default_config desk ≡ (ok fresh, opened)
unfolding start_tool_session
is_opened = refl

session-IsWithin_example :
    IsWithin bench 5 1
      (run_session bench work (fresh, opened)).0
      (run_session bench work (fresh, opened)).1
unfolding start_tool_session new_row
session-IsWithin_example =
    session-IsWithin bench "node-1" default_config desk fresh opened is_opened work
      (tt, (tt, (tt, tt)))

session-IsConsistent_example : IsConsistent (run_session bench work (fresh, bare)).1
session-IsConsistent_example =
    session-IsConsistent bench work fresh bare (tt, (tt, (tt, tt)))
      (record { audited = IsAudited-empty bare refl refl; counted = (refl, tt); legal = tt })

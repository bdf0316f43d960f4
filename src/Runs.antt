-- ===== src/Runs.antt =====
-- squad_runtime/repositories/run_repository.py and squad_runtime/services/run_service.py.
use Prim.Native.String.{◌++◌ as cat}
use squad_team.Prelude.{
  suc, ◌+◌, String, Bool, true, Option, none, some, List, [], ◌∷◌, ◌++◌, ◌==◌, find, update_where,
}
use squad_team.Json.{end, field, str}
use squad_team.Canonicalization.{Env}
use squad_team.Models.{SquadRun}
use squad_team.World.{World, key_error, Result, ok, raised, Exec, modify, ◌>>=◌, ◌>>◌}
use squad_team.Events.{append}

-- `row is None` raises KeyError.
abbrev pub or_key_error {ℓ} : {A : Type ℓ} → String → Option A → Result A
or_key_error key none = raised (key_error key)
or_key_error key (some a) = ok a

abbrev pub has_run_id : String → SquadRun → Bool
has_run_id run_id r = r.id == run_id

unfoldable pub insert_run : SquadRun → World → World
insert_run r w = record w { runs = w.runs ++ r ∷ [] }

unfoldable pub get_run : String → Exec SquadRun
get_run run_id w = (or_key_error run_id (find (has_run_id run_id) w.runs), w)

unfoldable pub list_runs : World → List SquadRun
list_runs w = w.runs

-- UPDATE squad_runs SET version = version + 1 WHERE id = ?.
unfoldable pub increment_version : String → World → World
increment_version run_id w = record w {
  runs = update_where (has_run_id run_id) (λ r. record r { version = r.version + 1 }) w.runs;
}

module _ (env : Env) where
  -- A fresh uuid: the supply moves on.
  unfoldable pub fresh_id : String → Exec String
  fresh_id prefix w = (ok (cat prefix (env.uuid_hex w.ticks)), record w { ticks = suc w.ticks })

  unfoldable pub create_run : String → String → String → String → Exec SquadRun
  unfolding fresh_id insert_run append get_run
  create_run goal rule_version schema_version agent_contract_version = do
    run_id ← fresh_id "run-"
    modify (
        insert_run (record {
          id = run_id;
          goal = goal;
          status = "planning";
          version = 0;
          rule_version = rule_version;
          schema_version = schema_version;
          agent_contract_version = agent_contract_version;
        }))
    append env run_id "run_created" (field "goal" (str goal) end) true
    get_run run_id

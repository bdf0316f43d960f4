-- ===== src/SchemaMigration/Tests.antt =====
-- An archive of version 1.0 with one event that claims a hash.
use squad_team.Prelude.{◌≡◌, refl, true, false, some, none}
use squad_team.Json.{str, arr, obj, Items, nil, cons, Fields, end, field, get, field_is}
use squad_team.World.{ok, raised, attribute_error}
use squad_team.SchemaMigration.{validate_or_migrate}
use squad_team.SchemaMigration.Migrated.{IsMigrated, all_dicts, IsCleaned, migrate-idempotent}

abbrev old : Fields
old = field "schemaVersion" (str "1.0") (
    field "run" (str "run-1")
      (field "events" (arr (cons (obj (field "eventHash" (str "made up") end)) nil)) end))

migrate-idempotent_example :
    (get old "events" ≡ none
      → (migrated : Fields) × (validate_or_migrate old ≡ ok migrated)
        × IsMigrated old migrated
        × (get migrated "events" ≡ none))
    × ((events : Items)
        → get old "events" ≡ some (arr events)
        → all_dicts events ≡ true
        → (migrated : Fields) × (cleaned : Items) × (validate_or_migrate old ≡ ok migrated)
          × IsMigrated old migrated
          × (get migrated "events" ≡ some (arr cleaned))
          × IsCleaned events cleaned)
    × ((events : Items)
        → get old "events" ≡ some (arr events)
        → all_dicts events ≡ false
        → validate_or_migrate old ≡ raised attribute_error)
unfolding field_is
migrate-idempotent_example = migrate-idempotent old refl

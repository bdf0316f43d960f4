-- ===== src/SchemaMigration.antt =====
-- squad_runtime/schema_migration.py: the version of a log archive, and its migration.
pub mod Migrated
mod Tests
use squad_team.Prelude.{
  String, Bool, true, false, ◌&&◌, ◌||◌, not, Option, none, some, List, [], ◌∷◌, ◌==◌, contains,
  if◌then◌else◌,
}
use squad_team.Json.{
  Json, null, bool, num, str, arr, obj, Items, nil, cons, strings, Fields, end, field, get,
  set_field, field_is, is_str, truthy, is_unhashable,
}
use squad_team.World.{Result, ok, raised, type_error, attribute_error, ◌>>=?◌}

abbrev pub schema_v1 : String
schema_v1 = "1.0"

abbrev pub schema_v2 : String
schema_v2 = "2.0"

abbrev pub hash_fields : List String
hash_fields = "previousEventHash" ∷ "eventPayloadHash" ∷ "eventHash" ∷ []

unfoldable pub build_migration_report_v1_to_v2 : Fields
build_migration_report_v1_to_v2 = field "schemaVersion" (str "1.0") (
    field "sourceSchemaVersion" (str schema_v1) (
      field "targetSchemaVersion" (str schema_v2) (
        field "sourceCanonicalizationSpecVersion" (str "unavailable-in-v1") (
          field "targetCanonicalizationSpecVersion" (str "1.0") (
            field "eventHashChain" (str "unavailable-in-v1") (
              field "tamperDetection" (str "not-available-for-historical-events") (
                field "allowedModes"
                  (arr (strings ("re-evaluation" ∷ "state-reconstruction-with-warning" ∷ [])))
                  (field "disallowedModes" (arr (strings ("tamper-proof replay" ∷ []))) (
                    field "warnings"
                      (arr (
                        cons
                          (obj (
                            field "code" (str "EVENT_HASH_CHAIN_UNAVAILABLE_IN_V1") (
                              field "message"
                                (str
                                  "Historical archive does not contain previousEventHash/eventPayloadHash/eventHash. Hash chain must not be fabricated.")
                                end)))
                          nil))
                      end)))))))))

-- `{k: v for k, v in event.items() if k not in _HASH_FIELDS}`.
unfoldable pub strip_event : Fields → Fields
strip_event end = end
strip_event (field k v d) =
    let rest = strip_event d in if contains hash_fields k then rest else field k v rest

-- What is no dictionary has no `items`.
unfoldable pub strip_fabricated_hashes : Items → Result Items
unfolding strip_event
strip_fabricated_hashes nil = ok nil
strip_fabricated_hashes (cons (obj event) events) =
    strip_fabricated_hashes events >>=? λ cleaned. ok (cons (obj (strip_event event)) cleaned)
strip_fabricated_hashes (cons other events) = raised attribute_error

-- `_strip_fabricated_hashes` of whatever "events" holds: the loop raises on what cannot be iterated,
-- and at the first character of a text or key of a dictionary.
unfoldable pub strip_value : Json → Result Items
unfolding strip_fabricated_hashes
strip_value (arr events) = strip_fabricated_hashes events
strip_value (str text) = if text == "" then ok nil else raised attribute_error
strip_value (obj end) = ok nil
strip_value (obj (field k v d)) = raised attribute_error
strip_value null = raised type_error
strip_value (bool b) = raised type_error
strip_value (num n) = raised type_error

unfoldable pub strip_events : Option Json → Fields → Result Fields
unfolding strip_value set_field
strip_events none d = ok d
strip_events (some v) d = strip_value v >>=? λ cleaned. ok (set_field "events" (arr cleaned) d)

unfoldable pub migrate_v1_to_v2 : Fields → Result Fields
unfolding set_field build_migration_report_v1_to_v2 strip_events
migrate_v1_to_v2 payload =
    let migrated =
      set_field "migrationReport" (obj build_migration_report_v1_to_v2)
        (set_field "schemaVersion" (str schema_v2) payload) in
    strip_events (get migrated "events") migrated

-- `payload.get("run", {}).get(key)`; what is no dictionary has no `get`.
abbrev field_of : String → Option Json → Result (Option Json)
field_of key none = ok none
field_of key (some (obj run)) = ok (get run key)
field_of key (some other) = raised attribute_error

unfoldable pub run_field : String → Fields → Result (Option Json)
run_field key payload = field_of key (get payload "run")

-- `a or b`, where `b` is evaluated only if it is needed.
unfoldable pub or_json : Option Json → Result (Option Json) → Result (Option Json)
unfolding truthy
or_json a b = if truthy a then ok a else b

unfoldable pub version_of : Fields → Result (Option Json)
unfolding or_json run_field
version_of payload = or_json (get payload "schemaVersion") (
    run_field "schemaVersion" payload >>=? λ version.
    or_json version (run_field "schema_version" payload))

abbrev pub known_v1 : Option Json → Bool
unfolding is_str
known_v1 v = is_str v "v1" || is_str v "runtime-log/v1" || is_str v schema_v1

abbrev pub report : String → Json → Json → Json → Fields
report status from to failure = field "schemaVersion" (str "schema-migration-report/v1") (
    field "status" (str status) (
      field "fromVersion" from (
        field "toVersion" to
          (field "appliedMigrations" (arr nil) (field "failureClass" failure end)))))

abbrev json_or_null : Option Json → Json
json_or_null none = null
json_or_null (some v) = v

-- What `validate_or_migrate` does with the version; a set cannot be asked for a list or a dictionary.
unfoldable pub decide_version : Fields → Option Json → Result Fields
unfolding known_v1 field_is migrate_v1_to_v2 is_str
decide_version payload version =
    if is_unhashable version
    then raised type_error
    else if known_v1 version
    then if field_is "schemaVersion" schema_v1 payload
      then migrate_v1_to_v2 payload
      else ok (report "compatible" (json_or_null version) (json_or_null version) null)
    else if is_str version schema_v2
    then ok payload
    else ok (report "failed" (json_or_null version) null (str "CONFIG_ERROR"))

unfoldable pub validate_or_migrate : Fields → Result Fields
unfolding version_of decide_version
validate_or_migrate payload = version_of payload >>=? decide_version payload

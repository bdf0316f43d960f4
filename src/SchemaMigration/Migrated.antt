-- ===== src/SchemaMigration/Migrated.antt =====
-- squad_runtime/schema_migration.py: what a migration changes.
use squad_team.Prelude.{
  String, Bool, ◌||◌, ◌≡◌, refl, sym, ap, ◌∙◌, inl, inr, true, false, Bool-cases, Option, none,
  some, [], ◌∷◌, ◌==◌, eq_iff, eq_comm, contains, if◌then◌else◌, arith,
}
use squad_team.Json.{
  Json, null, bool, num, str, arr, obj, Items, nil, cons, Fields, end, field, get, set_field,
  field_is, is_str, truthy,
}
use squad_team.World.{ok, raised, attribute_error}
use squad_team.Json.Lookup.{get-set_field_self, get-set_field_other}
use squad_team.SchemaMigration.{
  hash_fields, strip_event, strip_fabricated_hashes, strip_value, strip_events,
  build_migration_report_v1_to_v2, migrate_v1_to_v2, or_json, version_of, known_v1, decide_version,
  validate_or_migrate,
}

-- A cleaned event has what the event had, but no hash.
get-strip_event :
    (k : String) (d : Fields)
    → get (strip_event d) k ≡ (if contains hash_fields k then none else get d k)
unfolding strip_event
get-strip_event k end = ground arith
get-strip_event k (field j v d) =
    let rest = get-strip_event k d in
    elim (Bool-cases (j == k)) [
      | inl e ↦
          let same = ap (contains hash_fields) ((eq_iff j k).0 e) in
          elim (Bool-cases (contains hash_fields j)) [
            | inl c ↦ rw (c, strip_event, sym same ∙ c) (rest ∙ rw (sym same ∙ c) refl)
            | inr c ↦ rw (c, strip_event, sym same ∙ c, e) refl
          ]
      | inr e ↦ elim (Bool-cases (contains hash_fields j)) [
        | inl c ↦ rw (c, strip_event, e) rest
        | inr c ↦ rw (c, strip_event, e) rest
      ]
    ]

text_of_is_str : (o : Option Json) (t : String) → is_str o t ≡ true → o ≡ some (str t)
unfolding is_str
text_of_is_str (some (str s)) t h = ap (λ x. some (str x)) ((eq_iff s t).0 h)
text_of_is_str none t h = ground arith
text_of_is_str (some null) t h = ground arith
text_of_is_str (some (bool b)) t h = ground arith
text_of_is_str (some (num n)) t h = ground arith
text_of_is_str (some (arr xs)) t h = ground arith
text_of_is_str (some (obj d)) t h = ground arith

-- The keys of the hash chain.
abbrev pub is_hash_key : String → Bool
is_hash_key k = k == "previousEventHash" || k == "eventPayloadHash" || k == "eventHash"

hash_keys : (k : String) → contains hash_fields k ≡ is_hash_key k
hash_keys k = ground arith

-- The two lists hold dictionaries, pair by pair the same but for the keys of the hash chain, which
-- those of the second do not have.
abbrev pub IsCleaned : Items → Items → Type 0
IsCleaned nil nil = Unit
IsCleaned (cons (obj event) events) (cons (obj clean) cleaned) =
    ((k : String) → get clean k ≡ (if is_hash_key k then none else get event k))
    × IsCleaned events cleaned
IsCleaned _ _ = ⊥

-- Whether every item is a dictionary.
abbrev pub all_dicts : Items → Bool
all_dicts nil = true
all_dicts (cons (obj event) events) = all_dicts events
all_dicts (cons other events) = false

strip-IsCleaned :
    (events : Items)
    → all_dicts events ≡ true
    → (cleaned : Items) × (strip_fabricated_hashes events ≡ ok cleaned) × IsCleaned events cleaned
unfolding strip_fabricated_hashes
strip-IsCleaned nil h = (nil, refl, tt)
strip-IsCleaned (cons (obj event) events) h =
    let (cleaned, ran, clean) = strip-IsCleaned events h in
    rw ran (_, refl, (λ k. get-strip_event k event ∙ rw (hash_keys k) refl, clean))
strip-IsCleaned (cons null events) h = absurd (ground arith)
strip-IsCleaned (cons (bool b) events) h = absurd (ground arith)
strip-IsCleaned (cons (num n) events) h = absurd (ground arith)
strip-IsCleaned (cons (str t) events) h = absurd (ground arith)
strip-IsCleaned (cons (arr xs) events) h = absurd (ground arith)

strip-raised :
    (events : Items)
    → all_dicts events ≡ false
    → strip_fabricated_hashes events ≡ raised attribute_error
unfolding strip_fabricated_hashes
strip-raised nil h = absurd (ground arith)
strip-raised (cons (obj event) events) h = rw (strip-raised events h) refl
strip-raised (cons null events) h = refl
strip-raised (cons (bool b) events) h = refl
strip-raised (cons (num n) events) h = refl
strip-raised (cons (str t) events) h = refl
strip-raised (cons (arr xs) events) h = refl

-- An archive of version 2.0 is left alone.
v2-kept :
    (payload : Fields)
    → get payload "schemaVersion" ≡ some (str "2.0")
    → validate_or_migrate payload ≡ ok payload
unfolding validate_or_migrate decide_version version_of or_json known_v1 is_str truthy
v2-kept payload found = rw found refl

v1-migrated :
    (payload : Fields)
    → field_is "schemaVersion" "1.0" payload ≡ true
    → validate_or_migrate payload ≡ migrate_v1_to_v2 payload
unfolding validate_or_migrate decide_version version_of or_json known_v1 field_is is_str truthy
v1-migrated payload v1 = rw (text_of_is_str (get payload "schemaVersion") "1.0" v1) (rw v1 refl)

module _ (payload : Fields) where
  abbrev versioned : Fields
  versioned = set_field "schemaVersion" (str "2.0") payload

  abbrev reported : Fields
  reported = set_field "migrationReport" (obj build_migration_report_v1_to_v2) versioned

  reported-events : get reported "events" ≡ get payload "events"
  reported-events =
      get-set_field_other "migrationReport" "events" _ versioned refl
      ∙ get-set_field_other "schemaVersion" "events" _ payload refl

  -- What a migration makes of an archive, given the events that it writes back.
  reported-other :
      (k : String)
      → contains ("schemaVersion" ∷ "migrationReport" ∷ []) k ≡ false
      → get reported k ≡ get payload k
  reported-other k apart =
      get-set_field_other "migrationReport" k _ versioned
        (ground (arith, eq_comm "migrationReport" k))
      ∙ get-set_field_other "schemaVersion" k _ payload (ground (arith, eq_comm "schemaVersion" k))

  -- The archive is migrated, up to its events.
  pub record IsMigrated (migrated : Fields) : Type 0 where
    pub version : get migrated "schemaVersion" ≡ some (str "2.0")
    pub migration_report :
        get migrated "migrationReport" ≡ some (obj build_migration_report_v1_to_v2)
    pub others :
        (k : String)
        → contains ("schemaVersion" ∷ "migrationReport" ∷ "events" ∷ []) k ≡ false
        → get migrated k ≡ get payload k
    pub again : validate_or_migrate migrated ≡ ok migrated

  reported-IsMigrated : IsMigrated reported
  reported-IsMigrated =
      let version =
        get-set_field_other "migrationReport" "schemaVersion" _ versioned refl
        ∙ get-set_field_self "schemaVersion" _ payload in
      record {
        version = version;
        migration_report = get-set_field_self "migrationReport" _ versioned;
        others = λ k apart. reported-other k (ground arith);
        again = v2-kept reported version;
      }

  cleaned-IsMigrated : (cleaned : Items) → IsMigrated (set_field "events" (arr cleaned) reported)
  cleaned-IsMigrated cleaned =
      let migrated = set_field "events" (arr cleaned) reported in
      let version : get migrated "schemaVersion" ≡ some (str "2.0") =
        get-set_field_other "events" "schemaVersion" _ reported refl
        ∙ reported-IsMigrated.version in
      record {
        version = version;
        migration_report =
            get-set_field_other "events" "migrationReport" _ reported refl
            ∙ reported-IsMigrated.migration_report;
        others = λ k apart.
            get-set_field_other "events" k _ reported (ground (arith, eq_comm "events" k))
            ∙ reported-other k (ground arith);
        again = v2-kept migrated version;
      }

  migrate-without : get payload "events" ≡ none → migrate_v1_to_v2 payload ≡ ok reported
  unfolding migrate_v1_to_v2 strip_events
  migrate-without h = rw (reported-events ∙ h) refl

  migrate-with :
      (events cleaned : Items)
      → get payload "events" ≡ some (arr events)
      → strip_fabricated_hashes events ≡ ok cleaned
      → migrate_v1_to_v2 payload ≡ ok (set_field "events" (arr cleaned) reported)
  unfolding migrate_v1_to_v2 strip_events strip_value
  migrate-with events cleaned h ran = rw (reported-events ∙ h, ran) refl

  migrate-raises :
      (events : Items)
      → get payload "events" ≡ some (arr events)
      → strip_fabricated_hashes events ≡ raised attribute_error
      → migrate_v1_to_v2 payload ≡ raised attribute_error
  unfolding migrate_v1_to_v2 strip_events strip_value
  migrate-raises events h ran = rw (reported-events ∙ h, ran) refl

-- A log archive of version 1.0 without events, or with a list of dictionaries for them, is migrated:
-- it then has version 2.0 and the report, every other key but its events has the value that it had,
-- and another migration changes nothing; its events, if it had any, are then the dictionaries they
-- were without the three keys of the hash chain. A list with anything else in it raises
-- AttributeError.
pub migrate-idempotent :
    (payload : Fields)
    → field_is "schemaVersion" "1.0" payload ≡ true
    → (get payload "events" ≡ none
        → (migrated : Fields) × (validate_or_migrate payload ≡ ok migrated)
          × IsMigrated payload migrated
          × (get migrated "events" ≡ none))
      × ((events : Items)
          → get payload "events" ≡ some (arr events)
          → all_dicts events ≡ true
          → (migrated : Fields) × (cleaned : Items) × (validate_or_migrate payload ≡ ok migrated)
            × IsMigrated payload migrated
            × (get migrated "events" ≡ some (arr cleaned))
            × IsCleaned events cleaned)
      × ((events : Items)
          → get payload "events" ≡ some (arr events)
          → all_dicts events ≡ false
          → validate_or_migrate payload ≡ raised attribute_error)
migrate-idempotent payload v1 = (
  λ absent. (
    reported payload,
    v1-migrated payload v1 ∙ migrate-without payload absent,
    reported-IsMigrated payload,
    reported-events payload ∙ absent,
  ),
  λ events found dicts.
      let (cleaned, ran, clean) = strip-IsCleaned events dicts in
      (
        set_field "events" (arr cleaned) (reported payload),
        cleaned,
        v1-migrated payload v1 ∙ migrate-with payload events cleaned found ran,
        cleaned-IsMigrated payload cleaned,
        get-set_field_self "events" _ (reported payload),
        clean,
      ),
  λ events found other.
      v1-migrated payload v1 ∙ migrate-raises payload events found (strip-raised events other),
)

-- ===== src/Replay.antt =====
-- squad_runtime/replay.py: the state that an exported log tells, and the check of its hash chain. An
-- exported event is a dictionary, with the keys of the export or of the event table; its payload is a
-- dictionary.
pub mod Agrees
use squad_team.Prelude.{
  ℕ, String, Bool, true, false, ◌&&◌, ◌||◌, not, Option, none, some, List, [], ◌∷◌, ◌++◌, ◌==◌, any,
  length, is_empty, ltb, if◌then◌else◌,
}
use squad_team.Json.{
  Json, null, bool, num, str, arr, obj, Fields, end, field, get, set_field, field_is, field_truthy,
  is_str, truthy,
}
use squad_team.Canonicalization.{Env, genesis_hash, compute_event_hash, py_str}
use squad_team.World.{key_error, Result, ok, raised}

abbrev pub default_to : Json → Option Json → Json
default_to d none = d
default_to d (some v) = v

-- `event.get(camel, event.get(snake, default))`.
abbrev pub either_key : String → String → Json → Fields → Json
either_key camel snake d event = default_to (default_to d (get event snake)) (get event camel)

abbrev pub payload_of : Option Json → Fields
payload_of (some (obj d)) = d
payload_of _ = end

abbrev pub is_null : Json → Bool
is_null null = true
is_null v = false

-- The messages of `verify_event_chain`, with the values that they show.
pub data ReplayError : Type 0 where
  missing_hashes : (seq : Json) → ReplayError
  previous_differs : (seq : Json) (expected : String) (got : Json) → ReplayError
  payload_differs : (seq : Json) (expected : String) (got : Json) → ReplayError
  event_differs : (seq : Json) (expected : String) (got : Json) → ReplayError

abbrev pub replay_error_unless : Bool → ReplayError → List ReplayError
replay_error_unless true e = []
replay_error_unless false e = e ∷ []

pub record ChainVerification : Type 0 where
  pub valid : Bool
  pub event_count : ℕ
  pub final_event_hash : Option Json
  pub errors : List ReplayError

-- A FULL_DATA_LOG file, as far as the engine reads it.
pub record FullDataLog : Type 0 where
  pub run : Fields
  pub nodes : List Fields
  pub gates : List Fields
  pub agent_results : List Fields
  pub events : List Fields

pub data Reconstruction : Type 0 where
  chain_verification_failed : ChainVerification → Reconstruction
  reconstructed :
      (run nodes gates agent_results : Fields) (event_count : ℕ) (final_event_hash : Option Json)
      (chain : ChainVerification)
      → Reconstruction

module _ (env : Env) where
  unfoldable pub check_event : String → Fields → Json → Json → List ReplayError
  unfolding is_str compute_event_hash
  check_event prev event stored_payload_hash stored_event_hash =
      let seq = either_key "sequenceNumber" "sequence_number" (str "?") event in
      let stored_prev = either_key "previousEventHash" "previous_event_hash" null event in
      let (payload_hash, event_hash) =
        compute_event_hash env prev (payload_of (get event "payload")) in
      replay_error_unless (is_str (some stored_prev) prev) (previous_differs seq prev stored_prev)
      ++ (replay_error_unless (is_str (some stored_payload_hash) payload_hash)
            (payload_differs seq payload_hash stored_payload_hash)
          ++ replay_error_unless (is_str (some stored_event_hash) event_hash)
              (event_differs seq event_hash stored_event_hash))

  -- The loop of `verify_event_chain`: the errors, and the last stored event hash.
  unfoldable pub verify_events : String → Option Json → List Fields → List ReplayError × Option Json
  unfolding check_event py_str
  verify_events prev final_hash [] = ([], final_hash)
  verify_events prev final_hash (event ∷ events) =
      let payload_hash = either_key "eventPayloadHash" "event_payload_hash" null event in
      let event_hash = either_key "eventHash" "event_hash" null event in
      elim (is_null payload_hash || is_null event_hash) [
        | true ↦
            let (errors, last) = verify_events prev final_hash events in
            (
              missing_hashes (either_key "sequenceNumber" "sequence_number" (str "?") event)
                  ∷ errors,
              last,
            )
        | false ↦
            let (errors, last) = verify_events (py_str env event_hash) (some event_hash) events in
            (check_event prev event payload_hash event_hash ++ errors, last)
      ]

  unfoldable pub verify_event_chain : List Fields → ChainVerification
  unfolding verify_events
  verify_event_chain events =
      let (errors, final_hash) = verify_events genesis_hash none events in
      record {
        valid = is_empty errors;
        event_count = length events;
        final_event_hash = final_hash;
        errors = errors;
      }

-- `{d[key]: d[value] for d in dicts}`; the keys are texts.
abbrev pub entry : String → String → Option Json → Option Json → Result (String × Json)
entry key value (some (str k)) (some v) = ok (k, v)
entry key value (some (str k)) none = raised (key_error value)
entry key value _ _ = raised (key_error key)

unfoldable pub collect : String → String → Fields → List Fields → Result Fields
unfolding set_field
collect key value found [] = ok found
collect key value found (d ∷ dicts) = elim (entry key value (get d key) (get d value)) [
  | raised e ↦ raised e
  | ok (k, v) ↦ collect key value (set_field k v found) dicts
]

-- `_final_event_hash`: of the last event of that type.
unfoldable pub sealed_hash : Option Json → List Fields → Option Json
unfolding field_is
sealed_hash found [] = found
sealed_hash found (event ∷ events) =
    sealed_hash
      (if field_is "type" "event_hash_chain_sealed" event
        then get (payload_of (get event "payload")) "finalEventHash"
        else found)
      events

-- Only the keys of the export are looked at here.
unfoldable pub has_any_hash : List Fields → Bool
unfolding field_truthy
has_any_hash events =
    any (λ e. field_truthy "eventPayloadHash" e || field_truthy "eventHash" e) events

module _ (env : Env) where
  abbrev pub or_sealed : Option Json → Option Json → Option Json
  unfolding truthy
  or_sealed found other = if truthy found then found else other

  unfoldable pub rebuild : FullDataLog → ChainVerification → Result Reconstruction
  unfolding collect sealed_hash or_sealed
  rebuild log chain = elim (collect "id" "status" end log.nodes) [
    | raised e ↦ raised e
    | ok nodes ↦ elim (collect "gateName" "status" end log.gates) [
      | raised e ↦ raised e
      | ok gates ↦ elim (collect "agentId" "status" end log.agent_results) [
        | raised e ↦ raised e
        | ok results ↦ ok (
            reconstructed log.run nodes gates results (length log.events)
              (or_sealed chain.final_event_hash (sealed_hash none log.events)) chain)
      ]
    ]
  ]

  unfoldable pub reconstruct_state : FullDataLog → Result Reconstruction
  unfolding verify_event_chain has_any_hash rebuild
  reconstruct_state log =
      let chain = verify_event_chain env log.events in
      if not chain.valid && ltb 0 chain.event_count && has_any_hash log.events
      then ok (chain_verification_failed chain)
      else rebuild log chain

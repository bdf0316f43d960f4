-- ===== src/Archive/Manifest.antt =====
-- squad_runtime/services/archive_service.py: the parts of the archive manifest that are computed from
-- the results, the gates and the events of a run. An event is the record whose dictionary the archive
-- holds.
use squad_team.Prelude.{
  ℕ, suc, ◌+◌, ◌≡◌, refl, String, Bool, ◌&&◌, inl, inr, Bool-cases, Option, none, some, List, [],
  ◌∷◌, ◌==◌, all, contains, length, map, select, if◌then◌else◌, arith,
}
use squad_team.Json.{Json, num, str, Fields, end, field, get, truthy}
use squad_team.Canonicalization.{Env}
use squad_team.Models.{SquadEvent}
use squad_team.World.{World, GateState, AgentResultRow}
use squad_team.Events.{verify_chain}
use squad_team.Contracts.{sorted_set}

-- `_last_event_payload`: of the last event of the type, the value of the key, or None.
unfoldable pub last_event_payload : String → String → Option Json → List SquadEvent → Option Json
last_event_payload event_type key found [] = found
last_event_payload event_type key found (e ∷ events) =
    last_event_payload event_type key (if e.type == event_type then get e.payload key else found)
      events

-- `_compute_final_event_hash`: the chain's own, or that of an event that sealed a legacy chain.
unfoldable pub compute_final_event_hash : Env → String → List SquadEvent → World → Option Json
unfolding verify_chain last_event_payload
compute_final_event_hash env run_id events w =
    elim ((verify_chain env run_id w.events).final_event_hash) [
      | some hash ↦
          if hash == ""
          then last_event_payload "event_hash_chain_sealed" "finalEventHash" none events
          else some (str hash)
      | none ↦ last_event_payload "event_hash_chain_sealed" "finalEventHash" none events
    ]

pub record ProviderIdentity : Type 0 where
  pub providers : List String
  pub all_identity_verified : Bool

unfoldable pub provider_identity : List AgentResultRow → ProviderIdentity
unfolding sorted_set
provider_identity results = record {
  providers = sorted_set (map (λ r. r.provider_used) results);
  all_identity_verified = all (λ r. r.provider_identity_verified) results;
}

-- An entry of `_provider_audit`; the hashes of its prompts are always None.
pub record ProviderAudit : Type 0 where
  pub provider : String
  pub identity_verified : Bool
  pub agent_count : ℕ

unfoldable pub audit_result : AgentResultRow → List ProviderAudit → List ProviderAudit
audit_result r [] =
    record {
      provider = r.provider_used;
      identity_verified = r.provider_identity_verified;
      agent_count = 1;
    }
    ∷ []
audit_result r (p ∷ providers) =
    if p.provider == r.provider_used
    then record p {
      identity_verified = p.identity_verified && r.provider_identity_verified;
      agent_count = suc p.agent_count;
    }
      ∷ providers
    else p ∷ audit_result r providers

unfoldable pub provider_audit : List ProviderAudit → List AgentResultRow → List ProviderAudit
unfolding audit_result
provider_audit providers [] = providers
provider_audit providers (r ∷ results) = provider_audit (audit_result r providers) results

abbrev pub failure_events : List String
failure_events =
    "invalid_agent_result" ∷ "tool_permission_denied" ∷ "checkpoint_mismatch" ∷ "provider_blocked"
    ∷ "provider_rate_limited" ∷ "agent_timeout" ∷ []

pub record FailureRecord : Type 0 where
  pub event_type : String
  pub failure_class : Option Json
  pub severity : String
  pub payload : Fields

abbrev failure_class_of : Fields → Option Json
unfolding truthy
failure_class_of payload =
    if truthy (get payload "failureClass")
    then get payload "failureClass"
    else get payload "blockedReasonCode"

unfoldable pub failure_records : List SquadEvent → List FailureRecord
unfolding failure_class_of
failure_records events =
    map
      (λ e. record {
        event_type = e.type;
        failure_class = failure_class_of e.payload;
        severity = "blocking";
        payload = e.payload;
      })
      (select (λ e. contains failure_events e.type) events)

unfoldable pub timeline : List SquadEvent → List Fields
timeline events =
    map
      (λ e. field "sequenceNumber" (num e.sequence_number) (
        field "type" (str e.type) (
          field "createdAt" (str e.created_at)
            (field "canonicalizationSpecificationVersion" (str "canonicalization/v1") end))))
      events

unfoldable pub passing_gates : List GateState → ℕ
passing_gates gates = length (select (λ g. g.status == "pass") gates)

total : List ProviderAudit → ℕ
total [] = 0
total (p ∷ providers) = p.agent_count + total providers

total-audit_result :
    (r : AgentResultRow) (providers : List ProviderAudit)
    → total (audit_result r providers) ≡ suc (total providers)
unfolding total audit_result
total-audit_result r [] = refl
total-audit_result r (p ∷ providers) =
    let rest = total-audit_result r providers in
    elim (Bool-cases (p.provider == r.provider_used)) [
      | inl e ↦ rw (e, audit_result) (omega arith)
      | inr e ↦ rw (e, audit_result, total) (omega (arith, rest))
    ]

-- The audit counts every result once.
total-provider_audit :
    (providers : List ProviderAudit) (results : List AgentResultRow)
    → total (provider_audit providers results) ≡ total providers + length results
unfolding provider_audit
total-provider_audit providers [] = omega arith
total-provider_audit providers (r ∷ results) =
    omega (
      arith,
      total-provider_audit (audit_result r providers) results,
      total-audit_result r providers,
    )

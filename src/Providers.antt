-- ===== src/Providers.antt =====
-- squad_runtime/adapter.py, and of squad_runtime/providers/impl.py the registry and the deterministic
-- provider.
pub mod Dispatch
mod Tests
use Prim.Native.String.{◌++◌ as cat}
use squad_team.Prelude.{
  String, Bool, true, false, ◌&&◌, ◌||◌, not, Option, none, some, List, [], ◌∷◌, ◌==◌, is_truthy,
  or_else, if◌then◌else◌,
}
use squad_team.State.{ready, running, status_is}
use squad_team.Json.{Fields, end, field, str, bool}
use squad_team.Canonicalization.{Env}
use squad_team.Models.{TaskNode, AgentResult, micros, with_base_snapshot}
use squad_team.World.{
  World, Error, key_error, Result, ok, raised, Exec, pure, raise, and_then, ◌>>=◌, ◌>>◌,
}
use squad_team.Events.{append}
use squad_team.Runs.{or_key_error, fresh_id}
use squad_team.Nodes.{Transition, get_node, transition_node}
use squad_team.Results.{Provenance, persist_agent_result, apply_agent_result}
use squad_team.AgentRegistry.{AgentProfile, AgentRegistry, get_agent}

-- `provider.execute(runtime, node, profile, synthetic=False, …)`: the flag and the reason of a
-- fallback.
abbrev pub Provider : Type 0
Provider = TaskNode → AgentProfile → Bool → Option String → Exec AgentResult

module _ (env : Env) where
  abbrev pub dispatching : TaskNode → Transition
  dispatching node = record {
    node_id = node.id;
    from_status = ready;
    to_status = running;
    reason = "fake cli dispatch";
    blocked_reason_code = none;
    metadata = none;
    expected_run_version = none;
  }

  abbrev pub fake_result : TaskNode → AgentProfile → AgentResult
  fake_result node profile = with_base_snapshot (record {
    task_node_id = node.id;
    agent_id = profile.agent_id;
    status = "pass";
    summary = cat "Fake CLI result for " profile.agent_id;
    evidence = record { type = some "fake_cli"; content = some "deterministic evidence" } ∷ [];
    artifacts = [];
    risks = [];
    next_actions = [];
    confidence = micros 1000000;
    worked_against_checkpoint = node.checkpoint_id;
    agent_contract_version = "v1";
    schema_version = "agent-result/v1";
    base_snapshot_id = none;
    result_snapshot_id = none;
  })

  abbrev pub fake_provenance : Bool → Option String → Provenance
  fake_provenance fallback reason = record {
    provider_used = "fake_cli";
    provider_type = "deterministic";
    provider_identity_verified = true;
    provider_fallback_triggered = fallback;
    fallback_reason = reason;
    synthetic = false;
  }

  abbrev pub started_payload : String → AgentProfile → Bool → Fields
  started_payload dispatch_id profile fallback = field "dispatchId" (str dispatch_id) (
      field "agentId" (str profile.agent_id) (
        field "provider" (str "fake_cli")
          (field "synthetic" (bool false) (field "providerFallbackTriggered" (bool fallback) end))))

  abbrev pub completed_payload : String → AgentProfile → String → Fields
  completed_payload dispatch_id profile outcome = field "dispatchId" (str dispatch_id) (
      field "agentId" (str profile.agent_id)
        (field "provider" (str "fake_cli") (field "outcome" (str outcome) end)))

  -- A READY node is started.
  unfoldable pub start_if_ready : TaskNode → Exec (Unit {0})
  unfolding transition_node
  start_if_ready current =
      if status_is current.status ready
      then transition_node env (dispatching current) >> pure tt
      else pure tt

  -- `FakeCliProvider.execute` without `synthetic`.
  unfoldable pub fake_execute : Provider
  unfolding fresh_id append get_node start_if_ready persist_agent_result apply_agent_result
  fake_execute node profile fallback reason = do
    dispatch_id ← fresh_id env "dispatch-"
    append env node.run_id "llm_session_started" (started_payload dispatch_id profile fallback) true
    current ← get_node node.id
    start_if_ready current
    persist_agent_result env (fake_result node profile) (fake_provenance fallback reason)
    outcome ← apply_agent_result env (fake_result node profile)
    append env node.run_id "llm_session_completed" (completed_payload dispatch_id profile outcome)
        true
    pure (fake_result node profile)

  abbrev pub provider_of : List (String × Provider) → String → Option Provider
  provider_of [] name = none
  provider_of ((key, p) ∷ providers) name =
      if key == name then some p else provider_of providers name

  -- `ProviderRegistry.get`.
  unfoldable pub get_provider : List (String × Provider) → String → Exec Provider
  get_provider providers name w = (or_key_error name (provider_of providers name), w)

module _ (env : Env) (error_text : Error → String) (registry : AgentRegistry)
    (providers : List (String × Provider)) where
  abbrev pub fallback_payload : TaskNode → AgentProfile → String → Error → String → Fields
  fallback_payload node profile provider_name error target = field "nodeId" (str node.id) (
      field "agentId" (str profile.agent_id) (
        field "primaryProvider" (str provider_name) (
          field "fallbackProvider" (str target) (
            field "reason" (str "primary_provider_unavailable")
              (field "detail" (str (error_text error)) end)))))

  -- What follows an exception of the primary provider, for a fallback provider and mode.
  unfoldable pub fall_back_to :
      Option String → String → TaskNode → AgentProfile → String → Error → Exec AgentResult
  unfolding append get_provider
  fall_back_to target mode node profile provider_name error =
      if is_truthy target && mode == "automatic"
      then (do
        append env node.run_id "provider_fallback_triggered"
            (fallback_payload node profile provider_name error (or_else target "")) true
        fallback ← get_provider env providers (or_else target "")
        fallback node profile true (some "primary_provider_unavailable"))
      else raise error

  unfoldable pub fall_back : TaskNode → AgentProfile → String → Error → Exec AgentResult
  unfolding fall_back_to
  fall_back node profile = fall_back_to profile.fallback_provider profile.fallback_mode node profile

  -- `try: …; except Exception: …`.
  abbrev pub recovered :
      Result AgentResult × World → (Error → Exec AgentResult) → Result AgentResult × World
  recovered (ok r, w) handle = (ok r, w)
  recovered (raised e, w) handle = handle e w

  unfoldable pub attempt_dispatch : TaskNode → AgentProfile → String → Provider → Exec AgentResult
  unfolding fall_back
  attempt_dispatch node profile provider_name provider w =
      recovered (provider node profile false none w) (fall_back node profile provider_name)

  unfoldable pub dispatch_once : String → Option String → Exec AgentResult
  unfolding get_node get_agent get_provider attempt_dispatch
  dispatch_once node_id provider_override = do
    node ← get_node node_id
    profile ← (λ w. (get_agent registry node.owner_agent_id, w))
    let provider_name =
        if is_truthy provider_override
        then or_else provider_override profile.provider
        else profile.provider
    provider ← get_provider env providers provider_name
    attempt_dispatch node profile provider_name provider

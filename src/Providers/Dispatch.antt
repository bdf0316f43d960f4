-- ===== src/Providers/Dispatch.antt =====
-- `FakeCliProvider.execute` of squad_runtime/providers/impl.py and `AgentRuntimeAdapter.dispatch_once`
-- of squad_runtime/adapter.py.
use Prim.Native.String.{◌++◌ as cat}
use squad_team.Prelude.{
  ◌+◌, suc, String, ◌≡◌, refl, Bool, true, false, Option, none, some, List, find,
}
use squad_team.State.{ready, running, pass, status_is, transition_allowed, from_value}
use squad_team.Canonicalization.{Env}
use squad_team.Models.{with_base_snapshot, SquadRun, TaskNode}
use squad_team.World.{World, Error, ok, raised}
use squad_team.Events.{append, logged}
use squad_team.Runs.{fresh_id, has_run_id, increment_version}
use squad_team.Nodes.{has_id, get_node, with_status, update_status, check_request}
use squad_team.Nodes.Outcome.{Accepts, found_after, transition-moved}
use squad_team.Nodes.Audit.{status_in, moved_self}
use squad_team.Contracts.{validate_agent_result}
use squad_team.Results.{
  Provenance, persist_agent_result, store_result, for_each, insert_evidence_item,
  insert_agent_result, apply_agent_result, accept_result, parse_status, closing,
}
use squad_team.Facade.Findings.{find-update_self}
use squad_team.AgentRegistry.{AgentProfile, AgentRegistry, get_agent}
use squad_team.Providers.{
  Provider, provider_of, get_provider, fall_back, fall_back_to, fallback_payload, attempt_dispatch,
  dispatch_once, dispatching, started_payload, fake_result, fake_provenance, start_if_ready,
  fake_execute,
}

module _ (env : Env) (node : TaskNode) (profile : AgentProfile) where
  -- The node and its run, with some version, are there, and the node has the status of `n`.
  abbrev IsAt : TaskNode → World → Type 0
  IsAt n w =
      (find (has_id node.id) w.nodes ≡ some n)
      × (run : SquadRun) × (find (has_run_id n.run_id) w.runs ≡ some run)

  abbrev started : TaskNode
  started = with_status running none node

  starts :
      (w : World)
      → node.status ≡ ready
      → IsAt node w
      → (v : World) × (start_if_ready env node w ≡ (ok tt, v)) × IsAt started v
  unfolding start_if_ready check_request transition_allowed logged increment_version update_status
      status_is
  starts w is_ready (found, run, run_found) =
      let a = accepts in
      rw (is_ready, start_if_ready, transition-moved env (dispatching env node) w a)
        (
          _,
          refl,
          (
            found_after env (dispatching env node) w a,
            _,
            find-update_self (has_run_id node.run_id) (λ r. record r { version = r.version + 1 })
                w.runs run (λ r. refl) run_found,
          ),
        )
    where
      accepts : Accepts env (dispatching env node) w
      accepts = record {
        requested = refl;
        node = node;
        node_found = found;
        run = run;
        run_found = run_found;
        version_agrees = refl;
        status_agrees = is_ready;
      }

  abbrev IsValid : TaskNode → Type 0
  IsValid n =
      (validate_agent_result env (fake_result env node profile) (some n.checkpoint_id)).valid ≡ true

  persists :
      (p : Provenance) (n : TaskNode) (w : World)
      → IsValid n
      → IsAt n w
      → (id : String) × (v : World) × (persist_agent_result env (fake_result env node profile) p w
          ≡ (ok id, v))
        × IsAt n v
  unfolding persist_agent_result with_base_snapshot get_node store_result for_each
      insert_evidence_item fresh_id insert_agent_result append logged
  persists p n w valid (found, run, run_found) =
      rw (found, persist_agent_result, valid) (_, _, refl, (found, run, run_found))

  applies :
      (w : World)
      → IsValid started
      → IsAt started w
      → (v : World) × (apply_agent_result env (fake_result env node profile) w ≡ (ok "pass", v))
        × (status_in node.id v ≡ some pass)
  unfolding apply_agent_result with_base_snapshot get_node accept_result parse_status from_value
      check_request transition_allowed status_is
  applies w valid (found, run, run_found) =
      let a = accepts in
      rw
        (
          found,
          apply_agent_result,
          valid,
          accept_result,
          transition-moved env (closing env started pass) w a,
        )
        (_, refl, moved_self env (closing env started pass) w a)
    where
      accepts : Accepts env (closing env started pass) w
      accepts = record {
        requested = refl;
        node = started;
        node_found = found;
        run = run;
        run_found = run_found;
        version_agrees = refl;
        status_agrees = refl;
      }

  -- The state when the node is looked at.
  abbrev launched : Bool → World → World
  launched fallback w =
      logged env node.run_id "llm_session_started"
        (started_payload env (cat "dispatch-" (env.uuid_hex w.ticks)) profile fallback) true
        (record w { ticks = suc w.ticks })

  -- A dispatch of a READY node to the deterministic provider returns its result and leaves the node
  -- PASS, where the node and its run exist and the result is valid against the node's checkpoint.
  pub fake_execute-passes :
      (fallback : Bool) (reason : Option String) (w : World) (run : SquadRun)
      → node.status ≡ ready
      → find (has_id node.id) w.nodes ≡ some node
      → find (has_run_id node.run_id) w.runs ≡ some run
      → (validate_agent_result env (fake_result env node profile) (some node.checkpoint_id)).valid
        ≡ true
      → ((fake_execute env node profile fallback reason w).0 ≡ ok (fake_result env node profile))
        × (status_in node.id (fake_execute env node profile fallback reason w).1 ≡ some pass)
  unfolding fake_execute get_node fresh_id append logged
  fake_execute-passes fallback reason w run is_ready found run_found valid =
      let (v, ran, at) = starts (launched fallback w) is_ready (found, run, run_found) in
      let (id, u, stored, there) =
        persists (fake_provenance env fallback reason) started v valid at in
      let (t, applied, passed) = applies u valid there in
      rw (found, fake_execute) (rw ran (rw stored (rw applied (refl, passed))))

module _ (env : Env) (error_text : Error → String) (registry : AgentRegistry)
    (providers : List (String × Provider)) (node : TaskNode) (profile : AgentProfile) where
  -- An agent whose fallback is the deterministic provider.
  pub record FallsBack (w : World) : Type 0 where
    pub found : find (has_id node.id) w.nodes ≡ some node
    pub known : get_agent registry node.owner_agent_id ≡ ok profile
    pub primary : Provider
    pub primary_found : provider_of env providers profile.provider ≡ some primary
    pub fallback_name : profile.fallback_provider ≡ some "fake_cli"
    pub automatic : profile.fallback_mode ≡ "automatic"
    pub fallback_found : provider_of env providers "fake_cli" ≡ some (fake_execute env)

  falls_back :
      (target : Option String) (mode name : String) (e : Error) (v : World)
      → target ≡ some "fake_cli"
      → mode ≡ "automatic"
      → provider_of env providers "fake_cli" ≡ some (fake_execute env)
      → fall_back_to env error_text registry providers target mode node profile name e v
        ≡ fake_execute env node profile true (some "primary_provider_unavailable") (
            logged env node.run_id "provider_fallback_triggered"
              (fallback_payload env error_text registry providers node profile name e "fake_cli")
              true
              v)
  unfolding fall_back_to get_provider append
  falls_back target mode name e v named automatic known =
      rw (named, automatic, known, fall_back_to) refl

  -- When the primary provider of such an agent raises, and leaves the READY node and its run, a
  -- dispatch still returns a result and leaves the node PASS, if that result is valid against the
  -- node's checkpoint.
  pub dispatch_once-recovers :
      (w v : World) (e : Error) (run : SquadRun) (f : FallsBack w)
      → FallsBack.primary f node profile false none w ≡ (raised e, v)
      → node.status ≡ ready
      → find (has_id node.id) v.nodes ≡ some node
      → find (has_run_id node.run_id) v.runs ≡ some run
      → (validate_agent_result env (fake_result env node profile) (some node.checkpoint_id)).valid
        ≡ true
      → ((dispatch_once env error_text registry providers node.id none w).0
          ≡ ok (fake_result env node profile))
        × (status_in node.id (dispatch_once env error_text registry providers node.id none w).1
            ≡ some pass)
  unfolding dispatch_once get_node get_provider attempt_dispatch fall_back append logged
  dispatch_once-recovers w v e run f fails is_ready found run_found valid =
      rw (f.found, dispatch_once)
        (rw f.known (
          rw f.primary_found (
            rw fails (
              rw
                (falls_back profile.fallback_provider profile.fallback_mode profile.provider e v
                  f.fallback_name f.automatic f.fallback_found)
                (fake_execute-passes env node profile true (some "primary_provider_unavailable")
                  (logged env node.run_id "provider_fallback_triggered"
                    (fallback_payload env error_text registry providers node profile
                      profile.provider e "fake_cli")
                    true v)
                  run is_ready found run_found valid)))))

-- ===== src/Tools/Sessions.antt =====
-- squad_runtime/tool_adapter.py: tool sessions, which limit the rounds and the time of an agent's tool
-- calls. A session is an object that a call changes also when it raises. Times are in milliseconds.
use Prim.Native.Nat.{◌*◌}
use Prim.Native.String.{◌++◌ as cat}
use squad_team.Prelude.{
  ℕ, suc, ◌+◌, ◌-◌, String, true, false, Option, none, some, List, [], ◌∷◌, ◌++◌, ◌==◌, not,
  contains, leb, ltb, if◌then◌else◌,
}
use squad_team.Json.{Fields, end, field, Items, nil, cons, str, num, arr, obj, opt_str, decimal}
use squad_team.Models.{SquadEvent}
use squad_team.World.{World, Error, tool_permission, Result, ok, raised, Exec, pure, ◌>>=◌, ◌>>◌}
use squad_team.Nodes.{get_node}
use squad_team.Facade.{record_event}
use squad_team.Tools.{known_tool, forbidden_tools, ToolResult, Adapter}
use squad_team.Tools.Dispatch.{call_tool}

pub record ToolSessionConfig : Type 0 where
  pub max_tool_rounds : ℕ
  pub tool_call_timeout_seconds : ℕ
  pub session_timeout_seconds : ℕ

abbrev pub default_config : ToolSessionConfig
default_config = record {
  max_tool_rounds = 5;
  tool_call_timeout_seconds = 30;
  session_timeout_seconds = 180;
}

-- An entry of `session.calls`.
pub record CallEntry : Type 0 where
  pub tool_name : String
  pub status : String
  pub round : ℕ

pub record ToolSession : Type 0 where
  pub session_id : String
  pub node_id : String
  pub agent_id : String
  pub run_id : String
  pub started_at : ℕ
  pub config : ToolSessionConfig
  pub round_count : ℕ
  pub status : String
  pub calls : List CallEntry

-- `{k: v for k, v in args.items() if k != name}`.
unfoldable pub without : String → Fields → Fields
without name end = end
without name (field k v d) = let rest = without name d in if k == name then rest else field k v rest

calls_json : List CallEntry → Items
calls_json [] = nil
calls_json (c ∷ calls) =
    cons
      (obj (
        field "toolName" (str c.tool_name)
          (field "status" (str c.status) (field "round" (num c.round) end))))
      (calls_json calls)

-- How a call came out, as the completed event says.
unfoldable pub call_status {ℓ} : {A : Type ℓ} → Result A → String
call_status (ok v) = "success"
call_status (raised (tool_permission reason failure_class)) = "denied"
call_status (raised e) = "error"

-- The first fields of every event of a session.
abbrev pub session_fields : ToolSession → Fields → Fields
session_fields s rest =
    field "sessionId" (str s.session_id)
      (field "nodeId" (str s.node_id) (field "agentId" (str s.agent_id) rest))

abbrev pub SessionResult {ℓ} : Type ℓ → Type ℓ
SessionResult A = Result A × ToolSession × World

module _ (a : Adapter) where
  -- `time.time()`.
  unfoldable pub read_clock : Exec ℕ
  read_clock w = (ok (a.host.time w.ticks), record w { ticks = suc w.ticks })

  unfoldable pub start_tool_session : String → ToolSessionConfig → Exec ToolSession
  unfolding get_node read_clock record_event
  start_tool_session node_id config = do
    node ← get_node node_id
    session_id ←
        (λ w. (ok (cat "tool-session-" (a.env.uuid_hex w.ticks)), record w { ticks = suc w.ticks }))
    started_at ← read_clock
    record_event a.env node.run_id "tool_session_started"
        (field "sessionId" (str session_id) (
          field "nodeId" (str node_id) (
            field "agentId" (str node.owner_agent_id) (
              field "maxToolRounds" (num config.max_tool_rounds) (
                field "toolCallTimeoutSeconds" (num config.tool_call_timeout_seconds)
                  (field "sessionTimeoutSeconds" (num config.session_timeout_seconds) end))))))
        false
    pure (record {
      session_id = session_id;
      node_id = node_id;
      agent_id = node.owner_agent_id;
      run_id = node.run_id;
      started_at = started_at;
      config = config;
      round_count = 0;
      status = "active";
      calls = [];
    })

  unfoldable pub record_completed : ToolSession → Option String → Option String → Exec SquadEvent
  unfolding read_clock record_event calls_json
  record_completed s reason detail = do
    now ← read_clock
    record_event a.env s.run_id "tool_session_completed"
        (session_fields s (
          field "status" (str s.status) (
            field "reason" (opt_str reason) (
              field "detail" (opt_str detail) (
                field "roundCount" (num s.round_count) (
                  field "elapsedMs" (num (now - s.started_at))
                    (field "calls" (arr (calls_json s.calls)) end)))))))
        true

  -- `_complete_tool_session`, after which `outcome` is returned or raised.
  unfoldable pub complete_session {ℓ} :
      {A : Type ℓ}
      → ToolSession
      → String
      → Option String
      → Option String
      → Result A
      → World
      → SessionResult A
  unfolding record_completed
  complete_session s status reason detail outcome w =
      if not (s.status == "active")
      then (outcome, s, w)
      else (let closed = record s { status = status } in
          let (r, w') = record_completed closed reason detail w in
          elim r [ raised e ↦ (raised e, closed, w') | ok _ ↦ (outcome, closed, w') ])

  -- An event of the session, and what follows it.
  unfoldable pub emitting {ℓ} :
      {A : Type ℓ}
      → ToolSession
      → String
      → Fields
      → (World → SessionResult A)
      → World
      → SessionResult A
  unfolding record_event
  emitting s event_type payload k w =
      let (r, w') = record_event a.env s.run_id event_type (session_fields s payload) true w in
      elim r [ raised e ↦ (raised e, s, w') | ok _ ↦ k w' ]

  module _ (tool_name : String) (args : Fields) where
    error_shown : Result ToolResult → Fields
    error_shown (ok v) = end
    error_shown (raised (tool_permission reason failure_class)) = end
    error_shown (raised e) = field "error" (str (a.host.error_text e)) end

    -- A call that is counted whatever it does, and its completed event.
    unfoldable pub perform : ToolSession → World → SessionResult ToolResult
    unfolding call_tool emitting call_status error_shown
    perform s w =
        let (r, w') = call_tool a s.node_id tool_name args w in
        let counted = record s { round_count = s.round_count + 1 } in
        emitting counted "tool_call_completed"
          (field "toolName" (str tool_name) (
            field "round" (num counted.round_count)
              (field "status" (str (call_status r)) (error_shown r))))
          (λ v. (
            r,
            record counted {
              calls =
                  s.calls
                  ++ record {
                    tool_name = tool_name;
                    status = call_status r;
                    round = counted.round_count;
                  }
                    ∷ [];
            },
            v,
          ))
          w'

    -- A tool that no session may call: denied, and the session ends.
    unfoldable pub denied_call : ToolSession → String → Error → World → SessionResult ToolResult
    unfolding emitting complete_session
    denied_call s reason error =
        emitting s "tool_call_denied"
          (field "toolName" (str tool_name)
            (field "reason" (str reason) (field "denialCode" (str "illegal_tool") end)))
          (complete_session s "denied" (some reason) none (raised error))

    unfoldable pub decide_call : ToolSession → World → SessionResult ToolResult
    unfolding denied_call known_tool emitting perform
    decide_call s =
        if contains forbidden_tools tool_name
        then denied_call s "illegal_tool"
            (tool_permission (cat "Illegal tool: " tool_name) "ILLEGAL_TOOL")
        else if not (known_tool tool_name)
        then denied_call s "unknown_tool"
            (tool_permission (cat "Unknown tool: " tool_name) "CONFIG_ERROR")
        else emitting s "tool_call_allowed"
            (field "toolName" (str tool_name) (field "round" (num (s.round_count + 1)) end))
            (perform s)

    -- What follows the reading of the clock.
    unfoldable pub limited_call : ℕ → ToolSession → World → SessionResult ToolResult
    unfolding complete_session emitting decide_call without decimal
    limited_call now s =
        if ltb (1000 * s.config.session_timeout_seconds) (now - s.started_at)
        then complete_session s "timeout" (some "session_timeout")
            (some (cat "Session exceeded " (cat (decimal s.config.session_timeout_seconds) "s")))
            (raised (tool_permission "Tool session timed out" "TOOL_LOOP_TIMEOUT"))
        else if leb s.config.max_tool_rounds s.round_count
        then complete_session s "max_rounds_exceeded" none
            (some (cat "Exceeded " (cat (decimal s.config.max_tool_rounds) " rounds")))
            (raised (tool_permission "Tool loop max rounds exceeded" "TOOL_LOOP_MAX_ROUNDS"))
        else emitting s "tool_call_requested"
            (field "toolName" (str tool_name) (
              field "round" (num (s.round_count + 1))
                (field "args" (obj (without "content" args)) end)))
            (decide_call s)

    unfoldable pub call_tool_in_session : ToolSession → World → SessionResult ToolResult
    unfolding limited_call
    call_tool_in_session s w =
        limited_call (a.host.time w.ticks) s (record w { ticks = suc w.ticks })

  unfoldable pub complete_tool_session : String → ToolSession → World → SessionResult (Unit {0})
  unfolding complete_session
  complete_tool_session outcome s = complete_session s outcome none none (ok tt)

-- What the holder of a session does with it.
pub data SessionOp : Type 0 where
  call : (tool_name : String) (args : Fields) → SessionOp
  complete : (outcome : String) → SessionOp

module _ (a : Adapter) where
  -- A step keeps the session and the world, raised or not; a dispatch loop may go on after an
  -- exception.
  unfoldable pub step : SessionOp → ToolSession × World → ToolSession × World
  unfolding call_tool_in_session complete_tool_session
  step (call tool_name args) (s, w) =
      let (r, s', w') = call_tool_in_session a tool_name args s w in (s', w')
  step (complete outcome) (s, w) = let (r, s', w') = complete_tool_session a outcome s w in (s', w')

  unfoldable pub run_session : List SessionOp → ToolSession × World → ToolSession × World
  unfolding step
  run_session [] at = at
  run_session (op ∷ ops) at = run_session ops (step op at)

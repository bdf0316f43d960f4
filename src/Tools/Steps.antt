-- ===== src/Tools/Steps.antt =====
-- squad_runtime/tool_adapter.py: what holds of a session and the state through all that its holder
-- does with it.
use Prim.Native.Nat.{◌*◌}
use squad_team.Prelude.{
  ℕ, suc, ◌+◌, ◌-◌, String, ◌≡◌, refl, inl, inr, true, false, Bool-cases, Option, none, List, [],
  ◌∷◌, ◌++◌, ◌==◌, contains, leb, ltb, All,
}
use squad_team.Json.{Fields}
use squad_team.World.{World, Error, Result}
use squad_team.Events.{logged, append}
use squad_team.Facade.{record_event}
use squad_team.Tools.{Adapter, known_tool, forbidden_tools}
use squad_team.Tools.Sessions.{
  ToolSession, SessionResult, read_clock, record_completed, complete_session, emitting, perform,
  denied_call, decide_call, limited_call, call_tool_in_session, complete_tool_session, SessionOp,
  call, complete, step, run_session,
}
use squad_team.Tools.Trace.{ToolCall, Trace}
use squad_team.Tools.Authority.{called, call_tool-Acts}

-- The types of the events that a session logs around its calls.
abbrev pub call_events : List String
call_events =
    "tool_call_requested" ∷ "tool_call_denied" ∷ "tool_call_allowed" ∷ "tool_call_completed" ∷ []

abbrev pub counted : ToolSession → String → String → ToolSession
counted s tool_name status = record s {
  round_count = s.round_count + 1;
  calls =
      s.calls ++ record { tool_name = tool_name; status = status; round = s.round_count + 1 } ∷ [];
}

-- A session that is completed is given a status other than "active".
abbrev pub Closes : SessionOp → Type 0
Closes (call tool_name args) = Unit
Closes (complete outcome) = (outcome == "active") ≡ false

-- A property that every step of a session keeps.
pub record Holds (a : Adapter) (P : ToolSession → World → Type 0) : Type 0 where
  pub tools :
      (tc : ToolCall) (s : ToolSession) (w v : World) → Trace a s.node_id tc w v → P s w → P s v
  pub clock : (s : ToolSession) (w : World) → P s w → P s (record w { ticks = suc w.ticks })
  pub event :
      (s : ToolSession) (w : World) (event_type : String) (payload : Fields)
      → contains call_events event_type ≡ true
      → P s w
      → P s (logged a.env s.run_id event_type payload true w)
  pub counts :
      (s : ToolSession) (w : World) (tool_name status : String)
      → leb s.config.max_tool_rounds s.round_count ≡ false
      → P s w
      → P (counted s tool_name status) w
  pub closes :
      (s : ToolSession) (w : World) (status : String) (payload : Fields)
      → (s.status == "active") ≡ true
      → (status == "active") ≡ false
      → P s w
      → P
          (record s { status = status })
          (logged a.env s.run_id "tool_session_completed" payload true w)

module _ (a : Adapter) {P : ToolSession → World → Type 0} (holds : Holds a P) where
  abbrev Kept {ℓ} : {A : Type ℓ} → SessionResult A → Type 0
  Kept (r, s, w) = P s w

  complete-Kept {ℓ} :
      {A : Type ℓ} (s : ToolSession) (status : String) (reason detail : Option String)
      (outcome : Result A) (w : World)
      → (status == "active") ≡ false
      → P s w
      → Kept (complete_session a s status reason detail outcome w)
  unfolding complete_session record_completed read_clock record_event append
  complete-Kept s status reason detail outcome w other h =
      elim (Bool-cases (s.status == "active")) [
        | inl e ↦ rw (e, complete_session) (holds.closes s _ status _ e other (holds.clock s w h))
        | inr e ↦ rw (e, complete_session) h
      ]

  module _ (tool_name : String) (args : Fields) (s : ToolSession) where
    perform-Kept :
        (w : World)
        → P s w
        → leb s.config.max_tool_rounds s.round_count ≡ false
        → Kept (perform a tool_name args s w)
    unfolding perform emitting record_event append
    perform-Kept w h free = holds.counts s _ tool_name _ free (
        holds.event s _ "tool_call_completed" _ refl (
          holds.tools (called tool_name args) s w _ (call_tool-Acts a s.node_id w tool_name args).0
            h))

    denied-Kept :
        (w : World) (reason : String) (e : Error)
        → P s w
        → Kept (denied_call a tool_name args s reason e w)
    unfolding denied_call emitting record_event append
    denied-Kept w reason e h =
        complete-Kept s "denied" _ _ _ _ refl (holds.event s w "tool_call_denied" _ refl h)

    decide-Kept :
        (w : World)
        → P s w
        → leb s.config.max_tool_rounds s.round_count ≡ false
        → Kept (decide_call a tool_name args s w)
    unfolding decide_call emitting record_event append
    decide-Kept w h free = elim (Bool-cases (contains forbidden_tools tool_name)) [
      | inl e ↦ rw (e, decide_call) (denied-Kept w "illegal_tool" _ h)
      | inr e ↦ elim (Bool-cases (known_tool tool_name)) [
        | inr k ↦ rw (e, k, decide_call) (denied-Kept w "unknown_tool" _ h)
        | inl k ↦
            rw (e, k, decide_call)
              (perform-Kept _ (holds.event s w "tool_call_allowed" _ refl h) free)
      ]
    ]

    limited-Kept : (now : ℕ) (w : World) → P s w → Kept (limited_call a tool_name args now s w)
    unfolding limited_call emitting record_event append
    limited-Kept now w h =
        elim (Bool-cases (ltb (1000 * s.config.session_timeout_seconds) (now - s.started_at))) [
          | inl late ↦ rw (late, limited_call) (complete-Kept s "timeout" _ _ _ w refl h)
          | inr early ↦ elim (Bool-cases (leb s.config.max_tool_rounds s.round_count)) [
            | inl full ↦
                rw (early, full, limited_call)
                  (complete-Kept s "max_rounds_exceeded" _ _ _ w refl h)
            | inr free ↦
                rw (early, free, limited_call)
                  (decide-Kept _ (holds.event s w "tool_call_requested" _ refl h) free)
          ]
        ]

  step-Kept :
      (op : SessionOp) (s : ToolSession) (w : World)
      → Closes op
      → P s w
      → P (step a op (s, w)).0 (step a op (s, w)).1
  unfolding step call_tool_in_session complete_tool_session
  step-Kept (call tool_name args) s w closes h =
      limited-Kept tool_name args s (a.host.time w.ticks) _ (holds.clock s w h)
  step-Kept (complete outcome) s w closes h = complete-Kept s outcome none none _ w closes h

  pub run-Kept :
      (ops : List SessionOp) (s : ToolSession) (w : World)
      → All Closes ops
      → P s w
      → P (run_session a ops (s, w)).0 (run_session a ops (s, w)).1
  unfolding run_session
  run-Kept [] s w closes h = h
  run-Kept (op ∷ ops) s w closes h =
      run-Kept ops (step a op (s, w)).0 (step a op (s, w)).1 closes.1 (step-Kept op s w closes.0 h)

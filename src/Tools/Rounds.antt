-- ===== src/Tools/Rounds.antt =====
-- squad_runtime/tool_adapter.py: the limits of a session, and what it leaves alone.
use mathlib.Core.Bool.{false≢true}
use mathlib.Core.Path.{subst}
use native.Mathlib.Nat.{add-zero}
use squad_team.Prelude.{
  ℕ, ◌+◌, ◌≤◌, String, ◌≡◌, refl, sym, ap, ◌∙◌, inl, inr, Bool, true, false, Bool-cases,
  Option-cases, find, List, [], ◌∷◌, ◌++◌, ◌==◌, contains, eq_iff, if◌then◌else◌, length,
  length-append, select, select-append, All, arith,
}
use squad_team.World.{World, EventRow, Error, Result, ok, raised}
use squad_team.Events.{new_row, logged, append}
use squad_team.Nodes.Keeps.{IsConsistent, Kept-IsConsistent}
use squad_team.Snapshots.{sealed}
use squad_team.Tools.{Adapter}
use squad_team.Tools.Sessions.{
  ToolSessionConfig, ToolSession, SessionOp, read_clock, start_tool_session, run_session,
}
use squad_team.Nodes.{has_id, get_node}
use squad_team.Facade.{record_event}
use squad_team.Tools.Trace.{
  ToolCall, tool_events, Change, log, seal, write, execute, Trace, here, next,
}
use squad_team.Tools.Guards.{ok_injective}
use squad_team.Tools.Steps.{call_events, Closes, Holds, run-Kept}

-- A property of the state that every change by a tool keeps is kept by every chain of changes.
Trace-keeps :
    (a : Adapter) (node_id : String) {tc : ToolCall} (P : World → Type 0) (w v : World)
    → ((u t : World) → Change a node_id tc u t → P u → P t)
    → Trace a node_id tc w v
    → P w
    → P v
Trace-keeps a node_id P w v keeps here h = h
Trace-keeps a node_id P w v keeps (next {v = u} t c) h =
    keeps u v c (Trace-keeps a node_id P w u keeps t h)

-- An event of a type in the list is none of a type outside of it.
other_type :
    (types : List String) (event_type name : String)
    → contains types event_type ≡ true
    → contains types name ≡ false
    → (event_type == name) ≡ false
other_type types event_type name hit miss = elim (Bool-cases (event_type == name)) [
  | inr e ↦ e
  | inl e ↦
      absurd
        (false≢true (sym miss ∙ ap (contains types) (sym ((eq_iff event_type name).0 e)) ∙ hit))
]

-- The number of sessions that are completed.
abbrev pub is_completion : EventRow → Bool
is_completion r = r.type == "tool_session_completed"

abbrev pub completions : World → ℕ
completions w = length (select is_completion w.events)

abbrev pub active : ToolSession → ℕ
active s = if s.status == "active" then 1 else 0

pub raised_not_ok {ℓ} : {A : Type ℓ} (e : Error) (x : A) → ◌≡◌ {A = Result A} (raised e) (ok x) → ⊥
raised_not_ok e x h = cc

module _ (a : Adapter) where
  keep-IsConsistent :
      (node_id : String) {tc : ToolCall} (u t : World)
      → Change a node_id tc u t
      → IsConsistent u
      → IsConsistent t
  unfolding sealed
  keep-IsConsistent node_id u t (log run_id event_type payload tool) h =
      (Kept-IsConsistent a.env).quiet run_id event_type payload false u
        (other_type tool_events event_type "node_created" tool refl)
        (other_type tool_events event_type "node_status_changed" tool refl) h
  keep-IsConsistent node_id u t (seal copies) h = record {
    audited = record { at = h.audited.at };
    counted = h.counted;
    legal = h.legal;
  }
  keep-IsConsistent node_id u t (write rel content writable) h = record {
    audited = record { at = h.audited.at };
    counted = h.counted;
    legal = h.legal;
  }
  keep-IsConsistent node_id u t (execute command registered) h = record {
    audited = record { at = h.audited.at };
    counted = h.counted;
    legal = h.legal;
  }

  -- Whatever the holder of a session does with it, short of completing it with the status "active",
  -- the event log still replays to the node statuses,
  -- run versions still count the logged changes, and every status is still reachable from TODO.
  pub session-IsConsistent :
      (ops : List SessionOp) (s : ToolSession) (w : World)
      → All Closes ops
      → IsConsistent w
      → IsConsistent (run_session a ops (s, w)).1
  session-IsConsistent = run-Kept a {P = λ s w. IsConsistent w} (record {
    tools =
        λ tc s w v t h. Trace-keeps a s.node_id IsConsistent w v (keep-IsConsistent s.node_id) t h;
    clock = λ s w h. record {
      audited = record { at = h.audited.at };
      counted = h.counted;
      legal = h.legal;
    };
    event = λ s w event_type payload call h.
        (Kept-IsConsistent a.env).quiet s.run_id event_type payload true w
          (other_type call_events event_type "node_created" call refl)
          (other_type call_events event_type "node_status_changed" call refl) h;
    counts = λ s w tool_name status free h. h;
    closes = λ s w status payload live other h.
        (Kept-IsConsistent a.env).quiet s.run_id "tool_session_completed" payload true w refl refl
          h;
  })

  length_one :
      (n : ℕ) (p : EventRow → Bool) (rows : List EventRow) (r : EventRow)
      → length (select p rows) ≡ n
      → length (select p (rows ++ r ∷ [])) ≡ n + (if p r then 1 else 0)
  length_one n p rows r h =
      rw (select-append p rows, length-append (select p rows)) (ground (arith, h))

  same_completions :
      (node_id : String) {tc : ToolCall} (u t : World)
      → Change a node_id tc u t
      → completions t ≡ completions u
  unfolding sealed logged new_row
  same_completions node_id u t (log run_id event_type payload tool) =
      length_one _ is_completion u.events _ refl
      ∙ rw (other_type tool_events event_type "tool_session_completed" tool refl) (add-zero _)
  same_completions node_id u t (seal copies) = refl
  same_completions node_id u t (write rel content writable) = refl
  same_completions node_id u t (execute command registered) = refl

  -- The limits that a session keeps, of at most `m` rounds: `n` counts the completed sessions
  -- of the log, and this one if it is still active.
  pub record IsWithin (m n : ℕ) (s : ToolSession) (w : World) : Type 0 where
    pub tallied : length s.calls ≡ s.round_count
    pub limited : s.config.max_tool_rounds ≡ m
    pub bounded : s.round_count ≤ s.config.max_tool_rounds
    pub balanced : completions w + active s ≡ n

  Holds-IsWithin : (m n : ℕ) → Holds a (IsWithin m n)
  unfolding logged new_row
  Holds-IsWithin m n = record {
    tools = λ tc s w v t h. record {
      tallied = h.tallied;
      limited = h.limited;
      bounded = h.bounded;
      balanced =
          ap (λ k. k + active s)
            (Trace-keeps a s.node_id (λ u. completions u ≡ completions w) w v
              (λ u x c e. same_completions s.node_id u x c ∙ e) t refl)
          ∙ h.balanced;
    };
    clock = λ s w h. record {
      tallied = h.tallied;
      limited = h.limited;
      bounded = h.bounded;
      balanced = h.balanced;
    };
    event = λ s w event_type payload call h. record {
      tallied = h.tallied;
      limited = h.limited;
      bounded = h.bounded;
      balanced =
          ap (λ k. k + active s)
            (length_one _ is_completion w.events _ refl
              ∙ rw (other_type call_events event_type "tool_session_completed" call refl)
                  (add-zero _))
          ∙ h.balanced;
    };
    counts = λ s w tool_name status free h. record {
      tallied = length-append s.calls _ ∙ ap (λ k. k + 1) h.tallied;
      limited = h.limited;
      bounded = ground (arith, free);
      balanced = h.balanced;
    };
    closes = λ s w status payload live other h. record {
      tallied = h.tallied;
      limited = h.limited;
      bounded = h.bounded;
      balanced = rw other (
          ap (λ k. k + 0) (length_one _ is_completion w.events _ refl)
          ∙ add-zero _
          ∙ (rw live at h.balanced));
    };
  }

  started :
      (node_id : String) (config : ToolSessionConfig) (w : World) (s : ToolSession) (v : World)
      → start_tool_session a node_id config w ≡ (ok s, v)
      → IsWithin config.max_tool_rounds (completions v + 1) s v
  unfolding start_tool_session get_node read_clock record_event append
  started node_id config w s v ran = elim (Option-cases (find (has_id node_id) w.nodes)) [
    | inl e ↦ absurd (raised_not_ok _ _ (ap (λ p. p.0) (rw (e, start_tool_session) at ran)))
    | inr (node, e) ↦
        subst (λ x. IsWithin config.max_tool_rounds (completions v + 1) x v)
          (ok_injective _ _ (ap (λ p. p.0) (rw (e, start_tool_session) at ran)))
          (record { tallied = refl; limited = refl; bounded = omega arith; balanced = refl })
  ]

  -- Whatever the holder of a started session does with it, short of completing it with the status
  -- "active", its rounds stay within the limit of its
  -- configuration, it lists as many calls as it counts rounds, and the log holds one
  -- tool_session_completed event more than at the start exactly if the session is no longer active.
  pub session-IsWithin :
      (node_id : String) (config : ToolSessionConfig) (w : World) (s : ToolSession) (v : World)
      → start_tool_session a node_id config w ≡ (ok s, v)
      → (ops : List SessionOp) → All Closes ops
      → IsWithin config.max_tool_rounds
          (completions v + 1)
          (run_session a ops (s, v)).0
          (run_session a ops (s, v)).1
  session-IsWithin node_id config w s v ran ops closes =
      run-Kept a (Holds-IsWithin config.max_tool_rounds (completions v + 1)) ops s v closes
        (started node_id config w s v ran)

-- ===== src/Tools/Guards.antt =====
-- squad_runtime/tool_adapter.py: the checks that the tools begin with, and how checks and parts of
-- tools compose.
use mathlib.Core.Bool.{false≢true}
use mathlib.Core.Path.{subst}
use mathlib.Core.Option.{some-injective}
use squad_team.Prelude.{
  String, ◌≡◌, refl, sym, ap, ◌∙◌, inl, inr, Bool, true, false, ◌||◌, Option, none, some,
  Option-cases, ◌==◌, contains, find, is_empty, arith, not, ◌&&◌, if◌then◌else◌,
}
use squad_team.Models.{TaskNode}
use squad_team.World.{World, Error, Result, ok, raised, Result-cases, Exec, ◌>>=◌}
use squad_team.Events.{append}
use squad_team.Facade.{record_event}
use squad_team.Nodes.{has_id, get_node}
use squad_team.AgentRegistry.{AgentProfile, has_agent_id, get_agent}
use squad_team.Workspace.{validate_path_within_root}
use squad_team.Tools.{matches_any, is_forbidden_relative, tool_config, Adapter, patterns_for}
use squad_team.Tools.Calls.{bound}
use squad_team.Tools.Permissions.{
  deny, profile_of, require_tool, authorize_relative, authorize_resolved, authorize_path,
  require_matching_base_snapshot,
}
use squad_team.Tools.Trace.{
  ToolCall, is_denial, IsAuthorized, here, next, log, Trace-append, Refused, Guards, Runs, Acts,
}

one_of : (b c : Bool) → (not b && not c) ≡ false → (b || c) ≡ true
one_of b c h = ground arith

of_not : (b : Bool) → not b ≡ false → b ≡ true
of_not b h = ground arith

pub ok_injective {ℓ} : {A : Type ℓ} (x y : A) → ok x ≡ ok y → x ≡ y
ok_injective x y h = cc

raised_injective {ℓ} : {A : Type ℓ} (e d : Error) → ◌≡◌ {A = Result A} (raised e) (raised d) → e ≡ d
raised_injective e d h = cc

module _ (a : Adapter) (node_id : String) (w : World) {tc : ToolCall} where
  -- A check that refuses ends the tool.
  pub act_of_refusal {ℓ} :
      {A : Type ℓ} (e : Error) (v : World)
      → Refused a node_id w e v
      → Acts a node_id tc {A = A} w (raised e, v)
  act_of_refusal e v (inl (calm, same)) = rw same (
    here,
    λ d h denial'. absurd (false≢true (sym calm ∙ ap is_denial (raised_injective e d h) ∙ denial')),
  )
  act_of_refusal e v (inr (node, tool_name, path, reason, failure_class, found, shown, left)) = (
    rw left (next here (log node.run_id "tool_permission_denied" _ refl)),
    λ d h denial'. (
      node,
      tool_name,
      path,
      reason,
      failure_class,
      found,
      sym (raised_injective e d h) ∙ shown,
      left,
    ),
  )

module _ (a : Adapter) (node_id : String) {A B : Type 0} (m : Exec A) (f : A → Exec B)
    (w : World) where
  -- A check, and another one.
  pub Guards-then {κ λ'} :
      (Q : A → Type κ) (R : B → Type λ')
      → Guards a node_id w Q (m w)
      → ((x : A) → Q x → Guards a node_id w R (f x w))
      → Guards a node_id w R ((m >>= f) w)
  Guards-then Q R (inl (x, e, q)) k = rw e (k x q)
  Guards-then Q R (inr (err, v, e, refused)) k = rw e (inr (err, v, refl, refused))

module _ (a : Adapter) (node_id : String) {A B : Type 0} (m : Exec A) (f : A → Exec B) (w : World)
    {tc : ToolCall} where
  -- A check, and a tool.
  pub Acts-then {κ} :
      (Q : A → Type κ)
      → Guards a node_id w Q (m w)
      → ((x : A) → Q x → Acts a node_id tc w (f x w))
      → Acts a node_id tc w ((m >>= f) w)
  Acts-then Q (inl (x, e, q)) k = rw e (k x q)
  Acts-then Q (inr (err, v, e, refused)) k = rw e (act_of_refusal a node_id w err v refused)

  pub Runs-then :
      Runs a node_id tc w (m w)
      → ((x : A) (v : World) → Runs a node_id tc v (f x v))
      → Runs a node_id tc w ((m >>= f) w)
  Runs-then r k = elim (Result-cases (m w).0) [
    | inl (x, e) ↦ rw e (Trace-append a node_id tc r.0 (k x (m w).1).0, (k x (m w).1).1)
    | inr (err, e) ↦ rw e (r.0, rw e at r.1)
  ]

module _ (a : Adapter) (node_id : String) (w : World) where
  -- A denial, wherever it stands.
  pub deny-Guards {κ} :
      {A : Type 0} (Q : A → Type κ) (tool_name path reason failure_class : String)
      → Guards a node_id w Q (deny a node_id tool_name path reason failure_class w)
  unfolding deny get_node record_event append
  deny-Guards Q tool_name path reason failure_class =
      elim (Option-cases (find (has_id node_id) w.nodes)) [
        | inl e ↦ rw (e, deny) (inr (_, _, refl, inl (refl, refl)))
        | inr (node, e) ↦
            rw (e, deny)
              (inr
                (_, _, refl, inr (node, tool_name, path, reason, failure_class, refl, refl, refl)))
      ]

  pub bound-Guards :
      {A : Type 0} (tool_name : String) (v : Option A)
      → Guards a node_id w (λ x. v ≡ some x) (bound tool_name v w)
  unfolding bound
  bound-Guards tool_name none = inr (_, _, refl, inl (refl, refl))
  bound-Guards tool_name (some x) = inl (x, refl, refl)

  pub get_node-Guards :
      Guards a node_id w (λ node. find (has_id node_id) w.nodes ≡ some node) (get_node node_id w)
  unfolding get_node
  get_node-Guards = elim (Option-cases (find (has_id node_id) w.nodes)) [
    | inl e ↦ rw e (inr (_, _, refl, inl (refl, refl)))
    | inr (node, e) ↦ rw e (inl (node, refl, refl))
  ]

  pub profile_of-Guards :
      (node : TaskNode)
      → Guards a node_id w
          (λ p. get_agent a.registry node.owner_agent_id ≡ ok p)
          (profile_of a node w)
  unfolding profile_of get_agent
  profile_of-Guards node =
      elim (Option-cases (find (has_agent_id node.owner_agent_id) a.registry.agents)) [
        | inl e ↦ rw e (inr (_, _, refl, inl (refl, refl)))
        | inr (p, e) ↦ rw e (inl (p, refl, refl))
      ]

  -- `if p then deny … else …`, as a check.
  pub denied-Guards {κ} :
      {A : Type 0} (Q : A → Type κ) (refuses : Bool) (tool_name path reason failure_class : String)
      (m : Exec A)
      → (refuses ≡ false → Guards a node_id w Q (m w))
      → Guards a node_id w Q
          ((if refuses then deny a node_id tool_name path reason failure_class else m) w)
  denied-Guards Q true tool_name path reason failure_class m passes =
      deny-Guards Q tool_name path reason failure_class
  denied-Guards Q false tool_name path reason failure_class m passes = passes refl

  pub require_tool-Guards :
      (tool_name capability : String) (node : TaskNode)
      → find (has_id node_id) w.nodes ≡ some node
      → Guards a node_id w
          (λ _.
            (p : AgentProfile) × (get_agent a.registry node.owner_agent_id ≡ ok p)
            × ((contains p.allowed_tools capability || contains p.allowed_tools tool_name) ≡ true))
          (require_tool a node_id tool_name capability w)
  unfolding require_tool
  require_tool-Guards tool_name capability node found =
      Guards-then a node_id (get_node node_id) _ w _ _ get_node-Guards λ n found'.
        Guards-then a node_id (profile_of a n) _ w _ _ (profile_of-Guards n) λ p known.
          denied-Guards _ (tool_config tool_name).internal_only _ _ _ _ _ λ public.
            denied-Guards _
              (not (contains p.allowed_tools capability)
                && not (contains p.allowed_tools tool_name))
              _ _ _ _ _
              λ granted. inl (
                tt,
                refl,
                (
                  p,
                  subst (λ x. get_agent a.registry x.owner_agent_id ≡ ok p)
                      (some-injective _ _ (sym found' ∙ found)) known,
                  one_of (contains p.allowed_tools capability) (contains p.allowed_tools tool_name)
                      granted,
                ),
              )

  module _ (tool_name capability path : String) where
    authorize_relative-Guards :
        (node : TaskNode) (rel : String)
        → find (has_id node_id) w.nodes ≡ some node
        → validate_path_within_root a.host path ≡ some rel
        → (p : AgentProfile) → get_agent a.registry node.owner_agent_id ≡ ok p
        → (contains p.allowed_tools capability || contains p.allowed_tools tool_name) ≡ true
        → Guards a node_id w
            (IsAuthorized a node_id tool_name capability path w)
            (authorize_relative a node_id tool_name capability node rel w)
    unfolding authorize_relative
    authorize_relative-Guards node rel found inside p known granted =
        denied-Guards _ (is_forbidden_relative rel) _ _ _ _ _ λ outside.
          Guards-then a node_id (profile_of a node) _ w _ _ (profile_of-Guards node) λ q known'.
            denied-Guards _
              (not (is_empty (patterns_for capability q))
                && not (matches_any rel (patterns_for capability q)))
              _ _ _ _ _
              λ patterned. inl (
                (node, rel),
                refl,
                record {
                  found = found;
                  profile = q;
                  known = known';
                  granted =
                      subst
                        (λ v.
                          (contains v.allowed_tools capability
                            || contains v.allowed_tools tool_name)
                          ≡ true)
                        (ok_injective _ _ (sym known ∙ known')) granted;
                  inside = inside;
                  outside_squad = outside;
                  patterned =
                      one_of (is_empty (patterns_for capability q))
                        (matches_any rel (patterns_for capability q)) patterned;
                },
              )

    authorize_resolved-Guards :
        (node : TaskNode) (resolved : Option String)
        → find (has_id node_id) w.nodes ≡ some node
        → validate_path_within_root a.host path ≡ resolved
        → (p : AgentProfile) → get_agent a.registry node.owner_agent_id ≡ ok p
        → (contains p.allowed_tools capability || contains p.allowed_tools tool_name) ≡ true
        → Guards a node_id w
            (IsAuthorized a node_id tool_name capability path w)
            (authorize_resolved a node_id tool_name path capability node resolved w)
    unfolding authorize_resolved
    authorize_resolved-Guards node none found inside p known granted = deny-Guards _ _ _ _ _
    authorize_resolved-Guards node (some rel) found inside p known granted =
        authorize_relative-Guards node rel found inside p known granted

    -- A path that is authorized fulfils every condition of `_authorize_path`.
    pub authorize_path-Guards :
        Guards a node_id w
          (IsAuthorized a node_id tool_name capability path w)
          (authorize_path a node_id tool_name path capability w)
    unfolding authorize_path
    authorize_path-Guards =
        Guards-then a node_id (get_node node_id) _ w _ _ get_node-Guards λ node found.
          Guards-then a node_id (require_tool a node_id tool_name capability) _ w _ _
            (require_tool-Guards tool_name capability node found)
            λ _ (p, known, granted). authorize_resolved-Guards node _ found refl p known granted

  pub base-Guards :
      (base_snapshot_id : String) (node : TaskNode)
      → find (has_id node_id) w.nodes ≡ some node
      → Guards a node_id w
          (λ _. (base_snapshot_id == node.checkpoint_id) ≡ true)
          (require_matching_base_snapshot a node_id base_snapshot_id w)
  unfolding require_matching_base_snapshot
  base-Guards base_snapshot_id node found =
      Guards-then a node_id (get_node node_id) _ w _ _ get_node-Guards λ n found'.
        denied-Guards _ (not (base_snapshot_id == n.checkpoint_id)) _ _ _ _ _ λ based. inl (
          tt,
          refl,
          subst (λ x. (base_snapshot_id == x.checkpoint_id) ≡ true)
              (some-injective _ _ (sym found' ∙ found)) (of_not _ based),
        )

-- ===== src/Context.antt =====
-- squad_runtime/context.py: what a dispatched agent is told of its run.
mod Tests
use squad_team.Prelude.{
  ℕ, ◌+◌, String, ◌≡◌, refl, inl, inr, Bool, true, false, Bool-cases, ap, ◌∙◌, ◌||◌, eq_comm,
  Option, none, some, List, [], ◌∷◌, ◌==◌, not, contains, find, length, select, map, if◌then◌else◌,
  All, arith,
}
use squad_team.Json.{Fields}
use squad_team.Models.{TaskNode, ArtifactRef, Risk, NextAction, SquadEvent}
use squad_team.World.{World, AgentResultRow, Result, ok, raised, Exec, gets, ◌>>=◌}
use squad_team.Events.{query}
use squad_team.Nodes.{has_id, get_node}
use squad_team.Results.{list_agent_results}
use squad_team.AgentRegistry.{AgentProfile, AgentRegistry, get_agent}

-- An entry of `dependency_summaries`, and one of `runtime_facts`.
pub record DependencySummary : Type 0 where
  pub agent_id : String
  pub task_node_id : String
  pub status : String
  pub output_summary : String
  pub artifacts : List ArtifactRef
  pub risks : List Risk
  pub next_actions : List NextAction

pub record RuntimeFact : Type 0 where
  pub type : String
  pub payload : Fields

pub record AgentContextBundle : Type 0 where
  pub agent_id : String
  pub role : String
  pub profile_version : String
  pub task_node_id : String
  pub task_goal : String
  pub checkpoint_id : String
  pub base_snapshot_id : String
  pub result_snapshot_id : Option String
  pub output_contract : String
  pub allowed_tools : List String
  pub allowed_read_paths : List String
  pub allowed_write_paths : List String
  pub forbidden_paths : List String
  pub dependency_summaries : List DependencySummary
  pub runtime_facts : List RuntimeFact
  pub memory_policy : String

abbrev pub runtime_fact_event_types : List String
runtime_fact_event_types =
    "agent_message" ∷ "agent_operation" ∷ "artifact_produced" ∷ "coverage_lane_update" ∷ "data_flow"
    ∷ "mvp_file_change" ∷ "skill_usage" ∷ "verification_result" ∷ []

abbrev pub summary_of : AgentResultRow → DependencySummary
summary_of r = record {
  agent_id = r.agent_id;
  task_node_id = r.task_node_id;
  status = r.status;
  output_summary = r.summary;
  artifacts = r.artifacts;
  risks = r.risks;
  next_actions = r.next_actions;
}

-- The loop over the results, which passes over those of the node itself.
unfoldable pub summaries : String → List AgentResultRow → List DependencySummary
summaries node_id [] = []
summaries node_id (r ∷ results) =
    let rest = summaries node_id results in
    if r.task_node_id == node_id then rest else summary_of r ∷ rest

unfoldable pub facts : List SquadEvent → List RuntimeFact
facts [] = []
facts (e ∷ events) =
    let rest = facts events in
    if contains runtime_fact_event_types e.type
    then record { type = e.type; payload = e.payload } ∷ rest
    else rest

abbrev pub bundle_of : TaskNode → AgentProfile → World → AgentContextBundle
unfolding summaries facts list_agent_results query
bundle_of node profile w = record {
  agent_id = profile.agent_id;
  role = profile.role;
  profile_version = profile.profile_version;
  task_node_id = node.id;
  task_goal = node.title;
  checkpoint_id = node.checkpoint_id;
  base_snapshot_id = node.checkpoint_id;
  result_snapshot_id = none;
  output_contract = "AgentResult";
  allowed_tools = profile.allowed_tools;
  allowed_read_paths = profile.allowed_read_paths;
  allowed_write_paths = profile.allowed_write_paths;
  forbidden_paths = profile.forbidden_paths;
  dependency_summaries = summaries node.id (list_agent_results node.run_id w);
  runtime_facts = facts (query node.run_id none 100000 w.events).events;
  memory_policy = "dispatch_isolated";
}

unfoldable pub build : AgentRegistry → String → Exec AgentContextBundle
unfolding get_node get_agent bundle_of
build registry node_id = do
  node ← get_node node_id
  profile ← (λ w. (get_agent registry node.owner_agent_id, w))
  gets (bundle_of node profile)

-- What a bundle says of a result, and of an event.
pub told : AgentResultRow → DependencySummary
told r = record {
  agent_id = r.agent_id;
  task_node_id = r.task_node_id;
  status = r.status;
  output_summary = r.summary;
  artifacts = r.artifacts;
  risks = r.risks;
  next_actions = r.next_actions;
}

pub is_shown : SquadEvent → Bool
is_shown e =
    e.type == "agent_message"
    || e.type == "agent_operation"
    || e.type == "artifact_produced"
    || e.type == "coverage_lane_update"
    || e.type == "data_flow"
    || e.type == "mvp_file_change"
    || e.type == "skill_usage"
    || e.type == "verification_result"

pub fact_shown : SquadEvent → RuntimeFact
fact_shown e = record { type = e.type; payload = e.payload }

-- The bundle is one of the node, for the agent.
pub record IsFor (node : TaskNode) (profile : AgentProfile) (b : AgentContextBundle) : Type 0 where
  pub agent_id : b.agent_id ≡ profile.agent_id
  pub role : b.role ≡ profile.role
  pub profile_version : b.profile_version ≡ profile.profile_version
  pub task_node_id : b.task_node_id ≡ node.id
  pub task_goal : b.task_goal ≡ node.title
  pub checkpoint_id : b.checkpoint_id ≡ node.checkpoint_id
  pub base_snapshot_id : b.base_snapshot_id ≡ node.checkpoint_id
  pub allowed_tools : b.allowed_tools ≡ profile.allowed_tools
  pub allowed_read_paths : b.allowed_read_paths ≡ profile.allowed_read_paths
  pub allowed_write_paths : b.allowed_write_paths ≡ profile.allowed_write_paths
  pub forbidden_paths : b.forbidden_paths ≡ profile.forbidden_paths

summaries-told :
    (node_id : String) (rs : List AgentResultRow)
    → summaries node_id rs ≡ map told (select (λ r. not (r.task_node_id == node_id)) rs)
unfolding summaries told
summaries-told node_id [] = refl
summaries-told node_id (r ∷ rs) = elim (Bool-cases (r.task_node_id == node_id)) [
  | inl e ↦ rw (e, summaries) (summaries-told node_id rs)
  | inr e ↦ rw (e, summaries) (ap (λ ss. told r ∷ ss) (summaries-told node_id rs))
]

shown_types : (e : SquadEvent) → contains runtime_fact_event_types e.type ≡ is_shown e
unfolding is_shown
shown_types e = ground (arith, eq_comm e.type)

facts-shown : (es : List SquadEvent) → facts es ≡ map fact_shown (select is_shown es)
unfolding facts fact_shown
facts-shown [] = refl
facts-shown (e ∷ es) = elim (Bool-cases (is_shown e)) [
  | inl h ↦ rw (h, facts, shown_types e ∙ h) (ap (λ fs. fact_shown e ∷ fs) (facts-shown es))
  | inr h ↦ rw (h, facts, shown_types e ∙ h) (facts-shown es)
]

-- For a known node with a known agent, a bundle is built and nothing changes: it names the agent, the
-- task, the node's checkpoint and what the agent may use; it tells, in their order, of the results of
-- the run that are not the node's own, each with its agent, node, status, summary, artifacts, risks
-- and next actions, and of the events of the run that are of one of eight types, up to the limit of
-- the query, each with its type and payload.
pub build-isolated :
    (registry : AgentRegistry) (w : World) (node : TaskNode) (profile : AgentProfile)
    → find (has_id node.id) w.nodes ≡ some node
    → get_agent registry node.owner_agent_id ≡ ok profile
    → (b : AgentContextBundle) × (build registry node.id w ≡ (ok b, w))
      × IsFor node profile b
      × (b.dependency_summaries
          ≡ map told
              (select (λ r. not (r.task_node_id == node.id)) (list_agent_results node.run_id w)))
      × (b.runtime_facts
          ≡ map fact_shown (select is_shown (query node.run_id none 100000 w.events).events))
unfolding build get_node
build-isolated registry w node profile found known =
    rw (found, build)
      (rw known (
        bundle_of node profile w,
        refl,
        record {
          agent_id = refl;
          role = refl;
          profile_version = refl;
          task_node_id = refl;
          task_goal = refl;
          checkpoint_id = refl;
          base_snapshot_id = refl;
          allowed_tools = refl;
          allowed_read_paths = refl;
          allowed_write_paths = refl;
          forbidden_paths = refl;
        },
        summaries-told node.id (list_agent_results node.run_id w),
        facts-shown (query node.run_id none 100000 w.events).events,
      ))

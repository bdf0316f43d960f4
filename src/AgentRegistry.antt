-- ===== src/AgentRegistry.antt =====
-- squad_runtime/agent_registry.py: the profiles of the agents, by id.
use squad_team.Prelude.{
  String, Bool, true, false, Option, none, some, List, [], ◌∷◌, ◌==◌, find, or_else, is_truthy, map,
  if◌then◌else◌,
}
use squad_team.World.{Result}
use squad_team.Runs.{or_key_error}

pub record AgentProfile : Type 0 where
  pub agent_id : String
  pub display_name : String
  pub role : String
  pub profile_version : String
  pub provider : String
  pub output_contract : String
  pub allowed_tools : List String
  pub allowed_read_paths : List String
  pub allowed_write_paths : List String
  pub forbidden_paths : List String
  pub fallback_provider : Option String
  pub fallback_mode : String

pub record AgentRegistry : Type 0 where
  pub version : String
  pub agents : List AgentProfile

abbrev pub has_agent_id : String → AgentProfile → Bool
has_agent_id agent_id a = a.agent_id == agent_id

-- `{agent.agent_id: agent …}`: a later profile of the same id takes the place of the earlier one.
unfoldable pub put_agent : AgentProfile → List AgentProfile → List AgentProfile
put_agent a [] = a ∷ []
put_agent a (b ∷ agents) = if has_agent_id a.agent_id b then a ∷ agents else b ∷ put_agent a agents

put_agents : List AgentProfile → List AgentProfile → List AgentProfile
unfolding put_agent
put_agents table [] = table
put_agents table (a ∷ agents) = put_agents (put_agent a table) agents

unfoldable pub new_registry : String → List AgentProfile → AgentRegistry
unfolding put_agents
new_registry version agents = record { version = version; agents = put_agents [] agents }

unfoldable pub get_agent : AgentRegistry → String → Result AgentProfile
get_agent registry agent_id = or_key_error agent_id (find (has_agent_id agent_id) registry.agents)

unfoldable pub has_agent : AgentRegistry → String → Bool
has_agent registry agent_id = elim (find (has_agent_id agent_id) registry.agents) [
  | none ↦ false
  | some a ↦ true
]

-- `provider or agent.provider`, and the two fields that are replaced unless None.
abbrev pub override : Option String → Option String → Option String → AgentProfile → AgentProfile
override provider fallback_provider fallback_mode a = record a {
  provider = if is_truthy provider then or_else provider a.provider else a.provider;
  fallback_provider = elim fallback_provider [ none ↦ a.fallback_provider | some p ↦ some p ];
  fallback_mode = or_else fallback_mode a.fallback_mode;
}

unfoldable pub with_provider_override :
    AgentRegistry → String → Option String → Option String → Option String → AgentRegistry
unfolding new_registry
with_provider_override registry agent_id provider fallback_provider fallback_mode =
    new_registry registry.version (
      map
        (λ a.
          if has_agent_id agent_id a
          then override provider fallback_provider fallback_mode a
          else a)
        registry.agents)

abbrev pub everything : List String
everything = "**/*" ∷ []

abbrev pub safe_forbidden : List String
safe_forbidden = ".squad/*" ∷ ".squad/**" ∷ "**/.squad/*" ∷ "**/.squad/**" ∷ []

abbrev worker : String → String → String → List String → List String → AgentProfile
worker agent_id display_name role tools write_paths = record {
  agent_id = agent_id;
  display_name = display_name;
  role = role;
  profile_version = "profile-v1";
  provider = "claude_cli";
  output_contract = "AgentResult";
  allowed_tools = tools;
  allowed_read_paths = everything;
  allowed_write_paths = write_paths;
  forbidden_paths = safe_forbidden;
  fallback_provider = none;
  fallback_mode = "none";
}

abbrev docs_and_reports : List String
docs_and_reports = "reports/**" ∷ "project-docs/**" ∷ []

-- `AgentRegistry.default()`.
unfoldable pub default_registry : AgentRegistry
unfolding new_registry
default_registry = new_registry "registry-v1" (
    record (worker "squad-lead" "Squad Lead" "Product decisions and execution orchestration"
      ("read" ∷ "write" ∷ "log" ∷ "dispatch" ∷ []) ("project-docs/**" ∷ "reports/**" ∷ [])) {
        output_contract = "LeadDecisionChangeSet";
        fallback_provider = some "fake_cli";
        fallback_mode = "manual";
      }
    ∷ worker "rapid-prototyper" "Rapid Prototyper" "Prototype validation" ("read" ∷ "write" ∷ [])
        ("project-docs/**" ∷ "prototypes/**" ∷ [])
    ∷ worker "software-architect" "Software Architect" "Architecture and ADRs"
        ("read" ∷ "write" ∷ []) ("project-docs/**" ∷ "docs/**" ∷ [])
    ∷ worker "ui-designer" "UI Designer" "UX, visual design, accessibility specs"
        ("read" ∷ "write" ∷ []) ("project-docs/**" ∷ "docs/**" ∷ "styles.css" ∷ [])
    ∷ worker "backend-architect" "Backend Architect" "Backend implementation and data services"
        ("read" ∷ "write" ∷ "test" ∷ []) ("**/*.py" ∷ "**/*.json" ∷ "tests/**" ∷ [])
    ∷ worker "frontend-developer" "Frontend Developer" "Frontend implementation"
        ("read" ∷ "write" ∷ "test" ∷ [])
        ("**/*.html" ∷ "**/*.css" ∷ "**/*.js" ∷ "**/*.mjs" ∷ "tests/**" ∷ [])
    ∷ worker "test-engineer" "Test Engineer" "Testing, QA evidence, regression validation"
        ("read" ∷ "write" ∷ "test" ∷ "browser" ∷ [])
        ("tests/**" ∷ "project-docs/**" ∷ "reports/**" ∷ [])
    ∷ worker "code-reviewer" "Code Reviewer" "Code review and findings"
        ("read" ∷ "write" ∷ "test" ∷ []) docs_and_reports
    ∷ worker "reality-checker" "Reality Checker" "Release readiness and veto"
        ("read" ∷ "write" ∷ "test" ∷ []) docs_and_reports
    ∷ worker "git-workflow-master" "Git Workflow Master" "Release execution and archive"
        ("read" ∷ "write" ∷ "git" ∷ "archive" ∷ []) ("release/**" ∷ "reports/**" ∷ [])
    ∷ [])

-- ===== src/World.antt =====
-- The state that the services share: the tables of squad_runtime/infrastructure/migrations.py in
-- rowid order, the event table of squad_runtime/event_store.py with its NDJSON mirror, and how far
-- the supply of uuids and clock readings has been used. A method is an action on this state that
-- returns a value or raises; what it wrote before a raise stays written.
use squad_team.Prelude.{ℕ, String, ◌≡◌, refl, ◌⊎◌, inl, inr, Bool, Option, List, []}
use squad_team.State.{NodeStatus}
use squad_team.Json.{Fields}
use squad_team.Models.{SquadRun, TaskNode, Evidence, ArtifactRef, Risk, NextAction, Confidence}

-- A row of gate_states.
pub record GateState : Type 0 where
  pub run_id : String
  pub gate_name : String
  pub status : String
  pub blocked_reason_code : Option String
  pub reason : String

-- A row of agent_results; the JSON columns hold the lists that were dumped.
pub record AgentResultRow : Type 0 where
  pub id : String
  pub run_id : String
  pub task_node_id : String
  pub agent_id : String
  pub status : String
  pub summary : String
  pub evidence : List Evidence
  pub artifacts : List ArtifactRef
  pub risks : List Risk
  pub next_actions : List NextAction
  pub confidence : Confidence
  pub worked_against_checkpoint : String
  pub agent_contract_version : String
  pub provider_used : String
  pub provider_type : String
  pub provider_identity_verified : Bool
  pub provider_fallback_triggered : Bool
  pub fallback_reason : Option String
  pub synthetic : Bool

-- A row of evidence_items; `immutable` is 1 in every row.
pub record EvidenceItem : Type 0 where
  pub id : String
  pub run_id : String
  pub task_node_id : String
  pub source_type : String
  pub author_agent_id : String
  pub content : String

-- A row of artifacts.
pub record Artifact : Type 0 where
  pub id : String
  pub run_id : String
  pub task_node_id : String
  pub name : String
  pub path : String
  pub type : String
  pub author_agent_id : String

-- A row of review_findings.
pub record ReviewFinding : Type 0 where
  pub id : String
  pub run_id : String
  pub task_node_id : String
  pub author_agent_id : String
  pub severity : String
  pub description : String
  pub status : String
  pub superseded_by_id : Option String

-- A row of review_findings_history.
pub record FindingHistory : Type 0 where
  pub id : String
  pub finding_id : String
  pub action : String
  pub author_agent_id : String
  pub payload : Fields

-- A row of user_directives.
pub record Directive : Type 0 where
  pub id : String
  pub run_id : String
  pub source : String
  pub message : String

-- A row of squad_events, and a line of events.ndjson. The hash columns are NULL in rows that were
-- written before the columns existed.
pub record EventRow : Type 0 where
  pub id : String
  pub run_id : String
  pub sequence_number : ℕ
  pub type : String
  pub payload : Fields
  pub critical : Bool
  pub created_at : String
  pub previous_event_hash : Option String
  pub event_payload_hash : Option String
  pub event_hash : Option String

-- A sealed snapshot in the checkpoints directory: its manifest and the copies of the files.
pub record Checkpoint : Type 0 where
  pub snapshot_id : String
  pub manifest : Fields
  pub copies : List (String × String)

-- `files` are the regular text files under the workspace root outside the squad directory, by their
-- relative path.
pub record World : Type 0 where
  pub runs : List SquadRun
  pub nodes : List TaskNode
  pub gates : List GateState
  pub agent_results : List AgentResultRow
  pub evidence_items : List EvidenceItem
  pub artifacts : List Artifact
  pub findings : List ReviewFinding
  pub finding_history : List FindingHistory
  pub directives : List Directive
  pub events : List EventRow
  pub ndjson : List EventRow
  pub files : List (String × String)
  pub checkpoints : List Checkpoint
  pub ticks : ℕ

abbrev pub empty_world : World
empty_world = record {
  runs = [];
  nodes = [];
  gates = [];
  agent_results = [];
  evidence_items = [];
  artifacts = [];
  findings = [];
  finding_history = [];
  directives = [];
  events = [];
  ndjson = [];
  files = [];
  checkpoints = [];
  ticks = 0;
}

-- What the services raise, with the values that their messages show.
pub data Error : Type 0 where
  key_error : String → Error
  missing_blocked_reason : Error
  unknown_blocked_reason : String → Error
  transition_not_allowed : NodeStatus → NodeStatus → Error
  version_conflict : ℕ → ℕ → Error
  status_conflict : NodeStatus → NodeStatus → Error
  invalid_status_value : String → Error
  not_reviewer : Error
  missing_event_fields : String → List String → Error
  -- ToolPermissionError, with its failure class.
  tool_permission : String → String → Error
  unsafe_path : String → Error
  file_not_found : String → Error
  os_error : String → Error
  bad_arguments : String → Error
  subprocess_timeout : Error
  -- The TypeError and AttributeError of an operation on a value of the wrong kind.
  type_error : Error
  attribute_error : Error

pub data Result {ℓ} (A : Type ℓ) : Type ℓ where
  ok : A → Result A
  raised : Error → Result A

pub Result-cases {ℓ} :
    {A : Type ℓ} (r : Result A) → ((a : A) × (r ≡ ok a)) ⊎ ((e : Error) × (r ≡ raised e))
Result-cases (ok a) = inl (a, refl)
Result-cases (raised e) = inr (e, refl)

-- A chain of fallible steps.
infixl 5 ◌>>=?◌
abbrev pub ◌>>=?◌ {ℓ κ} : {A : Type ℓ} {B : Type κ} → Result A → (A → Result B) → Result B
ok a >>=? f = f a
raised e >>=? f = raised e

abbrev pub Exec {ℓ} : Type ℓ → Type ℓ
Exec A = World → Result A × World

module _ {ℓ} {A : Type ℓ} where
  abbrev pub pure : A → Exec A
  pure a w = (ok a, w)

  abbrev pub raise : Error → Exec A
  raise e w = (raised e, w)

  abbrev pub gets : (World → A) → Exec A
  gets f w = (ok (f w), w)

abbrev pub modify : (World → World) → Exec (Unit {0})
modify f w = (ok tt, f w)

module _ {ℓ κ} {A : Type ℓ} {B : Type κ} where
  abbrev pub and_then : Result A → (A → Exec B) → Exec B
  and_then (ok a) f w = f a w
  and_then (raised e) f w = (raised e, w)

  infixl 5 ◌>>=◌ ◌>>◌
  abbrev pub ◌>>=◌ : Exec A → (A → Exec B) → Exec B
  ◌>>=◌ m f w = let (r, w') = m w in and_then r f w'

  abbrev pub ◌>>◌ : Exec A → Exec B → Exec B
  ◌>>◌ m k = m >>= λ _. k

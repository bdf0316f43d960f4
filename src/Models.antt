-- ===== src/Models.antt =====
-- squad_runtime/models.py and the result types of squad_runtime/agent_contracts.py: the values that
-- the services hand to one another.
use squad_team.Prelude.{ℕ, String, Bool, Option, some, List, or_else}
use squad_team.State.{NodeStatus}
use squad_team.Json.{Fields}

pub record SquadRun : Type 0 where
  pub id : String
  pub goal : String
  pub status : String
  pub version : ℕ
  pub rule_version : String
  pub schema_version : String
  pub agent_contract_version : String

pub record TaskNode : Type 0 where
  pub id : String
  pub run_id : String
  pub title : String
  pub type : String
  pub owner_agent_id : String
  pub status : NodeStatus
  pub blocked_reason_code : Option String
  pub checkpoint_id : String
  pub replaced_by_node_id : Option String

pub record SquadEvent : Type 0 where
  pub id : String
  pub run_id : String
  pub sequence_number : ℕ
  pub type : String
  pub payload : Fields
  pub critical : Bool
  pub created_at : String

pub record EventPage : Type 0 where
  pub events : List SquadEvent
  pub next_cursor : Option ℕ

pub record GateDecision : Type 0 where
  pub gate_name : String
  pub status : String
  pub reason : String
  pub blocking : Bool
  pub blocked_reason_code : Option String
  pub details : Option Fields

-- A confidence: a float between 0 and 1 is counted in millionths. `below n` is a negative number,
-- and `nan` fails every comparison.
pub data Confidence : Type 0 where
  micros : ℕ → Confidence
  below : ℕ → Confidence
  nan : Confidence

-- `Evidence` and `ArtifactRef`; the keys that the code reads by `.get` with a default are optional.
pub record Evidence : Type 0 where
  pub type : Option String
  pub content : Option String

pub record ArtifactRef : Type 0 where
  pub name : Option String
  pub path : String
  pub type : Option String

pub record Risk : Type 0 where
  pub level : String
  pub description : String

pub record NextAction : Type 0 where
  pub action : String
  pub reason : String

pub record AgentResult : Type 0 where
  pub task_node_id : String
  pub agent_id : String
  pub status : String
  pub summary : String
  pub evidence : List Evidence
  pub artifacts : List ArtifactRef
  pub risks : List Risk
  pub next_actions : List NextAction
  pub confidence : Confidence
  pub worked_against_checkpoint : String
  pub agent_contract_version : String
  pub schema_version : String
  pub base_snapshot_id : Option String
  pub result_snapshot_id : Option String

-- `__post_init__`: a result without a base snapshot is based on the checkpoint it worked against.
unfoldable pub with_base_snapshot : AgentResult → AgentResult
with_base_snapshot r = record r {
  base_snapshot_id = some (or_else r.base_snapshot_id r.worked_against_checkpoint);
}

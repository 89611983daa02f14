-- ===== src/Recovery/Models.antt =====
-- The records of recovery/models.py, and a row of the table of checkpoints.
use contract_evidence_os.Prelude.{ℕ, String, Bool, Option, List}
use contract_evidence_os.Base.Exec.{Datetime}
use contract_evidence_os.Base.Json.{Members}

-- The dict `metadata`, with the keys that the code gives it.
pub record CheckpointMetadata : Type 0 where
  pub keys : List String
  pub sequence : Option ℕ

pub record CheckpointRecord : Type 0 where
  pub version : String
  pub checkpoint_id : String
  pub task_id : String
  pub plan_node_id : String
  pub state_ref : String
  pub created_at : Datetime
  pub metadata : CheckpointMetadata

-- A row: the record of `payload_json`, and the columns `sequence` and `state_json`.
pub record CheckpointRow : Type 0 where
  pub saved : CheckpointRecord
  pub sequence : ℕ
  pub state : Members

pub record IncidentReport : Type 0 where
  pub version : String
  pub incident_id : String
  pub task_id : String
  pub incident_type : String
  pub severity : String
  pub summary : String
  pub recovery_attempted : Bool
  pub resolution : String
  pub created_at : Datetime

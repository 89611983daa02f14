-- ===== src/Queue/Models.antt =====
-- The records of runtime/queueing.py, and those of runtime/backends.py that its queue backend returns.
use contract_evidence_os.Prelude.{ℕ, String, Bool, Option, List}
use contract_evidence_os.Prelude.Int.{ℤ}
use contract_evidence_os.Base.Float.{Float}
use contract_evidence_os.Base.Json.{Json, Members}
use contract_evidence_os.Base.Exec.{Datetime}

pub record QueueItem : Type 0 where
  pub version : String
  pub queue_item_id : String
  pub task_id : String
  pub contract_id : String
  pub queue_name : String
  pub priority_class : String
  pub risk_level : String
  pub status : String
  pub attempt_count : ℕ
  pub max_attempts : ℕ
  pub recovery_required : Bool
  pub resume_task : Bool
  pub continuity_fragility : Float
  pub operator_priority : ℤ
  pub lease_id : String
  pub available_at : Datetime
  pub dead_letter_reason : String
  pub payload : Json
  pub created_at : Datetime
  pub updated_at : Datetime

pub record QueueLease : Type 0 where
  pub version : String
  pub lease_id : String
  pub queue_item_id : String
  pub task_id : String
  pub worker_id : String
  pub status : String
  pub acquired_at : Datetime
  pub expires_at : Datetime
  pub fencing_token : String
  pub lease_epoch : ℕ
  pub owner_session_id : String
  pub renewed_at : Option Datetime
  pub released_at : Option Datetime
  pub release_reason : String

pub record AdmissionDecision : Type 0 where
  pub version : String
  pub decision_id : String
  pub queue_item_id : String
  pub task_id : String
  pub status : String
  pub reason : String
  pub active_policy_id : String
  pub active_mode : String
  pub factors : Members
  pub created_at : Datetime

pub record DispatchRecord : Type 0 where
  pub version : String
  pub dispatch_id : String
  pub queue_item_id : String
  pub task_id : String
  pub lease_id : String
  pub worker_id : String
  pub status : String
  pub admission_decision_id : String
  pub created_at : Datetime
  pub completed_at : Option Datetime

pub record QueuePolicy : Type 0 where
  pub version : String
  pub policy_id : String
  pub queue_name : String
  pub max_attempts : ℕ
  pub lease_timeout_seconds : ℕ
  pub dead_letter_queue : String
  pub created_at : Datetime

pub record CapacitySnapshot : Type 0 where
  pub version : String
  pub snapshot_id : String
  pub active_tasks : ℕ
  pub queued_tasks : ℕ
  pub provider_capacity_usage : List (String × ℤ)
  pub tool_pressure : List (String × ℤ)
  pub approval_backlog : ℕ
  pub budget_pressure : Float
  pub recovery_reservations : ℕ
  pub eval_load : ℕ
  pub created_at : Datetime

pub record LoadSheddingEvent : Type 0 where
  pub version : String
  pub event_id : String
  pub queue_item_id : String
  pub task_id : String
  pub reason : String
  pub action : String
  pub created_at : Datetime

pub record AdmissionPolicy : Type 0 where
  pub version : String
  pub policy_id : String
  pub allow_high_risk_when_provider_degraded : Bool
  pub max_active_tasks : ℕ
  pub max_pending_approvals : ℕ
  pub continuity_fragility_threshold : Float
  pub budget_pressure_threshold : Float
  pub created_at : Datetime

pub record QueuePriorityPolicy : Type 0 where
  pub version : String
  pub policy_id : String
  pub class_weights : List (String × ℤ)
  pub resumed_task_bonus : ℤ
  pub stale_continuity_bonus : ℤ
  pub recovery_priority_bonus : ℤ
  pub high_risk_bonus : ℤ
  pub created_at : Datetime

-- runtime/backends.py: the result of a queue backend mutation
pub record QueueOperationResult : Type 0 where
  pub version : String
  pub operation : String
  pub succeeded : Bool
  pub status : String
  pub reason : String
  pub queue_item_id : String
  pub lease_id : String
  pub fencing_token : String
  pub payload : Members
  pub created_at : Datetime

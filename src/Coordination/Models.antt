-- ===== src/Coordination/Models.antt =====
-- The records of runtime/coordination.py.
use contract_evidence_os.Prelude.{ℕ, String, Bool, Option, List}
use contract_evidence_os.Base.Float.{Float}
use contract_evidence_os.Base.Exec.{Datetime}

pub record HostRecord : Type 0 where
  pub version : String
  pub host_id : String
  pub hostname : String
  pub network_identity : String
  pub status : String
  pub drain_state : String
  pub capabilities : List String
  pub lease_pressure : Float
  pub created_at : Datetime
  pub last_seen_at : Datetime

pub record WorkerLifecycleRecord : Type 0 where
  pub version : String
  pub worker_id : String
  pub worker_role : String
  pub process_identity : String
  pub heartbeat_state : String
  pub claimed_capacity : ℕ
  pub active_leases : List String
  pub startup_time : Datetime
  pub host_id : String
  pub service_identity : String
  pub startup_epoch : String
  pub current_drain_state : String
  pub endpoint_address : String
  pub lease_pressure : Float
  pub last_checkpoint_activity : Option Datetime
  pub shutdown_state : String
  pub local_execution_mode : String
  pub updated_at : Datetime

-- Authoritative lease ownership with fencing token.
pub record LeaseOwnershipRecord : Type 0 where
  pub version : String
  pub ownership_id : String
  pub lease_id : String
  pub queue_item_id : String
  pub task_id : String
  pub worker_id : String
  pub lease_epoch : ℕ
  pub fencing_token : String
  pub status : String
  pub acquired_at : Datetime
  pub expires_at : Datetime
  pub host_id : String
  pub renewed_at : Option Datetime
  pub released_at : Option Datetime
  pub reclaim_reason : String

pub record RenewalAttemptRecord : Type 0 where
  pub version : String
  pub attempt_id : String
  pub lease_id : String
  pub worker_id : String
  pub host_id : String
  pub outcome : String
  pub latency_ms : Float
  pub previous_expires_at : Datetime
  pub new_expires_at : Datetime
  pub created_at : Datetime
  pub note : String

pub record LeaseRenewalPolicy : Type 0 where
  pub version : String
  pub policy_id : String
  pub renew_before_seconds : ℕ
  pub max_jitter_seconds : ℕ
  pub slow_worker_grace_seconds : ℕ
  pub contention_backoff_seconds : ℕ
  pub steal_min_age_seconds : ℕ
  pub created_at : Datetime

pub record LeaseExpiryForecast : Type 0 where
  pub version : String
  pub forecast_id : String
  pub lease_id : String
  pub seconds_remaining : Float
  pub risk_level : String
  pub recommended_action : String
  pub created_at : Datetime

pub record LeaseContentionRecord : Type 0 where
  pub version : String
  pub contention_id : String
  pub lease_id : String
  pub current_worker_id : String
  pub challenger_worker_id : String
  pub decision : String
  pub reason : String
  pub created_at : Datetime

pub record WorkStealPolicy : Type 0 where
  pub version : String
  pub policy_id : String
  pub allow_steal_from_draining : Bool
  pub allow_steal_from_stale : Bool
  pub min_lease_age_seconds : ℕ
  pub max_pressure_to_keep_owner : Float
  pub protect_verification_capacity : Bool
  pub protect_recovery_capacity : Bool
  pub created_at : Datetime

pub record WorkStealDecision : Type 0 where
  pub version : String
  pub decision_id : String
  pub lease_id : String
  pub from_worker_id : String
  pub to_worker_id : String
  pub status : String
  pub reason : String
  pub safety_checks : List (String × Bool)
  pub created_at : Datetime

pub record LeaseTransferRecord : Type 0 where
  pub version : String
  pub transfer_id : String
  pub lease_id : String
  pub from_worker_id : String
  pub to_worker_id : String
  pub previous_epoch : ℕ
  pub new_epoch : ℕ
  pub reason : String
  pub created_at : Datetime

pub record OwnershipConflictEvent : Type 0 where
  pub version : String
  pub event_id : String
  pub lease_id : String
  pub stale_worker_id : String
  pub active_worker_id : String
  pub rejected_action : String
  pub summary : String
  pub created_at : Datetime

pub record WorkerCapabilityRecord : Type 0 where
  pub version : String
  pub worker_id : String
  pub provider_access : List String
  pub tool_access : List String
  pub role_specialization : List String
  pub supports_degraded_mode : Bool
  pub supports_high_risk : Bool
  pub max_parallel_tasks : ℕ
  pub created_at : Datetime

pub record WorkerHostBinding : Type 0 where
  pub version : String
  pub binding_id : String
  pub worker_id : String
  pub host_id : String
  pub endpoint_id : String
  pub status : String
  pub bound_at : Datetime

pub record WorkerEndpointRecord : Type 0 where
  pub version : String
  pub endpoint_id : String
  pub worker_id : String
  pub host_id : String
  pub address : String
  pub protocol : String
  pub status : String
  pub last_seen_at : Datetime

pub record WorkerHeartbeatRecord : Type 0 where
  pub version : String
  pub heartbeat_id : String
  pub worker_id : String
  pub host_id : String
  pub service_identity : String
  pub heartbeat_state : String
  pub active_leases : List String
  pub capacity_in_use : ℕ
  pub queue_pressure : Float
  pub lease_pressure : Float
  pub last_checkpoint_activity : Option Datetime
  pub created_at : Datetime
  pub expires_at : Datetime

pub record DispatchOwnershipRecord : Type 0 where
  pub version : String
  pub ownership_id : String
  pub dispatch_id : String
  pub task_id : String
  pub queue_item_id : String
  pub lease_id : String
  pub worker_id : String
  pub fencing_token : String
  pub status : String
  pub created_at : Datetime
  pub updated_at : Datetime

pub record WorkerPressureSnapshot : Type 0 where
  pub version : String
  pub snapshot_id : String
  pub active_workers : ℕ
  pub draining_workers : ℕ
  pub stale_workers : ℕ
  pub total_claimed_capacity : ℕ
  pub active_leases : ℕ
  pub capability_distribution : List (String × ℕ)
  pub host_distribution : List (String × ℕ)
  pub created_at : Datetime

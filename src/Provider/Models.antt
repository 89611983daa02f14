-- ===== src/Provider/Models.antt =====
-- The records of runtime/provider_health.py.
use contract_evidence_os.Prelude.{ℕ, String, Bool, Option, List}
use contract_evidence_os.Base.Float.{Float}
use contract_evidence_os.Base.Exec.{Datetime}

pub record ProviderHealthRecord : Type 0 where
  pub version : String
  pub provider_name : String
  pub circuit_state : String
  pub recent_failures : ℕ
  pub recent_successes : ℕ
  pub structured_output_reliability : Float
  pub fallback_frequency : Float
  pub average_latency_ms : Float
  pub rate_limit_pressure : Float
  pub availability_state : String
  pub operator_disabled : Bool
  pub last_error_code : String
  pub updated_at : Datetime

pub record ProviderHealthSnapshot : Type 0 where
  pub version : String
  pub snapshot_id : String
  pub records : List ProviderHealthRecord
  pub created_at : Datetime

pub record RateLimitState : Type 0 where
  pub version : String
  pub provider_name : String
  pub window_started_at : Datetime
  pub request_count : ℕ
  pub max_requests : ℕ
  pub window_seconds : ℕ
  pub limited_until : Option Datetime

pub record ProviderCooldownWindow : Type 0 where
  pub version : String
  pub provider_name : String
  pub state : String
  pub opened_at : Datetime
  pub cooldown_until : Datetime
  pub reopened_count : ℕ

pub record ProviderDegradationEvent : Type 0 where
  pub version : String
  pub event_id : String
  pub provider_name : String
  pub event_type : String
  pub summary : String
  pub created_at : Datetime

pub record ProviderAvailabilityPolicy : Type 0 where
  pub version : String
  pub policy_id : String
  pub provider_name : String
  pub failure_threshold : ℕ
  pub cooldown_seconds : ℕ
  pub rate_limit_window_seconds : ℕ
  pub max_requests_per_window : ℕ
  pub created_at : Datetime

-- ===== src/Registry/Models.antt =====
-- The records of runtime/policy_registry.py, and the report of evals/models.py that it reads.
use contract_evidence_os.Prelude.{ℕ, String, List}
use contract_evidence_os.Base.Exec.{Datetime}
use contract_evidence_os.Base.Float.{Float}
use contract_evidence_os.Base.Json.{Members}

pub record PolicyScope : Type 0 where
  pub version : String
  pub scope_id : String
  pub scope_type : String
  pub target_component : String
  pub constraints : List String
  pub created_at : Datetime

pub record PolicyVersion : Type 0 where
  pub version : String
  pub version_id : String
  pub name : String
  pub scope_id : String
  pub status : String
  pub policy_payload : Members
  pub summary : String
  pub supersedes_version_id : String
  pub created_at : Datetime

pub record PolicyEvidenceBundle : Type 0 where
  pub version : String
  pub bundle_id : String
  pub scope_id : String
  pub source_refs : List String
  pub summary : String
  pub metrics : List (String × Float)
  pub created_at : Datetime

pub record PolicyCandidate : Type 0 where
  pub version : String
  pub candidate_id : String
  pub name : String
  pub scope_id : String
  pub base_version_id : String
  pub policy_payload : Members
  pub evidence_bundle_id : String
  pub hypothesis : String
  pub status : String
  pub created_at : Datetime

pub record PolicyPromotionRun : Type 0 where
  pub version : String
  pub run_id : String
  pub candidate_id : String
  pub status : String
  pub gain : Float
  pub regressions : ℕ
  pub summary : String
  pub report_metrics : List (String × Float)
  pub created_at : Datetime

pub record PolicyRollbackRecord : Type 0 where
  pub version : String
  pub rollback_id : String
  pub scope_id : String
  pub previous_version_id : String
  pub restored_version_id : String
  pub rollback_reason : String
  pub created_at : Datetime

pub record StrategyEvaluationReport : Type 0 where
  pub strategy_name : String
  pub metrics : List (String × Float)
  pub case_results : List (List (String × Float))

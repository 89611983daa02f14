-- ===== src/Planning/Models.antt =====
-- The records of planning/models.py that the planner works on, and the approval requests.
use contract_evidence_os.Prelude.{ℕ, String, Bool, Option, List}
use contract_evidence_os.Base.Float.{Float}
use contract_evidence_os.Base.Exec.{Datetime}

pub record PlanNode : Type 0 where
  pub version : String
  pub node_id : String
  pub objective : String
  pub role_owner : String
  pub dependencies : List String
  pub preconditions : List String
  pub expected_outputs : List String
  pub validation_gate : String
  pub fallback_paths : List String
  pub budget_cost : Float
  pub status : String
  pub checkpoint_required : Bool
  pub approval_gate : Option String
  pub node_category : String
  pub priority : ℕ
  pub branch_id : String
  pub attachment_ref : Option String
  pub handler_name : String

pub record PlanEdge : Type 0 where
  pub version : String
  pub edge_id : String
  pub source_node_id : String
  pub target_node_id : String
  pub edge_type : String

pub record PlanGraph : Type 0 where
  pub version : String
  pub graph_id : String
  pub active_branch_id : String
  pub nodes : List PlanNode
  pub edges : List PlanEdge

-- policy/models.py
pub record ApprovalRequest : Type 0 where
  pub version : String
  pub request_id : String
  pub contract_id : String
  pub action : String
  pub reason : String
  pub requested_scope : List String
  pub risk_level : String
  pub status : String
  pub task_id : String
  pub plan_node_id : Option String
  pub action_summary : String
  pub risk_classification : String
  pub relevant_contract_clause : String
  pub relevant_evidence : List String
  pub alternatives_considered : List String
  pub if_denied : String
  pub expiry_at : Option Datetime
  pub audit_refs : List String
  pub receipt_refs : List String

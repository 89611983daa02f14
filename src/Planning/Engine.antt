-- ===== src/Planning/Engine.antt =====
-- `PlanGraphEngine.generate` of planning/engine.py.
pub mod Layers
use Prim.Native.String.{◌++◌}
use mathlib.Core.List.{◌++◌ as ◌+++◌}
use contract_evidence_os.Prelude.{
  ℕ, ◌+◌, String, Bool, true, false, Option, none, some, List, [], ◌∷◌, map, any, if◌then◌else◌,
}
use contract_evidence_os.Base.Float.{float_0_5, float_1_0, float_1_5}
use contract_evidence_os.Base.Text.{decimal, occurs_in}
use contract_evidence_os.Planning.Models.{PlanNode, PlanEdge, PlanGraph}

-- `_edge`
unfoldable pub edge : String → String → String → PlanEdge
edge source_node_id target_node_id edge_type = record {
  version = "1.0";
  edge_id = "edge-" ++ source_node_id ++ "-to-" ++ target_node_id;
  source_node_id = source_node_id;
  target_node_id = target_node_id;
  edge_type = edge_type;
}

abbrev pub retrieve_id : ℕ → String
retrieve_id index = "node-retrieve-source-" ++ decimal index

abbrev pub extract_id : ℕ → String
extract_id index = "node-extract-source-" ++ decimal index

abbrev pub retrieve_node : String → ℕ → String → PlanNode
retrieve_node retrieval_precondition index attachment = record {
  version = "1.0";
  node_id = retrieve_id index;
  objective = "Retrieve evidence source " ++ decimal (index + 1);
  role_owner = "Researcher";
  dependencies = [];
  preconditions = retrieval_precondition ∷ [];
  expected_outputs = "source_snapshot" ∷ [];
  validation_gate = "source_integrity_check";
  fallback_paths = "retry_with_recovery_engine" ∷ [];
  budget_cost = float_1_0;
  status = "pending";
  checkpoint_required = true;
  approval_gate = none;
  node_category = "research";
  priority = 10 + index;
  branch_id = "branch-main";
  attachment_ref = some attachment;
  handler_name = "retrieve_source";
}

abbrev pub extract_node : ℕ → String → PlanNode
extract_node index attachment = record {
  version = "1.0";
  node_id = extract_id index;
  objective = "Extract grounded constraints from source " ++ decimal (index + 1);
  role_owner = "Researcher";
  dependencies = retrieve_id index ∷ [];
  preconditions = "source snapshot exists" ∷ [];
  expected_outputs = "constraint_extractions" ∷ [];
  validation_gate = "shadow_evidence_coverage";
  fallback_paths = "replan_recovery_branch" ∷ [];
  budget_cost = float_1_0;
  status = "pending";
  checkpoint_required = true;
  approval_gate = none;
  node_category = "research";
  priority = 20 + index;
  branch_id = "branch-main";
  attachment_ref = some attachment;
  handler_name = "extract_source";
}

-- The loop over the attachments, from a given index: the nodes it appends.
unfoldable pub source_nodes : String → ℕ → List String → List PlanNode
source_nodes precondition index [] = []
source_nodes precondition index (attachment ∷ rest) =
    retrieve_node precondition index attachment
    ∷ extract_node index attachment
    ∷ source_nodes precondition (index + 1) rest

-- The edges it appends.
unfoldable pub source_edges : ℕ → List String → List PlanEdge
source_edges index [] = []
source_edges index (attachment ∷ rest) =
    edge (retrieve_id index) (extract_id index) "depends_on" ∷ source_edges (index + 1) rest

-- The list `extract_node_ids` that it builds.
unfoldable pub extract_ids : ℕ → List String → List String
extract_ids index [] = []
extract_ids index (attachment ∷ rest) = extract_id index ∷ extract_ids (index + 1) rest

abbrev pub build_node : List String → PlanNode
build_node dependencies = record {
  version = "1.0";
  node_id = "node-build-delivery";
  objective = "Build a structured delivery packet from evidence";
  role_owner = "Builder";
  dependencies = dependencies;
  preconditions = "all extraction nodes completed" ∷ [];
  expected_outputs = "delivery_packet" ∷ [];
  validation_gate = "builder_schema_check";
  fallback_paths = "replan_recovery_branch" ∷ [];
  budget_cost = float_1_5;
  status = "pending";
  checkpoint_required = true;
  approval_gate = none;
  node_category = "build";
  priority = 60;
  branch_id = "branch-main";
  attachment_ref = none;
  handler_name = "build_delivery";
}

abbrev pub verify_node : Bool → PlanNode
verify_node requires_delivery_approval = record {
  version = "1.0";
  node_id = "node-verify-delivery";
  objective = "Verify delivery against evidence and policy";
  role_owner = "Verifier";
  dependencies = "node-build-delivery" ∷ [];
  preconditions = "delivery packet exists" ∷ [];
  expected_outputs = "validation_report" ∷ [];
  validation_gate = "shadow_verification";
  fallback_paths = "branch_and_compare" ∷ [];
  budget_cost = float_1_5;
  status = "pending";
  checkpoint_required = true;
  approval_gate = if requires_delivery_approval then some "governor_review" else none;
  node_category = "verification";
  priority = 80;
  branch_id = "branch-main";
  attachment_ref = none;
  handler_name = "verify_delivery";
}

abbrev pub memory_node : PlanNode
memory_node = record {
  version = "1.0";
  node_id = "node-capture-learning";
  objective = "Capture memory and evolution candidates from the verified trace";
  role_owner = "Archivist";
  dependencies = "node-verify-delivery" ∷ [];
  preconditions = "validation report exists" ∷ [];
  expected_outputs = "memory_record" ∷ "evolution_candidate" ∷ [];
  validation_gate = "memory_write_policy_check";
  fallback_paths = "skip_memory_capture" ∷ [];
  budget_cost = float_0_5;
  status = "pending";
  checkpoint_required = true;
  approval_gate = none;
  node_category = "memory_evolution";
  priority = 95;
  branch_id = "branch-main";
  attachment_ref = none;
  handler_name = "capture_learning";
}

abbrev pub needs_approval : String → Bool
needs_approval normalized_goal =
    any (λ token. occurs_in token normalized_goal)
      ("publish" ∷ "publication" ∷ "external" ∷ "delete" ∷ "destroy" ∷ [])

-- `attachments or ["unresolved-source"]`
abbrev pub sources_of : List String → List String
sources_of [] = "unresolved-source" ∷ []
sources_of (a ∷ rest) = a ∷ rest

abbrev pub precondition_of : List String → String
precondition_of [] = "source can be located"
precondition_of (a ∷ rest) = "attachment exists"

-- `generate`, given the normalized goal of the contract.
unfoldable pub generate : String → List String → PlanGraph
generate normalized_goal attachments =
    let sources = sources_of attachments in
    let extracts = extract_ids 0 sources in
    record {
      version = "1.0";
      graph_id = "plan-root";
      active_branch_id = "branch-main";
      nodes =
          source_nodes (precondition_of attachments) 0 sources
          +++ (build_node extracts
              ∷ verify_node (needs_approval normalized_goal)
              ∷ memory_node
              ∷ []);
      edges =
          source_edges 0 sources
          +++ map (λ id. edge id "node-build-delivery" "depends_on") extracts
          +++ (edge "node-build-delivery" "node-verify-delivery" "depends_on"
              ∷ edge "node-verify-delivery" "node-capture-learning" "depends_on"
              ∷ []);
    }

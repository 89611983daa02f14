-- ===== src/Planning/Samples.antt =====
-- The theorems on planning at a concrete plan: two attachments, of which the first fails to be
-- retrieved.
use contract_evidence_os.Prelude.{
  ◌≤◌, String, ◌≡◌, refl, true, false, some, List, [], ◌∷◌, ◌==◌, length, All, Memᴰ, contains,
  first, is_some, ◌⊎◌, none, any, all, select, sort_by, map,
}
use contract_evidence_os.Base.Exec.{World, ok}
use contract_evidence_os.Base.Text.{decimal, occurs_in, text_lt}
use contract_evidence_os.Planning.Models.{PlanNode, PlanGraph, ApprovalRequest}
use contract_evidence_os.Planning.Engine.{retrieve_node, source_nodes, extract_ids, generate}
use contract_evidence_os.Planning.Engine.Layers.{generate_finishes}
use contract_evidence_os.Planning.Replan.{replan_local}
use contract_evidence_os.Planning.Replan.Shape.{IsSettled, IsDetached}
use contract_evidence_os.Planning.Replan.Repair.{
  replan_local_ends, replan_local_detaches, replan_local_strands,
}
use contract_evidence_os.Planning.Schedule.{
  is_finished, is_ready, run_rounds, join_batch, select_batch, run_round, run_ready, run_batch,
  release_approved, mark_completed, mark_blocked, is_cleared, has_request, ready_nodes,
  completed_ids, runs_before, running, plan_of,
}
use contract_evidence_os.Planning.Schedule.Batch.{IsJoined, select_batch_together}
use contract_evidence_os.Samples.{sample_env}

abbrev sample_attachments : List String
sample_attachments = "a.txt" ∷ "b.txt" ∷ []

abbrev sample_world : World Unit
sample_world = record { store = tt; draws = 0; readings = 0 }

abbrev failed_source : PlanNode
failed_source = retrieve_node "attachment exists" 0 "a.txt"

abbrev other_source : PlanNode
other_source = retrieve_node "attachment exists" 1 "b.txt"

abbrev sample_plan : PlanGraph
sample_plan = generate "publish a summary" sample_attachments

failed_found :
    first (λ node. node.node_id == "node-retrieve-source-0") sample_plan.nodes ≡ some failed_source
unfolding first decimal generate source_nodes
failed_found = refl

replan_local_ends_example :
    (repaired : PlanGraph) × ((replan_local sample_env sample_plan "node-retrieve-source-0" "retry"
        "branch-recovery-1" sample_world).0
      ≡ ok repaired)
    × All (IsSettled "node-retrieve-source-0" repaired) repaired.nodes
replan_local_ends_example =
    replan_local_ends sample_env sample_plan "node-retrieve-source-0" "retry" "branch-recovery-1"
      sample_world failed_source failed_found

replan_local_detaches_example :
    (repaired : PlanGraph) × ((replan_local sample_env sample_plan "node-retrieve-source-0" "retry"
        "branch-recovery-1" sample_world).0
      ≡ ok repaired)
    × All (IsDetached "node-retrieve-source-0") repaired.nodes
    × (length repaired.nodes ≡ 8)
unfolding contains generate source_nodes
replan_local_detaches_example =
    replan_local_detaches sample_env sample_plan "node-retrieve-source-0" "retry"
      "branch-recovery-1" sample_world failed_source failed_found refl

replan_local_strands_example :
    (repaired : PlanGraph) × ((replan_local sample_env sample_plan "node-retrieve-source-0" "retry"
        "branch-recovery-1" sample_world).0
      ≡ ok repaired)
    × Memᴰ other_source repaired.nodes
    × (is_ready repaired other_source ≡ false)
unfolding decimal generate source_nodes
replan_local_strands_example =
    replan_local_strands sample_env sample_plan "node-retrieve-source-0" "retry" "branch-recovery-1"
      sample_world failed_source failed_found other_source refl
      (Memᴰ.tail (Memᴰ.tail (Memᴰ.head refl))) refl refl refl

abbrev approval : ApprovalRequest
approval = record {
  version = "1.0";
  request_id = "approval-1";
  contract_id = "contract-1";
  action = "governor_review";
  reason = "Verify delivery against evidence and policy is gated by governor_review.";
  requested_scope = "governor_review" ∷ [];
  risk_level = "moderate";
  status = "approved";
  task_id = "task-1";
  plan_node_id = some "node-verify-delivery";
  action_summary = "";
  risk_classification = "moderate";
  relevant_contract_clause = "";
  relevant_evidence = [];
  alternatives_considered = [];
  if_denied = "";
  expiry_at = none;
  audit_refs = [];
  receipt_refs = [];
}

-- The goal needs an approval, which is given.
generate_finishes_example :
    is_finished (
      plan_of (
        run_rounds "standard" 2
          (approval ∷ [])
          (length (generate "publish a summary" sample_attachments).nodes)
          (running (generate "publish a summary" sample_attachments))))
    ≡ true
unfolding has_request occurs_in any
generate_finishes_example =
    generate_finishes "publish a summary" sample_attachments "standard" 2 (approval ∷ [])

-- Without the approval, the verification is blocked once the delivery is built.
waits :
    map
      (λ (n : PlanNode). n.status)
      (plan_of (
        run_rounds "standard" 2 [] 9
          (running (generate "publish a summary" sample_attachments)))).nodes
    ≡ "completed" ∷ "completed" ∷ "completed" ∷ "completed" ∷ "completed" ∷ "blocked" ∷ "pending"
      ∷ []
unfolding run_rounds run_round run_ready run_batch release_approved mark_completed mark_blocked
    is_cleared has_request is_finished ready_nodes select_batch join_batch completed_ids runs_before
    generate source_nodes extract_ids decimal occurs_in any all contains first select sort_by
    text_lt
waits = refl

select_batch_together_example :
    (others : List PlanNode) × (select_batch "standard" 2 (failed_source ∷ other_source ∷ [])
      ≡ failed_source ∷ others)
    × (length (failed_source ∷ others) ≤ 2)
    × All (IsJoined failed_source (other_source ∷ [])) others
    × ((others ≡ []) ⊎ (is_some failed_source.approval_gate ≡ false))
unfolding contains
select_batch_together_example = select_batch_together "standard" 2 failed_source (other_source ∷ [])

-- The two sources run together, and not in a high-risk mode.
batches :
    (select_batch "standard" 2 (failed_source ∷ other_source ∷ [])
      ≡ failed_source ∷ other_source ∷ [])
    × (select_batch "high_risk" 2 (failed_source ∷ other_source ∷ []) ≡ failed_source ∷ [])
unfolding select_batch contains join_batch
batches = (refl, refl)

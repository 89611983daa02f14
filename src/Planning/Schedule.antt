-- ===== src/Planning/Schedule.antt =====
-- The scheduling of `RuntimeService.execute_plan` in runtime/service.py: which nodes are ready, and
-- which of them run together.
pub mod Progress
pub mod Rounds
pub mod Batch
pub mod Approval
use contract_evidence_os.Prelude.{
  ℕ, zero, suc, ◌-◌, String, Bool, true, false, ◌&&◌, ◌||◌, not, List, [], ◌∷◌, ◌==◌, map, contains,
  select, all, any, first, Option, none, some, length, ltb, leb, eqb, is_some, sort_by,
  if◌then◌else◌,
}
use contract_evidence_os.Base.Float.{float_lt, float_eq}
use contract_evidence_os.Base.Text.{text_lt}
use contract_evidence_os.Planning.Models.{PlanNode, PlanGraph, ApprovalRequest}

-- `(node.priority, node.budget_cost, node.node_id)` of one node before that of another
unfoldable pub runs_before : PlanNode → PlanNode → Bool
runs_before a b =
    ltb a.priority b.priority
    || (eqb a.priority b.priority
        && (float_lt a.budget_cost b.budget_cost
            || (float_eq a.budget_cost b.budget_cost && text_lt a.node_id b.node_id)))

abbrev pub is_completed : PlanNode → Bool
is_completed node = node.status == "completed"

unfoldable pub completed_ids : List PlanNode → List String
completed_ids nodes = map (λ (n : PlanNode). n.node_id) (select is_completed nodes)

abbrev pub is_ready : PlanGraph → PlanNode → Bool
is_ready plan node =
    node.status == "pending"
    && node.branch_id == plan.active_branch_id
    && all (λ d. contains d (completed_ids plan.nodes)) node.dependencies

-- `_ready_nodes`
unfoldable pub ready_nodes : PlanGraph → List PlanNode
ready_nodes plan = sort_by runs_before (select (is_ready plan) plan.nodes)

-- The test of `execute_plan` that the plan is done.
unfoldable pub is_finished : PlanGraph → Bool
is_finished plan = all is_completed plan.nodes

-- The loop of `_select_ready_batch` over the nodes after the first, with the room that is left.
unfoldable pub join_batch : ℕ → PlanNode → List PlanNode → List PlanNode
join_batch room first [] = []
join_batch zero first (node ∷ rest) = []
join_batch (suc room) first (node ∷ rest) =
    let joined = join_batch room first rest in
    let skipped = join_batch (suc room) first rest in
    if is_some node.approval_gate
    then skipped
    else if not (node.role_owner == first.role_owner && node.node_category == first.node_category)
    then skipped
    else node ∷ joined

-- `_select_ready_batch` on the ready nodes, given the mode and the concurrency cap of the task. The
-- code indexes the first node, and is called only when there is one.
unfoldable pub select_batch : String → ℕ → List PlanNode → List PlanNode
unfolding join_batch
select_batch mode_name task_cap [] = []
select_batch mode_name task_cap (first ∷ rest) =
    let max_parallel =
      if contains mode_name ("high_risk" ∷ "verification_heavy" ∷ "degraded" ∷ [])
      then 1
      else task_cap in
    if leb max_parallel 1
    then first ∷ []
    else if is_some first.approval_gate
        || contains first.node_category
            ("build" ∷ "verification" ∷ "memory_evolution" ∷ "recovery" ∷ [])
    then first ∷ []
    else first ∷ join_batch (max_parallel - 1) first rest

-- `_mark_node_completed` on every node of a batch, given the identifiers of its nodes.
unfoldable pub mark_completed : List String → List PlanNode → List PlanNode
mark_completed batch_ids [] = []
mark_completed batch_ids (node ∷ nodes) =
    let rest = mark_completed batch_ids nodes in
    if contains node.node_id batch_ids
    then record node { status = "completed" } ∷ rest
    else node ∷ rest

-- `update_plan_node_status(task_id, node_id, "blocked")`
unfoldable pub mark_blocked : String → List PlanNode → List PlanNode
mark_blocked node_id [] = []
mark_blocked node_id (node ∷ nodes) =
    let rest = mark_blocked node_id nodes in
    if node.node_id == node_id then record node { status = "blocked" } ∷ rest else node ∷ rest

abbrev pub concerns : String → ApprovalRequest → Bool
concerns node_id request = elim request.plan_node_id [ none ↦ false | some id ↦ id == node_id ]

-- Among the approval requests of the task, one of the node has the status.
unfoldable pub has_request : String → List ApprovalRequest → String → Bool
has_request status requests node_id =
    any (λ request. concerns node_id request && request.status == status) requests

-- `_release_approved_nodes`; the code leaves out requests whose node identifier is empty.
unfoldable pub release_approved : List ApprovalRequest → List PlanNode → List PlanNode
release_approved requests [] = []
release_approved requests (node ∷ nodes) =
    let rest = release_approved requests nodes in
    if not (node.node_id == "")
      && has_request "approved" requests node.node_id
      && node.status == "blocked"
    then record node { status = "pending" } ∷ rest
    else node ∷ rest

-- The cases in which `_approval_wait_if_needed` lets a node run.
unfoldable pub is_cleared : List ApprovalRequest → PlanNode → Bool
is_cleared requests node =
    not (is_some node.approval_gate) || has_request "approved" requests node.node_id

-- Where the loop of `execute_plan` stands: before a round, with the plan as it is stored, or ended,
-- with the status of the scheduler.
pub data Execution : Type 0 where
  running : PlanGraph → Execution
  ended : String → PlanGraph → Execution

abbrev pub plan_of : Execution → PlanGraph
plan_of (running plan) = plan
plan_of (ended status plan) = plan

-- The rest of a round, given the first node of the batch that may not run: a node whose approval was
-- denied ends the loop, a node that waits for approval is blocked first, and a batch without such a
-- node is completed.
unfoldable pub run_batch :
    List ApprovalRequest → PlanGraph → List PlanNode → Option PlanNode → Execution
run_batch requests plan batch (some node) =
    if has_request "denied" requests node.node_id
    then ended "waiting_for_approval" plan
    else ended "waiting_for_approval" (record plan { nodes = mark_blocked node.node_id plan.nodes })
run_batch requests plan batch none =
    let batch_ids = map (λ (n : PlanNode). n.node_id) batch in
    running (record plan { nodes = mark_completed batch_ids plan.nodes })

-- The rest of a round that finds the plan unfinished, given the nodes that are ready.
unfoldable pub run_ready : String → ℕ → List ApprovalRequest → PlanGraph → List PlanNode → Execution
run_ready mode_name task_cap requests plan [] =
    ended
      (if any (λ (n : PlanNode). n.status == "blocked") plan.nodes
        then "waiting_for_approval"
        else "blocked")
      plan
run_ready mode_name task_cap requests plan (first_ready ∷ others) =
    let batch = select_batch mode_name task_cap (first_ready ∷ others) in
    run_batch requests plan batch (first (λ n. not (is_cleared requests n)) batch)

-- A round of the loop of `execute_plan`, given the approval requests of the task, in a worker that
-- still owns its dispatch, and without incidents in the execution of the batch. What the round
-- records beside the statuses of the nodes is left out.
unfoldable pub run_round : String → ℕ → List ApprovalRequest → PlanGraph → Execution
run_round mode_name task_cap requests plan =
    let released = record plan { nodes = release_approved requests plan.nodes } in
    if is_finished released
    then ended "completed" released
    else run_ready mode_name task_cap requests released (ready_nodes released)

-- Rounds of the loop, at most so many, under the same approval requests.
unfoldable pub run_rounds : String → ℕ → List ApprovalRequest → ℕ → Execution → Execution
run_rounds mode_name task_cap requests zero execution = execution
run_rounds mode_name task_cap requests (suc rounds) (ended status plan) = ended status plan
run_rounds mode_name task_cap requests (suc rounds) (running plan) =
    run_rounds mode_name task_cap requests rounds (run_round mode_name task_cap requests plan)

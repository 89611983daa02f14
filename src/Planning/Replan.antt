-- ===== src/Planning/Replan.antt =====
-- `PlanGraphEngine.replan_local` of planning/engine.py. The code rewrites the nodes in place; here each
-- step returns the list of nodes after it.
pub mod Spread
pub mod Shape
pub mod Repair
use Prim.Native.String.{◌++◌, slice}
use mathlib.Core.List.{◌++◌ as ◌+++◌}
use contract_evidence_os.Prelude.{
  ℕ, zero, suc, ◌+◌, ◌-◌, String, Bool, true, false, ◌&&◌, ◌||◌, not, Option, none, some, List, [],
  ◌∷◌, ◌==◌, map, any, contains, select, length, leb, if◌then◌else◌, first,
}
use contract_evidence_os.Base.Exec.{
  Env, World, Exec, pure, raise, stop_iteration, uuid4, ◌>>=◌, out_of_fuel,
}
use contract_evidence_os.Planning.Models.{PlanNode, PlanEdge, PlanGraph}
use contract_evidence_os.Planning.Engine.{edge}

-- `failed_node.status = "failed"`, on the first node with the identifier.
unfoldable pub mark_failed : String → List PlanNode → List PlanNode
mark_failed failed_node_id [] = []
mark_failed failed_node_id (node ∷ nodes) =
    let rest = mark_failed failed_node_id nodes in
    if node.node_id == failed_node_id
    then record node { status = "failed" } ∷ nodes
    else node ∷ rest

abbrev pub recovery_id : String → String
recovery_id failed_node_id = failed_node_id ++ "-recovery"

abbrev pub recovery_priority : ℕ → ℕ
recovery_priority priority = if leb 1 (priority - 5) then priority - 5 else 1

abbrev pub recovery_node : String → String → String → PlanNode → PlanNode
recovery_node failed_node_id fallback_objective branch_id failed = record {
  version = failed.version;
  node_id = recovery_id failed_node_id;
  objective = fallback_objective;
  role_owner = failed.role_owner;
  dependencies = failed.dependencies;
  preconditions = failed.preconditions;
  expected_outputs = failed.expected_outputs;
  validation_gate = failed.validation_gate;
  fallback_paths = failed.fallback_paths;
  budget_cost = failed.budget_cost;
  status = "pending";
  checkpoint_required = failed.checkpoint_required;
  approval_gate = failed.approval_gate;
  node_category = "recovery";
  priority = recovery_priority failed.priority;
  branch_id = branch_id;
  attachment_ref = failed.attachment_ref;
  handler_name = if failed.handler_name == "" then "recover_node" else failed.handler_name;
}

-- The first loop: a node that depends on the failed one depends on the recovery node instead.
unfoldable pub rewrite_node : String → String → String → PlanNode → PlanNode
rewrite_node failed_node_id active_branch_id branch_id node =
    if contains failed_node_id node.dependencies
    then record node {
      dependencies =
          map (λ d. if d == failed_node_id then recovery_id failed_node_id else d)
            node.dependencies;
      status = if node.status == "blocked" then "pending" else node.status;
      branch_id = if node.branch_id == active_branch_id then branch_id else node.branch_id;
    }
    else node

-- `node_index.get(id)`: the dict keeps the last node with an identifier.
unfoldable pub node_at : String → List PlanNode → Option PlanNode
node_at id [] = none
node_at id (node ∷ nodes) = elim (node_at id nodes) [
  | some found ↦ some found
  | none ↦ if node.node_id == id then some node else none
]

module _ (recovery_node_id branch_id : String) where
  -- A dependency of the node stands on the recovery branch.
  unfoldable pub follows : List PlanNode → PlanNode → Bool
  follows nodes node =
      any (λ d. elim (node_at d nodes) [ none ↦ false | some n ↦ n.branch_id == branch_id ])
        node.dependencies

  -- The node is to move to the recovery branch.
  unfoldable pub moves : List PlanNode → PlanNode → Bool
  moves nodes node =
      not (node.node_id == recovery_node_id)
      && follows nodes node
      && not (node.branch_id == branch_id)

  unfoldable pub moved : PlanNode → PlanNode
  moved node = record node {
    branch_id = branch_id;
    status = if contains node.status ("completed" ∷ "failed" ∷ []) then node.status else "pending";
  }

  -- One round of `while changed`: the nodes after it, and `changed`. A node sees the nodes before it
  -- as this round has left them.
  unfoldable pub sweep : List PlanNode → List PlanNode → List PlanNode × Bool
  unfolding moves moved
  sweep visited [] = (visited, false)
  sweep visited (node ∷ rest) =
      let (kept, changed) = sweep (visited +++ (node ∷ [])) rest in
      let (after, _) = sweep (visited +++ (moved node ∷ [])) rest in
      if moves (visited +++ (node ∷ rest)) node then (after, true) else (kept, changed)

  -- `while changed`, on fuel; `none` means that the fuel ran out.
  unfoldable pub spread : ℕ → List PlanNode → Option (List PlanNode)
  unfolding sweep
  spread zero nodes = none
  spread (suc fuel) nodes =
      let (after, changed) = sweep [] nodes in
      let rest = spread fuel after in if changed then rest else some after

-- The edges that are added: into the recovery node, and out of it.
unfoldable pub recovery_edges : String → List String → List PlanNode → List PlanEdge
recovery_edges recovery_node_id dependencies nodes =
    map (λ d. edge d recovery_node_id "depends_on") dependencies
    +++ map (λ (n : PlanNode). edge recovery_node_id n.node_id "depends_on")
        (select (λ (n : PlanNode). contains recovery_node_id n.dependencies) nodes)

-- The nodes before the branch spreads.
unfoldable pub rewritten_nodes : PlanGraph → String → String → String → PlanNode → List PlanNode
rewritten_nodes graph failed_node_id fallback_objective branch_id failed =
    map (rewrite_node failed_node_id graph.active_branch_id branch_id)
      (mark_failed failed_node_id graph.nodes)
    +++ (recovery_node failed_node_id fallback_objective branch_id failed ∷ [])

unfoldable pub replanned : PlanGraph → String → String → PlanNode → List PlanNode → PlanGraph
replanned graph failed_node_id branch_id failed nodes = record {
  version = graph.version;
  graph_id = graph.graph_id ++ "-replanned";
  active_branch_id = branch_id;
  nodes = nodes;
  edges = graph.edges +++ recovery_edges (recovery_id failed_node_id) failed.dependencies nodes;
}

unfoldable pub replan_with :
    {S : Type 0} → PlanGraph → String → String → String → Option PlanNode → Exec S PlanGraph
replan_with graph failed_node_id fallback_objective branch_id none = raise stop_iteration
replan_with graph failed_node_id fallback_objective branch_id (some failed) =
    let nodes = rewritten_nodes graph failed_node_id fallback_objective branch_id failed in
    elim (spread (recovery_id failed_node_id) branch_id (length nodes + 1) nodes) [
      | none ↦ raise out_of_fuel
      | some after ↦ pure (replanned graph failed_node_id branch_id failed after)
    ]

-- `recovery_branch_id or f"branch-recovery-{uuid4().hex[:6]}"`
abbrev pub branch_or_new : {S : Type 0} → Env → String → Exec S String
branch_or_new env branch_id w =
    if branch_id == ""
    then ◌>>=◌ (uuid4 env) (λ hex. pure ("branch-recovery-" ++ slice hex 0 6)) w
    else pure branch_id w

unfoldable pub replan_local :
    {S : Type 0} → Env → PlanGraph → String → String → String → Exec S PlanGraph
replan_local env graph failed_node_id fallback_objective recovery_branch_id = do
  branch_id ← branch_or_new env recovery_branch_id
  replan_with graph failed_node_id fallback_objective branch_id
      (first (λ node. node.node_id == failed_node_id) graph.nodes)

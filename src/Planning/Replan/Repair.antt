-- ===== src/Planning/Replan/Repair.antt =====
-- What `replan_local` guarantees of the plan that it returns.
use contract_evidence_os.Prelude.{
  ◌+◌, String, ◌≡◌, refl, ◌∙◌, subst, false, some, List, [], ◌∷◌, ◌==◌, arith, length, All, All-map,
  All-append, Memᴰ, mem-map, mem-append_left, map, contains, any, first, length-append,
}
use contract_evidence_os.Base.Exec.{Env, World, ok}
use contract_evidence_os.Planning.Models.{PlanNode, PlanGraph}
use contract_evidence_os.Planning.Schedule.{is_ready}
use contract_evidence_os.Planning.Replan.{
  mark_failed, recovery_id, recovery_node, rewrite_node, follows, moves, moved, rewritten_nodes,
  replanned, replan_local,
}
use contract_evidence_os.Planning.Replan.Spread.{Stays, spread-All, spread-length, spread-mem}
use contract_evidence_os.Planning.Replan.Shape.{
  IsSettled, Stays-IsSettled, IsDetached, rewrite_node-IsDetached, All-mapped, length-map,
  length-mark_failed, mem-mark_failed, repair_lem,
}

length-rewritten_nodes :
    (graph : PlanGraph) (failed_node_id fallback_objective branch_id : String) (failed : PlanNode)
    → length (rewritten_nodes graph failed_node_id fallback_objective branch_id failed)
      ≡ length graph.nodes + 1
unfolding rewritten_nodes
length-rewritten_nodes graph failed_node_id fallback_objective branch_id failed =
    let marked = mark_failed failed_node_id graph.nodes in
    let rewrite = rewrite_node failed_node_id graph.active_branch_id branch_id in
    omega (
      arith,
      length-append (map rewrite marked)
          (recovery_node failed_node_id fallback_objective branch_id failed ∷ []),
      length-map rewrite marked,
      length-mark_failed failed_node_id graph.nodes,
    )

rewritten_nodes-IsDetached :
    (graph : PlanGraph) (failed_node_id fallback_objective branch_id : String) (failed : PlanNode)
    → IsDetached failed_node_id failed
    → All
        (IsDetached failed_node_id)
        (rewritten_nodes graph failed_node_id fallback_objective branch_id failed)
unfolding rewritten_nodes
rewritten_nodes-IsDetached graph failed_node_id fallback_objective branch_id failed h =
    All-append (IsDetached failed_node_id) _ _
      (All-mapped (IsDetached failed_node_id)
        (rewrite_node failed_node_id graph.active_branch_id branch_id)
        (rewrite_node-IsDetached failed_node_id graph.active_branch_id branch_id)
        (mark_failed failed_node_id graph.nodes))
      (h, tt)

moved-IsDetached :
    (failed_node_id recovery_node_id branch_id : String) (node : PlanNode)
    → IsDetached failed_node_id node
    → IsDetached failed_node_id (moved recovery_node_id branch_id node)
unfolding moved
moved-IsDetached failed_node_id recovery_node_id branch_id node h = h

-- A node without dependencies is not rewritten, and never moves.
rewritten_nodes-mem :
    (graph : PlanGraph) (failed_node_id fallback_objective branch_id : String)
    (failed node : PlanNode)
    → (node.node_id == failed_node_id) ≡ false
    → node.dependencies ≡ []
    → Memᴰ node graph.nodes
    → Memᴰ node (rewritten_nodes graph failed_node_id fallback_objective branch_id failed)
unfolding rewritten_nodes rewrite_node contains
rewritten_nodes-mem graph failed_node_id fallback_objective branch_id failed node other root m =
    let rewrite = rewrite_node failed_node_id graph.active_branch_id branch_id in
    let same : rewrite node ≡ node = rw root refl in
    mem-append_left _ _ (
      subst (λ n. Memᴰ n (map rewrite (mark_failed failed_node_id graph.nodes))) same
        (mem-map rewrite _ (mem-mark_failed failed_node_id graph.nodes other m)))

follows_root :
    (recovery_node_id branch_id : String) (node : PlanNode) (nodes : List PlanNode)
    → node.dependencies ≡ []
    → follows recovery_node_id branch_id nodes node ≡ false
unfolding follows any
follows_root recovery_node_id branch_id node nodes root = rw root refl

root-Stays :
    (recovery_node_id branch_id : String) (node : PlanNode)
    → node.dependencies ≡ []
    → (nodes : List PlanNode) → Stays recovery_node_id branch_id nodes node
unfolding moves
root-Stays recovery_node_id branch_id node root nodes =
    ground (arith, follows_root recovery_node_id branch_id node nodes root)

module _ {S : Type 0} (env : Env) (graph : PlanGraph) (failed_node_id fallback_objective : String)
    (recovery_branch_id : String) (w : World S) (failed : PlanNode)
    (found : first (λ node. node.node_id == failed_node_id) graph.nodes ≡ some failed) where
  -- When the failed node is in the plan, the repair ends and returns a plan, in which the branch is
  -- fully spread: every node is the recovery node, stands on the active branch, or depends on no
  -- node of the active branch.
  pub replan_local_ends :
      (repaired : PlanGraph) × ((replan_local env graph failed_node_id fallback_objective
          recovery_branch_id w).0
        ≡ ok repaired)
      × All (IsSettled failed_node_id repaired) repaired.nodes
  unfolding replanned
  replan_local_ends =
      let r =
        repair_lem env graph failed_node_id fallback_objective recovery_branch_id w failed found in
      (
        replanned graph failed_node_id r.branch_id failed r.after,
        r.returned,
        All-map (Stays-IsSettled failed_node_id r.branch_id r.after) r.after r.settled,
      )

  -- When the failed node is in the plan and does not depend on itself, no node of the repaired plan
  -- depends on it any more, and the plan has one node more than before.
  pub replan_local_detaches :
      IsDetached failed_node_id failed
      → (repaired : PlanGraph) × ((replan_local env graph failed_node_id fallback_objective
            recovery_branch_id w).0
          ≡ ok repaired)
        × All (IsDetached failed_node_id) repaired.nodes
        × (length repaired.nodes ≡ length graph.nodes + 1)
  unfolding replanned
  replan_local_detaches h =
      let r =
        repair_lem env graph failed_node_id fallback_objective recovery_branch_id w failed found in
      let nodes = rewritten_nodes graph failed_node_id fallback_objective r.branch_id failed in
      (
        replanned graph failed_node_id r.branch_id failed r.after,
        r.returned,
        spread-All (recovery_id failed_node_id) r.branch_id (IsDetached failed_node_id)
            (moved-IsDetached failed_node_id (recovery_id failed_node_id) r.branch_id)
            (length nodes + 1) nodes r.after
            (rewritten_nodes-IsDetached graph failed_node_id fallback_objective r.branch_id failed
              h)
            r.spread_to,
        spread-length (recovery_id failed_node_id) r.branch_id (length nodes + 1) nodes r.after
              r.spread_to
            ∙ length-rewritten_nodes graph failed_node_id fallback_objective r.branch_id failed,
      )

  -- When the failed node is in the plan and the repair is given a branch, every other node without
  -- dependencies that is not on that branch is in the repaired plan as it was, off the active
  -- branch, and is not ready there, even when it is pending.
  pub replan_local_strands :
      (node : PlanNode)
      → (recovery_branch_id == "") ≡ false
      → Memᴰ node graph.nodes
      → (node.node_id == failed_node_id) ≡ false
      → node.dependencies ≡ []
      → (node.branch_id == recovery_branch_id) ≡ false
      → (repaired : PlanGraph) × ((replan_local env graph failed_node_id fallback_objective
            recovery_branch_id w).0
          ≡ ok repaired)
        × Memᴰ node repaired.nodes
        × (is_ready repaired node ≡ false)
  unfolding replanned
  replan_local_strands node given m other root off =
      let r =
        repair_lem env graph failed_node_id fallback_objective recovery_branch_id w failed found in
      let nodes = rewritten_nodes graph failed_node_id fallback_objective r.branch_id failed in
      let off_active : (node.branch_id == r.branch_id) ≡ false = rw (r.given given) off in
      (
        replanned graph failed_node_id r.branch_id failed r.after,
        r.returned,
        spread-mem (recovery_id failed_node_id) r.branch_id node
            (root-Stays (recovery_id failed_node_id) r.branch_id node root) (length nodes + 1) nodes
            r.after
            (rewritten_nodes-mem graph failed_node_id fallback_objective r.branch_id failed node
              other root m)
            r.spread_to,
        ground (arith, off_active),
      )

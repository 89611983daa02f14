-- ===== src/Planning/Replan/Shape.antt =====
-- The plan that `replan_local` returns.
use Prim.Native.String.{count}
use text.Mathlib.TextLemmas.{length-append as count-append}
use contract_evidence_os.Prelude.{
  ◌+◌, String, ◌≡◌, refl, sym, ◌∙◌, ap, false, some, List, [], ◌∷◌, ◌==◌, ==_ne, eq_iff, arith,
  length, if◌then◌else◌, Bool-cases, inl, inr, ◌⊎◌, All, Memᴰ, map, contains, first,
}
use contract_evidence_os.Base.Exec.{Env, World, Result, ok}
use contract_evidence_os.Planning.Models.{PlanNode, PlanGraph}
use contract_evidence_os.Planning.Replan.{
  mark_failed, recovery_id, rewrite_node, follows, moves, spread, rewritten_nodes, replanned,
  replan_with, branch_or_new, replan_local,
}
use contract_evidence_os.Planning.Replan.Spread.{off_branch-le, Stays, spread_ends}

-- The node is the recovery node, or on the active branch, or depends on nothing there.
abbrev pub IsSettled : String → PlanGraph → PlanNode → Type 0
IsSettled failed_node_id graph node =
    (node.node_id ≡ recovery_id failed_node_id)
    ⊎ (node.branch_id ≡ graph.active_branch_id)
    ⊎ (follows (recovery_id failed_node_id) graph.active_branch_id graph.nodes node ≡ false)

pub Stays-IsSettled :
    (failed_node_id branch_id : String) (nodes : List PlanNode) (node : PlanNode)
    → Stays (recovery_id failed_node_id) branch_id nodes node
    → (node.node_id ≡ recovery_id failed_node_id)
      ⊎ (node.branch_id ≡ branch_id)
      ⊎ (follows (recovery_id failed_node_id) branch_id nodes node ≡ false)
unfolding moves
Stays-IsSettled failed_node_id branch_id nodes node h =
    ground
      (arith, eq_iff node.node_id (recovery_id failed_node_id), eq_iff node.branch_id branch_id)

recovery_id-ne : (id : String) → (recovery_id id == id) ≡ false
recovery_id-ne id = ==_ne (recovery_id id) id (λ e.
    let same : count id + 9 ≡ count id = sym (count-append id "-recovery") ∙ ap count e in
    absurd (omega arith))

-- No dependency of the node is the failed node.
abbrev pub IsDetached : String → PlanNode → Type 0
IsDetached failed_node_id node = contains failed_node_id node.dependencies ≡ false

renamed-lacks :
    (id : String) (dependencies : List String)
    → contains id (map (λ d. if d == id then recovery_id id else d) dependencies) ≡ false
unfolding contains
renamed-lacks id [] = refl
renamed-lacks id (d ∷ ds) = elim (Bool-cases (d == id)) [
  | inl t ↦ rw (t, recovery_id-ne id) (renamed-lacks id ds)
  | inr f ↦ rw (f, f) (renamed-lacks id ds)
]

pub rewrite_node-IsDetached :
    (failed_node_id active branch_id : String) (node : PlanNode)
    → IsDetached failed_node_id (rewrite_node failed_node_id active branch_id node)
unfolding rewrite_node
rewrite_node-IsDetached failed_node_id active branch_id node =
    elim (Bool-cases (contains failed_node_id node.dependencies)) [
      | inl t ↦ rw t (renamed-lacks failed_node_id node.dependencies)
      | inr f ↦ rw f f
    ]

pub All-mapped {κ} :
    (P : PlanNode → Type κ) (f : PlanNode → PlanNode)
    → ((n : PlanNode) → P (f n))
    → (nodes : List PlanNode) → All P (map f nodes)
All-mapped P f h [] = tt
All-mapped P f h (n ∷ nodes) = (h n, All-mapped P f h nodes)

pub length-map :
    (f : PlanNode → PlanNode) (nodes : List PlanNode) → length (map f nodes) ≡ length nodes
length-map f [] = refl
length-map f (n ∷ nodes) = omega (arith, length-map f nodes)

pub length-mark_failed :
    (id : String) (nodes : List PlanNode) → length (mark_failed id nodes) ≡ length nodes
unfolding mark_failed
length-mark_failed id [] = refl
length-mark_failed id (n ∷ nodes) = ground (arith, length-mark_failed id nodes)

pub mem-mark_failed :
    (id : String) (nodes : List PlanNode) {node : PlanNode}
    → (node.node_id == id) ≡ false
    → Memᴰ node nodes
    → Memᴰ node (mark_failed id nodes)
unfolding mark_failed
mem-mark_failed id [] h m = elim m [ ]
mem-mark_failed id (n ∷ nodes) {node} h (Memᴰ.head e) = elim (Bool-cases (n.node_id == id)) [
  | inl t ↦ absurd (let same = ap (λ z. z.node_id == id) e in cc)
  | inr f ↦ rw f (Memᴰ.head e)
]
mem-mark_failed id (n ∷ nodes) h (Memᴰ.tail m) = elim (Bool-cases (n.node_id == id)) [
  | inl t ↦ rw t (Memᴰ.tail m)
  | inr f ↦ rw f (Memᴰ.tail (mem-mark_failed id nodes h m))
]

branch_or_new_lem :
    {S : Type 0} (env : Env) (branch_id : String) (w : World S)
    → (b : String) × (w' : World S) × (branch_or_new env branch_id w ≡ (ok b, w'))
      × ((branch_id == "") ≡ false → b ≡ branch_id)
branch_or_new_lem env branch_id w = elim (Bool-cases (branch_id == "")) [
  | inl t ↦ rw t (_, _, refl, λ h. absurd (cc))
  | inr f ↦ rw f (branch_id, w, refl, λ h. refl)
]

module _ {S : Type 0} (env : Env) (graph : PlanGraph) (failed_node_id fallback_objective : String)
    (recovery_branch_id : String) (w : World S) (failed : PlanNode)
    (found : first (λ node. node.node_id == failed_node_id) graph.nodes ≡ some failed) where
  -- What the repair returns, and how it comes by it.
  pub record IsRepair (result : Result PlanGraph × World S) : Type 0 where
    pub branch_id : String
    pub after : List PlanNode
    pub returned : result.0 ≡ ok (replanned graph failed_node_id branch_id failed after)
    pub spread_to :
        spread
          (recovery_id failed_node_id)
          branch_id
          (length (rewritten_nodes graph failed_node_id fallback_objective branch_id failed) + 1)
          (rewritten_nodes graph failed_node_id fallback_objective branch_id failed)
        ≡ some after
    pub settled : All (Stays (recovery_id failed_node_id) branch_id after) after
    pub given : (recovery_branch_id == "") ≡ false → branch_id ≡ recovery_branch_id

  replan_with_lem :
      (branch_id : String) (after : List PlanNode) (v : World S)
      → spread
          (recovery_id failed_node_id)
          branch_id
          (length (rewritten_nodes graph failed_node_id fallback_objective branch_id failed) + 1)
          (rewritten_nodes graph failed_node_id fallback_objective branch_id failed)
        ≡ some after
      → replan_with graph failed_node_id fallback_objective branch_id (some failed) v
        ≡ (ok (replanned graph failed_node_id branch_id failed after), v)
  unfolding replan_with
  replan_with_lem branch_id after v s = rw (s, replan_with) refl

  pub repair_lem :
      IsRepair (replan_local env graph failed_node_id fallback_objective recovery_branch_id w)
  unfolding replan_local
  repair_lem =
      let (b, w', e, given) = branch_or_new_lem env recovery_branch_id w in
      let nodes = rewritten_nodes graph failed_node_id fallback_objective b failed in
      let le = off_branch-le (recovery_id failed_node_id) b nodes in
      let (after, s, settled) =
        spread_ends (recovery_id failed_node_id) b (length nodes + 1) nodes (omega arith) in
      let returned = replan_with_lem b after w' s in
      rw (e, found, returned)
        (record {
          branch_id = b;
          after = after;
          returned = refl;
          spread_to = s;
          settled = settled;
          given = given;
        })

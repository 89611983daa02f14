-- ===== src/Planning/Schedule/Approval.antt =====
-- A node that needs an approval is not completed without one.
use contract_evidence_os.Prelude.{
  ℕ, zero, suc, String, ◌≡◌, refl, ap, ◌∙◌, Bool, true, false, ◌&&◌, ◌||◌, not, List, [], ◌∷◌, ◌==◌,
  eq_iff, arith, Bool-cases, Option-cases, inl, inr, All, All-mem, Memᴰ, map, all, any, contains,
  first, first-none, is_some, mem-select, mem-sort_by,
}
use contract_evidence_os.Planning.Models.{PlanNode, PlanGraph, ApprovalRequest}
use contract_evidence_os.Planning.Schedule.{
  is_completed, is_ready, runs_before, ready_nodes, is_finished, select_batch, mark_completed,
  mark_blocked, has_request, release_approved, is_cleared, Execution, running, ended, plan_of,
  run_batch, run_ready, run_round, run_rounds,
}
use contract_evidence_os.Planning.Schedule.Batch.{mem-select_batch}

-- A node of the name needs an approval, and is not done.
abbrev pub is_gated : String → PlanNode → Bool
is_gated id node =
    not (node.node_id == id) || (is_some node.approval_gate && not (is_completed node))

-- The nodes of the name, of which there is one, need an approval and are not done.
abbrev pub IsWithheld : String → List PlanNode → Type 0
IsWithheld id nodes =
    All (λ n. is_gated id n ≡ true) nodes × (any (λ n. n.node_id == id) nodes ≡ true)

withheld-unfinished :
    (id : String) (nodes : List PlanNode) → IsWithheld id nodes → all is_completed nodes ≡ false
unfolding all any
withheld-unfinished id [] (g, e) = absurd (cc)
withheld-unfinished id (node ∷ nodes) ((g, gs), e) = elim (Bool-cases (node.node_id == id)) [
  | inl t ↦ ground arith
  | inr f ↦ ground (arith, withheld-unfinished id nodes (gs, ground arith))
]

gated-release :
    (requests : List ApprovalRequest) (id : String) (nodes : List PlanNode)
    → All (λ n. is_gated id n ≡ true) nodes
    → All (λ n. is_gated id n ≡ true) (release_approved requests nodes)
unfolding release_approved
gated-release requests id [] g = tt
gated-release requests id (node ∷ nodes) (g, gs) =
    let rest = gated-release requests id nodes gs in
    elim (Bool-cases (
      not (node.node_id == "")
      && has_request "approved" requests node.node_id
      && node.status == "blocked")) [ inl t ↦ rw t (ground arith, rest) | inr f ↦ rw f (g, rest) ]

named-release :
    (requests : List ApprovalRequest) (id : String) (nodes : List PlanNode)
    → any (λ n. n.node_id == id) (release_approved requests nodes)
      ≡ any (λ n. n.node_id == id) nodes
unfolding release_approved any
named-release requests id [] = refl
named-release requests id (node ∷ nodes) =
    elim (Bool-cases (
      not (node.node_id == "")
      && has_request "approved" requests node.node_id
      && node.status == "blocked")) [
        | inl t ↦ rw t (ap (λ z. node.node_id == id || z) (named-release requests id nodes))
        | inr f ↦ rw f (ap (λ z. node.node_id == id || z) (named-release requests id nodes))
      ]

gated-mark_blocked :
    (node_id id : String) (nodes : List PlanNode)
    → All (λ n. is_gated id n ≡ true) nodes
    → All (λ n. is_gated id n ≡ true) (mark_blocked node_id nodes)
unfolding mark_blocked
gated-mark_blocked node_id id [] g = tt
gated-mark_blocked node_id id (node ∷ nodes) (g, gs) =
    let rest = gated-mark_blocked node_id id nodes gs in
    elim (Bool-cases (node.node_id == node_id)) [
      | inl t ↦ rw t (ground arith, rest)
      | inr f ↦ rw f (g, rest)
    ]

named-mark_blocked :
    (node_id id : String) (nodes : List PlanNode)
    → any (λ n. n.node_id == id) (mark_blocked node_id nodes) ≡ any (λ n. n.node_id == id) nodes
unfolding mark_blocked any
named-mark_blocked node_id id [] = refl
named-mark_blocked node_id id (node ∷ nodes) = elim (Bool-cases (node.node_id == node_id)) [
  | inl t ↦ rw t (ap (λ z. node.node_id == id || z) (named-mark_blocked node_id id nodes))
  | inr f ↦ rw f (ap (λ z. node.node_id == id || z) (named-mark_blocked node_id id nodes))
]

gated-mark_completed :
    (ids : List String) (id : String) (nodes : List PlanNode)
    → contains id ids ≡ false
    → All (λ n. is_gated id n ≡ true) nodes
    → All (λ n. is_gated id n ≡ true) (mark_completed ids nodes)
unfolding mark_completed
gated-mark_completed ids id [] c g = tt
gated-mark_completed ids id (node ∷ nodes) c (g, gs) =
    let rest = gated-mark_completed ids id nodes c gs in
    elim (Bool-cases (contains node.node_id ids)) [
      | inl t ↦ elim (Bool-cases (node.node_id == id)) [
        | inl e ↦ absurd (let c' = ap (λ z. contains z ids) ((eq_iff node.node_id id).0 e) in cc)
        | inr f ↦ rw t (ground arith, rest)
      ]
      | inr f ↦ rw f (g, rest)
    ]

named-mark_completed :
    (ids : List String) (id : String) (nodes : List PlanNode)
    → any (λ n. n.node_id == id) (mark_completed ids nodes) ≡ any (λ n. n.node_id == id) nodes
unfolding mark_completed any
named-mark_completed ids id [] = refl
named-mark_completed ids id (node ∷ nodes) = elim (Bool-cases (contains node.node_id ids)) [
  | inl t ↦ rw t (ap (λ z. node.node_id == id || z) (named-mark_completed ids id nodes))
  | inr f ↦ rw f (ap (λ z. node.node_id == id || z) (named-mark_completed ids id nodes))
]

module _ (mode_name : String) (task_cap : ℕ) (requests : List ApprovalRequest) (id : String)
    (unapproved : has_request "approved" requests id ≡ false) where
  -- A batch that may run does not contain the node.
  not_in_batch :
      (batch : List PlanNode)
      → ((n : PlanNode) → Memᴰ n batch → is_gated id n ≡ true)
      → ((n : PlanNode) → Memᴰ n batch → not (is_cleared requests n) ≡ false)
      → contains id (map (λ (n : PlanNode). n.node_id) batch) ≡ false
  unfolding contains is_cleared
  not_in_batch [] g c = refl
  not_in_batch (node ∷ batch) g c = elim (Bool-cases (node.node_id == id)) [
    | inl t ↦ absurd (
        let same = ap (λ z. has_request "approved" requests z) ((eq_iff node.node_id id).0 t) in
        ground (arith, g node (Memᴰ.head refl), c node (Memᴰ.head refl), same ∙ unapproved))
    | inr f ↦ rw f (not_in_batch batch (λ n m. g n (Memᴰ.tail m)) (λ n m. c n (Memᴰ.tail m)))
  ]

  run_batch-IsWithheld :
      (plan : PlanGraph) (batch : List PlanNode)
      → IsWithheld id plan.nodes
      → ((n : PlanNode) → Memᴰ n batch → Memᴰ n plan.nodes)
      → IsWithheld id
          (plan_of
            (run_batch requests plan batch (first (λ n. not (is_cleared requests n)) batch))).nodes
  unfolding run_batch
  run_batch-IsWithheld plan batch (g, e) i =
      elim (Option-cases (first (λ n. not (is_cleared requests n)) batch)) [
        | inl none_waits ↦
            let absent =
              not_in_batch batch (λ n m. All-mem (λ n. is_gated id n ≡ true) plan.nodes g (i n m))
                (λ n m. first-none (λ n. not (is_cleared requests n)) batch none_waits m) in
            rw none_waits (
              gated-mark_completed _ id plan.nodes absent g,
              named-mark_completed _ id plan.nodes ∙ e,
            )
        | inr (n, waits) ↦ elim (Bool-cases (has_request "denied" requests n.node_id)) [
          | inl t ↦ rw (waits, t) (g, e)
          | inr f ↦
              rw (waits, f)
                (
                  gated-mark_blocked n.node_id id plan.nodes g,
                  named-mark_blocked n.node_id id plan.nodes ∙ e,
                )
        ]
      ]

  run_ready-IsWithheld :
      (plan : PlanGraph) (ready : List PlanNode)
      → IsWithheld id plan.nodes
      → ((n : PlanNode) → Memᴰ n ready → Memᴰ n plan.nodes)
      → IsWithheld id (plan_of (run_ready mode_name task_cap requests plan ready)).nodes
  unfolding run_ready
  run_ready-IsWithheld plan [] h i = h
  run_ready-IsWithheld plan (x ∷ xs) h i =
      run_batch-IsWithheld plan (select_batch mode_name task_cap (x ∷ xs)) h
        (λ n m. i n (mem-select_batch mode_name task_cap (x ∷ xs) m))

  run_round-IsWithheld :
      (plan : PlanGraph)
      → IsWithheld id plan.nodes
      → IsWithheld id (plan_of (run_round mode_name task_cap requests plan)).nodes
  unfolding run_round ready_nodes
  run_round-IsWithheld plan (g, e) =
      let released : PlanGraph = record plan { nodes = release_approved requests plan.nodes } in
      let h : IsWithheld id released.nodes =
        (gated-release requests id plan.nodes g, named-release requests id plan.nodes ∙ e) in
      elim (Bool-cases (is_finished released)) [
        | inl t ↦ rw t h
        | inr f ↦ rw f (
            run_ready-IsWithheld released (ready_nodes released) h (λ n m.
              (mem-select (is_ready released) released.nodes (mem-sort_by runs_before _ m)).0))
      ]

  -- A plan with a node that needs an approval, has none, and is not done, is not finished after any
  -- number of rounds.
  pub withheld_forever :
      (rounds : ℕ) (execution : Execution)
      → IsWithheld id (plan_of execution).nodes
      → is_finished (plan_of (run_rounds mode_name task_cap requests rounds execution)) ≡ false
  unfolding run_rounds is_finished
  withheld_forever zero (running plan) h = withheld-unfinished id plan.nodes h
  withheld_forever zero (ended status plan) h = withheld-unfinished id plan.nodes h
  withheld_forever (suc rounds) (ended status plan) h = withheld-unfinished id plan.nodes h
  withheld_forever (suc rounds) (running plan) h =
      withheld_forever rounds (run_round mode_name task_cap requests plan)
        (run_round-IsWithheld plan h)

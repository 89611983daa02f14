-- ===== src/Planning/Schedule/Rounds.antt =====
-- The rounds of the loop of `execute_plan`: each keeps the shape of the plan, and completes a node.
use contract_evidence_os.Prelude.{
  head-Mem, ℕ, zero, suc, ◌+◌, ◌≤◌, ◌<◌, String, ◌≡◌, refl, subst, true, false, some, List, [], ◌∷◌,
  ◌==◌, ==_refl, eq_iff, arith, length, if◌then◌else◌, Bool-cases, inl, inr, All, Memᴰ, mem-map,
  contains_mem, all, contains, select-mem, sort_by-mem, mem-sort_by, mem-select, head?,
  Option-cases, none, first, first-some, All-mem, map, not,
}
use contract_evidence_os.Planning.Models.{PlanNode, PlanGraph, ApprovalRequest}
use contract_evidence_os.Planning.Schedule.{
  is_completed, is_ready, ready_nodes, is_finished, select_batch, mark_completed, run_round,
  run_rounds, runs_before, release_approved, is_cleared, Execution, running, ended, plan_of,
  run_batch, run_ready,
}
use contract_evidence_os.Planning.Schedule.Batch.{mem-select_batch}
use contract_evidence_os.Planning.Schedule.Progress.{IsLayered, IsRunnable, some_ready}

mark_completed-IsLayered :
    (ids seen : List String) (nodes : List PlanNode)
    → IsLayered seen nodes
    → IsLayered seen (mark_completed ids nodes)
unfolding mark_completed
mark_completed-IsLayered ids seen [] l = tt
mark_completed-IsLayered ids seen (node ∷ nodes) (h, l) =
    let rest = mark_completed-IsLayered ids (node.node_id ∷ seen) nodes l in
    elim (Bool-cases (contains node.node_id ids)) [
      | inl t ↦ rw t (h, rest)
      | inr f ↦ rw f (h, rest)
    ]

mark_completed-IsRunnable :
    (ids : List String) (branch_id : String) (nodes : List PlanNode)
    → All (IsRunnable branch_id) nodes
    → All (IsRunnable branch_id) (mark_completed ids nodes)
unfolding mark_completed
mark_completed-IsRunnable ids branch_id [] r = tt
mark_completed-IsRunnable ids branch_id (node ∷ nodes) (h, r) =
    let rest = mark_completed-IsRunnable ids branch_id nodes r in
    elim (Bool-cases (contains node.node_id ids)) [
      | inl t ↦ rw t ((h.0, inr refl), rest)
      | inr f ↦ rw f (h, rest)
    ]

-- The nodes that are not completed.
abbrev pub unfinished : List PlanNode → ℕ
unfinished [] = 0
unfinished (node ∷ nodes) = (if is_completed node then 0 else 1) + unfinished nodes

unfinished-le : (nodes : List PlanNode) → unfinished nodes ≤ length nodes
unfinished-le [] = omega arith
unfinished-le (node ∷ nodes) = ground (arith, unfinished-le nodes)

unfinished_none : (nodes : List PlanNode) → unfinished nodes ≤ 0 → all is_completed nodes ≡ true
unfolding all
unfinished_none [] h = refl
unfinished_none (node ∷ nodes) h = ground (arith, unfinished_none nodes (ground arith))

all-unfinished : (nodes : List PlanNode) → all is_completed nodes ≡ true → unfinished nodes ≤ 0
unfolding all
all-unfinished [] h = omega arith
all-unfinished (node ∷ nodes) h = ground (arith, all-unfinished nodes (ground arith))

unfinished-mark_completed :
    (ids : List String) (nodes : List PlanNode)
    → unfinished (mark_completed ids nodes) ≤ unfinished nodes
unfolding mark_completed
unfinished-mark_completed ids [] = omega arith
unfinished-mark_completed ids (node ∷ nodes) =
    ground (arith, unfinished-mark_completed ids nodes, ==_refl "completed")

mark_completed_fewer :
    (ids : List String) (nodes : List PlanNode) (node : PlanNode)
    → Memᴰ node nodes
    → is_completed node ≡ false
    → contains node.node_id ids ≡ true
    → unfinished (mark_completed ids nodes) < unfinished nodes
unfolding mark_completed
mark_completed_fewer ids [] node m h c = elim m [ ]
mark_completed_fewer ids (x ∷ nodes) node (Memᴰ.head e) h c =
    let h' : is_completed x ≡ false = subst (λ z. is_completed z ≡ false) e h in
    let c' : contains x.node_id ids ≡ true = subst (λ z. contains z.node_id ids ≡ true) e c in
    rw (c', h') (omega (arith, unfinished-mark_completed ids nodes))
mark_completed_fewer ids (x ∷ nodes) node (Memᴰ.tail m) h c =
    ground (arith, mark_completed_fewer ids nodes node m h c)

head-select_batch :
    (mode_name : String) (task_cap : ℕ) (ready : List PlanNode)
    → head? (select_batch mode_name task_cap ready) ≡ head? ready
unfolding select_batch
head-select_batch mode_name task_cap [] = refl
head-select_batch mode_name task_cap (node ∷ rest) = ground arith

head_of_mem :
    {A : Type 0} (xs : List A) {x : A} → Memᴰ x xs → (y : A) × (head? xs ≡ some y) × Memᴰ y xs
head_of_mem [] m = elim m [ ]
head_of_mem (z ∷ xs) m = (z, refl, Memᴰ.head refl)

pending_unfinished :
    (status : String) → (status == "pending") ≡ true → (status == "completed") ≡ false
pending_unfinished status h = rw ((eq_iff status "pending").0 h) refl

-- A plan none of whose nodes is blocked is not changed by the release of approved nodes.
release_none :
    (requests : List ApprovalRequest) (branch_id : String) (nodes : List PlanNode)
    → All (IsRunnable branch_id) nodes
    → release_approved requests nodes ≡ nodes
unfolding release_approved
release_none requests branch_id [] r = refl
release_none requests branch_id (node ∷ nodes) ((_, s), r) =
    let b : (node.status == "blocked") ≡ false = elim s [
      | inl p ↦ rw ((eq_iff node.status "pending").0 p) refl
      | inr c ↦ rw ((eq_iff node.status "completed").0 c) refl
    ] in
    rw (release_none requests branch_id nodes r) (ground (arith, b))

mark_completed-cleared :
    (requests : List ApprovalRequest) (ids : List String) (nodes : List PlanNode)
    → All (λ n. is_cleared requests n ≡ true) nodes
    → All (λ n. is_cleared requests n ≡ true) (mark_completed ids nodes)
unfolding mark_completed is_cleared
mark_completed-cleared requests ids [] c = tt
mark_completed-cleared requests ids (node ∷ nodes) (h, c) =
    let rest = mark_completed-cleared requests ids nodes c in
    elim (Bool-cases (contains node.node_id ids)) [
      | inl t ↦ rw t (h, rest)
      | inr f ↦ rw f (h, rest)
    ]

module _ (mode_name : String) (task_cap : ℕ) (requests : List ApprovalRequest) where
  -- Every dependency of a node names an earlier node, every node waits on the active branch or is
  -- done, and may run, and at most so many are not done.
  abbrev IsRunning : ℕ → PlanGraph → Type 0
  IsRunning rounds plan =
      IsLayered [] plan.nodes
      × All (IsRunnable plan.active_branch_id) plan.nodes
      × All (λ n. is_cleared requests n ≡ true) plan.nodes
      × (unfinished plan.nodes ≤ rounds)

  -- The execution has finished the plan, or goes on with a plan that is running.
  IsGoingOn : ℕ → Execution → Type 0
  IsGoingOn rounds (running plan) = IsRunning rounds plan
  IsGoingOn rounds (ended status plan) = is_finished plan ≡ true

  no_wait :
      (plan : PlanGraph) (batch : List PlanNode)
      → All (λ n. is_cleared requests n ≡ true) plan.nodes
      → ((n : PlanNode) → Memᴰ n batch → Memᴰ n plan.nodes)
      → first (λ n. not (is_cleared requests n)) batch ≡ none
  no_wait plan batch c i = elim (Option-cases (first (λ n. not (is_cleared requests n)) batch)) [
    | inl e ↦ e
    | inr (n, e) ↦
        let (m, u) = first-some (λ n. not (is_cleared requests n)) batch n e in
        let t = All-mem (λ n. is_cleared requests n ≡ true) plan.nodes c (i n m) in
        absurd (ground (arith, t, u))
  ]

  run_ready-IsGoingOn :
      (rounds : ℕ) (plan : PlanGraph) (ready : List PlanNode)
      → IsRunning (suc rounds) plan
      → ((n : PlanNode) → Memᴰ n ready → Memᴰ n plan.nodes × (is_ready plan n ≡ true))
      → (n : PlanNode) × Memᴰ n ready
      → IsGoingOn rounds (run_ready mode_name task_cap requests plan ready)
  unfolding run_ready run_batch IsGoingOn
  run_ready-IsGoingOn rounds plan [] ok i (n, m) = elim m [ ]
  run_ready-IsGoingOn rounds plan (x ∷ xs) (l, r, c, h) i _ =
      let batch = select_batch mode_name task_cap (x ∷ xs) in
      let ids = map (λ (n : PlanNode). n.node_id) batch in
      let in_plan = λ (n : PlanNode) (m : Memᴰ n batch).
        (i n (mem-select_batch mode_name task_cap (x ∷ xs) m)).0 in
      let (mx, ready) = i x (Memᴰ.head refl) in
      let in_batch = head-Mem batch (head-select_batch mode_name task_cap (x ∷ xs)) in
      let named = contains_mem ids (mem-map (λ (n : PlanNode). n.node_id) batch in_batch) in
      let fewer =
        mark_completed_fewer ids plan.nodes x mx (pending_unfinished x.status (ground arith))
          named in
      rw (no_wait plan batch c in_plan) (
        mark_completed-IsLayered ids [] plan.nodes l,
        mark_completed-IsRunnable ids plan.active_branch_id plan.nodes r,
        mark_completed-cleared requests ids plan.nodes c,
        omega (arith, fewer),
      )

  run_round-IsGoingOn :
      (rounds : ℕ) (plan : PlanGraph)
      → IsRunning (suc rounds) plan
      → IsGoingOn rounds (run_round mode_name task_cap requests plan)
  unfolding run_round is_finished ready_nodes contains IsGoingOn
  run_round-IsGoingOn rounds plan (l, r, c, h) =
      rw (release_none requests plan.active_branch_id plan.nodes r)
        (elim (Bool-cases (all is_completed plan.nodes)) [
          | inl t ↦ rw t t
          | inr u ↦
              let (found, m, ready) =
                some_ready plan [] plan.nodes (λ d h. absurd (cc)) (λ n i. i) l r u in
              rw u (
                run_ready-IsGoingOn rounds plan (ready_nodes plan) (l, r, c, h)
                  (λ n m. mem-select (is_ready plan) plan.nodes (mem-sort_by runs_before _ m))
                  (
                    found,
                    sort_by-mem runs_before _ (select-mem (is_ready plan) plan.nodes m ready),
                  ))
        ])

  finish_lem :
      (rounds : ℕ) (execution : Execution)
      → IsGoingOn rounds execution
      → is_finished (plan_of (run_rounds mode_name task_cap requests rounds execution)) ≡ true
  unfolding run_rounds is_finished IsGoingOn
  finish_lem zero (running plan) (l, r, c, h) = unfinished_none plan.nodes h
  finish_lem zero (ended status plan) h = h
  finish_lem (suc rounds) (ended status plan) h = h
  finish_lem (suc rounds) (running plan) h =
      finish_lem rounds (run_round mode_name task_cap requests plan)
        (run_round-IsGoingOn rounds plan h)

  -- A plan each of whose nodes depends on earlier nodes only, stands on the active branch, waits or
  -- is done, and needs no approval or has one, is finished after as many rounds as it has nodes.
  pub run_rounds_finish :
      (plan : PlanGraph)
      → IsLayered [] plan.nodes
      → All (IsRunnable plan.active_branch_id) plan.nodes
      → All (λ n. is_cleared requests n ≡ true) plan.nodes
      → is_finished
          (plan_of (run_rounds mode_name task_cap requests (length plan.nodes) (running plan)))
        ≡ true
  unfolding IsGoingOn
  run_rounds_finish plan l r c =
      finish_lem (length plan.nodes) (running plan) (l, r, c, unfinished-le plan.nodes)

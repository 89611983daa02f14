-- ===== src/Planning/Schedule/Batch.antt =====
-- The nodes that `_select_ready_batch` runs together.
use contract_evidence_os.Prelude.{
  ℕ, zero, suc, ◌-◌, ◌≤◌, String, ◌≡◌, refl, true, false, ◌&&◌, ◌||◌, List, [], ◌∷◌, ◌==◌, contains,
  arith, length, leb, is_some, if◌then◌else◌, Bool-cases, inl, inr, ◌⊎◌, All, All-map, All-mem,
  mem-tail, subst, Memᴰ,
}
use contract_evidence_os.Planning.Models.{PlanNode}
use contract_evidence_os.Planning.Schedule.{join_batch, select_batch}

-- The node needs no approval, and works in the role and the category of the first.
abbrev pub IsAlongside : PlanNode → PlanNode → Type 0
IsAlongside first node =
    (is_some node.approval_gate ≡ false)
    × ((node.role_owner == first.role_owner) ≡ true)
    × ((node.node_category == first.node_category) ≡ true)

-- How many nodes may run together.
abbrev pub batch_room : String → ℕ → ℕ
batch_room mode_name task_cap =
    if contains mode_name ("high_risk" ∷ "verification_heavy" ∷ "degraded" ∷ []) || leb task_cap 1
    then 1
    else task_cap

join_batch-length :
    (room : ℕ) (first : PlanNode) (rest : List PlanNode)
    → length (join_batch room first rest) ≤ room
unfolding join_batch
join_batch-length room first [] = omega arith
join_batch-length zero first (node ∷ rest) = omega arith
join_batch-length (suc room) first (node ∷ rest) =
    ground (arith, join_batch-length room first rest, join_batch-length (suc room) first rest)

abbrev pub IsJoined : PlanNode → List PlanNode → PlanNode → Type 0
IsJoined first rest node = Memᴰ node rest × IsAlongside first node

later-IsJoined :
    (first next : PlanNode) (rest xs : List PlanNode)
    → All (IsJoined first rest) xs
    → All (IsJoined first (next ∷ rest)) xs
later-IsJoined first next rest xs h = All-map (λ n (m, a). (Memᴰ.tail m, a)) xs h

join_batch-IsJoined :
    (room : ℕ) (first : PlanNode) (rest : List PlanNode)
    → All (IsJoined first rest) (join_batch room first rest)
unfolding join_batch
join_batch-IsJoined room first [] = tt
join_batch-IsJoined zero first (node ∷ rest) = tt
join_batch-IsJoined (suc room) first (node ∷ rest) =
    let skipped = later-IsJoined first node rest _ (join_batch-IsJoined (suc room) first rest) in
    let joined = later-IsJoined first node rest _ (join_batch-IsJoined room first rest) in
    elim (Bool-cases (is_some node.approval_gate)) [
      | inl g ↦ rw (g) skipped
      | inr n ↦
          elim (Bool-cases
            (node.role_owner == first.role_owner && node.node_category == first.node_category)) [
              | inl s ↦ rw (n, s) ((Memᴰ.head refl, (n, ground arith, ground arith)), joined)
              | inr d ↦ rw (n, d) skipped
            ]
    ]

-- Of the nodes that are ready, the first is chosen, with at most as many as the mode and the cap
-- allow in all; the others are ready nodes too, need no approval, and share the role and the category
-- of the first, which needs no approval either unless it runs alone.
pub select_batch_together :
    (mode_name : String) (task_cap : ℕ) (first : PlanNode) (rest : List PlanNode)
    → (others : List PlanNode) × (select_batch mode_name task_cap (first ∷ rest) ≡ first ∷ others)
      × (length (first ∷ others) ≤ batch_room mode_name task_cap)
      × All (IsJoined first rest) others
      × ((others ≡ []) ⊎ (is_some first.approval_gate ≡ false))
unfolding select_batch
select_batch_together mode_name task_cap first rest =
    elim (Bool-cases (contains mode_name ("high_risk" ∷ "verification_heavy" ∷ "degraded" ∷ []))) [
      | inl t ↦ rw t ([], refl, omega arith, tt, inl refl)
      | inr f ↦ elim (Bool-cases (leb task_cap 1)) [
        | inl t ↦ rw (f, t) ([], refl, omega arith, tt, inl refl)
        | inr g ↦
            elim (Bool-cases (
              is_some first.approval_gate
              || contains first.node_category
                  ("build" ∷ "verification" ∷ "memory_evolution" ∷ "recovery" ∷ []))) [
                    | inl t ↦ rw (f, g, t) ([], refl, ground arith, tt, inl refl)
                    | inr h ↦
                        rw (f, g, h)
                          (
                            join_batch (task_cap - 1) first rest,
                            refl,
                            ground (arith, join_batch-length (task_cap - 1) first rest),
                            join_batch-IsJoined (task_cap - 1) first rest,
                            inr (ground arith),
                          )
                  ]
      ]
    ]

-- A batch is made of ready nodes.
pub mem-select_batch :
    (mode_name : String) (task_cap : ℕ) (ready : List PlanNode) {n : PlanNode}
    → Memᴰ n (select_batch mode_name task_cap ready)
    → Memᴰ n ready
unfolding select_batch
mem-select_batch mode_name task_cap [] m = m
mem-select_batch mode_name task_cap (first ∷ rest) {n} m =
    let (others, e, _, joined, _) = select_batch_together mode_name task_cap first rest in
    elim (mem-tail (subst (Memᴰ n) e m)) [
      | inl same ↦ Memᴰ.head same
      | inr k ↦ Memᴰ.tail (All-mem (IsJoined first rest) others joined k).0
    ]

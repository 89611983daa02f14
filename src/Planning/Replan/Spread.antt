-- ===== src/Planning/Replan/Spread.antt =====
-- The `while changed` loop of `replan_local` ends, and ends settled.
use contract_evidence_os.Prelude.{
  ℕ, zero, suc, ◌+◌, ◌≤◌, ◌<◌, String, ◌≡◌, refl, sym, ◌∙◌, ap, subst, Bool, true, false, some,
  List, [], ◌∷◌, ◌++◌, ◌==◌, arith, length, if◌then◌else◌, Bool-cases, inl, inr, ◌⊎◌, All,
  All-append, length-append, mem-append_left, mem-append_right, ==_refl, Memᴰ, mem-tail,
}
use mathlib.Core.List.{append_assoc, append-nil}
use mathlib.Core.Option.{some-injective}
use contract_evidence_os.Planning.Models.{PlanNode}
use contract_evidence_os.Planning.Replan.{moves, moved, sweep, spread}

module _ (recovery_node_id branch_id : String) where
  -- The nodes that are not on the recovery branch.
  abbrev pub off_branch : List PlanNode → ℕ
  off_branch [] = 0
  off_branch (node ∷ rest) = (if node.branch_id == branch_id then 0 else 1) + off_branch rest

  pub off_branch-le : (nodes : List PlanNode) → off_branch nodes ≤ length nodes
  off_branch-le [] = omega arith
  off_branch-le (node ∷ rest) = ground (arith, off_branch-le rest)

  off_branch-append :
      (xs ys : List PlanNode) → off_branch (xs ++ ys) ≡ off_branch xs + off_branch ys
  off_branch-append [] ys = omega arith
  off_branch-append (x ∷ xs) ys = omega (arith, off_branch-append xs ys)

  abbrev pub Stays : List PlanNode → PlanNode → Type 0
  Stays nodes node = moves recovery_node_id branch_id nodes node ≡ false

  -- What a round over the last of the nodes does when it changes something, and when it does not.
  abbrev Swept : List PlanNode → List PlanNode → List PlanNode × Bool → Type 0
  Swept visited rest result =
      ((result.1 ≡ true) × (off_branch result.0 < off_branch (visited ++ rest)))
      ⊎ ((result.1 ≡ false) × (result.0 ≡ visited ++ rest) × All (Stays (visited ++ rest)) rest)

  off_branch-moved :
      (nodes : List PlanNode) (node : PlanNode)
      → moves recovery_node_id branch_id nodes node ≡ true
      → (node.branch_id == branch_id) ≡ false
  unfolding moves
  off_branch-moved nodes node h = ground arith

  moved_less :
      (visited rest : List PlanNode) (node : PlanNode)
      → moves recovery_node_id branch_id (visited ++ node ∷ rest) node ≡ true
      → off_branch ((visited ++ moved recovery_node_id branch_id node ∷ []) ++ rest)
        < off_branch (visited ++ node ∷ rest)
  unfolding moved
  moved_less visited rest node h = ground (
    arith,
    off_branch-append (visited ++ moved recovery_node_id branch_id node ∷ []) rest,
    off_branch-append visited (moved recovery_node_id branch_id node ∷ []),
    off_branch-append visited (node ∷ rest),
    off_branch-moved (visited ++ node ∷ rest) node h,
    ==_refl branch_id,
  )

  sweep_lem :
      (visited rest : List PlanNode)
      → Swept visited rest (sweep recovery_node_id branch_id visited rest)
  unfolding sweep
  sweep_lem visited [] = inr (refl, sym (append-nil visited), tt)
  sweep_lem visited (node ∷ rest) =
      elim (Bool-cases (moves recovery_node_id branch_id (visited ++ node ∷ rest) node)) [
        | inl t ↦
            let after = moved recovery_node_id branch_id node in
            let less = moved_less visited rest node t in
            rw t (
              inl (
                refl,
                elim (sweep_lem (visited ++ (after ∷ [])) rest) [
                  | inl (_, lt) ↦ omega arith
                  | inr (_, e, _) ↦ rw e less
                ],
              ))
        | inr f ↦
            let same = append_assoc visited (node ∷ []) rest in
            elim (sweep_lem (visited ++ (node ∷ [])) rest) [
              | inl (t, lt) ↦ rw f (inl (t, rw same at lt))
              | inr (t, e, h) ↦
                  rw f (inr (t, e ∙ same, (refl, subst (λ xs. All (Stays xs) rest) same h)))
            ]
      ]

  -- With more fuel than there are nodes off the branch, the loop ends, and no node that it leaves is
  -- still to move.
  pub spread_ends :
      (fuel : ℕ) (nodes : List PlanNode)
      → off_branch nodes < fuel
      → (after : List PlanNode) × (spread recovery_node_id branch_id fuel nodes ≡ some after)
        × All (Stays after) after
  unfolding spread
  spread_ends zero nodes h = absurd (omega arith)
  spread_ends (suc fuel) nodes h = elim (sweep_lem [] nodes) [
    | inl (t, lt) ↦
        let (after, e, settled) =
          spread_ends fuel (sweep recovery_node_id branch_id [] nodes).0 (omega arith) in
        (after, rw t e, settled)
    | inr (t, e, settled) ↦ (nodes, rw (t, e) refl, settled)
  ]

  -- What moving a node keeps, the loop keeps.
  sweep-All {κ} :
      (P : PlanNode → Type κ)
      → ((n : PlanNode) → P n → P (moved recovery_node_id branch_id n))
      → (visited rest : List PlanNode) → All P visited
      → All P rest
      → All P (sweep recovery_node_id branch_id visited rest).0
  unfolding sweep
  sweep-All P keep visited [] hv h = hv
  sweep-All P keep visited (node ∷ rest) hv (hn, h) =
      elim (Bool-cases (moves recovery_node_id branch_id (visited ++ node ∷ rest) node)) [
        | inl t ↦ rw t (
            sweep-All P keep (visited ++ moved recovery_node_id branch_id node ∷ []) rest
              (All-append P visited _ hv (keep node hn, tt)) h)
        | inr f ↦
            rw f
              (sweep-All P keep (visited ++ node ∷ []) rest (All-append P visited _ hv (hn, tt)) h)
      ]

  pub spread-All {κ} :
      (P : PlanNode → Type κ)
      → ((n : PlanNode) → P n → P (moved recovery_node_id branch_id n))
      → (fuel : ℕ) (nodes after : List PlanNode) → All P nodes
      → spread recovery_node_id branch_id fuel nodes ≡ some after
      → All P after
  unfolding spread
  spread-All P keep zero nodes after h e = absurd (cc)
  spread-All P keep (suc fuel) nodes after h e =
      elim (Bool-cases (sweep recovery_node_id branch_id [] nodes).1) [
        | inl t ↦ spread-All P keep fuel _ after (sweep-All P keep [] nodes tt h) (rw t at e)
        | inr f ↦
            subst (All P) (some-injective _ after (rw f at e)) (sweep-All P keep [] nodes tt h)
      ]

  -- The loop keeps the number of the nodes.
  sweep-length :
      (visited rest : List PlanNode)
      → length (sweep recovery_node_id branch_id visited rest).0 ≡ length visited + length rest
  unfolding sweep
  sweep-length visited [] = omega arith
  sweep-length visited (node ∷ rest) =
      let after = moved recovery_node_id branch_id node in
      elim (Bool-cases (moves recovery_node_id branch_id (visited ++ node ∷ rest) node)) [
        | inl t ↦ rw t (
            omega (
              arith,
              sweep-length (visited ++ after ∷ []) rest,
              length-append visited (after ∷ []),
            ))
        | inr f ↦ rw f (
            omega
              (arith, sweep-length (visited ++ node ∷ []) rest, length-append visited (node ∷ [])))
      ]

  pub spread-length :
      (fuel : ℕ) (nodes after : List PlanNode)
      → spread recovery_node_id branch_id fuel nodes ≡ some after
      → length after ≡ length nodes
  unfolding spread
  spread-length zero nodes after e = absurd (cc)
  spread-length (suc fuel) nodes after e =
      elim (Bool-cases (sweep recovery_node_id branch_id [] nodes).1) [
        | inl t ↦ spread-length fuel _ after (rw t at e) ∙ sweep-length [] nodes ∙ omega arith
        | inr f ↦
            ap length (sym (some-injective _ after (rw f at e)))
            ∙ sweep-length [] nodes
            ∙ omega arith
      ]

  -- A node that never moves is still there in the end.
  sweep-mem :
      (node : PlanNode)
      → ((nodes : List PlanNode) → Stays nodes node)
      → (visited rest : List PlanNode) → Memᴰ node visited ⊎ Memᴰ node rest
      → Memᴰ node (sweep recovery_node_id branch_id visited rest).0
  unfolding sweep
  sweep-mem node never visited [] (inl m) = m
  sweep-mem node never visited [] (inr m) = elim m [ ]
  sweep-mem node never visited (x ∷ rest) (inl m) =
      elim (Bool-cases (moves recovery_node_id branch_id (visited ++ x ∷ rest) x)) [
        | inl t ↦ rw t (
            sweep-mem node never (visited ++ moved recovery_node_id branch_id x ∷ []) rest
              (inl (mem-append_left visited _ m)))
        | inr f ↦
            rw f (sweep-mem node never (visited ++ x ∷ []) rest (inl (mem-append_left visited _ m)))
      ]
  sweep-mem node never visited (x ∷ rest) (inr m) =
      elim (Bool-cases (moves recovery_node_id branch_id (visited ++ x ∷ rest) x)) [
        | inl t ↦ rw t (elim (mem-tail m) [
          | inl e ↦ absurd (let s = never (visited ++ x ∷ rest) in let s' = rw e at s in cc)
          | inr m' ↦
              sweep-mem node never (visited ++ moved recovery_node_id branch_id x ∷ []) rest
                (inr m')
        ])
        | inr f ↦ rw f (elim (mem-tail m) [
          | inl e ↦
              sweep-mem node never (visited ++ x ∷ []) rest
                (inl (mem-append_right visited (Memᴰ.head e)))
          | inr m' ↦ sweep-mem node never (visited ++ x ∷ []) rest (inr m')
        ])
      ]

  pub spread-mem :
      (node : PlanNode)
      → ((nodes : List PlanNode) → Stays nodes node)
      → (fuel : ℕ) (nodes after : List PlanNode) → Memᴰ node nodes
      → spread recovery_node_id branch_id fuel nodes ≡ some after
      → Memᴰ node after
  unfolding spread
  spread-mem node never zero nodes after m e = absurd (cc)
  spread-mem node never (suc fuel) nodes after m e =
      elim (Bool-cases (sweep recovery_node_id branch_id [] nodes).1) [
        | inl t ↦
            spread-mem node never fuel _ after (sweep-mem node never [] nodes (inr m)) (rw t at e)
        | inr f ↦
            subst (Memᴰ node) (some-injective _ after (rw f at e))
              (sweep-mem node never [] nodes (inr m))
      ]

-- ===== src/Planning/Engine/Layers.antt =====
-- The generated plan: every node depends on earlier nodes, and the scheduler finishes it.
use mathlib.Core.List.{◌++◌ as ◌+++◌}
use contract_evidence_os.Prelude.{
  ℕ, ◌+◌, String, ◌≡◌, refl, true, List, [], ◌∷◌, ==_refl, arith, length, All, All-append, all,
  contains, inl, inr, Bool-cases, any, ◌∙◌, false, not, ◌||◌, ◌==◌,
}
use contract_evidence_os.Planning.Models.{PlanNode, ApprovalRequest}
use contract_evidence_os.Planning.Engine.{
  retrieve_id, extract_id, source_nodes, extract_ids, build_node, verify_node, memory_node,
  needs_approval, sources_of, precondition_of, generate,
}
use contract_evidence_os.Planning.Schedule.{
  is_finished, is_cleared, has_request, running, plan_of, run_rounds,
}
use contract_evidence_os.Planning.Schedule.Approval.{is_gated, withheld_forever}
use contract_evidence_os.Base.Text.{decimal, prefix_ne}
use contract_evidence_os.Planning.Schedule.Progress.{IsLayered, IsRunnable, IsWithin}
use contract_evidence_os.Planning.Schedule.Rounds.{run_rounds_finish}

-- The nodes after the sources are layered wherever the extractions are seen.
abbrev IsTail : List String → List String → List PlanNode → Type 0
IsTail seen extracts tail =
    (later : List String)
    → IsWithin seen later
    → all (λ d. contains d later) extracts ≡ true
    → IsLayered later tail

grown-IsWithin :
    (a b : String) (seen later : List String) → IsWithin (a ∷ b ∷ seen) later → IsWithin seen later
unfolding contains
grown-IsWithin a b seen later w d h = w d (ground arith)

source_nodes-IsLayered :
    (precondition : String) (index : ℕ) (sources seen : List String) (tail : List PlanNode)
    → IsTail seen (extract_ids index sources) tail
    → IsLayered seen (source_nodes precondition index sources +++ tail)
unfolding source_nodes extract_ids all contains
source_nodes-IsLayered precondition index [] seen tail h = h seen (λ d c. c) refl
source_nodes-IsLayered precondition index (a ∷ rest) seen tail h =
    let extracted = extract_id index in
    let retrieved = retrieve_id index in
    (
      refl,
      (
        rw (==_refl retrieved) refl,
        source_nodes-IsLayered precondition (index + 1) rest (extracted ∷ retrieved ∷ seen) tail
            (λ later w c.
              h later (grown-IsWithin extracted retrieved seen later w)
                (ground (arith, w extracted (rw (==_refl extracted) refl)))),
      ),
    )

source_nodes-IsRunnable :
    (precondition : String) (index : ℕ) (sources : List String)
    → All (IsRunnable "branch-main") (source_nodes precondition index sources)
unfolding source_nodes
source_nodes-IsRunnable precondition index [] = tt
source_nodes-IsRunnable precondition index (a ∷ rest) =
    ((refl, inl refl), ((refl, inl refl), source_nodes-IsRunnable precondition (index + 1) rest))

source_nodes-cleared :
    (requests : List ApprovalRequest) (precondition : String) (index : ℕ) (sources : List String)
    → All (λ n. is_cleared requests n ≡ true) (source_nodes precondition index sources)
unfolding source_nodes is_cleared
source_nodes-cleared requests precondition index [] = tt
source_nodes-cleared requests precondition index (a ∷ rest) =
    (refl, (refl, source_nodes-cleared requests precondition (index + 1) rest))

abbrev verify_id : String
verify_id = "node-verify-delivery"

source_nodes-gated :
    (precondition : String) (index : ℕ) (sources : List String)
    → All (λ n. is_gated verify_id n ≡ true) (source_nodes precondition index sources)
unfolding source_nodes
source_nodes-gated precondition index [] = tt
source_nodes-gated precondition index (a ∷ rest) = (
  rw (prefix_ne "node-retrieve-source-" (decimal index) verify_id refl) refl,
  (
    rw (prefix_ne "node-extract-source-" (decimal index) verify_id refl) refl,
    source_nodes-gated precondition (index + 1) rest,
  ),
)

any_last :
    (xs ys : List PlanNode)
    → any (λ n. n.node_id == verify_id) ys ≡ true
    → any (λ n. n.node_id == verify_id) (xs +++ ys) ≡ true
unfolding any
any_last [] ys h = h
any_last (x ∷ xs) ys h = ground (arith, any_last xs ys h)

module _ (normalized_goal : String) (attachments : List String) (mode_name : String) (task_cap : ℕ)
    (requests : List ApprovalRequest) where
  abbrev sources : List String
  sources = sources_of attachments

  abbrev earlier : List PlanNode
  earlier = source_nodes (precondition_of attachments) 0 sources

  abbrev last : List PlanNode
  last =
      build_node (extract_ids 0 sources)
      ∷ verify_node (needs_approval normalized_goal)
      ∷ memory_node
      ∷ []

  approved_finishes :
      is_cleared requests (verify_node (needs_approval normalized_goal)) ≡ true
      → is_finished (
          plan_of (
            run_rounds mode_name task_cap requests
              (length (generate normalized_goal attachments).nodes)
              (running (generate normalized_goal attachments))))
        ≡ true
  unfolding generate all contains is_cleared
  approved_finishes cleared =
      run_rounds_finish mode_name task_cap requests (generate normalized_goal attachments)
        (source_nodes-IsLayered (precondition_of attachments) 0 sources [] last
          (λ later w c. (c, (refl, (refl, tt)))))
        (All-append (IsRunnable "branch-main") earlier last
          (source_nodes-IsRunnable (precondition_of attachments) 0 sources)
          ((refl, inl refl), ((refl, inl refl), ((refl, inl refl), tt))))
        (All-append (λ n. is_cleared requests n ≡ true) earlier last
          (source_nodes-cleared requests (precondition_of attachments) 0 sources)
          (refl, (cleared, (refl, tt))))

  unapproved_waits :
      needs_approval normalized_goal ≡ true
      → has_request "approved" requests verify_id ≡ false
      → (rounds : ℕ)
      → is_finished (
          plan_of (
            run_rounds mode_name task_cap requests rounds
              (running (generate normalized_goal attachments))))
        ≡ false
  unfolding generate any
  unapproved_waits needed unapproved rounds =
      withheld_forever mode_name task_cap requests verify_id unapproved rounds
        (running (generate normalized_goal attachments))
        (
          All-append (λ n. is_gated verify_id n ≡ true) earlier last
              (source_nodes-gated (precondition_of attachments) 0 sources)
              (refl, (rw needed refl, (refl, tt))),
          any_last earlier last refl,
        )

  -- In as many rounds as a generated plan has nodes, under fixed approval requests, with every batch
  -- succeeding, the scheduler finishes the plan exactly when the goal needs no approval or a request
  -- for the verification of the delivery is approved, whatever the attachments, the mode and the
  -- concurrency cap.
  pub generate_finishes :
      is_finished (
        plan_of (
          run_rounds mode_name task_cap requests
            (length (generate normalized_goal attachments).nodes)
            (running (generate normalized_goal attachments))))
      ≡ (not (needs_approval normalized_goal)
          || has_request "approved" requests "node-verify-delivery")
  unfolding is_cleared
  generate_finishes = elim (Bool-cases (needs_approval normalized_goal)) [
    | inr free ↦ approved_finishes (rw free refl) ∙ rw free refl
    | inl needed ↦ elim (Bool-cases (has_request "approved" requests verify_id)) [
      | inl t ↦ approved_finishes (rw (needed, t) refl) ∙ rw (needed, t) refl
      | inr f ↦
          unapproved_waits needed f (length (generate normalized_goal attachments).nodes)
          ∙ rw (needed, f) refl
    ]
  ]

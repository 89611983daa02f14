-- ===== src/Contracts/Samples.antt =====
-- The theorem on the lattice at concrete contracts.
use contract_evidence_os.Prelude.{contains, sort_by, String, ◌≡◌, refl, [], ◌∷◌}
use contract_evidence_os.Base.Json.{end}
use contract_evidence_os.Base.Text.{sorted_set}
use contract_evidence_os.Contracts.{inherited_constraints, TaskContract, children, create_root}
use contract_evidence_os.Contracts.Inheritance.{
  Change, apply_all, some_attaches, occurrences, children_are_attached,
}

abbrev contract : String → TaskContract
contract contract_id = record {
  version = "1.0";
  contract_id = contract_id;
  user_goal = "compare the two reports";
  normalized_goal = "compare the two reports";
  deliverables = "summary" ∷ [];
  hard_constraints = "cite sources" ∷ [];
  soft_preferences = [];
  forbidden_actions = "delete" ∷ [];
  success_criteria = [];
  failure_conditions = [];
  evidence_requirements = [];
  risk_level = "low";
  approval_required = [];
  budget_limits = end;
  time_limits = end;
  tool_limits = [];
  uncertainty_tolerance = "low";
  memory_policy = "task";
  checkpoint_policy = "each node";
  evolution_allowed_scope = [];
}

-- The second part is attached twice to the root, and once to the first part.
children_are_attached_example :
    occurrences "part-2" (
      children "root"
        (apply_all
          (Change.attach (contract "root") (contract "part-1")
            ∷ Change.attach (contract "root") (contract "part-2")
            ∷ Change.conflict "part-1"
            ∷ Change.attach (contract "part-1") (contract "part-2")
            ∷ Change.attach (contract "root") (contract "part-2")
            ∷ [])
          (create_root "1.0" (contract "root"))).inheritance)
    ≡ 1
unfolding some_attaches
children_are_attached_example = children_are_attached "root" "part-2" "1.0" (contract "root") (
    Change.attach (contract "root") (contract "part-1")
    ∷ Change.attach (contract "root") (contract "part-2")
    ∷ Change.conflict "part-1"
    ∷ Change.attach (contract "part-1") (contract "part-2")
    ∷ Change.attach (contract "root") (contract "part-2")
    ∷ [])

inherited_constraints_runs :
    inherited_constraints (contract "root") (contract "part-1") ≡ ("cite sources" ∷ [])
unfolding inherited_constraints sorted_set contains sort_by
inherited_constraints_runs = refl

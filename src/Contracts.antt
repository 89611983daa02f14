-- ===== src/Contracts.antt =====
-- The contract lattice of contracts/lattice.py, with the records of contracts/models.py.
pub mod Inheritance
mod Samples
use contract_evidence_os.Prelude.{
  ℕ, String, Bool, Option, none, some, List, [], ◌∷◌, ◌++◌, contains, dict_get, dict_set, or_else,
  if◌then◌else◌,
}
use contract_evidence_os.Base.Json.{Members}
use contract_evidence_os.Base.Text.{sorted_set}

pub record TaskContract : Type 0 where
  pub version : String
  pub contract_id : String
  pub user_goal : String
  pub normalized_goal : String
  pub deliverables : List String
  pub hard_constraints : List String
  pub soft_preferences : List String
  pub forbidden_actions : List String
  pub success_criteria : List String
  pub failure_conditions : List String
  pub evidence_requirements : List String
  pub risk_level : String
  pub approval_required : List String
  pub budget_limits : Members
  pub time_limits : Members
  pub tool_limits : List String
  pub uncertainty_tolerance : String
  pub memory_policy : String
  pub checkpoint_policy : String
  pub evolution_allowed_scope : List String

pub record ContractLattice : Type 0 where
  pub version : String
  pub root_contract_id : String
  pub contract_ids : List String
  pub inheritance : List (String × List String)
  pub conflicts : List String

-- `if x not in xs: xs.append(x)`
unfoldable pub add_new : String → List String → List String
add_new x xs = if contains x xs then xs else xs ++ (x ∷ [])

-- `d.setdefault(k, [])`
unfoldable pub set_default : String → List (String × List String) → List (String × List String)
set_default k d = elim (dict_get k d) [ none ↦ dict_set k [] d | some v ↦ d ]

-- `d[k]`, where `set_default` has put the key into the dict
abbrev pub children : String → List (String × List String) → List String
children k d = or_else (dict_get k d) []

unfoldable pub create_root : String → TaskContract → ContractLattice
create_root version contract = record {
  version = version;
  root_contract_id = contract.contract_id;
  contract_ids = contract.contract_id ∷ [];
  inheritance = (contract.contract_id, []) ∷ [];
  conflicts = [];
}

unfoldable pub attach_subcontract : ContractLattice → TaskContract → TaskContract → ContractLattice
attach_subcontract lattice parent subcontract =
    let inheritance = set_default parent.contract_id lattice.inheritance in
    let held = children parent.contract_id inheritance in
    record lattice {
      contract_ids = add_new subcontract.contract_id lattice.contract_ids;
      inheritance =
          if contains subcontract.contract_id held
          then inheritance
          else dict_set parent.contract_id (held ++ (subcontract.contract_id ∷ [])) inheritance;
    }

unfoldable pub register_conflict : ContractLattice → String → ContractLattice
register_conflict lattice contract_id = record lattice {
  conflicts = add_new contract_id lattice.conflicts;
}

unfoldable pub inherited_constraints : TaskContract → TaskContract → List String
inherited_constraints parent child = sorted_set (parent.hard_constraints ++ child.hard_constraints)

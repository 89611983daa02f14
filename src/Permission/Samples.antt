-- ===== src/Permission/Samples.antt =====
-- The theorems on permissions at a concrete passport.
use contract_evidence_os.Prelude.{◌≡◌, true, false, [], ◌∷◌, contains}
use contract_evidence_os.Base.Json.{end}
use contract_evidence_os.Permission.{CapabilityPassport, risk_order, authorize}
use contract_evidence_os.Permission.Rules.{authorize_rules}

abbrev researcher : CapabilityPassport
researcher = record {
  version = "1.0";
  role_name = "Researcher";
  allowed_tools = "file_retrieval" ∷ "web" ∷ [];
  forbidden_tools = "shell" ∷ [];
  max_risk_level = "moderate";
  approval_scope = [];
  memory_access_scope = [];
  prompt_profile = "research";
  validation_responsibility = "";
  output_schema = end;
}

authorize_rules_example :
    ((authorize researcher "read" "web" "low").allowed ≡ true)
    × ((authorize researcher "read" "web" "low").approval_required ≡ false)
unfolding contains risk_order
authorize_rules_example = authorize_rules researcher "read" "web" "low"

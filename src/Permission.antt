-- ===== src/Permission.antt =====
-- The permission lattice of policy/lattice.py: the passports of the roles, and their authorization.
pub mod Rules
mod Samples
use Prim.Native.String.{◌++◌}
use contract_evidence_os.Prelude.{
  String, Bool, true, false, ◌&&◌, not, Option, none, some, List, [], ◌∷◌, ◌==◌, contains,
  if◌then◌else◌,
}
use contract_evidence_os.Prelude.Int.{ℤ, pos, negsuc, ltb_ℤ}
use contract_evidence_os.Base.Json.{Members}

-- agents/models.py
pub record CapabilityPassport : Type 0 where
  pub version : String
  pub role_name : String
  pub allowed_tools : List String
  pub forbidden_tools : List String
  pub max_risk_level : String
  pub approval_scope : List String
  pub memory_access_scope : List String
  pub prompt_profile : String
  pub validation_responsibility : String
  pub output_schema : Members

pub record AuthorizationOutcome : Type 0 where
  pub allowed : Bool
  pub reason : String
  pub approval_required : Bool

-- `self._risk_order.get(risk_level, default)`
unfoldable pub risk_order : String → ℤ → ℤ
risk_order risk_level default =
    if risk_level == "low"
    then pos 0
    else if risk_level == "moderate"
    then pos 1
    else if risk_level == "high"
    then pos 2
    else default

abbrev refused : String → AuthorizationOutcome
refused reason = record { allowed = false; reason = reason; approval_required = false }

abbrev pub exceeds : String → String → Bool
exceeds risk_level max_risk_level =
    ltb_ℤ (risk_order max_risk_level (negsuc 0)) (risk_order risk_level (pos 99))

unfoldable pub authorize : CapabilityPassport → String → String → String → AuthorizationOutcome
authorize passport action tool_name risk_level =
    if action == "destructive_action"
    then record {
      allowed = false;
      reason = "destructive actions require explicit approval";
      approval_required = true;
    }
    else if contains tool_name passport.forbidden_tools
    then refused (passport.role_name ++ " forbids tool " ++ tool_name)
    else if not (contains tool_name passport.allowed_tools)
    then refused (passport.role_name ++ " is not allowed to use " ++ tool_name)
    else if exceeds risk_level passport.max_risk_level
    then refused ("risk level " ++ risk_level ++ " exceeds passport limit")
    else if not (contains action passport.approval_scope)
        && not (contains action ("read" ∷ "write" ∷ []))
    then refused ("action " ++ action ++ " is outside passport scope")
    else record { allowed = true; reason = "authorized"; approval_required = false }

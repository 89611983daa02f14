-- ===== src/Permission/Rules.antt =====
-- When an action is authorized.
use contract_evidence_os.Prelude.{
  String, ◌≡◌, Bool, false, ◌&&◌, ◌||◌, not, List, [], ◌∷◌, ◌==◌, contains, arith, Bool-cases, inl,
  inr, ◌⊎◌, eq_iff, refl,
}
use contract_evidence_os.Permission.{CapabilityPassport, risk_order, exceeds, authorize}

-- A risk and a limit of the three levels, the risk at most the limit.
abbrev pub is_within_limit : String → String → Bool
is_within_limit risk_level max_risk_level =
    (risk_level == "low"
      && (max_risk_level == "low" || max_risk_level == "moderate" || max_risk_level == "high"))
    || (risk_level == "moderate" && (max_risk_level == "moderate" || max_risk_level == "high"))
    || (risk_level == "high" && max_risk_level == "high")

-- A text is one of the three levels, or differs from each.
level_cases :
    (level : String)
    → (level ≡ "low")
      ⊎ ((level ≡ "moderate")
          ⊎ ((level ≡ "high")
              ⊎ (((level == "low") ≡ false)
                  × ((level == "moderate") ≡ false)
                  × ((level == "high") ≡ false))))
level_cases level = elim (Bool-cases (level == "low")) [
  | inl a ↦ inl ((eq_iff level "low").0 a)
  | inr a ↦ elim (Bool-cases (level == "moderate")) [
    | inl b ↦ inr (inl ((eq_iff level "moderate").0 b))
    | inr b ↦ elim (Bool-cases (level == "high")) [
      | inl c ↦ inr (inr (inl ((eq_iff level "high").0 c)))
      | inr c ↦ inr (inr (inr (a, b, c)))
    ]
  ]
]

-- `exceeds` compares ranks; on names, it is the order low, moderate, high.
exceeds-is_within_limit :
    (risk_level max_risk_level : String)
    → not (exceeds risk_level max_risk_level) ≡ is_within_limit risk_level max_risk_level
unfolding risk_order contains
exceeds-is_within_limit risk_level max_risk_level = elim (level_cases risk_level) [
  | inl r ↦ elim (level_cases max_risk_level) [
    | inl m ↦ rw (r, m) refl
    | inr (inl m) ↦ rw (r, m) refl
    | inr (inr (inl m)) ↦ rw (r, m) refl
    | inr (inr (inr (a, b, c))) ↦ rw (r, a, b, c) refl
  ]
  | inr (inl r) ↦ elim (level_cases max_risk_level) [
    | inl m ↦ rw (r, m) refl
    | inr (inl m) ↦ rw (r, m) refl
    | inr (inr (inl m)) ↦ rw (r, m) refl
    | inr (inr (inr (a, b, c))) ↦ rw (r, a, b, c) refl
  ]
  | inr (inr (inl r)) ↦ elim (level_cases max_risk_level) [
    | inl m ↦ rw (r, m) refl
    | inr (inl m) ↦ rw (r, m) refl
    | inr (inr (inl m)) ↦ rw (r, m) refl
    | inr (inr (inr (a, b, c))) ↦ rw (r, a, b, c) refl
  ]
  | inr (inr (inr (x, y, z))) ↦
      rw (x, y, z)
        (elim (level_cases max_risk_level) [
          | inl m ↦ rw m refl
          | inr (inl m) ↦ rw m refl
          | inr (inr (inl m)) ↦ rw m refl
          | inr (inr (inr (a, b, c))) ↦ rw (a, b, c) refl
        ])
]

-- What the rules ask of an action, a tool and a risk, each on its own.
abbrev pub is_permitted : CapabilityPassport → String → String → String → Bool
is_permitted passport action tool_name risk_level =
    not (action == "destructive_action")
    && contains tool_name passport.allowed_tools
    && not (contains tool_name passport.forbidden_tools)
    && is_within_limit risk_level passport.max_risk_level
    && (contains action passport.approval_scope || contains action ("read" ∷ "write" ∷ []))

-- An action is allowed exactly when it is not destructive, the passport allows the tool and does not
-- forbid it, the risk and the limit of the passport are each one of low, moderate and high, the risk
-- not above the limit in that order, and the action is in its scope or reads or writes; approval is required exactly for destructive actions.
pub authorize_rules :
    (passport : CapabilityPassport) (action tool_name risk_level : String)
    → ((authorize passport action tool_name risk_level).allowed
        ≡ is_permitted passport action tool_name risk_level)
      × ((authorize passport action tool_name risk_level).approval_required
          ≡ (action == "destructive_action"))
unfolding authorize
authorize_rules passport action tool_name risk_level =
    let within = exceeds-is_within_limit risk_level passport.max_risk_level in
    (ground (arith, within), ground arith)

abbrev pub risk_levels : List String
risk_levels = "low" ∷ "moderate" ∷ "high" ∷ []

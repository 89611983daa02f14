-- ===== src/Queue/Admission/Rules.antt =====
-- When `evaluate_admission` admits a queued task.
use contract_evidence_os.Prelude.{
  ◌<◌, String, ◌≡◌, ◌≢◌, refl, ◌↔◌, ◌⊎◌, inl, inr, true, false, not, List, [], ◌∷◌, ◌==◌, eq_iff,
  arith, any, All, or_else, Option-cases, contains,
}
use contract_evidence_os.Base.Float.{float_le}
use contract_evidence_os.Base.Exec.{Env, World, ok}
use contract_evidence_os.Provider.Models.{ProviderHealthRecord, ProviderHealthSnapshot}
use contract_evidence_os.Queue.Models.{
  QueueItem, AdmissionDecision, AdmissionPolicy, CapacitySnapshot,
}
use contract_evidence_os.Queue.Admission.{
  default_admission_policy, provider_available, provider_degraded, admission_verdict,
  evaluate_admission,
}
use contract_evidence_os.Storage.Repository.{Repository, latest_admission_policy}

-- The policy whose thresholds the decision uses.
abbrev pub policy_in_force : Repository → AdmissionPolicy
policy_in_force r = or_else (latest_admission_policy r) (default_admission_policy 0)

abbrev pub AllAvailable : List ProviderHealthRecord → Type 0
AllAvailable = All (λ r. r.availability_state ≡ "available")

-- Background evaluation waits while approvals or the budget are under pressure.
abbrev pub IsHeldBack : AdmissionPolicy → QueueItem → CapacitySnapshot → Type 0
IsHeldBack policy item snapshot =
    (item.priority_class ≡ "background_eval")
    × ((policy.max_pending_approvals < snapshot.approval_backlog)
        ⊎ (float_le policy.budget_pressure_threshold snapshot.budget_pressure ≡ true))

pub record MayAdmit (policy : AdmissionPolicy) (item : QueueItem) (snapshot : CapacitySnapshot)
    (health : ProviderHealthSnapshot) (mode : String) : Type 0 where
  pub not_draining : mode ≢ "drain"
  pub not_in_maintenance : mode ≢ "maintenance"
  pub has_capacity : snapshot.active_tasks < policy.max_active_tasks
  pub not_held_back : ¬ IsHeldBack policy item snapshot
  pub has_provider : health.records ≢ []
  pub safe_if_high :
      (item.risk_level ≢ "high")
      ⊎ (policy.allow_high_risk_when_provider_degraded ≡ true)
      ⊎ AllAvailable health.records

any-AllAvailable :
    (rs : List ProviderHealthRecord)
    → (any (λ r. not (r.availability_state == "available")) rs ≡ false) ↔ AllAvailable rs
unfolding any
any-AllAvailable [] = (λ h. tt, λ h. refl)
any-AllAvailable (r ∷ rs) =
    ground (arith, any-AllAvailable rs, eq_iff r.availability_state "available")

module _ (policy : AdmissionPolicy) (item : QueueItem) (snapshot : CapacitySnapshot)
    (health : ProviderHealthSnapshot) (mode : String) where
  abbrev pub verdict : String
  verdict = (admission_verdict policy item snapshot health mode).0

  -- A task is admitted or deferred; the decision is never a rejection.
  pub verdict-cases : (verdict ≡ "admitted") ⊎ (verdict ≡ "deferred")
  unfolding admission_verdict
  verdict-cases = ground arith

  verdict-MayAdmit : verdict ≡ "admitted" → MayAdmit policy item snapshot health mode
  unfolding admission_verdict provider_available provider_degraded contains
  verdict-MayAdmit h = ground (
    arith,
    eq_iff mode "drain",
    eq_iff mode "maintenance",
    eq_iff "drain" mode,
    eq_iff "maintenance" mode,
    eq_iff item.priority_class "background_eval",
    eq_iff item.risk_level "high",
    eq_iff "deferred" "admitted",
    any-AllAvailable health.records,
  )

  MayAdmit-verdict : MayAdmit policy item snapshot health mode → verdict ≡ "admitted"
  unfolding admission_verdict provider_available provider_degraded contains
  MayAdmit-verdict h = ground (
    arith,
    eq_iff mode "drain",
    eq_iff mode "maintenance",
    eq_iff "drain" mode,
    eq_iff "maintenance" mode,
    eq_iff item.priority_class "background_eval",
    eq_iff item.risk_level "high",
    any-AllAvailable health.records,
  )

  -- The verdict on a task is `admitted` exactly when the system neither drains nor is in maintenance,
  -- capacity is left, the task is not background evaluation that is held back, some provider is
  -- known, and a task of high risk meets a policy that tolerates degraded providers or providers that
  -- are all available.
  pub admitted_iff : (verdict ≡ "admitted") ↔ MayAdmit policy item snapshot health mode
  admitted_iff = (verdict-MayAdmit, MayAdmit-verdict)

module _ (env : Env) (item : QueueItem) (snapshot : CapacitySnapshot)
    (health : ProviderHealthSnapshot) (mode : String) (w : World Repository) where
  -- What one call of `evaluate_admission` returns and leaves.
  pub evaluate_admission_lem :
      (d : AdmissionDecision) × (w' : World Repository) × (evaluate_admission env item snapshot
          health mode w
        ≡ (ok d, w'))
      × (w'.store ≡ w.store)
      × (d.status ≡ verdict (policy_in_force w.store) item snapshot health mode)
  unfolding evaluate_admission admission_verdict
  evaluate_admission_lem = elim (Option-cases (latest_admission_policy w.store)) [
    | inl e ↦ rw e (_, _, refl, refl, refl)
    | inr (p, e) ↦ rw e (_, _, refl, refl, refl)
  ]

-- ===== src/Queue/Admission.antt =====
-- `QueueManager.evaluate_admission` and `QueueManager._priority_score`.
pub mod Rules
use Prim.Native.String.{◌++◌}
use contract_evidence_os.Prelude.{
  ℕ, String, Bool, true, false, ◌&&◌, ◌||◌, not, Option, none, some, List, [], ◌∷◌, ◌==◌, ltb, leb,
  if◌then◌else◌, any, contains, dict_get, or_else,
}
use contract_evidence_os.Prelude.Int.{ℤ, pos, ◌+ℤ◌, ◌-ℤ◌}
use contract_evidence_os.Base.Float.{float_le, float_0_4, float_0_7, float_0_75}
use contract_evidence_os.Base.Json.{boolean, integer, number, end, member}
use contract_evidence_os.Base.Exec.{or_new, Datetime, Env, Exec, pure, gets, new_id, utc_now, ◌>>=◌}
use contract_evidence_os.Provider.Models.{ProviderHealthRecord, ProviderHealthSnapshot}
use contract_evidence_os.Queue.Models.{
  QueueItem, AdmissionDecision, AdmissionPolicy, CapacitySnapshot, QueuePriorityPolicy,
}
use contract_evidence_os.Storage.Repository.{
  Repository, latest_admission_policy, latest_queue_priority_policy,
}

abbrev pub default_admission_policy : Datetime → AdmissionPolicy
default_admission_policy now = record {
  version = "1.0";
  policy_id = "admission-default";
  allow_high_risk_when_provider_degraded = false;
  max_active_tasks = 1;
  max_pending_approvals = 5;
  continuity_fragility_threshold = float_0_75;
  budget_pressure_threshold = float_0_4;
  created_at = now;
}

-- `bool(getattr(provider_health, "records", []))`
unfoldable pub provider_available : ProviderHealthSnapshot → Bool
provider_available health = elim health.records [ [] ↦ false | _ ∷ _ ↦ true ]

unfoldable pub provider_degraded : ProviderHealthSnapshot → Bool
provider_degraded health = any (λ r. not (r.availability_state == "available")) health.records

module _ (policy : AdmissionPolicy) (item : QueueItem) (capacity_snapshot : CapacitySnapshot)
    (provider_health : ProviderHealthSnapshot) (system_mode : String) where
  -- The chain of tests, as `(status, reason)`.
  unfoldable pub admission_verdict : String × String
  admission_verdict =
      if contains system_mode ("drain" ∷ "maintenance" ∷ [])
      then ("deferred", "system mode " ++ system_mode ++ " is deferring queue dispatch")
      else if leb policy.max_active_tasks capacity_snapshot.active_tasks
      then ("deferred", "active task capacity is saturated")
      else if ltb policy.max_pending_approvals capacity_snapshot.approval_backlog
          && item.priority_class == "background_eval"
      then ("deferred", "approval backlog is too high for background work")
      else if float_le policy.budget_pressure_threshold capacity_snapshot.budget_pressure
          && item.priority_class == "background_eval"
      then ("deferred", "budget pressure is reserving capacity for higher-value work")
      else if not (provider_available provider_health)
      then ("deferred", "no compatible providers are currently available")
      else if provider_degraded provider_health
          && item.risk_level == "high"
          && not policy.allow_high_risk_when_provider_degraded
      then ("deferred", "provider degradation blocks high-risk admission")
      else ("admitted", "capacity and provider health allow dispatch")

unfoldable pub evaluate_admission :
    Env
    → QueueItem
    → CapacitySnapshot
    → ProviderHealthSnapshot
    → String
    → Exec Repository AdmissionDecision
evaluate_admission env item capacity_snapshot provider_health system_mode = do
  latest ← gets latest_admission_policy
  policy ← or_new env latest default_admission_policy
  decision_id ← new_id env "admission-"
  created_at ← utc_now env
  let verdict = admission_verdict policy item capacity_snapshot provider_health system_mode
  pure (record {
    version = "1.0";
    decision_id = decision_id;
    queue_item_id = item.queue_item_id;
    task_id = item.task_id;
    status = verdict.0;
    reason = verdict.1;
    active_policy_id = policy.policy_id;
    active_mode = system_mode;
    factors = member "active_tasks" (integer (pos capacity_snapshot.active_tasks)) (
        member "queued_tasks" (integer (pos capacity_snapshot.queued_tasks)) (
          member "approval_backlog" (integer (pos capacity_snapshot.approval_backlog)) (
            member "budget_pressure" (number capacity_snapshot.budget_pressure) (
              member "continuity_fragility" (number item.continuity_fragility)
                (member "provider_degraded" (boolean (provider_degraded provider_health)) end)))));
    created_at = created_at;
  })

-- The weights in force when no priority policy is stored. Its time of creation is never read.
abbrev pub default_priority_policy : QueuePriorityPolicy
default_priority_policy = record {
  version = "1.0";
  policy_id = "priority-default";
  class_weights = ("background_eval", pos 1) ∷ ("standard", pos 10) ∷ ("recovery", pos 30) ∷ [];
  resumed_task_bonus = pos 5;
  stale_continuity_bonus = pos 10;
  recovery_priority_bonus = pos 20;
  high_risk_bonus = pos 15;
  created_at = 0;
}

abbrev bonus : Bool → ℤ → ℤ
bonus b amount = if b then amount else pos 0

unfoldable pub score_under : QueuePriorityPolicy → QueueItem → ℤ
score_under policy item =
    or_else (dict_get item.priority_class policy.class_weights) (pos 5)
    +ℤ item.operator_priority
    +ℤ bonus item.resume_task policy.resumed_task_bonus
    +ℤ bonus (float_le float_0_7 item.continuity_fragility) policy.stale_continuity_bonus
    +ℤ bonus item.recovery_required policy.recovery_priority_bonus
    +ℤ bonus (item.risk_level == "high") policy.high_risk_bonus
    -ℤ pos item.attempt_count

unfoldable pub priority_score : Repository → QueueItem → ℤ
priority_score r item =
    score_under (or_else (latest_queue_priority_policy r) default_priority_policy) item

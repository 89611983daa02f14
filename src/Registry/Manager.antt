-- ===== src/Registry/Manager.antt =====
-- `PolicyRegistryManager` of runtime/policy_registry.py. Its proofs are in the modules below.
pub mod Versions
pub mod Registration
pub mod Promotion
pub mod Gate
pub mod Sole
pub mod Rollback
mod Samples
use Prim.Native.String.{◌++◌}
use contract_evidence_os.Prelude.{
  ℕ, String, Bool, true, false, ◌&&◌, ◌||◌, not, Option, none, some, List, [], ◌∷◌, ◌==◌, eqb,
  if◌then◌else◌, first, contains, dict_get,
}
use contract_evidence_os.Base.Float.{
  Float, Arithmetic, float_lt, float_le, float_0_0, float_1_0, float_1_5,
}
use contract_evidence_os.Base.Json.{Members}
use contract_evidence_os.Base.Exec.{
  Env, Exec, pure, raise, gets, modify, when, for_each, value_error, or_key_error, new_id, utc_now,
  ◌>>=◌, ◌>>◌,
}
use contract_evidence_os.Registry.Models.{
  PolicyScope, PolicyVersion, PolicyEvidenceBundle, PolicyCandidate, PolicyPromotionRun,
  PolicyRollbackRecord, StrategyEvaluationReport,
}
use contract_evidence_os.Storage.Repository.{Repository}
use contract_evidence_os.Storage.Repository.Policies.{
  save_policy_scope, load_policy_scope, save_policy_version, list_policy_versions,
  save_policy_evidence_bundle, save_policy_candidate, load_policy_candidate,
  save_policy_promotion_run, latest_policy_promotion_run, save_policy_rollback_record,
}

-- One round of the loop of `register_policy_version` over the versions of the scope.
unfoldable pub supersede : PolicyVersion → Repository → Repository
supersede version r =
    if version.status == "active"
    then save_policy_version (record version { status = "superseded" }) r
    else r

abbrev pub is_former : PolicyVersion → Bool
is_former version = contains version.status ("superseded" ∷ "rolled_back" ∷ [])

-- `float(report.metrics.get(name, 0.0))`
unfoldable pub metric : String → List (String × Float) → Float
metric name metrics = elim (dict_get name metrics) [ none ↦ float_0_0 | some x ↦ x ]

-- The gain that `evaluate_candidate` computes.
unfoldable pub evaluated_gain : Arithmetic → List (String × Float) → Float
evaluated_gain arithmetic metrics =
    arithmetic.sub
      (arithmetic.add
        (arithmetic.add (metric "provider_pressure_survival_rate" metrics)
          (metric "verified_completion_rate_under_load" metrics))
        (arithmetic.sub float_1_0 (metric "policy_violation_rate" metrics)))
      (metric "queue_latency" metrics)

unfoldable pub regressions_of : List (String × Float) → ℕ
regressions_of metrics =
    if float_le (metric "policy_violation_rate" metrics) float_0_0 then 0 else 1

unfoldable pub has_passed : Arithmetic → List (String × Float) → Bool
has_passed arithmetic metrics =
    float_lt float_1_5 (evaluated_gain arithmetic metrics) && eqb (regressions_of metrics) 0

module _ (env : Env) where
  unfoldable pub register_policy_version :
      String → PolicyScope → Members → String → String → Exec Repository PolicyVersion
  register_policy_version name scope policy_payload summary supersedes_version_id = do
    modify (save_policy_scope scope)
    versions ← gets (list_policy_versions scope.scope_id)
    for_each versions (λ version. modify (supersede version))
    version_id ← new_id env "policy-version-"
    created_at ← utc_now env
    let version : PolicyVersion = record {
      version = "1.0";
      version_id = version_id;
      name = name;
      scope_id = scope.scope_id;
      status = "active";
      policy_payload = policy_payload;
      summary = summary;
      supersedes_version_id = supersedes_version_id;
      created_at = created_at;
    }
    modify (save_policy_version version)
    pure version

  unfoldable pub build_evidence_bundle :
      PolicyScope
      → List String
      → String
      → List (String × Float)
      → Exec Repository PolicyEvidenceBundle
  build_evidence_bundle scope source_refs summary metrics = do
    modify (save_policy_scope scope)
    bundle_id ← new_id env "policy-evidence-"
    created_at ← utc_now env
    let bundle : PolicyEvidenceBundle = record {
      version = "1.0";
      bundle_id = bundle_id;
      scope_id = scope.scope_id;
      source_refs = source_refs;
      summary = summary;
      metrics = metrics;
      created_at = created_at;
    }
    modify (save_policy_evidence_bundle bundle)
    pure bundle

  unfoldable pub propose_candidate_from_evidence :
      String
      → PolicyScope
      → String
      → Members
      → PolicyEvidenceBundle
      → String
      → Exec Repository PolicyCandidate
  propose_candidate_from_evidence name scope base_version_id policy_payload bundle hypothesis = do
    candidate_id ← new_id env "policy-candidate-"
    created_at ← utc_now env
    let candidate : PolicyCandidate = record {
      version = "1.0";
      candidate_id = candidate_id;
      name = name;
      scope_id = scope.scope_id;
      base_version_id = base_version_id;
      policy_payload = policy_payload;
      evidence_bundle_id = bundle.bundle_id;
      hypothesis = hypothesis;
      status = "candidate";
      created_at = created_at;
    }
    modify (save_policy_candidate candidate)
    pure candidate

  unfoldable pub evaluate_candidate :
      Arithmetic → String → StrategyEvaluationReport → Exec Repository PolicyPromotionRun
  evaluate_candidate arithmetic candidate_id report = do
    run_id ← new_id env "policy-promotion-run-"
    created_at ← utc_now env
    let run : PolicyPromotionRun = record {
      version = "1.0";
      run_id = run_id;
      candidate_id = candidate_id;
      status = if has_passed arithmetic report.metrics then "passed" else "failed";
      gain = evaluated_gain arithmetic report.metrics;
      regressions = regressions_of report.metrics;
      summary = "policy candidate evaluation completed";
      report_metrics = report.metrics;
      created_at = created_at;
    }
    modify (save_policy_promotion_run run)
    found ← gets (load_policy_candidate candidate_id)
    candidate ← or_key_error "policy_candidates" found
    let status = if run.status == "passed" then "evaluated" else "rejected"
    modify (save_policy_candidate (record candidate { status = status }))
    pure run

  -- `promote_candidate` from the check of the latest run on.
  unfoldable pub promote_under :
      String → PolicyCandidate → Option PolicyPromotionRun → Exec Repository PolicyPromotionRun
  promote_under candidate_id candidate none =
      raise (value_error ("candidate " ++ candidate_id ++ " has not passed evaluation"))
  promote_under candidate_id candidate (some run) =
      if not (run.status == "passed")
      then raise (value_error ("candidate " ++ candidate_id ++ " has not passed evaluation"))
      else do
        found ← gets (load_policy_scope candidate.scope_id)
        scope ← or_key_error "policy_scopes" found
        version ←
            register_policy_version candidate.name scope candidate.policy_payload
              candidate.hypothesis candidate.base_version_id
        modify (save_policy_candidate (record candidate { status = "promoted" }))
        let promoted = record run {
          status = "promoted";
          summary = "promoted as " ++ version.version_id;
        }
        modify (save_policy_promotion_run promoted)
        pure promoted

  unfoldable pub promote_candidate : String → Exec Repository PolicyPromotionRun
  promote_candidate candidate_id = do
    found ← gets (load_policy_candidate candidate_id)
    candidate ← or_key_error "policy_candidates" found
    latest_run ← gets (latest_policy_promotion_run candidate_id)
    promote_under candidate_id candidate latest_run

  -- `rollback_scope` on the two versions that it finds.
  unfoldable pub rollback_to :
      String
      → String
      → Option PolicyVersion
      → Option PolicyVersion
      → Exec Repository PolicyRollbackRecord
  rollback_to scope_id reason (some active) (some previous) = do
    modify (save_policy_version (record active { status = "rolled_back" }))
    modify (save_policy_version (record previous { status = "active" }))
    rollback_id ← new_id env "policy-rollback-"
    created_at ← utc_now env
    let rollback : PolicyRollbackRecord = record {
      version = "1.0";
      rollback_id = rollback_id;
      scope_id = scope_id;
      previous_version_id = active.version_id;
      restored_version_id = previous.version_id;
      rollback_reason = reason;
      created_at = created_at;
    }
    modify (save_policy_rollback_record rollback)
    pure rollback
  rollback_to scope_id reason none previous =
      raise (value_error ("scope " ++ scope_id ++ " does not have enough history to roll back"))
  rollback_to scope_id reason (some active) none =
      raise (value_error ("scope " ++ scope_id ++ " does not have enough history to roll back"))

  unfoldable pub rollback_scope : String → String → Exec Repository PolicyRollbackRecord
  rollback_scope scope_id reason = do
    versions ← gets (list_policy_versions scope_id)
    rollback_to scope_id reason (first (λ v. v.status == "active") versions)
        (first is_former versions)

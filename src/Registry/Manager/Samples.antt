-- ===== src/Registry/Manager/Samples.antt =====
-- The theorems on the policy registry at a concrete scope with three versions.
use contract_evidence_os.Prelude.{
  String, ◌<◌, ◌≡◌, refl, subst, sym, ap, ◌∙◌, mem-tail, inr, true, false, some, [], ◌∷◌, ◌==◌, ◌⊎◌,
  inl, arith, Memᴰ, select, sort_by, first, contains,
}
use contract_evidence_os.Base.Float.{float_1_0}
use contract_evidence_os.Base.Json.{end}
use contract_evidence_os.Base.Exec.{for_each, World, ok, err, value_error}
use contract_evidence_os.Registry.Models.{
  PolicyScope, PolicyVersion, PolicyCandidate, PolicyPromotionRun, PolicyRollbackRecord,
  StrategyEvaluationReport,
}
use contract_evidence_os.Registry.Manager.{
  supersede, is_former, has_passed, register_policy_version, evaluate_candidate, promote_candidate,
  rollback_scope,
}
use contract_evidence_os.Registry.Manager.Versions.{IsSole, superseded_inactive}
use contract_evidence_os.Registry.Manager.Promotion.{
  AreOlder, IsOnlyActive, promote_candidate_activates,
}
use contract_evidence_os.Registry.Manager.Gate.{promote-evaluate_gate}
use contract_evidence_os.Registry.Manager.Rollback.{IsOldest, rollback_scope_restores}
use contract_evidence_os.Registry.Manager.Sole.{here, next, register, one_active_version}
use contract_evidence_os.Storage.Table.{
  insert_or_replace, delete_row, find_row, order_by_asc, order_by_desc, backwards,
}
use contract_evidence_os.Storage.Repository.{Repository}
use contract_evidence_os.Storage.Repository.Policies.{
  load_policy_scope, save_policy_scope, save_policy_version, list_policy_versions,
  load_policy_candidate, latest_policy_promotion_run,
}
use contract_evidence_os.Samples.{sample_env, rough, empty_repository, world_of}

abbrev sample_scope : PolicyScope
sample_scope = record {
  version = "1.0";
  scope_id = "scope-1";
  scope_type = "routing";
  target_component = "dispatcher";
  constraints = [];
  created_at = 0;
}

-- A version by its identifier, its status and its age.
abbrev sample_version : String → String → PolicyVersion
sample_version version_id status = record {
  version = "1.0";
  version_id = version_id;
  name = "dispatch policy";
  scope_id = "scope-1";
  status = status;
  policy_payload = end;
  summary = "";
  supersedes_version_id = "";
  created_at = 1;
}

abbrev oldest : PolicyVersion
oldest = sample_version "version-1" "superseded"

abbrev middle : PolicyVersion
middle = record (sample_version "version-2" "superseded") { created_at = 2 }

abbrev newest : PolicyVersion
newest = record (sample_version "version-3" "active") { created_at = 3 }

abbrev sample_candidate : PolicyCandidate
sample_candidate = record {
  version = "1.0";
  candidate_id = "candidate-1";
  name = "dispatch policy";
  scope_id = "scope-1";
  base_version_id = "version-3";
  policy_payload = end;
  evidence_bundle_id = "bundle-1";
  hypothesis = "faster dispatch";
  status = "evaluated";
  created_at = 4;
}

abbrev passed_run : PolicyPromotionRun
passed_run = record {
  version = "1.0";
  run_id = "run-1";
  candidate_id = "candidate-1";
  status = "passed";
  gain = float_1_0;
  regressions = 0;
  summary = "policy candidate evaluation completed";
  report_metrics = [];
  created_at = 5;
}

abbrev registry_world : World Repository
registry_world = world_of (record empty_repository {
  policy_scopes = sample_scope ∷ [];
  policy_versions = oldest ∷ middle ∷ newest ∷ [];
  policy_candidates = sample_candidate ∷ [];
  policy_promotion_runs = passed_run ∷ [];
})

candidate_found : load_policy_candidate "candidate-1" registry_world.store ≡ some sample_candidate
unfolding load_policy_candidate find_row
candidate_found = refl

scope_found : load_policy_scope "scope-1" registry_world.store ≡ some sample_scope
unfolding load_policy_scope find_row
scope_found = refl

run_found : latest_policy_promotion_run "candidate-1" registry_world.store ≡ some passed_run
unfolding latest_policy_promotion_run order_by_desc backwards select sort_by
run_found = refl

active_is_newest :
    first (λ v. v.status == "active") (list_policy_versions "scope-1" registry_world.store)
    ≡ some newest
unfolding list_policy_versions order_by_asc select sort_by first
active_is_newest = refl

former_is_oldest :
    first is_former (list_policy_versions "scope-1" registry_world.store) ≡ some oldest
unfolding list_policy_versions order_by_asc select sort_by first contains
former_is_oldest = refl

only_newest :
    (x : PolicyVersion)
    → Memᴰ x registry_world.store.policy_versions
    → x.status ≡ "active"
    → x ≡ newest
only_newest x m a = elim (mem-tail m) [
  | inl e ↦ absurd (superseded_inactive (sym (ap (λ z. z.status) e) ∙ a))
  | inr m' ↦ elim (mem-tail m') [
    | inl e ↦ absurd (superseded_inactive (sym (ap (λ z. z.status) e) ∙ a))
    | inr m'' ↦ elim (mem-tail m'') [ inl e ↦ e | inr n ↦ elim n [ ] ]
  ]
]

versions-IsSole : IsSole registry_world.store.policy_versions
versions-IsSole x y mx my e ax ay = only_newest x mx ax ∙ sym (only_newest y my ay)

-- A second version is registered after a first.
abbrev registers : World Repository → World Repository
registers w = (register_policy_version sample_env "dispatch policy" sample_scope end "" "" w).1

abbrev second_version : PolicyVersion
second_version = record (sample_version "policy-version-b1b1b1b1b1" "active") {
  name = "dispatch policy";
  created_at = 2000000;
}

second_version_stored :
    Memᴰ second_version (registers (registers (world_of empty_repository))).store.policy_versions
unfolding register_policy_version save_policy_scope save_policy_version list_policy_versions
    order_by_asc select sort_by for_each insert_or_replace delete_row supersede
second_version_stored = Memᴰ.tail (Memᴰ.head refl)

one_active_version_example : second_version ≡ second_version
one_active_version_example =
    one_active_version sample_env rough {start = world_of empty_repository}
      {w = registers (registers (world_of empty_repository))} refl
      (next
        (next here (register "dispatch policy" sample_scope end "" "" (world_of empty_repository)))
        (register "dispatch policy" sample_scope end "" "" (registers (world_of empty_repository))))
      second_version second_version second_version_stored second_version_stored refl refl refl

promote_candidate_activates_example :
    (promoted : PolicyPromotionRun) × (version : PolicyVersion) × ((promote_candidate sample_env
        "candidate-1" registry_world).0
      ≡ ok promoted)
    × (promoted.status ≡ "promoted")
    × Memᴰ promoted
        (promote_candidate sample_env "candidate-1" registry_world).1.store.policy_promotion_runs
    × IsOnlyActive "scope-1" version
        (promote_candidate sample_env "candidate-1" registry_world).1.store
    × (version.policy_payload ≡ end)
    × (version.supersedes_version_id ≡ "version-3")
    × (load_policy_candidate "candidate-1"
          (promote_candidate sample_env "candidate-1" registry_world).1.store
        ≡ some (record sample_candidate { status = "promoted" }))
promote_candidate_activates_example =
    promote_candidate_activates sample_env "candidate-1" registry_world sample_candidate
      candidate_found passed_run sample_scope run_found refl scope_found

-- A report that counts one policy violation.
abbrev violating_report : StrategyEvaluationReport
violating_report = record {
  strategy_name = "faster dispatch";
  metrics = ("policy_violation_rate", float_1_0) ∷ [];
  case_results = [];
}

runs_older : AreOlder "candidate-1" (sample_env.clock 0) registry_world.store
runs_older run m e = elim (mem-tail m) [
  | inl same ↦
      subst (λ (z : PolicyPromotionRun). z.created_at < sample_env.clock 0) (sym same) (omega arith)
  | inr n ↦ elim n [ ]
]

promote-evaluate_gate_example :
    ((has_passed rough violating_report.metrics ≡ true)
      × (promoted : PolicyPromotionRun) × ((promote_candidate sample_env "candidate-1"
            (evaluate_candidate sample_env rough "candidate-1" violating_report registry_world).1).0
          ≡ ok promoted))
    ⊎ ((has_passed rough violating_report.metrics ≡ false)
        × (promote_candidate sample_env "candidate-1"
              (evaluate_candidate sample_env rough "candidate-1" violating_report registry_world).1
            ≡ (
              err (value_error "candidate candidate-1 has not passed evaluation"),
              (evaluate_candidate sample_env rough "candidate-1" violating_report registry_world).1,
            )))
promote-evaluate_gate_example =
    promote-evaluate_gate sample_env rough "candidate-1" violating_report registry_world
      sample_candidate sample_scope candidate_found scope_found runs_older

rollback_scope_restores_example :
    (rollback : PolicyRollbackRecord) × ((rollback_scope sample_env "scope-1" "regression"
        registry_world).0
      ≡ ok rollback)
    × (rollback.previous_version_id ≡ "version-3")
    × (rollback.restored_version_id ≡ "version-1")
    × IsOnlyActive "scope-1"
        (record oldest { status = "active" })
        (rollback_scope sample_env "scope-1" "regression" registry_world).1.store
    × IsOldest "scope-1" oldest registry_world.store.policy_versions
rollback_scope_restores_example =
    rollback_scope_restores sample_env "scope-1" "regression" registry_world newest oldest
      versions-IsSole active_is_newest former_is_oldest

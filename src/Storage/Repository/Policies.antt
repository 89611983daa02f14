-- ===== src/Storage/Repository/Policies.antt =====
-- The tables of `SQLiteRepository` that the policy registry uses.
use contract_evidence_os.Prelude.{String, Option, List, ◌==◌, select, head?}
use contract_evidence_os.Storage.Table.{
  find_row, insert_or_replace, order_by_asc, order_by_desc, backwards,
}
use contract_evidence_os.Registry.Models.{
  PolicyScope, PolicyVersion, PolicyEvidenceBundle, PolicyCandidate, PolicyPromotionRun,
  PolicyRollbackRecord,
}
use contract_evidence_os.Storage.Repository.{Repository}

abbrev pub scope_key : PolicyScope → String
scope_key scope = scope.scope_id

abbrev pub version_key : PolicyVersion → String
version_key version = version.version_id

abbrev pub candidate_key : PolicyCandidate → String
candidate_key candidate = candidate.candidate_id

abbrev pub run_key : PolicyPromotionRun → String
run_key run = run.run_id

unfoldable pub save_policy_scope : PolicyScope → Repository → Repository
save_policy_scope scope r = record r {
  policy_scopes = insert_or_replace scope_key scope r.policy_scopes;
}

-- `none` where the code raises `KeyError`, as for the other loads.
unfoldable pub load_policy_scope : String → Repository → Option PolicyScope
load_policy_scope scope_id r = find_row scope_key scope_id r.policy_scopes

unfoldable pub save_policy_version : PolicyVersion → Repository → Repository
save_policy_version version r = record r {
  policy_versions = insert_or_replace version_key version r.policy_versions;
}

unfoldable pub list_policy_versions : String → Repository → List PolicyVersion
list_policy_versions scope_id r =
    order_by_asc (λ v. v.created_at) (select (λ v. v.scope_id == scope_id) r.policy_versions)

unfoldable pub save_policy_evidence_bundle : PolicyEvidenceBundle → Repository → Repository
save_policy_evidence_bundle bundle r = record r {
  policy_evidence_bundles = insert_or_replace (λ b. b.bundle_id) bundle r.policy_evidence_bundles;
}

unfoldable pub save_policy_candidate : PolicyCandidate → Repository → Repository
save_policy_candidate candidate r = record r {
  policy_candidates = insert_or_replace candidate_key candidate r.policy_candidates;
}

unfoldable pub load_policy_candidate : String → Repository → Option PolicyCandidate
load_policy_candidate candidate_id r = find_row candidate_key candidate_id r.policy_candidates

unfoldable pub save_policy_promotion_run : PolicyPromotionRun → Repository → Repository
save_policy_promotion_run run r = record r {
  policy_promotion_runs = insert_or_replace run_key run r.policy_promotion_runs;
}

-- The query reads the index on (candidate_id, created_at) from its end.
unfoldable pub latest_policy_promotion_run : String → Repository → Option PolicyPromotionRun
latest_policy_promotion_run candidate_id r = head? (
    order_by_desc (λ p. p.created_at)
      (backwards (select (λ p. p.candidate_id == candidate_id) r.policy_promotion_runs)))

unfoldable pub save_policy_rollback_record : PolicyRollbackRecord → Repository → Repository
save_policy_rollback_record rollback r = record r {
  policy_rollback_records =
      insert_or_replace (λ b. b.rollback_id) rollback r.policy_rollback_records;
}

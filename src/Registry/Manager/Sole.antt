-- ===== src/Registry/Manager/Sole.antt =====
-- Runs of the registry: whatever its methods do in a row, a scope has at most one active version.
use contract_evidence_os.Prelude.{
  String, ◌≡◌, List, [], Bool-cases, Option-cases, inl, inr, ◌==◌, Memᴰ,
}
use contract_evidence_os.Base.Float.{Float, Arithmetic}
use contract_evidence_os.Base.Json.{Members}
use contract_evidence_os.Base.Exec.{Env, World}
use contract_evidence_os.Registry.Models.{
  PolicyScope, PolicyVersion, PolicyEvidenceBundle, StrategyEvaluationReport,
}
use contract_evidence_os.Registry.Manager.{
  register_policy_version, build_evidence_bundle, propose_candidate_from_evidence,
  evaluate_candidate, promote_under, promote_candidate, rollback_scope,
}
use contract_evidence_os.Registry.Manager.Versions.{IsSole}
use contract_evidence_os.Registry.Manager.Registration.{
  register_policy_version_lem, register_policy_version-IsSole,
}
use contract_evidence_os.Registry.Manager.Rollback.{rollback_scope-IsSole}
use contract_evidence_os.Storage.Repository.{Repository}
use contract_evidence_os.Storage.Repository.Policies.{
  save_policy_scope, load_policy_scope, save_policy_evidence_bundle, save_policy_candidate,
  load_policy_candidate, save_policy_promotion_run, latest_policy_promotion_run,
}

abbrev pub IsSoleIn : Repository → Type 0
IsSoleIn r = IsSole r.policy_versions

module _ (env : Env) (w : World Repository) (sole : IsSoleIn w.store) where
  build_evidence_bundle-IsSole :
      (scope : PolicyScope) (source_refs : List String) (summary : String)
      (metrics : List (String × Float))
      → IsSoleIn (build_evidence_bundle env scope source_refs summary metrics w).1.store
  unfolding build_evidence_bundle save_policy_scope save_policy_evidence_bundle
  build_evidence_bundle-IsSole scope source_refs summary metrics = sole

  propose-IsSole :
      (name : String) (scope : PolicyScope) (base_version_id : String) (policy_payload : Members)
      (bundle : PolicyEvidenceBundle) (hypothesis : String)
      → IsSoleIn
          (propose_candidate_from_evidence env name scope base_version_id policy_payload bundle
            hypothesis w).1.store
  unfolding propose_candidate_from_evidence save_policy_candidate
  propose-IsSole name scope base_version_id policy_payload bundle hypothesis = sole

  evaluate_candidate-IsSole :
      (arithmetic : Arithmetic) (candidate_id : String) (report : StrategyEvaluationReport)
      → IsSoleIn (evaluate_candidate env arithmetic candidate_id report w).1.store
  unfolding evaluate_candidate save_policy_candidate save_policy_promotion_run load_policy_candidate
  evaluate_candidate-IsSole arithmetic candidate_id report =
      elim (Option-cases (load_policy_candidate candidate_id w.store)) [
        | inl e ↦ rw e sole
        | inr (c, e) ↦ rw e sole
      ]

  promote_candidate-IsSole :
      (candidate_id : String) → IsSoleIn (promote_candidate env candidate_id w).1.store
  unfolding promote_candidate promote_under save_policy_candidate save_policy_promotion_run
  promote_candidate-IsSole candidate_id =
      elim (Option-cases (load_policy_candidate candidate_id w.store)) [
        | inl e ↦ rw e sole
        | inr (c, e) ↦ elim (Option-cases (latest_policy_promotion_run candidate_id w.store)) [
          | inl l ↦ rw (e, l) sole
          | inr (run, l) ↦ elim (Bool-cases (run.status == "passed")) [
            | inr f ↦ rw (e, l, f) sole
            | inl p ↦ elim (Option-cases (load_policy_scope c.scope_id w.store)) [
              | inl s ↦ rw (e, l, p, s) sole
              | inr (scope, s) ↦
                  let r =
                    register_policy_version_lem env c.name scope c.policy_payload c.hypothesis
                      c.base_version_id w in
                  rw (e, l, p, s, r.returned)
                    (register_policy_version-IsSole env c.name scope c.policy_payload c.hypothesis
                      c.base_version_id w sole)
            ]
          ]
        ]
      ]

module _ (env : Env) (arithmetic : Arithmetic) where
  -- A call of the registry.
  pub data Step : World Repository → World Repository → Type 0 where
    register :
        (name : String) (scope : PolicyScope) (policy_payload : Members)
        (summary supersedes_version_id : String) (w : World Repository)
        → Step w
            (register_policy_version env name scope policy_payload summary supersedes_version_id
              w).1
    bundle :
        (scope : PolicyScope) (source_refs : List String) (summary : String)
        (metrics : List (String × Float)) (w : World Repository)
        → Step w (build_evidence_bundle env scope source_refs summary metrics w).1
    propose :
        (name : String) (scope : PolicyScope) (base_version_id : String) (policy_payload : Members)
        (evidence : PolicyEvidenceBundle) (hypothesis : String) (w : World Repository)
        → Step w
            (propose_candidate_from_evidence env name scope base_version_id policy_payload evidence
              hypothesis w).1
    evaluate :
        (candidate_id : String) (report : StrategyEvaluationReport) (w : World Repository)
        → Step w (evaluate_candidate env arithmetic candidate_id report w).1
    promote :
        (candidate_id : String) (w : World Repository)
        → Step w (promote_candidate env candidate_id w).1
    rollback :
        (scope_id reason : String) (w : World Repository)
        → Step w (rollback_scope env scope_id reason w).1

  -- Any number of calls, in any order.
  pub data Reach (start : World Repository) : World Repository → Type 0 where
    here : Reach start start
    next : {w w' : World Repository} → Reach start w → Step w w' → Reach start w'

  Step-IsSole : {w w' : World Repository} → Step w w' → IsSoleIn w.store → IsSoleIn w'.store
  Step-IsSole (register name scope payload summary supersedes w) h =
      register_policy_version-IsSole env name scope payload summary supersedes w h
  Step-IsSole (bundle scope refs summary metrics w) h =
      build_evidence_bundle-IsSole env w h scope refs summary metrics
  Step-IsSole (propose name scope base payload evidence hypothesis w) h =
      propose-IsSole env w h name scope base payload evidence hypothesis
  Step-IsSole (evaluate candidate_id report w) h =
      evaluate_candidate-IsSole env w h arithmetic candidate_id report
  Step-IsSole (promote candidate_id w) h = promote_candidate-IsSole env w h candidate_id
  Step-IsSole (rollback scope_id reason w) h = rollback_scope-IsSole env scope_id reason w h

  Reach-IsSole :
      {start w : World Repository} → IsSoleIn start.store → Reach start w → IsSoleIn w.store
  Reach-IsSole h here = h
  Reach-IsSole h (next r step) = Step-IsSole step (Reach-IsSole h r)

  -- From a repository without policy versions, every sequence of calls of the registry, with errors,
  -- leads to one in which two active versions of one scope are the same version.
  pub one_active_version :
      {start w : World Repository}
      → start.store.policy_versions ≡ []
      → Reach start w
      → (x y : PolicyVersion) → Memᴰ x w.store.policy_versions
      → Memᴰ y w.store.policy_versions
      → x.scope_id ≡ y.scope_id
      → x.status ≡ "active"
      → y.status ≡ "active"
      → x ≡ y
  one_active_version empty r = Reach-IsSole (rw empty (λ x y m. elim m [ ])) r

-- ===== src/Registry/Manager/Promotion.antt =====
-- Evaluation and promotion of candidates.
use Prim.Native.String.{◌++◌}
use contract_evidence_os.Prelude.{
  ℕ, ◌<◌, String, ◌≡◌, refl, sym, ◌∙◌, subst, Bool, true, false, ◌&&◌, some, List, ◌==◌, ==_refl,
  eq_iff, Bool-cases, inl, inr, ◌⊎◌, Memᴰ, All, All-of_mem, ltb, lt→ltb, ltb→lt, arith, select-mem,
  mem-select, head-sort_by,
}
use contract_evidence_os.Base.Exec.{Env, World, ok}
use contract_evidence_os.Registry.Models.{
  PolicyScope, PolicyVersion, PolicyCandidate, PolicyPromotionRun,
}
use contract_evidence_os.Registry.Manager.{promote_under, promote_candidate}
use contract_evidence_os.Registry.Manager.Registration.{
  register_policy_version_lem, registered_alone,
}
use contract_evidence_os.Storage.Table.{order_by_desc}
use contract_evidence_os.Storage.Table.Laws.{
  mem-insert_or_replace, insert_or_replace-mem, find_row-insert_or_replace, key-find_row,
  mem-backwards, backwards-mem,
}
use contract_evidence_os.Storage.Repository.{Repository}
use contract_evidence_os.Storage.Repository.Policies.{
  version_key, candidate_key, run_key, load_policy_scope, scope_key, save_policy_candidate,
  load_policy_candidate, save_policy_promotion_run, latest_policy_promotion_run,
}

abbrev pub is_active_in : String → PolicyVersion → Bool
is_active_in scope_id version = version.scope_id == scope_id && version.status == "active"

-- The version is the only active one of the scope.
abbrev pub IsOnlyActive : String → PolicyVersion → Repository → Type 0
IsOnlyActive scope_id version r =
    Memᴰ version r.policy_versions
    × (version.scope_id ≡ scope_id)
    × (version.status ≡ "active")
    × All (λ x. (is_active_in scope_id x ≡ false) ⊎ (x ≡ version)) r.policy_versions

pub only_active :
    (scope_id : String) (version : PolicyVersion) (rows : List PolicyVersion)
    → ((x : PolicyVersion)
        → Memᴰ x rows
        → x.scope_id ≡ scope_id
        → x.status ≡ "active"
        → x ≡ version)
    → All (λ x. (is_active_in scope_id x ≡ false) ⊎ (x ≡ version)) rows
only_active scope_id version rows h = All-of_mem _ rows (λ x m.
    elim (Bool-cases (is_active_in scope_id x)) [
      | inl t ↦ inr (
          h x m (ground (arith, eq_iff x.scope_id scope_id))
            (ground (arith, eq_iff x.status "active")))
      | inr f ↦ inl f
    ])

module _ (env : Env) (candidate_id : String) (w : World Repository) (candidate : PolicyCandidate)
    (found : load_policy_candidate candidate_id w.store ≡ some candidate) where
  -- A stored candidate whose latest run has passed, and whose scope is stored, is promoted: one
  -- version of its scope is active afterwards, with its payload and its base; the candidate is stored
  -- as promoted, and so is the run, which is returned.
  pub promote_candidate_activates :
      (run : PolicyPromotionRun) (scope : PolicyScope)
      → latest_policy_promotion_run candidate_id w.store ≡ some run
      → (run.status == "passed") ≡ true
      → load_policy_scope candidate.scope_id w.store ≡ some scope
      → (promoted : PolicyPromotionRun) × (version : PolicyVersion) × ((promote_candidate env
            candidate_id w).0
          ≡ ok promoted)
        × (promoted.status ≡ "promoted")
        × Memᴰ promoted (promote_candidate env candidate_id w).1.store.policy_promotion_runs
        × IsOnlyActive candidate.scope_id version (promote_candidate env candidate_id w).1.store
        × (version.policy_payload ≡ candidate.policy_payload)
        × (version.supersedes_version_id ≡ candidate.base_version_id)
        × (load_policy_candidate candidate_id (promote_candidate env candidate_id w).1.store
            ≡ some (record candidate { status = "promoted" }))
  unfolding promote_candidate promote_under save_policy_candidate save_policy_promotion_run
      load_policy_candidate load_policy_scope
  promote_candidate_activates run scope latest passed in_scope =
      let r =
        register_policy_version_lem env candidate.name scope candidate.policy_payload
          candidate.hypothesis candidate.base_version_id w in
      let same = key-find_row scope_key candidate.scope_id w.store.policy_scopes scope in_scope in
      let of_id =
        key-find_row candidate_key candidate_id w.store.policy_candidates candidate found in
      rw (found, latest, passed, in_scope, r.returned)
        (
          record run { status = "promoted"; summary = "promoted as " ++ r.registered.version_id },
          r.registered,
          refl,
          refl,
          insert_or_replace-mem run_key _ _,
          (
            subst (Memᴰ r.registered) (sym r.rows)
                (insert_or_replace-mem version_key r.registered _),
            r.in_scope ∙ same,
            r.is_active,
            only_active candidate.scope_id r.registered _ (λ x m e a.
                registered_alone env candidate.name scope candidate.policy_payload
                  candidate.hypothesis candidate.base_version_id w x m (e ∙ sym same) a),
          ),
          r.payload,
          r.supersedes,
          rw
              (
                find_row-insert_or_replace candidate_key,
                (eq_iff candidate.candidate_id candidate_id).1 of_id,
              )
              refl,
        )

abbrev created : PolicyPromotionRun → ℕ
created p = p.created_at

-- The stored runs of a candidate are older than an instant.
abbrev pub AreOlder : String → ℕ → Repository → Type 0
AreOlder candidate_id at r =
    (run : PolicyPromotionRun)
    → Memᴰ run r.policy_promotion_runs
    → (run.candidate_id == candidate_id) ≡ true
    → run.created_at < at

-- A run that is saved after all the others of its candidate is the latest.
pub latest-save :
    (run : PolicyPromotionRun) (r : Repository)
    → AreOlder run.candidate_id run.created_at r
    → latest_policy_promotion_run run.candidate_id (save_policy_promotion_run run r) ≡ some run
unfolding latest_policy_promotion_run save_policy_promotion_run order_by_desc
latest-save run r later =
    head-sort_by (λ x y. ltb (created y) (created x))
      (λ x y h. ground (arith, ltb→lt (created y) (created x))) (λ x y z h g. ground arith) run _
      (backwards-mem _ (
        select-mem _ _ (insert_or_replace-mem run_key run r.policy_promotion_runs)
          (==_refl run.candidate_id)))
      (λ x m.
        let (stored, of_candidate) = mem-select _ _ (mem-backwards _ m) in
        elim (mem-insert_or_replace run_key run r.policy_promotion_runs stored) [
          | inl e ↦ inl e
          | inr (i, ne) ↦ inr (lt→ltb (created x) (created run) (later x i of_candidate))
        ])

-- ===== src/Registry/Manager/Registration.antt =====
-- What a registration does to the versions of its scope.
use contract_evidence_os.Prelude.{
  String, ◌≡◌, refl, sym, ◌∙◌, subst, List, [], ◌∷◌, ◌==◌, Bool-cases, inl, inr, Memᴰ,
}
use contract_evidence_os.Base.Json.{Members}
use contract_evidence_os.Base.Exec.{Env, World, Result, ok, modify, for_each}
use contract_evidence_os.Registry.Models.{PolicyScope, PolicyVersion}
use contract_evidence_os.Registry.Manager.{supersede, register_policy_version}
use contract_evidence_os.Registry.Manager.Versions.{
  IsSole, IsIdle, supersede_each, supersede_each-IsSole, supersede_each-IsIdle, save_active-IsSole,
}
use contract_evidence_os.Storage.Table.{insert_or_replace}
use contract_evidence_os.Storage.Table.Laws.{mem-insert_or_replace}
use contract_evidence_os.Storage.Repository.{Repository}
use contract_evidence_os.Storage.Repository.Policies.{
  version_key, save_policy_scope, save_policy_version, list_policy_versions,
}

supersede-tables :
    (v : PolicyVersion) (r : Repository)
    → ((supersede v r).policy_candidates ≡ r.policy_candidates)
      × ((supersede v r).policy_promotion_runs ≡ r.policy_promotion_runs)
unfolding supersede save_policy_version
supersede-tables v r = elim (Bool-cases (v.status == "active")) [
  | inl t ↦ rw t (refl, refl)
  | inr f ↦ rw f (refl, refl)
]

-- The loop ends without an error, and writes versions only.
for_each-supersede :
    (versions : List PolicyVersion) (w : World Repository)
    → ((for_each versions (λ version. modify (supersede version)) w).0 ≡ ok tt)
      × ((supersede_each versions w).store.policy_candidates ≡ w.store.policy_candidates)
      × ((supersede_each versions w).store.policy_promotion_runs ≡ w.store.policy_promotion_runs)
unfolding for_each
for_each-supersede [] w = (refl, refl, refl)
for_each-supersede (v ∷ versions) w =
    let (e, c, p) = for_each-supersede versions (record w { store = supersede v w.store }) in
    let (c', p') = supersede-tables v w.store in (e, c ∙ c', p ∙ p')

module _ (env : Env) where
  -- The world in which the versions of the scope are superseded.
  abbrev after_loop : PolicyScope → World Repository → World Repository
  after_loop scope w =
      let w1 : World Repository = record w { store = save_policy_scope scope w.store } in
      supersede_each (list_policy_versions scope.scope_id w1.store) w1

  -- What a registration returns and writes.
  pub record IsRegistered (name : String) (scope : PolicyScope) (policy_payload : Members)
      (summary supersedes_version_id : String) (w : World Repository)
      (result : Result PolicyVersion × World Repository) : Type 0 where
    pub registered : PolicyVersion
    pub returned : result.0 ≡ ok registered
    pub rows :
        result.1.store.policy_versions
        ≡ insert_or_replace version_key registered (after_loop scope w).store.policy_versions
    pub in_scope : registered.scope_id ≡ scope.scope_id
    pub is_active : registered.status ≡ "active"
    pub payload : registered.policy_payload ≡ policy_payload
    pub supersedes : registered.supersedes_version_id ≡ supersedes_version_id
    pub candidates : result.1.store.policy_candidates ≡ w.store.policy_candidates
    pub runs : result.1.store.policy_promotion_runs ≡ w.store.policy_promotion_runs

  module _ (name : String) (scope : PolicyScope) (policy_payload : Members)
      (summary supersedes_version_id : String) (w : World Repository) where
    pub register_policy_version_lem :
        IsRegistered name scope policy_payload summary supersedes_version_id w
          (register_policy_version env name scope policy_payload summary supersedes_version_id w)
    unfolding register_policy_version save_policy_scope save_policy_version
    register_policy_version_lem =
        let w1 : World Repository = record w { store = save_policy_scope scope w.store } in
        let (e, c, p) = for_each-supersede (list_policy_versions scope.scope_id w1.store) w1 in
        rw e (record {
          registered = _;
          returned = refl;
          rows = refl;
          in_scope = refl;
          is_active = refl;
          payload = refl;
          supersedes = refl;
          candidates = c;
          runs = p;
        })

    after_loop-IsIdle : IsIdle scope.scope_id (after_loop scope w).store.policy_versions
    unfolding save_policy_scope
    after_loop-IsIdle =
        supersede_each-IsIdle scope.scope_id (record w { store = save_policy_scope scope w.store })

    after_loop-IsSole :
        IsSole w.store.policy_versions → IsSole (after_loop scope w).store.policy_versions
    unfolding save_policy_scope
    after_loop-IsSole =
        supersede_each-IsSole
          (list_policy_versions scope.scope_id (save_policy_scope scope w.store))
          (record w { store = save_policy_scope scope w.store })

    pub register_policy_version-IsSole :
        IsSole w.store.policy_versions
        → IsSole
            (register_policy_version env name scope policy_payload summary supersedes_version_id
              w).1.store.policy_versions
    register_policy_version-IsSole sole =
        let r = register_policy_version_lem in
        subst IsSole (sym r.rows) (
          save_active-IsSole r.registered _
            (subst (λ z. IsIdle z (after_loop scope w).store.policy_versions) (sym r.in_scope)
              after_loop-IsIdle)
            (after_loop-IsSole sole))

    -- The registered version is the only active one of its scope.
    pub registered_alone :
        (v : PolicyVersion)
        → Memᴰ v
            (register_policy_version env name scope policy_payload summary supersedes_version_id
              w).1.store.policy_versions
        → v.scope_id ≡ scope.scope_id
        → v.status ≡ "active"
        → v ≡ register_policy_version_lem.registered
    registered_alone v m e a =
        let r = register_policy_version_lem in
        elim (mem-insert_or_replace version_key r.registered _ (subst (Memᴰ v) r.rows m)) [
          | inl same ↦ same
          | inr (i, ne) ↦ absurd (after_loop-IsIdle v i e a)
        ]

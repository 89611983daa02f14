-- ===== src/Registry/Manager/Rollback.antt =====
-- The rollback of a scope.
use contract_evidence_os.Prelude.{
  ◌≤◌, String, ◌≡◌, refl, sym, ◌∙◌, ap, subst, true, false, some, List, ◌==◌, eq_iff, ◌⊎◌, inl, inr,
  Option-cases, Memᴰ, All, All-of_mem, Bool-cases, ◌&&◌, first, first-some, first_least, ltb, arith,
  sort_by-IsOrdered,
}
use contract_evidence_os.Base.Exec.{Env, World, ok}
use contract_evidence_os.Registry.Models.{PolicyVersion, PolicyRollbackRecord}
use contract_evidence_os.Registry.Manager.{is_former, rollback_to, rollback_scope}
use contract_evidence_os.Registry.Manager.Versions.{
  IsSole, IsIdle, save_inactive-IsSole, save_active-IsSole, list_policy_versions-mem,
  mem-list_policy_versions,
}
use contract_evidence_os.Registry.Manager.Promotion.{IsOnlyActive, only_active}
use contract_evidence_os.Storage.Table.{insert_or_replace, order_by_asc}
use contract_evidence_os.Storage.Table.Laws.{mem-insert_or_replace, insert_or_replace-mem}
use contract_evidence_os.Storage.Repository.{Repository}
use contract_evidence_os.Storage.Repository.Policies.{
  version_key, save_policy_version, list_policy_versions, save_policy_rollback_record,
}

pub rolled_back_inactive : ¬ (◌≡◌ {A = String} "rolled_back" "active")
rolled_back_inactive e = absurd (let t = (eq_iff "rolled_back" "active").1 e in cc)

abbrev withdrawn : PolicyVersion → PolicyVersion
withdrawn active = record active { status = "rolled_back" }

abbrev restored : PolicyVersion → PolicyVersion
restored previous = record previous { status = "active" }

-- What the search of the two versions finds.
module _ (scope_id : String) (r : Repository) where
  active_found :
      (active : PolicyVersion)
      → first (λ v. v.status == "active") (list_policy_versions scope_id r) ≡ some active
      → Memᴰ active r.policy_versions × (active.scope_id ≡ scope_id) × (active.status ≡ "active")
  active_found active e =
      let (m, t) =
        first-some (λ v. v.status == "active") (list_policy_versions scope_id r) active e in
      let (i, s) = list_policy_versions-mem scope_id r active m in
      (i, s, (eq_iff active.status "active").0 t)

  former_found :
      (previous : PolicyVersion)
      → first is_former (list_policy_versions scope_id r) ≡ some previous
      → Memᴰ previous r.policy_versions × (previous.scope_id ≡ scope_id)
  former_found previous e =
      list_policy_versions-mem scope_id r previous
        (first-some is_former (list_policy_versions scope_id r) previous e).0

  -- Once the active version is withdrawn, the scope is idle.
  withdrawn-IsIdle :
      (active : PolicyVersion)
      → IsSole r.policy_versions
      → Memᴰ active r.policy_versions
      → active.scope_id ≡ scope_id
      → active.status ≡ "active"
      → IsIdle scope_id (insert_or_replace version_key (withdrawn active) r.policy_versions)
  withdrawn-IsIdle active sole m s a x i e b =
      elim (mem-insert_or_replace version_key (withdrawn active) r.policy_versions i) [
        | inl same ↦ absurd (rolled_back_inactive (sym (ap (λ z. z.status) same) ∙ b))
        | inr (j, ne) ↦ absurd (
            let same = ap version_key (sole x active j m (e ∙ sym s) b a) in
            let t = (eq_iff x.version_id active.version_id).1 same in cc)
      ]

  -- The former version that is found is the oldest.
  former_oldest :
      (previous x : PolicyVersion)
      → first is_former (list_policy_versions scope_id r) ≡ some previous
      → Memᴰ x r.policy_versions
      → x.scope_id ≡ scope_id
      → is_former x ≡ true
      → previous.created_at ≤ x.created_at
  unfolding list_policy_versions order_by_asc
  former_oldest previous x e m s f =
      let least =
        first_least (λ (u v : PolicyVersion). ltb u.created_at v.created_at) (λ u. ground arith)
          is_former (list_policy_versions scope_id r) previous
          (sort_by-IsOrdered _ (λ u v h. ground arith) (λ u v z h g. ground arith) _) e
          (mem-list_policy_versions scope_id r x m s) f in
      ground arith

-- Of the former versions of the scope, none is older.
abbrev pub IsOldest : String → PolicyVersion → List PolicyVersion → Type 0
IsOldest scope_id previous rows =
    All
      (λ x.
        ((x.scope_id == scope_id && is_former x) ≡ false) ⊎ (previous.created_at ≤ x.created_at))
      rows

oldest_lem :
    (scope_id : String) (r : Repository) (previous : PolicyVersion)
    → first is_former (list_policy_versions scope_id r) ≡ some previous
    → IsOldest scope_id previous r.policy_versions
oldest_lem scope_id r previous f = All-of_mem _ r.policy_versions (λ x m.
    elim (Bool-cases (x.scope_id == scope_id && is_former x)) [
      | inl t ↦ inr (
          former_oldest scope_id r previous x f m ((eq_iff x.scope_id scope_id).0 (ground arith))
            (ground arith))
      | inr n ↦ inl n
    ])

module _ (env : Env) (scope_id reason : String) (w : World Repository) where
  abbrev rolled_back_rows : PolicyVersion → PolicyVersion → List PolicyVersion
  rolled_back_rows active previous =
      insert_or_replace version_key (restored previous)
        (insert_or_replace version_key (withdrawn active) w.store.policy_versions)

  pub rollback_scope-IsSole :
      IsSole w.store.policy_versions
      → IsSole (rollback_scope env scope_id reason w).1.store.policy_versions
  unfolding rollback_scope rollback_to save_policy_version save_policy_rollback_record
  rollback_scope-IsSole sole =
      let versions = list_policy_versions scope_id w.store in
      elim (Option-cases (first (λ v. v.status == "active") versions)) [
        | inl e ↦ rw e sole
        | inr (active, e) ↦ elim (Option-cases (first is_former versions)) [
          | inl f ↦ rw (e, f) sole
          | inr (previous, f) ↦
              let (m, s, a) = active_found scope_id w.store active e in
              let (_, s') = former_found scope_id w.store previous f in
              rw (e, f)
                (save_active-IsSole (restored previous) _
                  (subst
                    (λ z.
                      IsIdle z
                        (insert_or_replace version_key (withdrawn active) w.store.policy_versions))
                    (sym s') (withdrawn-IsIdle scope_id w.store active sole m s a))
                  (save_inactive-IsSole (withdrawn active) w.store.policy_versions
                    rolled_back_inactive sole))
        ]
      ]

  -- In a repository where no scope has two active versions, a rollback of a scope that has an active
  -- version and a former one withdraws the active one and makes a former one the only active version;
  -- of the former ones it is the oldest. The record that is returned names the two.
  pub rollback_scope_restores :
      (active previous : PolicyVersion)
      → IsSole w.store.policy_versions
      → first (λ v. v.status == "active") (list_policy_versions scope_id w.store) ≡ some active
      → first is_former (list_policy_versions scope_id w.store) ≡ some previous
      → (rollback : PolicyRollbackRecord) × ((rollback_scope env scope_id reason w).0 ≡ ok rollback)
        × (rollback.previous_version_id ≡ active.version_id)
        × (rollback.restored_version_id ≡ previous.version_id)
        × IsOnlyActive scope_id (restored previous) (rollback_scope env scope_id reason w).1.store
        × IsOldest scope_id previous w.store.policy_versions
  unfolding rollback_scope rollback_to save_policy_version save_policy_rollback_record
  rollback_scope_restores active previous sole e f =
      let (m, s, a) = active_found scope_id w.store active e in
      let (_, s') = former_found scope_id w.store previous f in
      let idle = withdrawn-IsIdle scope_id w.store active sole m s a in
      rw (e, f)
        (
          _,
          refl,
          refl,
          refl,
          (
            insert_or_replace-mem version_key (restored previous) _,
            s',
            refl,
            only_active scope_id (restored previous) (rolled_back_rows active previous) (λ x i t b.
                elim (mem-insert_or_replace version_key (restored previous) _ i) [
                  | inl same ↦ same
                  | inr (j, ne) ↦ absurd (idle x j t b)
                ]),
          ),
          oldest_lem scope_id w.store previous f,
        )

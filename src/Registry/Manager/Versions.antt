-- ===== src/Registry/Manager/Versions.antt =====
-- The active versions of a scope: no method of the registry leaves two.
use contract_evidence_os.Prelude.{
  String, ◌≡◌, ◌≢◌, refl, sym, ◌∙◌, ap, subst, List, [], ◌∷◌, ◌==◌, eq_iff, Bool-cases, inl, inr,
  Memᴰ, mem-tail, mem-select, select-mem, mem-sort_by, sort_by-mem,
}
use contract_evidence_os.Base.Exec.{World, modify, for_each}
use contract_evidence_os.Registry.Models.{PolicyVersion}
use contract_evidence_os.Registry.Manager.{supersede}
use contract_evidence_os.Storage.Table.{insert_or_replace, order_by_asc}
use contract_evidence_os.Storage.Table.Laws.{mem-insert_or_replace}
use contract_evidence_os.Storage.Repository.{Repository}
use contract_evidence_os.Storage.Repository.Policies.{
  version_key, save_policy_version, list_policy_versions,
}

-- Two active versions of one scope are the same.
abbrev pub IsSole : List PolicyVersion → Type 0
IsSole rows =
    (x y : PolicyVersion)
    → Memᴰ x rows
    → Memᴰ y rows
    → x.scope_id ≡ y.scope_id
    → x.status ≡ "active"
    → y.status ≡ "active"
    → x ≡ y

-- The scope has no active version.
abbrev pub IsIdle : String → List PolicyVersion → Type 0
IsIdle scope_id rows =
    (x : PolicyVersion) → Memᴰ x rows → x.scope_id ≡ scope_id → x.status ≢ "active"

pub superseded_inactive : ¬ (◌≡◌ {A = String} "superseded" "active")
superseded_inactive e = absurd (let t = (eq_iff "superseded" "active").1 e in cc)

pub save_inactive-IsSole :
    (v : PolicyVersion) (rows : List PolicyVersion)
    → v.status ≢ "active"
    → IsSole rows
    → IsSole (insert_or_replace version_key v rows)
save_inactive-IsSole v rows h sole x y mx my e ax ay =
    elim (mem-insert_or_replace version_key v rows mx) [
      | inl same ↦ absurd (h (sym (ap (λ z. z.status) same) ∙ ax))
      | inr (ix, nx) ↦ elim (mem-insert_or_replace version_key v rows my) [
        | inl same ↦ absurd (h (sym (ap (λ z. z.status) same) ∙ ay))
        | inr (iy, ny) ↦ sole x y ix iy e ax ay
      ]
    ]

pub save_active-IsSole :
    (v : PolicyVersion) (rows : List PolicyVersion)
    → IsIdle v.scope_id rows
    → IsSole rows
    → IsSole (insert_or_replace version_key v rows)
save_active-IsSole v rows idle sole x y mx my e ax ay =
    elim (mem-insert_or_replace version_key v rows mx) [
      | inl same ↦ elim (mem-insert_or_replace version_key v rows my) [
        | inl same' ↦ same ∙ sym same'
        | inr (iy, ny) ↦ absurd (idle y iy (sym e ∙ ap (λ z. z.scope_id) same) ay)
      ]
      | inr (ix, nx) ↦ elim (mem-insert_or_replace version_key v rows my) [
        | inl same ↦ absurd (idle x ix (e ∙ ap (λ z. z.scope_id) same) ax)
        | inr (iy, ny) ↦ sole x y ix iy e ax ay
      ]
    ]

-- The loop of `register_policy_version`.
abbrev pub supersede_each : List PolicyVersion → World Repository → World Repository
supersede_each versions w = (for_each versions (λ version. modify (supersede version)) w).1

supersede-IsSole :
    (v : PolicyVersion) (r : Repository)
    → IsSole r.policy_versions
    → IsSole (supersede v r).policy_versions
unfolding supersede save_policy_version
supersede-IsSole v r sole = elim (Bool-cases (v.status == "active")) [
  | inl t ↦ rw t (
      save_inactive-IsSole (record v { status = "superseded" }) r.policy_versions
        superseded_inactive sole)
  | inr f ↦ rw f sole
]

pub supersede_each-IsSole :
    (versions : List PolicyVersion) (w : World Repository)
    → IsSole w.store.policy_versions
    → IsSole (supersede_each versions w).store.policy_versions
unfolding for_each
supersede_each-IsSole [] w sole = sole
supersede_each-IsSole (v ∷ versions) w sole =
    supersede_each-IsSole versions (record w { store = supersede v w.store })
      (supersede-IsSole v w.store sole)

-- An active version that is left was there before, and is none of those that were looked at.
abbrev IsLeft : List PolicyVersion → List PolicyVersion → PolicyVersion → Type 0
IsLeft versions rows x =
    Memᴰ x rows
    × ((v : PolicyVersion) → Memᴰ v versions → v.status ≡ "active" → x.version_id ≢ v.version_id)

supersede_left :
    (v : PolicyVersion) (r : Repository) (x : PolicyVersion)
    → x.status ≡ "active"
    → Memᴰ x (supersede v r).policy_versions
    → Memᴰ x r.policy_versions × (v.status ≡ "active" → x.version_id ≢ v.version_id)
unfolding supersede save_policy_version
supersede_left v r x a m = elim (Bool-cases (v.status == "active")) [
  | inl t ↦
      elim (mem-insert_or_replace version_key (record v { status = "superseded" }) r.policy_versions
        (rw (t, supersede) at m)) [
          | inl same ↦ absurd (superseded_inactive (sym (ap (λ z. z.status) same) ∙ a))
          | inr (i, ne) ↦ (i, λ _ e. absurd (let t' = (eq_iff x.version_id v.version_id).1 e in cc))
        ]
  | inr f ↦ (rw (f, supersede) at m, λ e. absurd (let t = (eq_iff v.status "active").1 e in cc))
]

supersede_each-IsLeft :
    (versions : List PolicyVersion) (w : World Repository) (x : PolicyVersion)
    → x.status ≡ "active"
    → Memᴰ x (supersede_each versions w).store.policy_versions
    → IsLeft versions w.store.policy_versions x
unfolding for_each
supersede_each-IsLeft [] w x a m = (m, λ v i. elim i [ ])
supersede_each-IsLeft (v ∷ versions) w x a m =
    let (i, others) =
      supersede_each-IsLeft versions (record w { store = supersede v w.store }) x a m in
    let (j, first') = supersede_left v w.store x a i in
    (
      j,
      λ u k e. elim (mem-tail k) [
        | inl same ↦
            subst (λ z. x.version_id ≢ z.version_id) (sym same)
              (first' (subst (λ z. z.status ≡ "active") same e))
        | inr k' ↦ others u k' e
      ],
    )

pub mem-list_policy_versions :
    (scope_id : String) (r : Repository) (x : PolicyVersion)
    → Memᴰ x r.policy_versions
    → x.scope_id ≡ scope_id
    → Memᴰ x (list_policy_versions scope_id r)
unfolding list_policy_versions order_by_asc
mem-list_policy_versions scope_id r x m e =
    sort_by-mem _ _ (select-mem _ r.policy_versions m ((eq_iff x.scope_id scope_id).1 e))

pub list_policy_versions-mem :
    (scope_id : String) (r : Repository) (x : PolicyVersion)
    → Memᴰ x (list_policy_versions scope_id r)
    → Memᴰ x r.policy_versions × (x.scope_id ≡ scope_id)
unfolding list_policy_versions order_by_asc
list_policy_versions-mem scope_id r x m =
    let (i, t) = mem-select (λ v. v.scope_id == scope_id) r.policy_versions (mem-sort_by _ _ m) in
    (i, (eq_iff x.scope_id scope_id).0 t)

pub supersede_each-IsIdle :
    (scope_id : String) (w : World Repository)
    → IsIdle scope_id
        (supersede_each (list_policy_versions scope_id w.store) w).store.policy_versions
supersede_each-IsIdle scope_id w x m e a =
    let (i, ne) = supersede_each-IsLeft (list_policy_versions scope_id w.store) w x a m in
    ne x (mem-list_policy_versions scope_id w.store x i e) a refl

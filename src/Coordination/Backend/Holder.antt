-- ===== src/Coordination/Backend/Holder.antt =====
-- The abstract view of the ownership rows: who holds each lease, and under which token.
use contract_evidence_os.Prelude.{
  String, ◌≡◌, ◌≢◌, refl, sym, ◌∙◌, ap, subst, Bool, false, ◌&&◌, Option, none, some, ◌==◌, eq_iff,
  if◌then◌else◌, Bool-cases, Option-cases, inl, inr, ◌⊎◌, Memᴰ,
}
use contract_evidence_os.Coordination.Models.{LeaseOwnershipRecord}
use contract_evidence_os.Coordination.Backend.{validate_fencing}
use contract_evidence_os.Coordination.Backend.Latest.{latest_mem, latest_none}
use contract_evidence_os.Coordination.Backend.Ownership.{WellOwned, active-latest}
use contract_evidence_os.Storage.Table.Laws.{mem-insert_or_replace, mem-insert_other}
use contract_evidence_os.Storage.Repository.{
  Repository, latest_lease_ownership, save_lease_ownership, ownership_key,
}

-- The worker and the token of the latest ownership, when it is active.
unfoldable pub holder : String → Repository → Option (String × String)
holder lease_id r = elim (latest_lease_ownership lease_id r) [
  | none ↦ none
  | some o ↦ if o.status == "active" then some (o.worker_id, o.fencing_token) else none
]

abbrev pub IsIdle : String → Repository → Type 0
IsIdle lease_id r =
    (o : LeaseOwnershipRecord)
    → Memᴰ o r.lease_ownerships
    → o.lease_id ≡ lease_id
    → o.status ≢ "active"

pub holder-IsIdle :
    (lease_id : String) (r : Repository) → IsIdle lease_id r → holder lease_id r ≡ none
unfolding holder
holder-IsIdle lease_id r idle = elim (Option-cases (latest_lease_ownership lease_id r)) [
  | inl e ↦ rw (holder, e) refl
  | inr (c, e) ↦ elim (Bool-cases (c.status == "active")) [
    | inl t ↦
        let (m, l) = latest_mem lease_id r c e in
        absurd (idle c m l ((eq_iff c.status "active").0 t))
    | inr f ↦ rw (holder, e, f) refl
  ]
]

module _ (lease_id : String) (r : Repository) (h : WellOwned r.lease_ownerships) where
  pub holder-active :
      (o : LeaseOwnershipRecord)
      → Memᴰ o r.lease_ownerships
      → o.lease_id ≡ lease_id
      → o.status ≡ "active"
      → holder lease_id r ≡ some (o.worker_id, o.fencing_token)
  unfolding holder
  holder-active o m l a = elim (Option-cases (latest_lease_ownership lease_id r)) [
    | inl e ↦ absurd (latest_none lease_id r o e m l)
    | inr (c, e) ↦
        let same =
          active-latest r o c h m a (subst (λ z. latest_lease_ownership z r ≡ some c) (sym l) e) in
        rw (holder, e, same, (eq_iff o.status "active").1 a) refl
  ]

  -- The lease has an active row, or it is idle.
  abbrev IsHeld : Type 0
  IsHeld =
      (o : LeaseOwnershipRecord) × Memᴰ o r.lease_ownerships
      × (o.lease_id ≡ lease_id)
      × (o.status ≡ "active")

  pub holder-cases : IsHeld ⊎ IsIdle lease_id r
  holder-cases = elim (Option-cases (latest_lease_ownership lease_id r)) [
    | inl e ↦ inr (λ o m l a. latest_none lease_id r o e m l)
    | inr (c, e) ↦
        let (m, l) = latest_mem lease_id r c e in
        elim (Bool-cases (c.status == "active")) [
          | inl t ↦ inl (c, m, l, (eq_iff c.status "active").0 t)
          | inr f ↦ inr (λ o i k a. absurd (
              let same =
                active-latest r o c h i a
                  (subst (λ z. latest_lease_ownership z r ≡ some c) (sym k) e) in
              let t = (eq_iff c.status "active").1 (ap (λ z. z.status) same ∙ a) in cc))
        ]
  ]

-- A row that is written changes the holder of no other lease, if its key is not that of a row of
-- another lease.
pub holder_frame :
    (r : Repository) (v : LeaseOwnershipRecord) (other : String)
    → WellOwned r.lease_ownerships
    → WellOwned (save_lease_ownership v r).lease_ownerships
    → v.lease_id ≢ other
    → ((o : LeaseOwnershipRecord)
        → Memᴰ o r.lease_ownerships
        → o.lease_id ≡ other
        → (o.ownership_id == v.ownership_id) ≡ false)
    → holder other (save_lease_ownership v r) ≡ holder other r
unfolding save_lease_ownership
holder_frame r v other h h' ne apart = elim (holder-cases other r h) [
  | inl (o, m, l, a) ↦
      holder-active other (save_lease_ownership v r) h' o
        (mem-insert_other ownership_key v r.lease_ownerships m (apart o m l)) l a
      ∙ sym (holder-active other r h o m l a)
  | inr idle ↦
      holder-IsIdle other (save_lease_ownership v r) (λ o m l a.
        elim (mem-insert_or_replace ownership_key v r.lease_ownerships m) [
          | inl same ↦ absurd (ne (sym (ap (λ z. z.lease_id) same) ∙ l))
          | inr (i, _) ↦ idle o i l a
        ])
      ∙ sym (holder-IsIdle other r idle)
]

-- Whether the worker holds the lease under the token.
abbrev pub is_holder : Option (String × String) → String → String → Bool
is_holder none worker_id token = false
is_holder (some (w, t)) worker_id token = w == worker_id && t == token

pub validate_fencing-holder :
    (lease_id worker_id token : String) (r : Repository)
    → validate_fencing lease_id worker_id token r ≡ is_holder (holder lease_id r) worker_id token
unfolding validate_fencing holder
validate_fencing-holder lease_id worker_id token r =
    elim (Option-cases (latest_lease_ownership lease_id r)) [
      | inl e ↦ rw (holder, validate_fencing, e) refl
      | inr (c, e) ↦ elim (Bool-cases (c.status == "active")) [
        | inl t ↦ rw (holder, validate_fencing, e, t) refl
        | inr f ↦ rw (holder, validate_fencing, e, f) refl
      ]
    ]

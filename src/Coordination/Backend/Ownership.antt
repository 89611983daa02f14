-- ===== src/Coordination/Backend/Ownership.antt =====
-- The ownership rows as a whole: each lease has at most one active owner, the newest one.
use contract_evidence_os.Prelude.{
  String, ◌<◌, ◌≡◌, ◌≢◌, refl, sym, ap, subst, ◌∙◌, false, some, List, [], ◌==◌, eq_iff, arith, inl,
  inr, ◌⊎◌, Memᴰ,
}
use contract_evidence_os.Coordination.Models.{LeaseOwnershipRecord}
use contract_evidence_os.Coordination.Backend.Latest.{latest_max}
use contract_evidence_os.Storage.Table.Laws.{mem-insert_or_replace}
use contract_evidence_os.Storage.Repository.{
  Repository, latest_lease_ownership, save_lease_ownership, ownership_key,
}

pub not_active : (status : String) → (status == "active") ≡ false → status ≢ "active"
not_active status ne e = absurd (let t = (eq_iff status "active").1 e in cc)

abbrev Rows : Type 0
Rows = List LeaseOwnershipRecord

-- The keys are unique, and an active ownership is above every other one of its lease.
pub record WellOwned (rows : Rows) : Type 0 where
  pub unique :
      (o p : LeaseOwnershipRecord)
      → Memᴰ o rows
      → Memᴰ p rows
      → o.ownership_id ≡ p.ownership_id
      → o ≡ p
  pub top :
      (o p : LeaseOwnershipRecord)
      → Memᴰ o rows
      → Memᴰ p rows
      → o.status ≡ "active"
      → p.lease_id ≡ o.lease_id
      → (p.ownership_id ≡ o.ownership_id) ⊎ (p.lease_epoch < o.lease_epoch)

pub empty-WellOwned : WellOwned []
empty-WellOwned = record { unique = λ o p i j e. elim i [ ]; top = λ o p i j a e. elim i [ ] }

-- In such rows two active ownerships of one lease are the same row.
pub one_active_owner :
    (rows : Rows) (o p : LeaseOwnershipRecord)
    → WellOwned rows
    → Memᴰ o rows
    → Memᴰ p rows
    → o.status ≡ "active"
    → p.status ≡ "active"
    → o.lease_id ≡ p.lease_id
    → o ≡ p
one_active_owner rows o p h i j a b e = elim (h.top o p i j a (sym e)) [
  | inl k ↦ h.unique o p i j (sym k)
  | inr lt ↦ elim (h.top p o j i b e) [
    | inl k ↦ h.unique o p i j k
    | inr gt ↦ absurd (ground arith)
  ]
]

-- A written row keeps the rows well owned if it fits each row of its lease with another key.
save-WellOwned :
    (r : Repository) (v : LeaseOwnershipRecord)
    → WellOwned r.lease_ownerships
    → ((p : LeaseOwnershipRecord)
        → Memᴰ p r.lease_ownerships
        → p.lease_id ≡ v.lease_id
        → p.ownership_id ≢ v.ownership_id
        → (v.status ≡ "active" → p.lease_epoch < v.lease_epoch)
          × (p.status ≡ "active" → v.lease_epoch < p.lease_epoch))
    → WellOwned (save_lease_ownership v r).lease_ownerships
unfolding save_lease_ownership
save-WellOwned r v h fits = record { unique = unique; top = top }
  where
    other :
        (p : LeaseOwnershipRecord)
        → (p.ownership_id == v.ownership_id) ≡ false
        → p.ownership_id ≢ v.ownership_id
    other p ne e = absurd (let t = (eq_iff p.ownership_id v.ownership_id).1 e in cc)

    unique :
        (o p : LeaseOwnershipRecord)
        → Memᴰ o (save_lease_ownership v r).lease_ownerships
        → Memᴰ p (save_lease_ownership v r).lease_ownerships
        → o.ownership_id ≡ p.ownership_id
        → o ≡ p
    unique o p i j e = elim (mem-insert_or_replace ownership_key v r.lease_ownerships i) [
      | inl a ↦ elim (mem-insert_or_replace ownership_key v r.lease_ownerships j) [
        | inl b ↦ a ∙ sym b
        | inr (k, ne) ↦ absurd (other p ne (sym e ∙ ap ownership_key a))
      ]
      | inr (l, ne) ↦ elim (mem-insert_or_replace ownership_key v r.lease_ownerships j) [
        | inl b ↦ absurd (other o ne (e ∙ ap ownership_key b))
        | inr (k, ne') ↦ h.unique o p l k e
      ]
    ]

    top :
        (o p : LeaseOwnershipRecord)
        → Memᴰ o (save_lease_ownership v r).lease_ownerships
        → Memᴰ p (save_lease_ownership v r).lease_ownerships
        → o.status ≡ "active"
        → p.lease_id ≡ o.lease_id
        → (p.ownership_id ≡ o.ownership_id) ⊎ (p.lease_epoch < o.lease_epoch)
    top o p i j active e = elim (mem-insert_or_replace ownership_key v r.lease_ownerships i) [
      | inl a ↦ elim (mem-insert_or_replace ownership_key v r.lease_ownerships j) [
        | inl b ↦ inl (ap ownership_key (b ∙ sym a))
        | inr (k, ne) ↦ inr (
            subst (λ z. p.lease_epoch < z.lease_epoch) (sym a)
              ((fits p k (e ∙ ap (λ z. z.lease_id) a) (other p ne)).0
                (sym (ap (λ z. z.status) a) ∙ active)))
      ]
      | inr (l, ne) ↦ elim (mem-insert_or_replace ownership_key v r.lease_ownerships j) [
        | inl b ↦ inr (
            subst (λ z. z.lease_epoch < o.lease_epoch) (sym b)
              ((fits o l (sym e ∙ ap (λ z. z.lease_id) b) (other o ne)).1 active))
        | inr (k, ne') ↦ h.top o p l k active e
      ]
    ]

-- The latest row of a lease may be rewritten under its key and epoch, and with any status if it was
-- active; a row that was not active stays so.
pub rewrite-WellOwned :
    (r : Repository) (c v : LeaseOwnershipRecord)
    → WellOwned r.lease_ownerships
    → Memᴰ c r.lease_ownerships
    → v.ownership_id ≡ c.ownership_id
    → v.lease_id ≡ c.lease_id
    → v.lease_epoch ≡ c.lease_epoch
    → (v.status ≡ "active" → c.status ≡ "active")
    → WellOwned (save_lease_ownership v r).lease_ownerships
rewrite-WellOwned r c v h m key lease epoch active = save-WellOwned r v h (λ p i e ne. (
  (λ a. elim (h.top c p m i (active a) (e ∙ lease)) [
    | inl k ↦ absurd (ne (k ∙ sym key))
    | inr lt ↦ ground arith
  ]),
  (λ a. elim (h.top p c i m a (sym lease ∙ sym e)) [
    | inl k ↦ absurd (ne (sym k ∙ sym key))
    | inr lt ↦ ground arith
  ]),
))

-- A row above all the rows of its lease may be added if none of them is active.
pub add-WellOwned :
    (r : Repository) (v : LeaseOwnershipRecord)
    → WellOwned r.lease_ownerships
    → ((p : LeaseOwnershipRecord)
        → Memᴰ p r.lease_ownerships
        → p.lease_id ≡ v.lease_id
        → (p.lease_epoch < v.lease_epoch) × (p.status ≢ "active"))
    → WellOwned (save_lease_ownership v r).lease_ownerships
add-WellOwned r v h above =
    save-WellOwned r v h
      (λ p i e ne. let (lt, off) = above p i e in ((λ a. lt), (λ a. absurd (off a))))

-- In well owned rows, an active ownership is the latest of its lease.
pub active-latest :
    (r : Repository) (o c : LeaseOwnershipRecord)
    → WellOwned r.lease_ownerships
    → Memᴰ o r.lease_ownerships
    → o.status ≡ "active"
    → latest_lease_ownership o.lease_id r ≡ some c
    → c ≡ o
active-latest r o c h m a e =
    let (i, t, le) = latest_max o.lease_id r c o e m refl in
    elim (h.top o c m i a t) [ inl k ↦ h.unique c o i m k | inr lt ↦ absurd (ground arith) ]

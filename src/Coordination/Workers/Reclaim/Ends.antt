-- ===== src/Coordination/Workers/Reclaim/Ends.antt =====
-- After a reclaim no stale worker holds a lease, and the ownership rows are well owned as before.
use contract_evidence_os.Prelude.{
  ℕ, String, ◌≡◌, ◌≢◌, refl, sym, ◌∙◌, ap, subst, false, List, [], ◌∷◌, ◌==◌, eq_iff, Bool-cases,
  Option-cases, inl, inr, All, All-map, All-of_mem, Memᴰ, mem-tail, mem-select, select-mem,
  mem-sort_by, sort_by-mem,
}
use contract_evidence_os.Base.Exec.{Datetime}
use contract_evidence_os.Coordination.Models.{WorkerLifecycleRecord, LeaseOwnershipRecord}
use contract_evidence_os.Coordination.Backend.Ownership.{not_active, WellOwned, rewrite-WellOwned}
use contract_evidence_os.Coordination.Workers.Reclaim.{
  is_alive, reclaimed, stale, mark_stale, reclaim_each, reclaim_worker,
}
use contract_evidence_os.Storage.Table.{order_by_asc}
use contract_evidence_os.Storage.Table.Laws.{
  mem-insert_or_replace, insert_or_replace-mem, mem-insert_other,
}
use contract_evidence_os.Storage.Repository.{
  Repository, save_lease_ownership, save_worker, ownership_key, list_active_ownerships,
}
use contract_evidence_os.Storage.Repository.Workers.{load_host_record, save_host_record}

abbrev IsActive : LeaseOwnershipRecord → Type 0
IsActive o = o.status ≡ "active"

pub mark_stale_keeps :
    (now : Datetime) (worker : WorkerLifecycleRecord) (r : Repository)
    → ((mark_stale now worker r).lease_ownerships ≡ r.lease_ownerships)
      × ((mark_stale now worker r).worker_heartbeats ≡ r.worker_heartbeats)
unfolding mark_stale save_worker save_host_record load_host_record
mark_stale_keeps now worker r =
    elim (Option-cases (load_host_record worker.host_id (save_worker (stale now worker) r))) [
      | inl e ↦ rw (mark_stale, e) (refl, refl)
      | inr (h, e) ↦ rw (mark_stale, e) (refl, refl)
    ]

-- An active row that is left was there before, and is none of those that were reclaimed.
reclaim_each-IsActive :
    (now : Datetime) (owned : List LeaseOwnershipRecord) (r : Repository) (o : LeaseOwnershipRecord)
    → IsActive o
    → Memᴰ o (reclaim_each now owned r).lease_ownerships
    → Memᴰ o r.lease_ownerships
      × ((v : LeaseOwnershipRecord) → Memᴰ v owned → o.ownership_id ≢ v.ownership_id)
unfolding reclaim_each save_lease_ownership
reclaim_each-IsActive now [] r o a m = (m, λ v i. elim i [ ])
reclaim_each-IsActive now (u ∷ owned) r o a m =
    let (i, others) =
      reclaim_each-IsActive now owned (save_lease_ownership (reclaimed now u) r) o a m in
    elim (mem-insert_or_replace ownership_key (reclaimed now u) r.lease_ownerships i) [
      | inl same ↦ absurd (not_active "reclaimed" refl (sym (ap (λ z. z.status) same) ∙ a))
      | inr (j, ne) ↦ (
        j,
        λ v k e. elim (mem-tail k) [
          | inl same ↦
              absurd
                (let t = (eq_iff o.ownership_id u.ownership_id).1 (e ∙ ap ownership_key same) in cc)
          | inr k' ↦ others v k' e
        ],
      )
    ]

-- A row with the key, the lease and the epoch of an ownership stands in the table.
abbrev HasTwin : List LeaseOwnershipRecord → LeaseOwnershipRecord → Type 0
HasTwin rows v =
    (c : LeaseOwnershipRecord) × Memᴰ c rows
    × (v.ownership_id ≡ c.ownership_id)
    × (v.lease_id ≡ c.lease_id)
    × (v.lease_epoch ≡ c.lease_epoch)

reclaimed-HasTwin :
    (now : Datetime) (u v : LeaseOwnershipRecord) (r : Repository)
    → WellOwned r.lease_ownerships
    → HasTwin r.lease_ownerships u
    → HasTwin r.lease_ownerships v
    → HasTwin (save_lease_ownership (reclaimed now u) r).lease_ownerships v
unfolding save_lease_ownership
reclaimed-HasTwin now u v r h (c', m', k', l', n') (c, m, k, l, n) =
    elim (Bool-cases (c.ownership_id == u.ownership_id)) [
      | inr f ↦
          (c, mem-insert_other ownership_key (reclaimed now u) r.lease_ownerships m f, k, l, n)
      | inl t ↦
          let e = (eq_iff c.ownership_id u.ownership_id).0 t in
          let same = h.unique c c' m m' (e ∙ k') in
          (
            reclaimed now u,
            insert_or_replace-mem ownership_key (reclaimed now u) r.lease_ownerships,
            k ∙ e,
            l ∙ ap (λ z. z.lease_id) same ∙ sym l',
            n ∙ ap (λ z. z.lease_epoch) same ∙ sym n',
          )
    ]

reclaim_each-WellOwned :
    (now : Datetime) (owned : List LeaseOwnershipRecord) (r : Repository)
    → WellOwned r.lease_ownerships
    → All (HasTwin r.lease_ownerships) owned
    → WellOwned (reclaim_each now owned r).lease_ownerships
unfolding reclaim_each
reclaim_each-WellOwned now [] r h twins = h
reclaim_each-WellOwned now (u ∷ owned) r h ((c, m, k, l, n), twins) =
    reclaim_each-WellOwned now owned (save_lease_ownership (reclaimed now u) r)
      (rewrite-WellOwned r c (reclaimed now u) h m k l n
        (λ a. absurd (not_active "reclaimed" refl a)))
      (All-map (λ v t. reclaimed-HasTwin now u v r h (c, m, k, l, n) t) owned twins)

list_active_ownerships-mem :
    (worker_id : String) (r : Repository) (o : LeaseOwnershipRecord)
    → Memᴰ o (list_active_ownerships worker_id r)
    → Memᴰ o r.lease_ownerships
unfolding list_active_ownerships order_by_asc
list_active_ownerships-mem worker_id r o m = (mem-select _ r.lease_ownerships (mem-sort_by _ _ m)).0

mem-list_active_ownerships :
    (worker_id : String) (r : Repository) (o : LeaseOwnershipRecord)
    → Memᴰ o r.lease_ownerships
    → o.worker_id ≡ worker_id
    → IsActive o
    → Memᴰ o (list_active_ownerships worker_id r)
unfolding list_active_ownerships order_by_asc
mem-list_active_ownerships worker_id r o m e a = sort_by-mem _ _ (
    select-mem _ r.lease_ownerships m
      (rw ((eq_iff o.worker_id worker_id).1 e, (eq_iff o.status "active").1 a) refl))

-- The worker owns no active lease.
abbrev pub IsIdleWorker : String → List LeaseOwnershipRecord → Type 0
IsIdleWorker worker_id rows =
    (o : LeaseOwnershipRecord) → Memᴰ o rows → o.worker_id ≡ worker_id → o.status ≢ "active"

module _ (now : Datetime) (expiry : ℕ) where
  module _ (worker : WorkerLifecycleRecord) (r : Repository) where
    abbrev pub owned_by : List LeaseOwnershipRecord
    owned_by = list_active_ownerships worker.worker_id (mark_stale now worker r)

    pub reclaim_worker-WellOwned :
        WellOwned r.lease_ownerships
        → WellOwned (reclaim_worker now expiry worker r).1.lease_ownerships
    unfolding reclaim_worker
    reclaim_worker-WellOwned h = elim (Bool-cases (is_alive now expiry worker r)) [
      | inl t ↦ rw t h
      | inr f ↦
          let kept = (mark_stale_keeps now worker r).0 in
          rw f (
            reclaim_each-WellOwned now owned_by (mark_stale now worker r)
              (subst WellOwned (sym kept) h)
              (All-of_mem _ owned_by (λ o m. (
                o,
                list_active_ownerships-mem worker.worker_id (mark_stale now worker r) o m,
                refl,
                refl,
                refl,
              ))))
    ]

    -- An active row that is left was there before.
    pub reclaim_worker-IsActive :
        (o : LeaseOwnershipRecord)
        → IsActive o
        → Memᴰ o (reclaim_worker now expiry worker r).1.lease_ownerships
        → Memᴰ o r.lease_ownerships
    unfolding reclaim_worker
    reclaim_worker-IsActive o a m = elim (Bool-cases (is_alive now expiry worker r)) [
      | inl t ↦ rw (t, reclaim_worker) at m
      | inr f ↦
          subst (Memᴰ o) (mark_stale_keeps now worker r).0
            (reclaim_each-IsActive now owned_by (mark_stale now worker r) o a
              (rw (f, reclaim_worker) at m)).0
    ]

    pub reclaim_worker-IsIdleWorker :
        is_alive now expiry worker r ≡ false
        → IsIdleWorker worker.worker_id (reclaim_worker now expiry worker r).1.lease_ownerships
    unfolding reclaim_worker
    reclaim_worker-IsIdleWorker f o m e a =
        let (i, others) =
          reclaim_each-IsActive now owned_by (mark_stale now worker r) o a
            (rw (f, reclaim_worker) at m) in
        others o (mem-list_active_ownerships worker.worker_id (mark_stale now worker r) o i e a)
          refl

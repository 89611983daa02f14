-- ===== src/Coordination/Backend/Holding.antt =====
-- What the holder of a lease can do with it: renew it and keep it, or release it and lose it.
use contract_evidence_os.Prelude.{
  String, ◌≡◌, refl, sym, ◌∙◌, true, false, Option, some, eq_iff, arith, Option-cases, inl, inr,
}
use contract_evidence_os.Base.Exec.{Datetime, Env, World, ok}
use contract_evidence_os.Coordination.Models.{LeaseOwnershipRecord, LeaseRenewalPolicy}
use contract_evidence_os.Coordination.Backend.{
  Gauges, owns, validate_fencing, renew_lease, release_lease,
}
use contract_evidence_os.Coordination.Backend.Latest.{latest_mem, latest-save, latest_rows}
use contract_evidence_os.Coordination.Backend.Ownership.{WellOwned}
use contract_evidence_os.Storage.Repository.{
  Repository, latest_lease_ownership, save_lease_ownership, load_worker, save_worker,
  save_renewal_attempt, save_lease_expiry_forecast,
}

-- The active latest ownership, rewritten under its key and epoch, is the latest one.
latest-rewrite :
    (lease_id : String) (r : Repository) (c v : LeaseOwnershipRecord)
    → WellOwned r.lease_ownerships
    → latest_lease_ownership lease_id r ≡ some c
    → c.status ≡ "active"
    → v.ownership_id ≡ c.ownership_id
    → v.lease_id ≡ c.lease_id
    → v.lease_epoch ≡ c.lease_epoch
    → latest_lease_ownership lease_id (save_lease_ownership v r) ≡ some v
latest-rewrite lease_id r c v h e active key lease epoch =
    let (m, of_lease) = latest_mem lease_id r c e in
    latest-save lease_id r v (lease ∙ of_lease) (λ o i l ne.
      elim (h.top c o m i active (l ∙ sym of_lease)) [
        | inl k ↦ absurd (let t = (eq_iff o.ownership_id v.ownership_id).1 (k ∙ sym key) in cc)
        | inr lt ↦ ground arith
      ])

module _ (env : Env) (gauges : Gauges) (lease_id worker_id fencing_token : String)
    (w : World Repository) (current : LeaseOwnershipRecord) (now : Datetime) where
  -- In well owned rows, the holder of an active lease that releases it gets the released ownership
  -- back, and from then on nobody passes the fence of the lease.
  pub release_lease_ends :
      (reason other token : String)
      → WellOwned w.store.lease_ownerships
      → latest_lease_ownership lease_id w.store ≡ some current
      → current.status ≡ "active"
      → owns worker_id fencing_token current ≡ true
      → let ending =
          release_lease env gauges lease_id worker_id fencing_token reason (some now) w in
        (released : LeaseOwnershipRecord) × (ending.0 ≡ ok (some released))
        × (latest_lease_ownership lease_id ending.1.store ≡ some released)
        × (validate_fencing lease_id other token ending.1.store ≡ false)
  unfolding release_lease save_worker validate_fencing
  release_lease_ends reason other token h e active holds =
      let released = record current {
        status = "released";
        released_at = some now;
        reclaim_reason = reason;
      } in
      let r : Repository = save_lease_ownership released w.store in
      let latest = latest-rewrite lease_id w.store current released h e active refl refl refl in
      elim (Option-cases (load_worker worker_id r)) [
        | inl l ↦ rw (e, holds, l) (released, refl, latest, refused r released latest refl)
        | inr (worker, l) ↦
            rw (e, holds, l)
              (
                released,
                refl,
                latest_rows lease_id _ r refl ∙ latest,
                refused _ released (latest_rows lease_id _ r refl ∙ latest) refl,
              )
      ]
    where
      refused :
          (s : Repository) (o : LeaseOwnershipRecord)
          → latest_lease_ownership lease_id s ≡ some o
          → o.status ≡ "released"
          → validate_fencing lease_id other token s ≡ false
      refused s o f g = rw (validate_fencing, f, g) refl

  -- In well owned rows, the holder of an active lease that renews it gets it back with the new expiry,
  -- as the latest ownership of the lease, and passes the fence under the same token.
  pub renew_lease_keeps :
      (expires_at : Datetime) (policy : Option LeaseRenewalPolicy) (host_id : String)
      → WellOwned w.store.lease_ownerships
      → latest_lease_ownership lease_id w.store ≡ some current
      → current.status ≡ "active"
      → owns worker_id fencing_token current ≡ true
      → let renewal =
          renew_lease env gauges lease_id worker_id fencing_token expires_at
            (some now)
            policy
            host_id
            w in
        (renewed : LeaseOwnershipRecord) × (renewal.0 ≡ ok (some renewed))
        × (latest_lease_ownership lease_id renewal.1.store ≡ some renewed)
        × (renewed.expires_at ≡ expires_at)
        × (renewed.lease_epoch ≡ current.lease_epoch)
        × (validate_fencing lease_id worker_id fencing_token renewal.1.store ≡ true)
  unfolding renew_lease owns save_renewal_attempt save_lease_expiry_forecast validate_fencing
  renew_lease_keeps expires_at policy host_id h e active holds =
      let renewed = record current { renewed_at = some now; expires_at = expires_at } in
      let r : Repository = save_lease_ownership renewed w.store in
      let latest = latest-rewrite lease_id w.store current renewed h e active refl refl refl in
      rw (e, holds, (eq_iff current.status "active").1 active)
        (
          renewed,
          refl,
          latest_rows lease_id _ r refl ∙ latest,
          refl,
          refl,
          held _ renewed (latest_rows lease_id _ r refl ∙ latest) active holds,
        )
    where
      held :
          (s : Repository) (o : LeaseOwnershipRecord)
          → latest_lease_ownership lease_id s ≡ some o
          → o.status ≡ "active"
          → owns worker_id fencing_token o ≡ true
          → validate_fencing lease_id worker_id fencing_token s ≡ true
      held s o f g k = rw (validate_fencing, f, g) k

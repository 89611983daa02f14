-- ===== src/Coordination/Backend/Stealing.antt =====
-- When `steal_lease` moves a lease, and to whom.
use contract_evidence_os.Prelude.{
  ◌+◌, String, ◌≡◌, ◌≢◌, refl, ◌∙◌, true, false, ◌&&◌, Option, none, some, ◌==◌, ==_ne, eq_iff,
  arith, Bool-cases, inl, inr,
}
use contract_evidence_os.Base.Exec.{Datetime, seconds, Env, World, Result, ok}
use contract_evidence_os.Coordination.Models.{
  LeaseOwnershipRecord, WorkerLifecycleRecord, WorkStealPolicy, WorkStealDecision,
}
use contract_evidence_os.Coordination.Backend.{Gauges, claim_lease, validate_fencing}
use contract_evidence_os.Coordination.Backend.Steal.{
  steal_lease, may_steal, safety_checks, steal_current, save_contention,
}
use contract_evidence_os.Coordination.Backend.Latest.{latest_rows}
use contract_evidence_os.Coordination.Backend.Fencing.{claim_lease_owner}
use contract_evidence_os.Coordination.Backend.Reach.{record_steal_keeps}
use contract_evidence_os.Storage.Repository.{
  Repository, latest_lease_ownership, load_worker, save_lease_contention_record,
}

may_steal-steady :
    (now : Datetime) (policy : WorkStealPolicy) (current : LeaseOwnershipRecord)
    (owner : WorkerLifecycleRecord)
    → owner.shutdown_state ≢ "draining"
    → owner.heartbeat_state ≢ "stale"
    → may_steal now policy current (some owner) ≡ false
unfolding may_steal
may_steal-steady now policy current owner d s =
    rw (==_ne owner.shutdown_state "draining" d, ==_ne owner.heartbeat_state "stale" s)
      (ground arith)

validate-same :
    (lease_id other token : String) (r r' : Repository)
    → latest_lease_ownership lease_id r ≡ latest_lease_ownership lease_id r'
    → validate_fencing lease_id other token r ≡ validate_fencing lease_id other token r'
unfolding validate_fencing
validate-same lease_id other token r r' h = rw (validate_fencing, h) refl

module _ (env : Env) (gauges : Gauges) (lease_id queue_item_id task_id new_worker_id : String)
    (now : Datetime) (policy : WorkStealPolicy) (w : World Repository)
    (current : LeaseOwnershipRecord) where
  abbrev stealing : Result (Option WorkStealDecision) × World Repository
  stealing = steal_lease env gauges lease_id queue_item_id task_id new_worker_id now policy w

  -- The lease of a known owner that neither drains nor is stale cannot be stolen, whatever the
  -- policy and the age of the lease: the call returns nothing, and the ownership rows stay as they
  -- were.
  pub steady_owner_keeps_lease :
      (owner : WorkerLifecycleRecord)
      → latest_lease_ownership lease_id w.store ≡ some current
      → load_worker current.worker_id w.store ≡ some owner
      → owner.shutdown_state ≢ "draining"
      → owner.heartbeat_state ≢ "stale"
      → (stealing.0 ≡ ok none) × (stealing.1.store.lease_ownerships ≡ w.store.lease_ownerships)
  unfolding steal_lease save_contention save_lease_contention_record
  steady_owner_keeps_lease owner h l d s = elim (Bool-cases (current.status == "active")) [
    | inl a ↦ rw (h, a, l, may_steal-steady now policy current owner d s) (refl, refl)
    | inr a ↦ rw (h, a) (refl, refl)
  ]

  abbrev claimed : Result LeaseOwnershipRecord × World Repository
  claimed =
      claim_lease env gauges lease_id queue_item_id task_id new_worker_id (now + seconds 30)
        (some now) "" w

  stealing_rows :
      (owner : LeaseOwnershipRecord)
      → latest_lease_ownership lease_id w.store ≡ some current
      → current.status ≡ "active"
      → may_steal now policy current (load_worker current.worker_id w.store) ≡ true
      → claimed.0 ≡ ok owner
      → stealing.1.store.lease_ownerships ≡ claimed.1.store.lease_ownerships
  unfolding steal_lease steal_current
  stealing_rows owner h a m returned =
      rw (h, (eq_iff current.status "active").1 a, m, returned)
        (record_steal_keeps env gauges lease_id new_worker_id now
          (safety_checks now policy current (load_worker current.worker_id w.store)) current owner
          claimed.1)

  -- When the checks allow the steal, the lease passes to the new worker, which alone passes the fence
  -- afterwards, under the token of the new ownership.
  pub steal_lease_transfers :
      (other token : String)
      → latest_lease_ownership lease_id w.store ≡ some current
      → current.status ≡ "active"
      → may_steal now policy current (load_worker current.worker_id w.store) ≡ true
      → (owner : LeaseOwnershipRecord) × (latest_lease_ownership lease_id stealing.1.store
          ≡ some owner)
        × (owner.worker_id ≡ new_worker_id)
        × (validate_fencing lease_id other token stealing.1.store
            ≡ (new_worker_id == other && owner.fencing_token == token))
  steal_lease_transfers other token h a m =
      let (owner, returned, latest, worker, fence) =
        claim_lease_owner env gauges lease_id queue_item_id task_id new_worker_id (now + seconds 30)
          "" w now other token in
      let same =
        latest_rows lease_id stealing.1.store claimed.1.store
          (stealing_rows owner h a m returned) in
      (
        owner,
        same ∙ latest,
        worker,
        validate-same lease_id other token stealing.1.store claimed.1.store same ∙ fence,
      )

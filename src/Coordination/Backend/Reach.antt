-- ===== src/Coordination/Backend/Reach.antt =====
-- Runs of the coordination backend: whatever its lease operations do in a row, each lease has at most
-- one active owner.
use contract_evidence_os.Prelude.{
  ℕ, ◌+◌, ◌<◌, String, ◌≡◌, ◌≢◌, refl, sym, ap, subst, ◌∙◌, Bool, ◌&&◌, Option, some, List, [],
  ◌==◌, eq_iff, Bool-cases, Option-cases, inl, inr, Memᴰ, last?,
}
use contract_evidence_os.Base.Exec.{Datetime, seconds, Env, World, bind_keeps}
use contract_evidence_os.Coordination.Models.{
  LeaseOwnershipRecord, WorkStealPolicy, LeaseRenewalPolicy,
}
use contract_evidence_os.Coordination.Backend.{
  Gauges, owns, claim_lease, renew_lease, release_lease,
}
use contract_evidence_os.Coordination.Backend.Steal.{
  steal_lease, may_steal, safety_checks, last_decision, record_steal, steal_current,
  save_contention,
}
use contract_evidence_os.Coordination.Backend.Latest.{latest_mem, latest_none}
use contract_evidence_os.Coordination.Backend.Ownership.{
  not_active, WellOwned, rewrite-WellOwned, add-WellOwned, one_active_owner, active-latest,
  empty-WellOwned,
}
use contract_evidence_os.Coordination.Backend.Fencing.{
  fence_found, superseded, claim_lease_lem, fence_found-below,
}
use contract_evidence_os.Coordination.Workers.Reclaim.{reclaim_stale_workers}
use contract_evidence_os.Coordination.Workers.Reclaim.Fence.{reclaim_stale_workers-WellOwned}
use contract_evidence_os.Storage.Table.Laws.{mem-insert_or_replace}
use contract_evidence_os.Storage.Repository.{
  Repository, latest_lease_ownership, save_lease_ownership, load_worker, save_worker, ownership_key,
  save_ownership_conflict_event, save_renewal_attempt, save_lease_expiry_forecast,
  save_lease_contention_record, save_work_steal_decision, save_lease_transfer_record,
  list_work_steal_decisions,
}

-- After the fence, the rows of the lease are well owned and none is active.
pub fenced-WellOwned :
    (lease_id : String) (now : Datetime) (r : Repository)
    → WellOwned r.lease_ownerships
    → WellOwned (fence_found now (latest_lease_ownership lease_id r) r).lease_ownerships
unfolding fence_found
fenced-WellOwned lease_id now r h = elim (Option-cases (latest_lease_ownership lease_id r)) [
  | inl e ↦ rw e h
  | inr (c, e) ↦ elim (Bool-cases (c.status == "active")) [
    | inl a ↦
        rw (e, a)
          (rewrite-WellOwned r c (superseded now c) h (latest_mem lease_id r c e).0 refl refl refl
            (λ a. absurd (not_active "fenced" refl a)))
    | inr a ↦ rw (e, a) h
  ]
]

fenced-inactive :
    (lease_id : String) (now : Datetime) (r : Repository) (o : LeaseOwnershipRecord)
    → WellOwned r.lease_ownerships
    → Memᴰ o (fence_found now (latest_lease_ownership lease_id r) r).lease_ownerships
    → o.lease_id ≡ lease_id
    → o.status ≢ "active"
unfolding fence_found save_lease_ownership
fenced-inactive lease_id now r o h m e active =
    elim (Option-cases (latest_lease_ownership lease_id r)) [
      | inl f ↦ absurd (latest_none lease_id r o f (rw (f, fence_found) at m) e)
      | inr (c, f) ↦ elim (Bool-cases (c.status == "active")) [
        | inl a ↦
            elim (mem-insert_or_replace ownership_key (superseded now c) r.lease_ownerships
              (rw (f, fence_found, a, save_lease_ownership) at m)) [
                | inl same ↦
                    absurd (not_active "fenced" refl (sym (ap (λ z. z.status) same) ∙ active))
                | inr (k, ne) ↦ absurd (
                    let same = latest_is c f k in
                    let t =
                      (eq_iff o.ownership_id c.ownership_id).1 (sym (ap ownership_key same)) in
                    cc)
              ]
        | inr a ↦ absurd (
            let same = latest_is c f (rw (f, fence_found, a) at m) in
            let t = (eq_iff c.status "active").1 (ap (λ z. z.status) same ∙ active) in cc)
      ]
    ]
  where
    latest_is :
        (c : LeaseOwnershipRecord)
        → latest_lease_ownership lease_id r ≡ some c
        → Memᴰ o r.lease_ownerships
        → c ≡ o
    latest_is c f k =
        active-latest r o c h k active (subst (λ z. latest_lease_ownership z r ≡ some c) (sym e) f)

module _ (env : Env) (gauges : Gauges) (lease_id : String) (w : World Repository)
    (h : WellOwned w.store.lease_ownerships) where
  pub claim_lease-WellOwned :
      (queue_item_id task_id worker_id : String) (expires_at : Datetime) (host_id : String)
      (now : Datetime)
      → WellOwned
          (claim_lease env gauges lease_id queue_item_id task_id worker_id expires_at
            (some now)
            host_id
            w).1.store.lease_ownerships
  claim_lease-WellOwned queue_item_id task_id worker_id expires_at host_id now =
      let r = fence_found now (latest_lease_ownership lease_id w.store) w.store in
      let grant =
        claim_lease_lem env gauges lease_id queue_item_id task_id worker_id expires_at host_id w
          now in
      subst WellOwned (sym grant.rows) (
        add-WellOwned r grant.owner (fenced-WellOwned lease_id now w.store h) (λ p m e.
          let e' = e ∙ grant.of_lease in
          (
            subst (λ z. p.lease_epoch < z) (sym grant.at_epoch)
                (fence_found-below lease_id now w.store p m e'),
            fenced-inactive lease_id now w.store p h m e',
          )))

  renew_lease-WellOwned :
      (worker_id fencing_token : String) (expires_at now : Datetime)
      (policy : Option LeaseRenewalPolicy) (host_id : String)
      → WellOwned
          (renew_lease env gauges lease_id worker_id fencing_token expires_at
            (some now)
            policy
            host_id
            w).1.store.lease_ownerships
  unfolding renew_lease save_ownership_conflict_event save_renewal_attempt
      save_lease_expiry_forecast
  renew_lease-WellOwned worker_id fencing_token expires_at now policy host_id =
      elim (Option-cases (latest_lease_ownership lease_id w.store)) [
        | inl e ↦ rw e h
        | inr (c, e) ↦ elim (Bool-cases (owns worker_id fencing_token c && c.status == "active")) [
          | inl t ↦
              rw (e, t)
                (rewrite-WellOwned w.store c
                  (record c { renewed_at = some now; expires_at = expires_at }) h
                  (latest_mem lease_id w.store c e).0 refl refl refl (λ a. a))
          | inr f ↦ rw (e, f) h
        ]
      ]

  release_lease-WellOwned :
      (worker_id fencing_token reason : String) (now : Datetime)
      → WellOwned
          (release_lease env gauges lease_id worker_id fencing_token reason
            (some now)
            w).1.store.lease_ownerships
  unfolding release_lease save_ownership_conflict_event save_worker
  release_lease-WellOwned worker_id fencing_token reason now =
      elim (Option-cases (latest_lease_ownership lease_id w.store)) [
        | inl e ↦ rw e h
        | inr (c, e) ↦ elim (Bool-cases (owns worker_id fencing_token c)) [
          | inl t ↦
              let released = record c {
                status = "released";
                released_at = some now;
                reclaim_reason = reason;
              } in
              let kept =
                rewrite-WellOwned w.store c released h (latest_mem lease_id w.store c e).0 refl refl
                  refl (λ a. absurd (not_active "released" refl a)) in
              elim (Option-cases (load_worker worker_id (save_lease_ownership released w.store))) [
                | inl l ↦ rw (e, t, l) kept
                | inr (worker, l) ↦ rw (e, t, l) kept
              ]
          | inr f ↦ rw (e, f) h
        ]
      ]

module _ (env : Env) (gauges : Gauges) where
  pub last_decision_keeps : (w : World Repository) → (last_decision env gauges w).1 ≡ w
  unfolding last_decision
  last_decision_keeps w = elim (Option-cases (last? (list_work_steal_decisions w.store))) [
    | inl e ↦ rw e refl
    | inr (d, e) ↦ rw e refl
  ]

  pub record_steal_keeps :
      (lease_id new_worker_id : String) (now : Datetime) (checks : List (String × Bool))
      (current replacement : LeaseOwnershipRecord) (w : World Repository)
      → (record_steal env gauges lease_id new_worker_id now checks current replacement
          w).1.store.lease_ownerships
        ≡ w.store.lease_ownerships
  unfolding record_steal save_contention save_work_steal_decision save_lease_transfer_record
      save_lease_contention_record
  record_steal_keeps lease_id new_worker_id now checks current replacement w =
      ap (λ z. z.store.lease_ownerships) (last_decision_keeps _)

  steal_lease-WellOwned :
      (lease_id queue_item_id task_id new_worker_id : String) (now : Datetime)
      (policy : WorkStealPolicy) (w : World Repository)
      → WellOwned w.store.lease_ownerships
      → WellOwned
          (steal_lease env gauges lease_id queue_item_id task_id new_worker_id now policy
            w).1.store.lease_ownerships
  unfolding steal_lease steal_current save_contention save_lease_contention_record
  steal_lease-WellOwned lease_id queue_item_id task_id new_worker_id now policy w h =
      elim (Option-cases (latest_lease_ownership lease_id w.store)) [
        | inl e ↦ rw e h
        | inr (c, e) ↦ elim (Bool-cases (c.status == "active")) [
          | inr a ↦ rw (e, a) h
          | inl a ↦
              let owner = load_worker c.worker_id w.store in
              elim (Bool-cases (may_steal now policy c owner)) [
                | inr m ↦ rw (e, a, m) h
                | inl m ↦
                    rw (e, a, m)
                      (bind_keeps (λ r. WellOwned r.lease_ownerships)
                        (claim_lease env gauges lease_id queue_item_id task_id new_worker_id
                          (now + seconds 30) (some now) "")
                        (record_steal env gauges lease_id new_worker_id now
                          (safety_checks now policy c owner) c)
                        w
                        (claim_lease-WellOwned env gauges lease_id w h queue_item_id task_id
                          new_worker_id (now + seconds 30) "" now)
                        (λ replacement w' h'.
                          subst WellOwned
                            (sym (
                              record_steal_keeps lease_id new_worker_id now
                                (safety_checks now policy c owner) c replacement w'))
                            h'))
              ]
        ]
      ]

  -- One call of a lease operation, at a given time.
  pub data Step (w : World Repository) : World Repository → Type 0 where
    claims :
        (lease_id queue_item_id task_id worker_id : String) (expires_at : Datetime)
        (host_id : String) (now : Datetime)
        → Step w
            (claim_lease env gauges lease_id queue_item_id task_id worker_id expires_at
              (some now)
              host_id
              w).1
    renews :
        (lease_id worker_id fencing_token : String) (expires_at now : Datetime)
        (policy : Option LeaseRenewalPolicy) (host_id : String)
        → Step w
            (renew_lease env gauges lease_id worker_id fencing_token expires_at
              (some now)
              policy
              host_id
              w).1
    releases :
        (lease_id worker_id fencing_token reason : String) (now : Datetime)
        → Step w (release_lease env gauges lease_id worker_id fencing_token reason (some now) w).1
    steals :
        (lease_id queue_item_id task_id new_worker_id : String) (now : Datetime)
        (policy : WorkStealPolicy)
        → Step w
            (steal_lease env gauges lease_id queue_item_id task_id new_worker_id now policy w).1

  -- What the steps reach from a world, with reclaims of the leases of stale workers in between.
  pub data Reach (w : World Repository) : World Repository → Type 0 where
    start : Reach w w
    step : {v u : World Repository} → Reach w v → Step v u → Reach w u
    reclaim :
        {v : World Repository} (now : Datetime) (heartbeat_expiry_seconds : ℕ)
        → Reach w v
        → Reach w (reclaim_stale_workers env (some now) heartbeat_expiry_seconds v).1

  Step-WellOwned :
      {w v : World Repository}
      → Step w v
      → WellOwned w.store.lease_ownerships
      → WellOwned v.store.lease_ownerships
  Step-WellOwned {w} (claims l q t k x host now) h =
      claim_lease-WellOwned env gauges l w h q t k x host now
  Step-WellOwned {w} (renews l k f x now policy host) h =
      renew_lease-WellOwned env gauges l w h k f x now policy host
  Step-WellOwned {w} (releases l k f reason now) h =
      release_lease-WellOwned env gauges l w h k f reason now
  Step-WellOwned {w} (steals l q t k now policy) h = steal_lease-WellOwned l q t k now policy w h

  Reach-WellOwned :
      {w v : World Repository}
      → Reach w v
      → WellOwned w.store.lease_ownerships
      → WellOwned v.store.lease_ownerships
  Reach-WellOwned start h = h
  Reach-WellOwned (step reach s) h = Step-WellOwned s (Reach-WellOwned reach h)
  Reach-WellOwned (reclaim {v} now expiry reach) h =
      reclaim_stale_workers-WellOwned env now expiry v (Reach-WellOwned reach h)

  -- Whatever sequence of claims, renewals, releases, steals and reclaims of stale workers, at given
  -- times, follows a world without ownership rows, two active ownerships of one lease are the same row, and it is the
  -- lease's latest ownership.
  pub one_owner_per_lease :
      (w v : World Repository) (o p : LeaseOwnershipRecord)
      → w.store.lease_ownerships ≡ []
      → Reach w v
      → Memᴰ o v.store.lease_ownerships
      → Memᴰ p v.store.lease_ownerships
      → o.status ≡ "active"
      → p.status ≡ "active"
      → o.lease_id ≡ p.lease_id
      → (o ≡ p) × (latest_lease_ownership o.lease_id v.store ≡ some o)
  one_owner_per_lease w v o p empty reach i j a b e =
      let none_yet : WellOwned w.store.lease_ownerships =
        subst WellOwned (sym empty) empty-WellOwned in
      let h = Reach-WellOwned reach none_yet in
      (
        one_active_owner v.store.lease_ownerships o p h i j a b e,
        elim (Option-cases (latest_lease_ownership o.lease_id v.store)) [
          | inl none_found ↦ absurd (latest_none o.lease_id v.store o none_found i refl)
          | inr (c, f) ↦ f ∙ ap some (active-latest v.store o c h i a f)
        ],
      )

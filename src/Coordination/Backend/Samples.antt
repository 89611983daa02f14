-- ===== src/Coordination/Backend/Samples.antt =====
-- The theorems on the coordination backend at concrete repositories.
use contract_evidence_os.Coordination.Backend.Ownership.{WellOwned, empty-WellOwned}
use contract_evidence_os.Coordination.Backend.Holding.{release_lease_ends, renew_lease_keeps}
use contract_evidence_os.Prelude.{
  mem-tail, inl, inr, sort_by, select, ◌==◌, false, subst, sym, true, ap, ◌∙◌, ◌≡◌, refl, ◌&&◌,
  none, some, Memᴰ, ne_of_==,
}
use contract_evidence_os.Base.Exec.{fresh_id, World, Result, ok}
use contract_evidence_os.Coordination.Models.{LeaseOwnershipRecord}
use contract_evidence_os.Coordination.Backend.{
  grant_lease, validate_fencing, claim_lease, renew_lease, release_lease, owns, next_epoch,
}
use contract_evidence_os.Coordination.Backend.Steal.{steal_lease, may_steal}
use contract_evidence_os.Storage.Table.{find_row, insert_or_replace, delete_row}
use contract_evidence_os.Storage.Table.Laws.{insert_or_replace-mem}
use contract_evidence_os.Coordination.Backend.Fencing.{
  claim_lease_owner, claim_lease_lem, IsGrant, fence_found, former_owner_is_refused,
}
use contract_evidence_os.Coordination.Backend.Reach.{
  start, step, claims, one_owner_per_lease, claim_lease-WellOwned,
}
use contract_evidence_os.Coordination.Backend.Stealing.{
  steady_owner_keeps_lease, steal_lease_transfers,
}
use contract_evidence_os.Storage.Repository.{
  Repository, latest_lease_ownership, load_worker, newer, save_lease_ownership, ownership_key,
}
use contract_evidence_os.Samples.{
  sample_env, sample_gauges, sample_owner, sample_worker, sample_policy, world_of, owned_lease,
  empty_repository,
}
use contract_evidence_os.Coordination.Backend.Refinement.{Operation, release, Spec, holders}
use contract_evidence_os.Coordination.Backend.Refinement.Steps.{IsFresh, perform, lease_refinement}

abbrev running : World Repository
running = world_of (owned_lease "running")

abbrev draining : World Repository
draining = world_of (owned_lease "draining")

-- `worker-2` claims the lease of `worker-1`.
abbrev claiming : Result LeaseOwnershipRecord × World Repository
claiming =
    claim_lease sample_env sample_gauges "lease-1" "item-1" "task-1" "worker-2" 90 (some 70) ""
      running

found : latest_lease_ownership "lease-1" running.store ≡ some sample_owner
unfolding latest_lease_ownership newer sort_by select
found = refl

found_draining : latest_lease_ownership "lease-1" draining.store ≡ some sample_owner
unfolding latest_lease_ownership newer sort_by select
found_draining = refl

claim_lease_owner_example :
    (owner : LeaseOwnershipRecord) × (claiming.0 ≡ ok owner)
    × (latest_lease_ownership "lease-1" claiming.1.store ≡ some owner)
    × (owner.worker_id ≡ "worker-2")
    × (validate_fencing "lease-1" "worker-1" "token-1" claiming.1.store
        ≡ ("worker-2" == "worker-1" && owner.fencing_token == "token-1"))
claim_lease_owner_example =
    claim_lease_owner sample_env sample_gauges "lease-1" "item-1" "task-1" "worker-2" 90 "" running
      70 "worker-1" "token-1"

abbrev claim_grant :
    IsGrant
      (fresh_id sample_env "lease-owner-" running.draws)
      "lease-1"
      "worker-2"
      (next_epoch (latest_lease_ownership "lease-1" running.store))
      (fence_found 70 (latest_lease_ownership "lease-1" running.store) running.store)
      claiming
claim_grant =
    claim_lease_lem sample_env sample_gauges "lease-1" "item-1" "task-1" "worker-2" 90 "" running 70

-- `worker-1` after the claim of `worker-2`.
former_owner_is_refused_example :
    let renewal =
      renew_lease sample_env sample_gauges "lease-1" "worker-1" "token-1" 95
        (some 80)
        none
        ""
        claiming.1 in
    let ending =
      release_lease sample_env sample_gauges "lease-1" "worker-1" "token-1" "done"
        (some 80)
        claiming.1 in
    (renewal.0 ≡ ok none)
    × (renewal.1.store.lease_ownerships ≡ claiming.1.store.lease_ownerships)
    × (renewal.1.store.workers ≡ claiming.1.store.workers)
    × (ending.0 ≡ ok none)
    × (ending.1.store.lease_ownerships ≡ claiming.1.store.lease_ownerships)
    × (ending.1.store.workers ≡ claiming.1.store.workers)
former_owner_is_refused_example =
    former_owner_is_refused sample_env sample_gauges "lease-1" "item-1" "task-1" "worker-2" 90 ""
      running 70 claim_grant.owner "worker-1" "token-1" 95 none "" "done" (some 80)
      claim_grant.returned (inl (ne_of_== "worker-2" "worker-1" refl))

-- Two claims of one lease, one after the other, with no rows before.
abbrev first_claim : Result LeaseOwnershipRecord × World Repository
first_claim =
    claim_lease sample_env sample_gauges "lease-1" "item-1" "task-1" "worker-1" 60 (some 20) ""
      (world_of empty_repository)

abbrev second_claim : Result LeaseOwnershipRecord × World Repository
second_claim =
    claim_lease sample_env sample_gauges "lease-1" "item-1" "task-1" "worker-2" 90 (some 70) ""
      first_claim.1

abbrev granted :
    IsGrant
      (fresh_id sample_env "lease-owner-" first_claim.1.draws)
      "lease-1"
      "worker-2"
      (next_epoch (latest_lease_ownership "lease-1" first_claim.1.store))
      (fence_found 70 (latest_lease_ownership "lease-1" first_claim.1.store) first_claim.1.store)
      second_claim
granted =
    claim_lease_lem sample_env sample_gauges "lease-1" "item-1" "task-1" "worker-2" 90 ""
      first_claim.1 70

granted-mem : Memᴰ granted.owner second_claim.1.store.lease_ownerships
unfolding save_lease_ownership
granted-mem =
    subst (λ rows. Memᴰ granted.owner rows) (sym granted.rows)
      (insert_or_replace-mem ownership_key granted.owner _)

one_owner_per_lease_example :
    (granted.owner ≡ granted.owner)
    × (latest_lease_ownership granted.owner.lease_id second_claim.1.store ≡ some granted.owner)
one_owner_per_lease_example =
    one_owner_per_lease sample_env sample_gauges (world_of empty_repository) second_claim.1
      granted.owner granted.owner refl
      (step (step start (claims "lease-1" "item-1" "task-1" "worker-1" 60 "" 20))
        (claims "lease-1" "item-1" "task-1" "worker-2" 90 "" 70))
      granted-mem granted-mem granted.active granted.active refl

steady_owner_keeps_lease_example :
    let stealing =
      steal_lease sample_env sample_gauges "lease-1" "item-1" "task-1" "worker-2" 9000000
        sample_policy running in
    (stealing.0 ≡ ok none) × (stealing.1.store.lease_ownerships ≡ running.store.lease_ownerships)
unfolding load_worker find_row
steady_owner_keeps_lease_example =
    steady_owner_keeps_lease sample_env sample_gauges "lease-1" "item-1" "task-1" "worker-2" 9000000
      sample_policy running sample_owner (sample_worker "running") found refl
      (ne_of_== "running" "draining" refl) (ne_of_== "active" "stale" refl)

steal_lease_transfers_example :
    let stealing =
      steal_lease sample_env sample_gauges "lease-1" "item-1" "task-1" "worker-2" 9000000
        sample_policy draining in
    (owner : LeaseOwnershipRecord) × (latest_lease_ownership "lease-1" stealing.1.store
      ≡ some owner)
    × (owner.worker_id ≡ "worker-2")
    × (validate_fencing "lease-1" "worker-1" "token-1" stealing.1.store
        ≡ ("worker-2" == "worker-1" && owner.fencing_token == "token-1"))
unfolding may_steal load_worker find_row
steal_lease_transfers_example =
    steal_lease_transfers sample_env sample_gauges "lease-1" "item-1" "task-1" "worker-2" 9000000
      sample_policy draining sample_owner "worker-1" "token-1" found_draining refl refl

only_owner : {o : LeaseOwnershipRecord} → Memᴰ o running.store.lease_ownerships → o ≡ sample_owner
only_owner (Memᴰ.head e) = e
only_owner (Memᴰ.tail m) = elim m [ ]

running-WellOwned : WellOwned running.store.lease_ownerships
running-WellOwned = record {
  unique = λ o p i j e. only_owner i ∙ sym (only_owner j);
  top = λ o p i j a e. inl (ap (λ z. z.ownership_id) (only_owner j ∙ sym (only_owner i)));
}

release_lease_ends_example :
    let ending =
      release_lease sample_env sample_gauges "lease-1" "worker-1" "token-1" "done"
        (some 50)
        running in
    (released : LeaseOwnershipRecord) × (ending.0 ≡ ok (some released))
    × (latest_lease_ownership "lease-1" ending.1.store ≡ some released)
    × (validate_fencing "lease-1" "worker-1" "token-1" ending.1.store ≡ false)
unfolding owns
release_lease_ends_example =
    release_lease_ends sample_env sample_gauges "lease-1" "worker-1" "token-1" running sample_owner
      50 "done" "worker-1" "token-1" running-WellOwned found refl refl

renew_lease_keeps_example :
    let renewal =
      renew_lease sample_env sample_gauges "lease-1" "worker-1" "token-1" 90
        (some 50)
        none
        ""
        running in
    (renewed : LeaseOwnershipRecord) × (renewal.0 ≡ ok (some renewed))
    × (latest_lease_ownership "lease-1" renewal.1.store ≡ some renewed)
    × (renewed.expires_at ≡ 90)
    × (renewed.lease_epoch ≡ 4)
    × (validate_fencing "lease-1" "worker-1" "token-1" renewal.1.store ≡ true)
unfolding owns
renew_lease_keeps_example =
    renew_lease_keeps sample_env sample_gauges "lease-1" "worker-1" "token-1" running sample_owner
      50 90 none "" running-WellOwned found refl refl

first-WellOwned : WellOwned first_claim.1.store.lease_ownerships
first-WellOwned =
    claim_lease-WellOwned sample_env sample_gauges "lease-1" (world_of empty_repository)
      empty-WellOwned "item-1" "task-1" "worker-1" 60 "" 20

first-IsFresh : IsFresh sample_env first_claim.1
unfolding claim_lease grant_lease latest_lease_ownership sort_by select load_worker find_row
    save_lease_ownership insert_or_replace delete_row
first-IsFresh o m = elim (mem-tail m) [
  | inl e ↦ subst (λ z. (z.ownership_id == "lease-owner-c2c2c2c2c2") ≡ false) (sym e) refl
  | inr n ↦ elim n [ ]
]

-- `worker-1` releases its lease under a token that is not its own.
abbrev wrong_release : Operation
wrong_release = release "lease-1" "worker-1" "token-0" "done"

lease_refinement_example :
    Spec wrong_release
      (holders first_claim.1.store)
      (perform sample_env sample_gauges wrong_release 40 first_claim.1).0
      (holders (perform sample_env sample_gauges wrong_release 40 first_claim.1).1.store)
lease_refinement_example =
    lease_refinement sample_env sample_gauges wrong_release 40 first_claim.1 first-WellOwned
      first-IsFresh

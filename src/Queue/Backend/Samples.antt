-- ===== src/Queue/Backend/Samples.antt =====
-- The theorems on the queue backend at concrete repositories.
use contract_evidence_os.Prelude.{
  ◌≡◌, refl, true, false, ◌&&◌, none, some, ◌==◌, ne_of_==, inl, select, sort_by,
}
use contract_evidence_os.Base.Exec.{World, Result, ok, fresh_id}
use contract_evidence_os.Coordination.Models.{LeaseOwnershipRecord}
use contract_evidence_os.Coordination.Backend.{claim_lease, next_epoch}
use contract_evidence_os.Coordination.Backend.Fencing.{IsGrant, claim_lease_lem, fence_found}
use contract_evidence_os.Queue.Models.{QueueItem, QueueLease, QueueOperationResult}
use contract_evidence_os.Queue.Backend.{
  is_current_owner, acquire_lease, renew_lease, acknowledge, release,
}
use contract_evidence_os.Queue.Backend.Fencing.{
  release_counts_attempt, IsFenced, stale_owner-IsFenced, acknowledge_retires, acquire_lease_owner,
  two_leases_on_one_item,
}
use contract_evidence_os.Storage.Table.{find_row}
use contract_evidence_os.Storage.Repository.{
  Repository, get_queue_item, get_queue_lease, latest_lease_ownership, newer,
}
use contract_evidence_os.Samples.{
  sample_env, sample_gauges, sample_item, sample_lease, world_of, one_lease, two_items,
}

abbrev leased : World Repository
leased = world_of one_lease

abbrev waiting : World Repository
waiting = world_of two_items

-- The queue lease of `worker-1` is claimed by `worker-2` through the coordination.
abbrev claiming : Result LeaseOwnershipRecord × World Repository
claiming =
    claim_lease sample_env sample_gauges "lease-1" "item-1" "task-1" "worker-2" 90 (some 30) ""
      leased

abbrev claim_grant :
    IsGrant
      (fresh_id sample_env "lease-owner-" leased.draws)
      "lease-1"
      "worker-2"
      (next_epoch (latest_lease_ownership "lease-1" leased.store))
      (fence_found 30 (latest_lease_ownership "lease-1" leased.store) leased.store)
      claiming
claim_grant =
    claim_lease_lem sample_env sample_gauges "lease-1" "item-1" "task-1" "worker-2" 90 "" leased 30

stale_owner-IsFenced_example :
    let renewal = renew_lease sample_env "lease-1" "worker-1" "token-1" 60 (some 40) claiming.1 in
    let acknowledgement =
      acknowledge sample_env "lease-1" "worker-1" "token-1" (some 40) claiming.1 in
    let ending =
      release sample_env "lease-1" "worker-1" "token-1" "late" true (some 40) claiming.1 in
    (renewal.0 ≡ ok none)
    × (renewal.1.store ≡ claiming.1.store)
    × IsFenced acknowledgement.0
    × (acknowledgement.1.store ≡ claiming.1.store)
    × IsFenced ending.0
    × (ending.1.store ≡ claiming.1.store)
stale_owner-IsFenced_example =
    stale_owner-IsFenced sample_env sample_gauges "lease-1" "item-1" "task-1" "worker-2" 90 ""
      leased 30 claim_grant.owner "worker-1" "token-1" 60 "late" true (some 40) claim_grant.returned
      (inl (ne_of_== "worker-2" "worker-1" refl))

acknowledge_retires_example :
    (reply : QueueOperationResult) × (w' : World Repository) × (item' : QueueItem) × (acknowledge
        sample_env "lease-1" "worker-1" "token-1"
        (some 40)
        leased
      ≡ (ok reply, w'))
    × (reply.succeeded ≡ true)
    × (get_queue_item "item-1" w'.store ≡ some item')
    × (item'.status ≡ "completed")
    × (is_current_owner "lease-1" "worker-1" "token-1" w'.store ≡ false)
unfolding is_current_owner get_queue_item get_queue_lease latest_lease_ownership find_row newer
    select sort_by
acknowledge_retires_example =
    acknowledge_retires sample_env 40 leased "lease-1" "worker-1" "token-1" sample_lease
      (sample_item "item-1" "moderate") "worker-1" "token-1" refl refl refl refl

acquire_lease_owner_example :
    (lease : QueueLease) × (w' : World Repository) × (item' : QueueItem) × (acquire_lease sample_env
        "item-1" "worker-1" 60
        (some 40)
        waiting
      ≡ (ok lease, w'))
    × (get_queue_item "item-1" w'.store ≡ some item')
    × (item'.status ≡ "leased")
    × (item'.lease_id ≡ lease.lease_id)
    × (is_current_owner lease.lease_id "worker-2" "token-1" w'.store
        ≡ ("worker-1" == "worker-2" && lease.fencing_token == "token-1"))
unfolding get_queue_item latest_lease_ownership find_row newer select sort_by
acquire_lease_owner_example =
    acquire_lease_owner sample_env 40 waiting "item-1" "worker-1" 60
      (sample_item "item-1" "moderate") "worker-2" "token-1" refl refl

two_leases_on_one_item_example :
    (lease1 lease2 : QueueLease) × (w1 w2 : World Repository) × (acquire_lease sample_env "item-1"
        "worker-1" 60
        (some 40)
        waiting
      ≡ (ok lease1, w1))
    × (acquire_lease sample_env "item-1" "worker-2" 60 (some 40) w1 ≡ (ok lease2, w2))
    × (is_current_owner lease1.lease_id "worker-1" lease1.fencing_token w2.store ≡ true)
    × (is_current_owner lease2.lease_id "worker-2" lease2.fencing_token w2.store ≡ true)
    × (lease1.queue_item_id ≡ lease2.queue_item_id)
unfolding get_queue_item latest_lease_ownership find_row newer select sort_by
two_leases_on_one_item_example =
    two_leases_on_one_item sample_env 40 waiting "item-1" "worker-1" "worker-2" 60
      (sample_item "item-1" "moderate") refl refl refl
      (ne_of_== (fresh_id sample_env "queue-lease-" 0) (fresh_id sample_env "queue-lease-" 2) refl)

release_counts_attempt_example :
    (reply : QueueOperationResult) × (w' : World Repository) × (item' : QueueItem) × (release
        sample_env "lease-1" "worker-1" "token-1" "late" true
        (some 40)
        leased
      ≡ (ok reply, w'))
    × (get_queue_item "item-1" w'.store ≡ some item')
    × (item'.attempt_count ≡ 1)
    × (item'.status ≡ "queued")
    × (reply.status ≡ item'.status)
    × (is_current_owner "lease-1" "worker-1" "token-1" w'.store ≡ false)
unfolding is_current_owner get_queue_item get_queue_lease latest_lease_ownership find_row newer
    select sort_by
release_counts_attempt_example =
    release_counts_attempt sample_env 40 leased "lease-1" "worker-1" "token-1" "late" true
      sample_lease (sample_item "item-1" "moderate") "worker-1" "token-1" refl refl refl refl

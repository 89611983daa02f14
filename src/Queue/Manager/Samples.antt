-- ===== src/Queue/Manager/Samples.antt =====
-- The theorems on the queue manager and its admission rules at concrete repositories.
use contract_evidence_os.Prelude.{
  String, ◌≡◌, ◌↔◌, refl, inl, true, false, some, [], Memᴰ, arith, select, sort_by, length, first,
  contains, any,
}
use contract_evidence_os.Prelude.Int.{◌≤ℤ◌}
use contract_evidence_os.Base.Float.{float_le}
use contract_evidence_os.Base.Exec.{World, ok}
use contract_evidence_os.Queue.Models.{QueueItem}
use contract_evidence_os.Queue.Admission.{
  default_admission_policy, admission_verdict, priority_score, provider_available,
  provider_degraded,
}
use contract_evidence_os.Queue.Admission.Rules.{policy_in_force, verdict, MayAdmit, admitted_iff}
use contract_evidence_os.Queue.Manager.{
  Dispatched, dispatch_order, dispatch_next, ack_lease, release_lease, recover_stale_leases,
}
use contract_evidence_os.Queue.Manager.Dispatch.{
  lease_timeout, HoldsLease, admits, Outcome, dispatch_next-first,
}
use contract_evidence_os.Queue.Manager.Order.{
  IsCandidate, dispatch_next-HoldsLease, dispatch_next-best, dispatch_next_progress,
}
use contract_evidence_os.Queue.Manager.Leases.{release-after-ack_requeues}
use contract_evidence_os.Queue.Manager.Recovery.{is_stale, recover_stale_leases-none_stale}
use contract_evidence_os.Queue.Manager.Attempts.{IsBounded, here, next, recover, Reach-IsBounded}
use contract_evidence_os.Storage.Table.{find_row, order_by_desc}
use contract_evidence_os.Storage.Repository.{
  Repository, get_queue_item, get_queue_lease, latest_admission_policy, list_queue_leases,
}
use contract_evidence_os.Samples.{
  sample_env, sample_item, sample_lease, sample_snapshot, sample_health, world_of, one_lease,
  two_items,
}

abbrev leased : World Repository
leased = world_of one_lease

abbrev waiting : World Repository
waiting = world_of two_items

admitted_iff_example :
    (verdict
        (default_admission_policy 0)
        (sample_item "item-2" "high")
        sample_snapshot
        sample_health
        "normal"
      ≡ "admitted")
    ↔ MayAdmit
        (default_admission_policy 0)
        (sample_item "item-2" "high")
        sample_snapshot
        sample_health
        "normal"
admitted_iff_example =
    admitted_iff (default_admission_policy 0) (sample_item "item-2" "high") sample_snapshot
      sample_health "normal"

admissible :
    (queue_item_id risk_level : String)
    → verdict
        (policy_in_force two_items)
        (sample_item queue_item_id risk_level)
        sample_snapshot
        sample_health
        "normal"
      ≡ "admitted"
    → MayAdmit
        (policy_in_force two_items)
        (sample_item queue_item_id risk_level)
        sample_snapshot
        sample_health
        "normal"
admissible queue_item_id risk_level =
    (admitted_iff (policy_in_force two_items) (sample_item queue_item_id risk_level) sample_snapshot
      sample_health "normal").0

candidate1 :
    IsCandidate sample_env "worker-1" sample_snapshot sample_health "normal" 100 waiting
      (sample_item "item-1" "moderate")
unfolding admission_verdict latest_admission_policy provider_available provider_degraded contains
    any sort_by order_by_desc float_le
candidate1 = record {
  stored = Memᴰ.head refl;
  eligible = record { waiting = inl refl; available = omega arith };
  admissible = admissible "item-1" "moderate" refl;
}

candidate2 :
    IsCandidate sample_env "worker-1" sample_snapshot sample_health "normal" 100 waiting
      (sample_item "item-2" "high")
unfolding admission_verdict latest_admission_policy provider_available provider_degraded contains
    any sort_by order_by_desc float_le
candidate2 = record {
  stored = Memᴰ.tail (Memᴰ.head refl);
  eligible = record { waiting = inl refl; available = omega arith };
  admissible = admissible "item-2" "high" refl;
}

abbrev dispatched :
    (d : Dispatched) × (w' : World Repository) × (dispatch_next sample_env "worker-1"
        sample_snapshot sample_health "normal"
        (some 100)
        waiting
      ≡ (ok (some d), w'))
dispatched =
    dispatch_next_progress sample_env "worker-1" sample_snapshot sample_health "normal" 100 waiting
      (sample_item "item-1" "moderate") candidate1

dispatch_next_progress_example :
    (d : Dispatched) × (w' : World Repository) × (dispatch_next sample_env "worker-1"
        sample_snapshot sample_health "normal"
        (some 100)
        waiting
      ≡ (ok (some d), w'))
dispatch_next_progress_example =
    dispatch_next_progress sample_env "worker-1" sample_snapshot sample_health "normal" 100 waiting
      (sample_item "item-2" "high") candidate2

dispatch_next-HoldsLease_example :
    (item : QueueItem) × IsCandidate sample_env "worker-1" sample_snapshot sample_health "normal"
      100 waiting item
    × HoldsLease "worker-1" 100 (lease_timeout two_items item) item dispatched.0 dispatched.1.store
dispatch_next-HoldsLease_example =
    dispatch_next-HoldsLease sample_env "worker-1" sample_snapshot sample_health "normal" 100
      waiting dispatched.2

dispatch_next-best_example :
    (item : QueueItem) × IsCandidate sample_env "worker-1" sample_snapshot sample_health "normal"
      100 waiting item
    × (dispatched.0.0.queue_item_id ≡ item.queue_item_id)
    × (priority_score two_items (sample_item "item-2" "high") ≤ℤ priority_score two_items item)
dispatch_next-best_example =
    dispatch_next-best sample_env "worker-1" sample_snapshot sample_health "normal" 100 waiting
      dispatched.2 (sample_item "item-2" "high") candidate2

dispatch_next-first_example :
    Outcome sample_env "worker-1" sample_snapshot sample_health "drain" 100
      (lease_timeout two_items)
      (first
        (admits sample_env "worker-1" sample_snapshot sample_health "drain" 100
          (policy_in_force two_items))
        (dispatch_order 100 two_items))
      (dispatch_next sample_env "worker-1" sample_snapshot sample_health "drain" (some 100) waiting)
dispatch_next-first_example =
    dispatch_next-first sample_env "worker-1" sample_snapshot sample_health "drain" 100 waiting

release-after-ack_requeues_example :
    (w1 w2 : World Repository) × (item1 item2 : QueueItem) × (ack_lease sample_env "lease-1" leased
      ≡ (ok tt, w1))
    × (get_queue_item "item-1" w1.store ≡ some item1)
    × (item1.status ≡ "completed")
    × (release_lease sample_env "lease-1" "late" true w1 ≡ (ok tt, w2))
    × (get_queue_item "item-1" w2.store ≡ some item2)
    × (item2.status ≡ "queued")
unfolding get_queue_lease get_queue_item find_row
release-after-ack_requeues_example =
    release-after-ack_requeues sample_env "lease-1" "late" sample_lease
      (sample_item "item-1" "moderate") leased refl refl (omega arith)

recover_stale_leases-none_stale_example :
    (w' : World Repository) × (recover_stale_leases sample_env (some 60) false leased
      ≡ (ok (length (select (is_stale 60 false) (list_queue_leases "active" one_lease))), w'))
    × (select (is_stale 60 false) (list_queue_leases "active" w'.store) ≡ [])
recover_stale_leases-none_stale_example = recover_stale_leases-none_stale sample_env 60 false leased

leased-IsBounded : IsBounded one_lease
leased-IsBounded = record { items = ((λ h. omega arith), ((λ h. omega arith), tt)); policies = tt }

Reach-IsBounded_example : IsBounded (recover_stale_leases sample_env (some 60) false leased).1.store
Reach-IsBounded_example =
    Reach-IsBounded sample_env leased-IsBounded (next here (recover (some 60) false leased))

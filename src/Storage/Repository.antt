-- ===== src/Storage/Repository.antt =====
-- The tables of `SQLiteRepository` that the components use, with its save, load and list methods.
-- Records are stored as JSON and rebuilt by each load, so a loaded object shares nothing with the
-- table.
pub mod Laws
pub mod Providers
pub mod Policies
pub mod Checkpoints
pub mod Workers
use contract_evidence_os.Prelude.{
  ℕ, String, Bool, Option, none, some, List, [], ◌∷◌, ◌==◌, ◌&&◌, ◌||◌, ltb, eqb, sort_by,
  if◌then◌else◌, select, contains, head?,
}
use contract_evidence_os.Storage.Table.{find_row, insert_or_replace, order_by_asc, order_by_desc}
use contract_evidence_os.Queue.Models.{
  QueueItem, QueueLease, AdmissionDecision, DispatchRecord, QueuePolicy, LoadSheddingEvent,
  AdmissionPolicy, QueuePriorityPolicy,
}
use contract_evidence_os.Provider.Models.{
  ProviderHealthRecord, RateLimitState, ProviderCooldownWindow, ProviderDegradationEvent,
  ProviderAvailabilityPolicy,
}
use contract_evidence_os.Recovery.Models.{CheckpointRow, IncidentReport}
use contract_evidence_os.Registry.Models.{
  PolicyScope, PolicyVersion, PolicyEvidenceBundle, PolicyCandidate, PolicyPromotionRun,
  PolicyRollbackRecord,
}
use contract_evidence_os.Coordination.Models.{
  HostRecord, WorkerLifecycleRecord, LeaseOwnershipRecord, RenewalAttemptRecord,
  LeaseExpiryForecast, LeaseContentionRecord, WorkStealDecision, LeaseTransferRecord,
  OwnershipConflictEvent, WorkerCapabilityRecord, WorkerHeartbeatRecord, WorkerPressureSnapshot,
  WorkerHostBinding, WorkerEndpointRecord, DispatchOwnershipRecord,
}

pub record Repository : Type 0 where
  pub queue_items : List QueueItem
  pub queue_leases : List QueueLease
  pub admission_decisions : List AdmissionDecision
  pub dispatch_records : List DispatchRecord
  pub queue_policies : List QueuePolicy
  pub load_shedding_events : List LoadSheddingEvent
  pub admission_policies : List AdmissionPolicy
  pub queue_priority_policies : List QueuePriorityPolicy
  pub workers : List WorkerLifecycleRecord
  pub lease_ownerships : List LeaseOwnershipRecord
  pub renewal_attempts : List RenewalAttemptRecord
  pub lease_expiry_forecasts : List LeaseExpiryForecast
  pub lease_contention_records : List LeaseContentionRecord
  pub work_steal_decisions : List WorkStealDecision
  pub lease_transfer_records : List LeaseTransferRecord
  pub ownership_conflict_events : List OwnershipConflictEvent
  pub hosts : List HostRecord
  pub provider_health_records : List ProviderHealthRecord
  pub rate_limit_states : List RateLimitState
  pub provider_cooldown_windows : List ProviderCooldownWindow
  pub provider_degradation_events : List ProviderDegradationEvent
  pub provider_availability_policies : List ProviderAvailabilityPolicy
  pub policy_scopes : List PolicyScope
  pub policy_versions : List PolicyVersion
  pub policy_evidence_bundles : List PolicyEvidenceBundle
  pub policy_candidates : List PolicyCandidate
  pub policy_promotion_runs : List PolicyPromotionRun
  pub policy_rollback_records : List PolicyRollbackRecord
  pub checkpoints : List CheckpointRow
  pub incidents : List IncidentReport
  pub worker_capabilities : List WorkerCapabilityRecord
  pub worker_heartbeats : List WorkerHeartbeatRecord
  pub worker_pressure_snapshots : List WorkerPressureSnapshot
  pub worker_host_bindings : List WorkerHostBinding
  pub worker_endpoint_records : List WorkerEndpointRecord
  pub dispatch_ownerships : List DispatchOwnershipRecord

abbrev pub item_key : QueueItem → String
item_key item = item.queue_item_id

abbrev pub lease_key : QueueLease → String
lease_key lease = lease.lease_id

abbrev pub dispatch_key : DispatchRecord → String
dispatch_key record' = record'.dispatch_id

abbrev pub ownership_key : LeaseOwnershipRecord → String
ownership_key ownership = ownership.ownership_id

abbrev pub worker_key : WorkerLifecycleRecord → String
worker_key worker = worker.worker_id

unfoldable pub save_queue_item : QueueItem → Repository → Repository
save_queue_item item r = record r { queue_items = insert_or_replace item_key item r.queue_items }

unfoldable pub get_queue_item : String → Repository → Option QueueItem
get_queue_item queue_item_id r = find_row item_key queue_item_id r.queue_items

unfoldable pub list_queue_items : List String → Repository → List QueueItem
list_queue_items statuses r =
    order_by_asc (λ item. item.updated_at)
      (select (λ item. contains item.status statuses) r.queue_items)

unfoldable pub save_queue_lease : QueueLease → Repository → Repository
save_queue_lease lease r = record r {
  queue_leases = insert_or_replace lease_key lease r.queue_leases;
}

unfoldable pub get_queue_lease : String → Repository → Option QueueLease
get_queue_lease lease_id r = find_row lease_key lease_id r.queue_leases

unfoldable pub list_queue_leases : String → Repository → List QueueLease
list_queue_leases status r =
    order_by_asc (λ lease. lease.acquired_at)
      (select (λ lease. lease.status == status) r.queue_leases)

unfoldable pub save_admission_decision : AdmissionDecision → Repository → Repository
save_admission_decision decision r = record r {
  admission_decisions = insert_or_replace (λ d. d.decision_id) decision r.admission_decisions;
}

unfoldable pub save_dispatch_record : DispatchRecord → Repository → Repository
save_dispatch_record dispatch r = record r {
  dispatch_records = insert_or_replace dispatch_key dispatch r.dispatch_records;
}

unfoldable pub latest_dispatch_record : String → Repository → Option DispatchRecord
latest_dispatch_record task_id r =
    head?
      (order_by_desc (λ d. d.created_at) (select (λ d. d.task_id == task_id) r.dispatch_records))

unfoldable pub load_queue_policy : String → Repository → Option QueuePolicy
load_queue_policy queue_name r =
    head? (
      order_by_desc (λ p. p.created_at) (select (λ p. p.queue_name == queue_name) r.queue_policies))

unfoldable pub save_load_shedding_event : LoadSheddingEvent → Repository → Repository
save_load_shedding_event event r = record r {
  load_shedding_events = insert_or_replace (λ e. e.event_id) event r.load_shedding_events;
}

unfoldable pub latest_admission_policy : Repository → Option AdmissionPolicy
latest_admission_policy r = head? (order_by_desc (λ p. p.created_at) r.admission_policies)

unfoldable pub latest_queue_priority_policy : Repository → Option QueuePriorityPolicy
latest_queue_priority_policy r = head? (order_by_desc (λ p. p.created_at) r.queue_priority_policies)

unfoldable pub save_lease_ownership : LeaseOwnershipRecord → Repository → Repository
save_lease_ownership ownership r = record r {
  lease_ownerships = insert_or_replace ownership_key ownership r.lease_ownerships;
}

-- `ORDER BY lease_epoch DESC, acquired_at DESC LIMIT 1`
unfoldable pub newer : LeaseOwnershipRecord → LeaseOwnershipRecord → Bool
newer a b =
    ltb b.lease_epoch a.lease_epoch
    || (eqb a.lease_epoch b.lease_epoch && ltb b.acquired_at a.acquired_at)

unfoldable pub latest_lease_ownership : String → Repository → Option LeaseOwnershipRecord
unfolding newer
latest_lease_ownership lease_id r =
    head? (sort_by newer (select (λ o. o.lease_id == lease_id) r.lease_ownerships))

-- `list_lease_ownerships(worker_id=..., statuses=["active"])`
unfoldable pub list_active_ownerships : String → Repository → List LeaseOwnershipRecord
list_active_ownerships worker_id r =
    order_by_asc (λ o. o.acquired_at)
      (select (λ o. o.worker_id == worker_id && o.status == "active") r.lease_ownerships)

unfoldable pub save_worker : WorkerLifecycleRecord → Repository → Repository
save_worker worker r = record r { workers = insert_or_replace worker_key worker r.workers }

unfoldable pub load_worker : String → Repository → Option WorkerLifecycleRecord
load_worker worker_id r = find_row worker_key worker_id r.workers

unfoldable pub save_renewal_attempt : RenewalAttemptRecord → Repository → Repository
save_renewal_attempt attempt r = record r {
  renewal_attempts = insert_or_replace (λ a. a.attempt_id) attempt r.renewal_attempts;
}

unfoldable pub save_lease_expiry_forecast : LeaseExpiryForecast → Repository → Repository
save_lease_expiry_forecast forecast r = record r {
  lease_expiry_forecasts = insert_or_replace (λ f. f.forecast_id) forecast r.lease_expiry_forecasts;
}

unfoldable pub save_lease_contention_record : LeaseContentionRecord → Repository → Repository
save_lease_contention_record contention r = record r {
  lease_contention_records =
      insert_or_replace (λ c. c.contention_id) contention r.lease_contention_records;
}

unfoldable pub save_work_steal_decision : WorkStealDecision → Repository → Repository
save_work_steal_decision decision r = record r {
  work_steal_decisions = insert_or_replace (λ d. d.decision_id) decision r.work_steal_decisions;
}

unfoldable pub list_work_steal_decisions : Repository → List WorkStealDecision
list_work_steal_decisions r = order_by_asc (λ d. d.created_at) r.work_steal_decisions

unfoldable pub save_lease_transfer_record : LeaseTransferRecord → Repository → Repository
save_lease_transfer_record transfer r = record r {
  lease_transfer_records = insert_or_replace (λ t. t.transfer_id) transfer r.lease_transfer_records;
}

unfoldable pub save_ownership_conflict_event : OwnershipConflictEvent → Repository → Repository
save_ownership_conflict_event event r = record r {
  ownership_conflict_events = insert_or_replace (λ e. e.event_id) event r.ownership_conflict_events;
}
